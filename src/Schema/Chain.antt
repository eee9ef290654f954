-- ===== src/Schema/Chain.antt =====
-- The columns of the tables of entries/block.go, entries/transaction.go and
-- entries/utxo_operation.go.
use postgres_data_handler.Base.{ℕ, Bool, String, Option, List, Bytes, Time}
use postgres_data_handler.Core.Chain.{LibTxnMeta}
use postgres_data_handler.Core.Txindex.{ConsumerTxIndexMetadata, TxindexMetadata}

pub record BlockEntry : Type 0 where
  pub block_hash : String
  pub prev_block_hash : String
  pub txn_merkle_root : String
  pub timestamp : Time
  pub height : ℕ
  pub nonce : ℕ
  pub extra_nonce : ℕ
  pub block_version : ℕ
  pub proposer_voting_public_key : String
  pub proposer_random_seed_signature : String
  pub proposed_in_view : ℕ
  pub proposer_vote_partial_signature : String
  pub badger_key : Bytes

pub record BlockSigner : Type 0 where
  pub block_hash : String
  pub signer_index : ℕ

-- The two metadata columns hold what entries/utxo_operation.go computes; they are empty until then.
pub record TransactionEntry : Type 0 where
  pub transaction_hash : String
  pub transaction_id : String
  pub block_hash : String
  pub version : ℕ
  pub inputs : List (List (String × String))
  pub outputs : List (List (String × String))
  pub fee_nanos : ℕ
  pub nonce_expiration_block_height : ℕ
  pub nonce_partial_id : ℕ
  pub txn_meta : LibTxnMeta
  pub tx_index_metadata : ConsumerTxIndexMetadata
  pub tx_index_basic_transfer_metadata : Option TxindexMetadata
  pub txn_meta_bytes : Bytes
  pub txn_bytes : Bytes
  pub txn_type : ℕ
  pub public_key : String
  pub extra_data : List (String × String)
  pub signature : Bytes
  pub index_in_block : Option ℕ
  pub block_height : ℕ
  pub timestamp : Time
  pub wrapper_transaction_hash : Option String
  pub index_in_wrapper_transaction : Option ℕ
  pub badger_key : Bytes

pub record UtxoOperationEntry : Type 0 where
  pub operation_type : ℕ
  pub transaction_index : ℕ
  pub utxo_op_index : ℕ
  pub block_hash : String
  pub utxo_op_bytes : Bytes

pub record AffectedPublicKeyEntry : Type 0 where
  pub public_key : String
  pub metadata : String
  pub is_duplicate : Bool
  pub timestamp : Time
  pub txn_type : ℕ
  pub transaction_hash : String
