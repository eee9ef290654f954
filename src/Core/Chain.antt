-- ===== src/Core/Chain.antt =====
-- What entries/*.go reads of the core library's blocks, transactions and UTXO operations.
use postgres_data_handler.Base.{ℕ, Bool, String, Option, List, [], ◌∷◌, Bytes, Json}
use postgres_data_handler.Core.Staking.{
  LibStakeRewardStateChangeMetadata, LibUnjailValidatorStateChangeMetadata,
}

pub record LibTxnNonce : Type 0 where
  pub expiration_block_height : ℕ
  pub partial_id : ℕ

-- The fields of a `MsgDeSoTxn` beside its metadata. Inputs are a transaction id and an index,
-- outputs a public key and an amount; `signature` is none where `Sign` is nil.
pub record LibTxnBody : Type 0 where
  pub tx_inputs : List (Bytes × ℕ)
  pub tx_outputs : List (Bytes × ℕ)
  pub txn_fee_nanos : ℕ
  pub txn_version : ℕ
  pub public_key : Bytes
  pub extra_data : List (String × Bytes)
  pub txn_nonce : Option LibTxnNonce
  pub signature : Option Bytes

mutual
  pub data LibTxn : Type 0 where
    txn : LibTxnBody → LibTxnMeta → LibTxn

  -- The dynamic type of a `DeSoTxnMetadata`: the wrapper of atomic transactions, or another, each
  -- with what `GetTxnType` returns.
  pub data LibTxnMeta : Type 0 where
    atomic_txns_wrapper : ℕ → LibTxns → LibTxnMeta
    other_meta : ℕ → Json → LibTxnMeta

  pub data LibTxns : Type 0 where
    no_txns : LibTxns
    cons_txn : LibTxn → LibTxns → LibTxns

abbrev pub txns_list : LibTxns → List LibTxn
txns_list no_txns = []
txns_list (cons_txn t ts) = t ∷ txns_list ts

abbrev pub txn_body : LibTxn → LibTxnBody
txn_body (txn b m) = b

abbrev pub txn_meta : LibTxn → LibTxnMeta
txn_meta (txn b m) = m

-- `TxnMeta.GetTxnType()`
abbrev pub get_txn_type : LibTxnMeta → ℕ
get_txn_type (atomic_txns_wrapper t ts) = t
get_txn_type (other_meta t j) = t

pub data StateChangeMetadata : Type 0 where
  stake_reward : LibStakeRewardStateChangeMetadata → StateChangeMetadata
  unjail_validator : LibUnjailValidatorStateChangeMetadata → StateChangeMetadata
  other_state_change : Json → StateChangeMetadata

mutual
  -- The type, the state change metadata, and `AtomicTxnsInnerUtxoOps`, which may be nil.
  pub data UtxoOperation : Type 0 where
    utxo_operation : ℕ → StateChangeMetadata → InnerUtxoOps → UtxoOperation

  pub data InnerUtxoOps : Type 0 where
    nil_inner : InnerUtxoOps
    inner : UtxoOpLists → InnerUtxoOps

  pub data UtxoOpLists : Type 0 where
    no_lists : UtxoOpLists
    cons_list : UtxoOps → UtxoOpLists → UtxoOpLists

  pub data UtxoOps : Type 0 where
    no_ops : UtxoOps
    cons_op : UtxoOperation → UtxoOps → UtxoOps

abbrev pub utxo_ops_list : UtxoOps → List UtxoOperation
utxo_ops_list no_ops = []
utxo_ops_list (cons_op o os) = o ∷ utxo_ops_list os

abbrev pub utxo_op_lists : UtxoOpLists → List (List UtxoOperation)
utxo_op_lists no_lists = []
utxo_op_lists (cons_list os ls) = utxo_ops_list os ∷ utxo_op_lists ls

-- A Go interface: nil, a typed nil pointer, or a value.
pub data Interface (A : Type 0) : Type 0 where
  nil_interface : Interface A
  nil_pointer : Interface A
  value : A → Interface A

-- The signers of an aggregated signature, as the bits of its list.
pub record LibAggregatedSignature : Type 0 where
  pub signers_list : List Bool

pub record LibQuorumCertificate : Type 0 where
  pub aggregated_signature : Interface LibAggregatedSignature

pub record LibBlockHeader : Type 0 where
  pub qc : Interface LibQuorumCertificate
  pub prev_block_hash : Bytes
  pub transaction_merkle_root : Bytes
  pub tstamp_nano_secs : ℕ
  pub height : ℕ
  pub nonce : ℕ
  pub extra_nonce : ℕ
  pub version : ℕ
  pub proposer_voting_public_key : Option Bytes
  pub proposer_random_seed_signature : Option Bytes
  pub proposed_in_view : ℕ
  pub proposer_vote_partial_signature : Option Bytes

pub record LibBlock : Type 0 where
  pub header : LibBlockHeader
  pub txns : List LibTxn

pub record LibBlockNode : Type 0 where
  pub hash : Bytes
  pub is_committed : Bool
