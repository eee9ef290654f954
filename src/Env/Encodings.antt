-- ===== src/Env/Encodings.antt =====
-- Encodings and constants of the core library, the consumer and Go's standard library.
use postgres_data_handler.Base.{ℕ, Bool, String, Option, List, Bytes, Time, Json}
use postgres_data_handler.Go.{Error, Result}
use postgres_data_handler.Core.{DesoBodySchema}
use postgres_data_handler.Core.Access.{LibTransactionSpendingLimit}
use postgres_data_handler.Core.Staking.{LibGlobalParamsEntry}
use postgres_data_handler.Core.Chain.{LibBlock, LibTxn, LibTxnMeta, UtxoOperation}
use postgres_data_handler.Core.Txindex.{LibTransactionMetadata, TxindexMetadata}

pub record Codec : Type 1 where
  -- `lib.DeSoParams`
  pub Params : Type 0
  -- `hex.EncodeToString`, `string(bytes)` and `consumer.PublicKeyBytesToBase58Check`
  pub hex : Bytes → String
  pub text : Bytes → String
  pub public_key_to_base58 : Bytes → Params → String
  pub unix_nano_to_time : ℕ → Time
  -- `bunbig.FromMathBig(x.ToBig())`, `x.Uint64()` and `x.Hex()` of a `uint256.Int`
  pub big_int : ℕ → ℕ
  pub uint64 : ℕ → ℕ
  pub uint256_hex : ℕ → String
  -- `fmt.Sprintf("%d", n)`
  pub decimal : ℕ → String
  pub extra_data_to_strings : List (String × Bytes) → Params → List (String × String)
  pub convert_royalty_map_to_byte_strings : List (Bytes × ℕ) → List (String × ℕ)
  pub decode_deso_body_schema : Bytes → Option DesoBodySchema
  pub get_pkid_bytes_from_key : Bytes → Bytes
  pub get_access_group_member_fields_from_key : Bytes → Bytes × Bytes × Bytes × Option Error
  pub transaction_spending_limit_to_response : LibTransactionSpendingLimit → Json
  pub zero_transaction_spending_limit_response : Json
  pub from_lib_stake_reward_method : ℕ → String
  pub merge_global_param_entry_defaults : LibGlobalParamsEntry → Params → LibGlobalParamsEntry
  -- BLS public keys and signatures; a nil pointer is none.
  pub bls_is_empty : Option Bytes → Bool
  pub bls_to_string : Option Bytes → String
  pub decode_uint64 : Bytes → ℕ
  pub decode_uint16 : Bytes → ℕ
  -- Blocks and transactions.
  pub block_hash : LibBlock → Bytes
  pub block_hash_to_block_key : Bytes → Bytes
  pub get_block_hash_bytes_from_key : Bytes → Bytes
  pub txn_hash : LibTxn → Bytes
  pub txn_to_bytes : LibTxn → Result Bytes
  pub txn_meta_to_bytes : LibTxnMeta → Result Bytes
  pub txn_from_bytes : Bytes → Result LibTxn
  -- `consumer.ComputeTransactionMetadata`: of a transaction, the hash of its block, its fee, its
  -- index and its operations.
  pub compute_transaction_metadata :
      LibTxn
      → String
      → Params
      → ℕ
      → ℕ
      → List UtxoOperation
      → Result (LibTransactionMetadata × Option Json)
  pub get_encoder_for_tx_type : LibTransactionMetadata → ℕ → Option TxindexMetadata
  pub get_utxo_op_by_operation_type : List UtxoOperation → ℕ → Option UtxoOperation
  -- `lib.EncodeToBytes(blockHeight, utxoOperation)`
  pub encode_utxo_operation : ℕ → UtxoOperation → Bytes
  pub txn_type_basic_transfer : ℕ
  pub txn_type_atomic_txns_wrapper : ℕ
  pub txn_type_unjail_validator : ℕ
  pub operation_type_unjail_validator : ℕ
  pub operation_type_atomic_txns_wrapper : ℕ
  pub operation_type_stake_distribution_restake : ℕ
  pub operation_type_stake_distribution_pay_to_balance : ℕ
  -- `lib.Prefixes`
  pub prefix_group_chat_messages_index : Bytes
  pub prefix_hodler_pkid_creator_pkid_to_dao_coin_balance_entry : Bytes
  pub prefix_snapshot_leader_schedule : Bytes
  pub prefix_validator_by_pkid : Bytes
  pub prefix_snapshot_validator_set_by_pkid : Bytes
  pub prefix_validator_bls_public_key_pkid_pair_entry : Bytes
  pub prefix_snapshot_validator_bls_public_key_pkid_pair_entry : Bytes
  pub prefix_txn_hash_to_utxo_ops : Bytes
  pub prefix_block_hash_to_utxo_operations : Bytes
