-- ===== src/Tests/Encodings.antt =====
-- Simple encodings for the tests.
use postgres_data_handler.Base.{
  ℕ, zero, suc, ◌+◌, ◌*◌, ◌/◌, ◌%◌, ◌^◌, String, ◌<>◌, none, some, true, false, [], ◌∷◌, map, take,
  drop, Bytes,
}
use postgres_data_handler.Go.{ok, errorf, err}
use postgres_data_handler.Core.Chain.{txn_body, get_txn_type}
use postgres_data_handler.Env.{Codec}

abbrev pub unary : ℕ → String
unary zero = ""
unary (suc n) = "i" <> unary n

abbrev pub digits : Bytes → String
digits [] = ""
digits (x ∷ xs) = unary x <> "." <> digits xs

abbrev pub big_endian : ℕ → Bytes → ℕ
big_endian n [] = n
big_endian n (b ∷ bs) = big_endian (256 * n + b) bs

abbrev pub encodings : Codec
encodings = record {
  Params = Unit;
  hex = digits;
  text = digits;
  public_key_to_base58 = λ k p. digits k;
  unix_nano_to_time = λ n. n / 1000;
  big_int = λ n. n;
  uint64 = λ n. n % 2 ^ 64;
  uint256_hex = unary;
  decimal = unary;
  extra_data_to_strings = λ kvs p. map (λ (k, v). (k, digits v)) kvs;
  convert_royalty_map_to_byte_strings = λ kvs. map (λ (k, v). (digits k, v)) kvs;
  decode_deso_body_schema = λ b. none;
  get_pkid_bytes_from_key = λ k. drop 1 k;
  get_access_group_member_fields_from_key = λ k. (take 1 k, drop 1 k, [], none);
  transaction_spending_limit_to_response = λ l. "limit";
  zero_transaction_spending_limit_response = "{}";
  from_lib_stake_reward_method = unary;
  merge_global_param_entry_defaults = λ e p. e;
  bls_is_empty = λ k. elim k [ none ↦ true | some b ↦ false ];
  bls_to_string = λ k. elim k [ none ↦ "" | some b ↦ digits b ];
  decode_uint64 = big_endian 0;
  decode_uint16 = big_endian 0;
  block_hash = λ b. b.header.height ∷ [];
  block_hash_to_block_key = λ h. 0 ∷ h;
  get_block_hash_bytes_from_key = λ k. drop 1 k;
  txn_hash = λ t. (txn_body t).public_key;
  txn_to_bytes = λ t. ok (txn_body t).public_key;
  txn_meta_to_bytes = λ m. ok (get_txn_type m ∷ []);
  txn_from_bytes = λ b. err (errorf "no transaction");
  compute_transaction_metadata = λ t h p f i ops. err (errorf "no metadata");
  get_encoder_for_tx_type = λ m t. none;
  get_utxo_op_by_operation_type = λ ops t. none;
  encode_utxo_operation = λ h op. [];
  txn_type_basic_transfer = 2;
  txn_type_atomic_txns_wrapper = 44;
  txn_type_unjail_validator = 40;
  operation_type_unjail_validator = 48;
  operation_type_atomic_txns_wrapper = 52;
  operation_type_stake_distribution_restake = 50;
  operation_type_stake_distribution_pay_to_balance = 51;
  prefix_group_chat_messages_index = 72 ∷ [];
  prefix_hodler_pkid_creator_pkid_to_dao_coin_balance_entry = 55 ∷ [];
  prefix_snapshot_leader_schedule = 87 ∷ [];
  prefix_validator_by_pkid = 78 ∷ [];
  prefix_snapshot_validator_set_by_pkid = 84 ∷ [];
  prefix_validator_bls_public_key_pkid_pair_entry = 98 ∷ [];
  prefix_snapshot_validator_bls_public_key_pkid_pair_entry = 99 ∷ [];
  prefix_txn_hash_to_utxo_ops = 64 ∷ [];
  prefix_block_hash_to_utxo_operations = 63 ∷ [];
}
