-- ===== src/Entries/Validator.antt =====
-- entries/validator.go: the validators and the validator set of a snapshot, behind the cache.
pub mod Laws
use postgres_data_handler.Base.{
  ℕ, String, Option, none, some, List, [], ◌∷◌, map, Bytes, Bool, if◌then◌else◌,
}
use postgres_data_handler.Go.{
  Exec, Result, ok, panic, type_assertion, lift, bind, wrap, map_result, first, slice_from,
  slice_to, unless_empty, ◌>>=◌, ◌>>◌,
}
use postgres_data_handler.Core.Staking.{LibValidatorEntry}
use postgres_data_handler.Core.{Encoder, OperationType, is_delete, StateChangeEntry}
use postgres_data_handler.Schema.Staking.{ValidatorEntry, SnapshotValidatorEntry}
use postgres_data_handler.Schema.{Table, Row, Value, badger_key}
use postgres_data_handler.Env.{Codec, Env, World, insert, delete, on_upsert, exec, if_set}
use postgres_data_handler.Entries.Cached.{filter_cached, add_entries, remove_keys}

module _ (C : Codec) where
  unfoldable pub validator_encoder_to_pg_struct :
      LibValidatorEntry → Bytes → C.Params → ValidatorEntry
  validator_encoder_to_pg_struct e key_bytes params = record {
    extra_data = C.extra_data_to_strings e.extra_data params;
    badger_key = key_bytes;
    validator_pkid = if_set e.validator_pkid (λ k. C.public_key_to_base58 k params) "";
    domains = if_set e.domains (λ ds. map C.text ds) [];
    disable_delegated_stake = e.disable_delegated_stake;
    delegated_stake_commission_basis_points = e.delegated_stake_commission_basis_points;
    voting_public_key = if_set e.voting_public_key (λ k. C.bls_to_string (some k)) "";
    voting_authorization = if_set e.voting_authorization (λ k. C.bls_to_string (some k)) "";
    total_stake_amount_nanos = C.big_int e.total_stake_amount_nanos;
    last_active_at_epoch_number = e.last_active_at_epoch_number;
    jailed_at_epoch_number = e.jailed_at_epoch_number;
  }

  -- The epoch number is the eight bytes after the key's prefix byte.
  unfoldable pub snapshot_epoch_number : Bytes → Result ℕ
  snapshot_epoch_number key_bytes = bind (slice_from 1 key_bytes) λ key_bytes_without_prefix.
      bind (slice_to 8 key_bytes_without_prefix) λ epoch. ok (C.decode_uint64 epoch)

  unfoldable pub snapshot_validator_encoder_to_pg_struct :
      LibValidatorEntry → Bytes → C.Params → Result SnapshotValidatorEntry
  snapshot_validator_encoder_to_pg_struct e key_bytes params =
      bind (snapshot_epoch_number key_bytes) λ epoch. ok (record {
        extra_data = C.extra_data_to_strings e.extra_data params;
        badger_key = key_bytes;
        validator_pkid = if_set e.validator_pkid (λ k. C.public_key_to_base58 k params) "";
        domains = if_set e.domains (λ ds. map C.text ds) [];
        disable_delegated_stake = e.disable_delegated_stake;
        delegated_stake_commission_basis_points = e.delegated_stake_commission_basis_points;
        voting_public_key = if_set e.voting_public_key (λ k. C.bls_to_string (some k)) "";
        voting_authorization = if_set e.voting_authorization (λ k. C.bls_to_string (some k)) "";
        total_stake_amount_nanos = C.big_int e.total_stake_amount_nanos;
        last_active_at_epoch_number = e.last_active_at_epoch_number;
        jailed_at_epoch_number = e.jailed_at_epoch_number;
        snapshot_at_epoch_number = epoch;
      })

unfoldable pub as_validator_entry : Encoder → Result LibValidatorEntry
as_validator_entry (Encoder.validator_entry e) = ok e
as_validator_entry _ = panic type_assertion

module _ (X : Env) where
  -- `&PGValidatorEntry{…}` for one entry.
  unfoldable pub to_row : X.Params → StateChangeEntry → Result Row
  to_row params entry = bind (as_validator_entry entry.encoder) λ e.
      ok (Row.validator_entry (validator_encoder_to_pg_struct X.codec e entry.key_bytes params))

  -- `&PGSnapshotValidatorEntry{…}` for one entry.
  unfoldable pub to_snapshot_row : X.Params → StateChangeEntry → Result Row
  to_snapshot_row params entry = bind (as_validator_entry entry.encoder) λ e.
      bind (snapshot_validator_encoder_to_pg_struct X.codec e entry.key_bytes params)
        λ row. ok (Row.snapshot_validator_entry row)

  unfoldable pub bulk_insert_validator_entry :
      List StateChangeEntry → OperationType → X.Params → Exec (World X) Unit
  bulk_insert_validator_entry entries operation_type params = do
    unique_entries ← filter_cached X (X.unique_entries entries)
    let unique_validator_entries =
        X.filter_entries_by_prefix unique_entries X.prefix_validator_by_pkid
    let unique_snapshot_validator_entries =
        X.filter_entries_by_prefix unique_entries X.prefix_snapshot_validator_set_by_pkid
    pg_entry_slice ← lift (map_result (to_row params) unique_validator_entries)
    pg_snapshot_entry_slice ←
        lift (map_result (to_snapshot_row params) unique_snapshot_validator_entries)
    unless_empty pg_entry_slice (
        wrap "entries.bulkInsertValidatorEntry: Error inserting validator entries" (
          exec X (
            insert Table.validator_entry pg_entry_slice
              (on_upsert operation_type (badger_key ∷ [])))))
    unless_empty pg_snapshot_entry_slice (
        wrap "entries.bulkInsertValidatorEntry: Error inserting snapshot validator entries" (
          exec X (
            insert Table.snapshot_validator_entry pg_snapshot_entry_slice
              (on_upsert operation_type (badger_key ∷ [])))))
    add_entries X unique_entries

  -- Only the keys of the validators leave the cache.
  unfoldable pub bulk_delete_validator_entry :
      List StateChangeEntry → OperationType → Exec (World X) Unit
  bulk_delete_validator_entry entries operation_type = do
    let unique_entries = X.unique_entries entries
    let unique_keys = X.keys_to_delete unique_entries
    let validator_keys_to_delete = X.filter_keys_by_prefix unique_keys X.prefix_validator_by_pkid
    let snapshot_validator_keys_to_delete =
        X.filter_keys_by_prefix unique_keys X.prefix_snapshot_validator_set_by_pkid
    unless_empty validator_keys_to_delete (
        wrap "entries.bulkDeleteValidatorEntry: Error deleting entries" (
          exec X
            (delete Table.validator_entry badger_key (map Value.bytes validator_keys_to_delete))))
    unless_empty snapshot_validator_keys_to_delete (
        wrap "entries.bulkDeleteSnapshotValidatorEntry: Error deleting entries" (
          exec X (
            delete Table.snapshot_validator_entry badger_key
              (map Value.bytes snapshot_validator_keys_to_delete))))
    remove_keys X validator_keys_to_delete

  unfoldable pub validator_batch_operation : List StateChangeEntry → X.Params → Exec (World X) Unit
  validator_batch_operation entries params = do
    entry ← lift (first entries)
    let operation_type = entry.operation_type
    wrap "entries.ValidatorBatchOperation: Problem with operation type %v" (
        if is_delete operation_type
        then bulk_delete_validator_entry entries operation_type
        else bulk_insert_validator_entry entries operation_type params)
