-- ===== src/Entries/BlsPkidPair.antt =====
-- entries/bls_pkid_pair.go: the BLS keys of validators, now and in a snapshot, behind the cache.
pub mod Laws
use postgres_data_handler.Base.{ℕ, Option, List, [], ◌∷◌, map, Bytes, if◌then◌else◌}
use postgres_data_handler.Go.{
  Exec, Result, ok, panic, type_assertion, lift, bind, wrap, map_result, first, slice_from,
  slice_to, unless_empty, ◌>>=◌, ◌>>◌,
}
use postgres_data_handler.Core.Staking.{LibBlsPublicKeyPkidPairEntry}
use postgres_data_handler.Core.{Encoder, OperationType, is_delete, StateChangeEntry}
use postgres_data_handler.Schema.Staking.{
  BlsPublicKeyPkidPairEntry, BlsPublicKeyPkidPairSnapshotEntry,
}
use postgres_data_handler.Schema.{Table, Row, Value, badger_key}
use postgres_data_handler.Env.{Codec, Env, World, insert, delete, on_upsert, exec, if_set}
use postgres_data_handler.Entries.Cached.{filter_cached, add_entries, remove_keys}

module _ (C : Codec) where
  unfoldable pub bls_public_key_pkid_pair_encoder_to_pg_struct :
      LibBlsPublicKeyPkidPairEntry → Bytes → C.Params → BlsPublicKeyPkidPairEntry
  bls_public_key_pkid_pair_encoder_to_pg_struct e key_bytes params = record {
    badger_key = key_bytes;
    pkid = if_set e.pkid (λ k. C.public_key_to_base58 k params) "";
    bls_public_key =
        if C.bls_is_empty e.bls_public_key then "" else C.bls_to_string e.bls_public_key;
  }

  unfoldable pub bls_public_key_pkid_pair_snapshot_encoder_to_pg_struct :
      LibBlsPublicKeyPkidPairEntry → Bytes → C.Params → Result BlsPublicKeyPkidPairSnapshotEntry
  bls_public_key_pkid_pair_snapshot_encoder_to_pg_struct e key_bytes params =
      bind (slice_from 1 key_bytes) λ prefix_removed_key_bytes.
        bind (slice_to 8 prefix_removed_key_bytes) λ epoch. ok (record {
          snapshot_at_epoch_number = C.decode_uint64 epoch;
          badger_key = key_bytes;
          pkid = if_set e.pkid (λ k. C.public_key_to_base58 k params) "";
          bls_public_key =
              if C.bls_is_empty e.bls_public_key then "" else C.bls_to_string e.bls_public_key;
        })

unfoldable pub as_bls_public_key_pkid_pair_entry : Encoder → Result LibBlsPublicKeyPkidPairEntry
as_bls_public_key_pkid_pair_entry (Encoder.bls_public_key_pkid_pair_entry e) = ok e
as_bls_public_key_pkid_pair_entry _ = panic type_assertion

module _ (X : Env) where
  -- `&PGBLSPkidPairEntry{…}` for one entry.
  unfoldable pub to_row : X.Params → StateChangeEntry → Result Row
  to_row params entry = bind (as_bls_public_key_pkid_pair_entry entry.encoder) λ e. ok (
      Row.bls_public_key_pkid_pair_entry
        (bls_public_key_pkid_pair_encoder_to_pg_struct X.codec e entry.key_bytes params))

  -- `&PGBLSPublicKeyPKIDPairSnapshotEntry{…}` for one entry.
  unfoldable pub to_snapshot_row : X.Params → StateChangeEntry → Result Row
  to_snapshot_row params entry = bind (as_bls_public_key_pkid_pair_entry entry.encoder) λ e.
      bind (bls_public_key_pkid_pair_snapshot_encoder_to_pg_struct X.codec e entry.key_bytes params)
        λ row. ok (Row.bls_public_key_pkid_pair_snapshot_entry row)

  unfoldable pub bulk_insert_bls_pkid_pair_entry :
      List StateChangeEntry → OperationType → X.Params → Exec (World X) Unit
  bulk_insert_bls_pkid_pair_entry entries operation_type params = do
    unique_entries ← filter_cached X (X.unique_entries entries)
    let unique_bls_pkid_pair_entries =
        X.filter_entries_by_prefix unique_entries X.prefix_validator_bls_public_key_pkid_pair_entry
    let unique_bls_pkid_pair_snapshot_entries =
        X.filter_entries_by_prefix unique_entries
          X.prefix_snapshot_validator_bls_public_key_pkid_pair_entry
    pg_bls_pkid_pair_entry_slice ← lift (map_result (to_row params) unique_bls_pkid_pair_entries)
    pg_bls_pkid_pair_snapshot_entry_slice ←
        lift (map_result (to_snapshot_row params) unique_bls_pkid_pair_snapshot_entries)
    unless_empty pg_bls_pkid_pair_entry_slice (
        wrap "entries.bulkInsertBLSPkidPairEntry: Error inserting entries" (
          exec X (
            insert Table.bls_public_key_pkid_pair_entry pg_bls_pkid_pair_entry_slice
              (on_upsert operation_type (badger_key ∷ [])))))
    unless_empty pg_bls_pkid_pair_snapshot_entry_slice (
        wrap "entries.bulkInsertBLSPkidPairEntry: Error inserting snapshot entries" (
          exec X (
            insert Table.bls_public_key_pkid_pair_snapshot_entry
              pg_bls_pkid_pair_snapshot_entry_slice (on_upsert operation_type (badger_key ∷ [])))))
    add_entries X unique_entries

  unfoldable pub bulk_delete_bls_pkid_pair_entry :
      List StateChangeEntry → OperationType → Exec (World X) Unit
  bulk_delete_bls_pkid_pair_entry entries operation_type = do
    let unique_entries = X.unique_entries entries
    let keys_to_delete = X.keys_to_delete unique_entries
    let bls_pkid_pair_entry_keys_to_delete =
        X.filter_keys_by_prefix keys_to_delete X.prefix_validator_bls_public_key_pkid_pair_entry
    let bls_pkid_pair_snapshot_entry_keys_to_delete =
        X.filter_keys_by_prefix keys_to_delete
          X.prefix_snapshot_validator_bls_public_key_pkid_pair_entry
    unless_empty bls_pkid_pair_entry_keys_to_delete (
        wrap "entries.bulkDeleteBLSPkidPairEntry: Error deleting entries" (
          exec X (
            delete Table.bls_public_key_pkid_pair_entry badger_key
              (map Value.bytes bls_pkid_pair_entry_keys_to_delete))))
    unless_empty bls_pkid_pair_snapshot_entry_keys_to_delete (
        wrap "entries.bulkDeleteBLSPkidPairEntry: Error deleting snapshot entries" (
          exec X (
            delete Table.bls_public_key_pkid_pair_snapshot_entry badger_key
              (map Value.bytes bls_pkid_pair_snapshot_entry_keys_to_delete))))
    remove_keys X keys_to_delete

  unfoldable pub bls_public_key_pkid_pair_batch_operation :
      List StateChangeEntry → X.Params → Exec (World X) Unit
  bls_public_key_pkid_pair_batch_operation entries params = do
    entry ← lift (first entries)
    let operation_type = entry.operation_type
    wrap "entries.StakeBatchOperation: Problem with operation type %v" (
        if is_delete operation_type
        then bulk_delete_bls_pkid_pair_entry entries operation_type
        else bulk_insert_bls_pkid_pair_entry entries operation_type params)
