-- ===== src/Entries/LeaderSchedule.antt =====
-- entries/pkid.go: rows of the table of `PGLeaderScheduleEntry`, which are cached.
pub mod Laws
use postgres_data_handler.Base.{
  ℕ, ◌==◌, Option, none, some, List, [], ◌∷◌, length, take, drop, Bytes, if◌then◌else◌,
}
use postgres_data_handler.Go.{
  Exec, Result, ok, panic, type_assertion, lift, bind, wrap, map_result, first, slice_from, ◌>>=◌,
  ◌>>◌,
}
use postgres_data_handler.Core.{Encoder, OperationType, is_delete, StateChangeEntry, keys_of}
use postgres_data_handler.Schema.Staking.{LeaderScheduleEntry}
use postgres_data_handler.Schema.{Table, Row}
use postgres_data_handler.Env.{Codec, Env, World}
use postgres_data_handler.Entries.Cached.{
  filter_cached, add_entries, remove_keys, insert_rows, delete_keys,
}

module _ (C : Codec) where
  -- nil where the key has not ten bytes behind its prefix.
  unfoldable pub leader_schedule_encoder_to_pg_struct :
      Bytes → Bytes → C.Params → Result (Option LeaderScheduleEntry)
  leader_schedule_encoder_to_pg_struct validator_pkid key_bytes params =
      bind (slice_from 1 key_bytes) λ prefix_removed_key_bytes.
        if length prefix_removed_key_bytes == 10
        then ok (
            some (record {
              validator_pkid = C.public_key_to_base58 validator_pkid params;
              snapshot_at_epoch_number = C.decode_uint64 (take 8 prefix_removed_key_bytes);
              leader_index = C.decode_uint16 (take 2 (drop 8 prefix_removed_key_bytes));
              badger_key = key_bytes;
            }))
        else ok none

unfoldable pub as_pkid : Encoder → Result Bytes
as_pkid (Encoder.pkid p) = ok p
as_pkid _ = panic type_assertion

-- The element of the slice stays nil where there is no entry.
abbrev pub schedule_row : Option LeaderScheduleEntry → Row
schedule_row none = Row.nil_pointer
schedule_row (some e) = Row.leader_schedule_entry e

module _ (X : Env) where
  unfoldable pub to_row : X.Params → StateChangeEntry → Result Row
  to_row params entry = bind (as_pkid entry.encoder) λ p.
      bind (leader_schedule_encoder_to_pg_struct X.codec p entry.key_bytes params)
        λ e. ok (schedule_row e)

  unfoldable pub bulk_insert_pkid :
      List StateChangeEntry → OperationType → X.Params → Exec (World X) Unit
  bulk_insert_pkid entries operation_type params = do
    let unique_entries = X.unique_entries entries
    unique_leader_schedule_entries ←
        filter_cached X
          (X.filter_entries_by_prefix unique_entries X.prefix_snapshot_leader_schedule)
    pg_entry_slice ← lift (map_result (to_row params) unique_leader_schedule_entries)
    insert_rows X Table.leader_schedule_entry operation_type
        "entries.bulkInsertPkid: Error inserting entries" pg_entry_slice
    add_entries X unique_leader_schedule_entries

  unfoldable pub bulk_delete_pkid : List StateChangeEntry → OperationType → Exec (World X) Unit
  bulk_delete_pkid entries operation_type = do
    let unique_entries = X.unique_entries entries
    let keys_to_delete = X.keys_to_delete unique_entries
    delete_keys X Table.leader_schedule_entry "entries.bulkDeletePkid: Error deleting entries"
        (X.filter_keys_by_prefix keys_to_delete X.prefix_snapshot_leader_schedule)
    remove_keys X (keys_of unique_entries)

  unfoldable pub pkid_batch_operation : List StateChangeEntry → X.Params → Exec (World X) Unit
  pkid_batch_operation entries params = do
    entry ← lift (first entries)
    let operation_type = entry.operation_type
    wrap "entries.PostBatchOperation: Problem with operation type %v" (
        if is_delete operation_type
        then bulk_delete_pkid entries operation_type
        else bulk_insert_pkid entries operation_type params)
