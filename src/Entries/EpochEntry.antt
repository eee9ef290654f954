-- ===== src/Entries/EpochEntry.antt =====
-- entries/epoch.go: rows of the table of `PGEpochEntry`.
use postgres_data_handler.Base.{none, List, [], ◌∷◌, Bytes, ◌-◌, leb, if◌then◌else◌}
use postgres_data_handler.Go.{
  Exec, Result, ok, panic, type_assertion, lift, bind, wrap, wrapf, return_error, map_result, first,
  ◌>>=◌,
}
use postgres_data_handler.Core.Staking.{LibEpochEntry}
use postgres_data_handler.Core.{Encoder, OperationType, is_delete, StateChangeEntry}
use postgres_data_handler.Schema.Staking.{EpochEntry}
use postgres_data_handler.Schema.{Table, Row, epoch_number}
use postgres_data_handler.Env.{Codec, Env, World, insert, on_upsert, exec}

module _ (C : Codec) where
  unfoldable pub epoch_entry_encoder_to_pg_struct : LibEpochEntry → Bytes → C.Params → EpochEntry
  epoch_entry_encoder_to_pg_struct e key_bytes params = record {
    epoch_number = e.epoch_number;
    initial_block_height = e.initial_block_height;
    initial_view = e.initial_view;
    final_block_height = e.final_block_height;
    initial_leader_index_offset = e.initial_leader_index_offset;
    created_at_block_timestamp_nano_secs = e.created_at_block_timestamp_nano_secs;
    snapshot_at_epoch_number = if leb 2 e.epoch_number then e.epoch_number - 2 else 0;
  }

as_epoch_entry : Encoder → Result LibEpochEntry
as_epoch_entry (Encoder.epoch_entry e) = ok e
as_epoch_entry _ = panic type_assertion

module _ (X : Env) where
  -- `&PGEpochEntry{…}` for one entry.
  unfoldable pub to_row : X.Params → StateChangeEntry → Result Row
  unfolding as_epoch_entry
  to_row params entry =
      bind (as_epoch_entry entry.encoder) λ e.
        ok (Row.epoch_entry (epoch_entry_encoder_to_pg_struct X.codec e entry.key_bytes params))

  unfoldable pub bulk_insert_epoch_entry :
      List StateChangeEntry → OperationType → X.Params → Exec (World X) Unit
  bulk_insert_epoch_entry entries operation_type params = do
    let unique_entries = X.unique_entries entries
    pg_entry_slice ← lift (map_result (to_row params) unique_entries)
    wrap "entries.bulkInsertEpochEntry: Error inserting entries" (
        exec X
          (insert Table.epoch_entry pg_entry_slice (on_upsert operation_type (epoch_number ∷ []))))

  -- The delete branch wraps the error that is still nil.
  unfoldable pub epoch_entry_batch_operation :
      List StateChangeEntry → X.Params → Exec (World X) Unit
  unfolding bulk_insert_epoch_entry wrapf
  epoch_entry_batch_operation entries params = do
    entry ← lift (first entries)
    let operation_type = entry.operation_type
    (if is_delete operation_type
        then lift (
            return_error
              (wrapf none "entries.EpochEntryBatchOperation: Delete operation type not supported"))
        else wrap "entries.EpochEntryBatchOperation: Problem with operation type %v"
            (bulk_insert_epoch_entry entries operation_type params))
