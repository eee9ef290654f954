-- ===== src/Entries/LockedBalanceEntry.antt =====
-- entries/lockup.go: rows of the table of `PGLockedBalanceEntry`.
use postgres_data_handler.Base.{some, List, [], ◌∷◌, map, Bytes, if◌then◌else◌, ◌≡◌, refl, sym, ap}
use postgres_data_handler.Go.{
  Exec, Result, ok, panic, type_assertion, lift, bind, wrap, map_result, first, ◌>>=◌,
}
use postgres_data_handler.Go.Laws.{bind-eq-ok, ok-injective}
use postgres_data_handler.Entries.Batch.{Spec, batch}
use postgres_data_handler.Core.Staking.{LibLockedBalanceEntry}
use postgres_data_handler.Core.{Encoder, OperationType, is_delete, StateChangeEntry}
use postgres_data_handler.Schema.Staking.{LockedBalanceEntry}
use postgres_data_handler.Schema.{Table, Row, Value, badger_key, badger_key_of}
use postgres_data_handler.Env.{Codec, Env, World, insert, delete, on_upsert, exec, if_set}

module _ (C : Codec) where
  unfoldable pub locked_balance_entry_encoder_to_pg_struct :
      LibLockedBalanceEntry → Bytes → C.Params → LockedBalanceEntry
  locked_balance_entry_encoder_to_pg_struct e key_bytes params = record {
    hodler_pkid = if_set e.hodler_pkid (λ v. C.public_key_to_base58 v params) "";
    profile_pkid = if_set e.profile_pkid (λ v. C.public_key_to_base58 v params) "";
    unlock_timestamp_nano_secs = e.unlock_timestamp_nano_secs;
    vesting_end_timestamp_nano_secs = e.vesting_end_timestamp_nano_secs;
    balance_base_units = C.big_int e.balance_base_units;
    badger_key = key_bytes;
  }

as_locked_balance_entry : Encoder → Result LibLockedBalanceEntry
as_locked_balance_entry (Encoder.locked_balance_entry e) = ok e
as_locked_balance_entry _ = panic type_assertion

module _ (X : Env) where
  -- `&PGLockedBalanceEntry{…}` for one entry.
  unfoldable pub to_row : X.Params → StateChangeEntry → Result Row
  unfolding as_locked_balance_entry
  to_row params entry = bind (as_locked_balance_entry entry.encoder) λ e. ok (
      Row.locked_balance_entry
        (locked_balance_entry_encoder_to_pg_struct X.codec e entry.key_bytes params))

  unfoldable pub bulk_insert_locked_balance_entry :
      List StateChangeEntry → OperationType → X.Params → Exec (World X) Unit
  bulk_insert_locked_balance_entry entries operation_type params = do
    let unique_entries = X.unique_entries entries
    pg_entry_slice ← lift (map_result (to_row params) unique_entries)
    wrap "entries.bulkInsertLockedBalanceEntry: Error inserting entries" (
        exec X (
          insert Table.locked_balance_entry pg_entry_slice
            (on_upsert operation_type (badger_key ∷ []))))

  unfoldable pub bulk_delete_locked_balance_entry :
      List StateChangeEntry → OperationType → Exec (World X) Unit
  bulk_delete_locked_balance_entry entries operation_type = do
    let unique_entries = X.unique_entries entries
    let keys_to_delete = X.keys_to_delete unique_entries
    wrap "entries.bulkDeleteLockedBalanceEntry: Error deleting entries"
        (exec X (delete Table.locked_balance_entry badger_key (map Value.bytes keys_to_delete)))

  unfoldable pub locked_balance_entry_batch_operation :
      List StateChangeEntry → X.Params → Exec (World X) Unit
  unfolding bulk_insert_locked_balance_entry bulk_delete_locked_balance_entry
  locked_balance_entry_batch_operation entries params = do
    entry ← lift (first entries)
    let operation_type = entry.operation_type
    wrap "entries.LockedBalanceEntryBatchOperation: Problem with operation type %v" (
        if is_delete operation_type
        then bulk_delete_locked_balance_entry entries operation_type
        else bulk_insert_locked_balance_entry entries operation_type params)

  abbrev pub spec : Spec X
  spec = record {
    table = Table.locked_balance_entry;
    target = badger_key ∷ [];
    to_row = to_row;
    insert_message = "entries.bulkInsertLockedBalanceEntry: Error inserting entries";
    delete_message = "entries.bulkDeleteLockedBalanceEntry: Error deleting entries";
    batch_message = "entries.LockedBalanceEntryBatchOperation: Problem with operation type %v";
  }

  pub batch_lem :
      (entries : List StateChangeEntry) (params : X.Params)
      → locked_balance_entry_batch_operation entries params ≡ batch X spec entries params
  unfolding locked_balance_entry_batch_operation batch
  batch_lem entries params = refl

  -- The row of an entry has the entry's key.
  pub badger_key-to_row :
      (params : X.Params) (entry : StateChangeEntry) (row : Row)
      → to_row params entry ≡ ok row
      → badger_key_of row ≡ some entry.key_bytes
  unfolding to_row locked_balance_entry_encoder_to_pg_struct
  badger_key-to_row params entry row h =
      let (e, p, q) = bind-eq-ok (as_locked_balance_entry entry.encoder) _ h in
      sym (ap badger_key_of (ok-injective q))
