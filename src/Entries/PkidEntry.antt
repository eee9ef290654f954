-- ===== src/Entries/PkidEntry.antt =====
-- entries/pkid.go: rows of the table of `PGPkidEntry`.
use postgres_data_handler.Base.{some, List, [], ◌∷◌, map, Bytes, if◌then◌else◌, ◌≡◌, refl, sym, ap}
use postgres_data_handler.Go.{
  Exec, Result, ok, panic, type_assertion, lift, bind, wrap, map_result, first, ◌>>=◌,
}
use postgres_data_handler.Go.Laws.{bind-eq-ok, ok-injective}
use postgres_data_handler.Entries.Batch.{Spec, batch}
use postgres_data_handler.Core.Access.{LibPkidEntry}
use postgres_data_handler.Core.{Encoder, OperationType, is_delete, StateChangeEntry}
use postgres_data_handler.Schema.Access.{PkidEntry}
use postgres_data_handler.Schema.{Table, Row, Value, badger_key, badger_key_of}
use postgres_data_handler.Env.{Codec, Env, World, insert, delete, on_upsert, exec}

module _ (C : Codec) where
  unfoldable pub pkid_entry_encoder_to_pg_struct : LibPkidEntry → Bytes → C.Params → PkidEntry
  pkid_entry_encoder_to_pg_struct e key_bytes params = record {
    pkid = C.public_key_to_base58 e.pkid params;
    public_key = C.public_key_to_base58 e.public_key params;
    badger_key = key_bytes;
  }

as_pkid_entry : Encoder → Result LibPkidEntry
as_pkid_entry (Encoder.pkid_entry e) = ok e
as_pkid_entry _ = panic type_assertion

module _ (X : Env) where
  -- `&PGPkidEntry{…}` for one entry.
  unfoldable pub to_row : X.Params → StateChangeEntry → Result Row
  unfolding as_pkid_entry
  to_row params entry =
      bind (as_pkid_entry entry.encoder)
        λ e. ok (Row.pkid_entry (pkid_entry_encoder_to_pg_struct X.codec e entry.key_bytes params))

  unfoldable pub bulk_insert_pkid_entry :
      List StateChangeEntry → OperationType → X.Params → Exec (World X) Unit
  bulk_insert_pkid_entry entries operation_type params = do
    let unique_entries = X.unique_entries entries
    pg_entry_slice ← lift (map_result (to_row params) unique_entries)
    wrap "entries.bulkInsertPkidEntry: Error inserting entries" (
        exec X
          (insert Table.pkid_entry pg_entry_slice (on_upsert operation_type (badger_key ∷ []))))

  unfoldable pub bulk_delete_pkid_entry :
      List StateChangeEntry → OperationType → Exec (World X) Unit
  bulk_delete_pkid_entry entries operation_type = do
    let unique_entries = X.unique_entries entries
    let keys_to_delete = X.keys_to_delete unique_entries
    wrap "entries.bulkDeletePkidEntry: Error deleting entries"
        (exec X (delete Table.pkid_entry badger_key (map Value.bytes keys_to_delete)))

  unfoldable pub pkid_entry_batch_operation : List StateChangeEntry → X.Params → Exec (World X) Unit
  unfolding bulk_insert_pkid_entry bulk_delete_pkid_entry
  pkid_entry_batch_operation entries params = do
    entry ← lift (first entries)
    let operation_type = entry.operation_type
    wrap "entries.PostBatchOperation: Problem with operation type %v" (
        if is_delete operation_type
        then bulk_delete_pkid_entry entries operation_type
        else bulk_insert_pkid_entry entries operation_type params)

  abbrev pub spec : Spec X
  spec = record {
    table = Table.pkid_entry;
    target = badger_key ∷ [];
    to_row = to_row;
    insert_message = "entries.bulkInsertPkidEntry: Error inserting entries";
    delete_message = "entries.bulkDeletePkidEntry: Error deleting entries";
    batch_message = "entries.PostBatchOperation: Problem with operation type %v";
  }

  pub batch_lem :
      (entries : List StateChangeEntry) (params : X.Params)
      → pkid_entry_batch_operation entries params ≡ batch X spec entries params
  unfolding pkid_entry_batch_operation batch
  batch_lem entries params = refl

  -- The row of an entry has the entry's key.
  pub badger_key-to_row :
      (params : X.Params) (entry : StateChangeEntry) (row : Row)
      → to_row params entry ≡ ok row
      → badger_key_of row ≡ some entry.key_bytes
  unfolding to_row pkid_entry_encoder_to_pg_struct
  badger_key-to_row params entry row h =
      let (e, p, q) = bind-eq-ok (as_pkid_entry entry.encoder) _ h in
      sym (ap badger_key_of (ok-injective q))
