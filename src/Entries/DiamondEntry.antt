-- ===== src/Entries/DiamondEntry.antt =====
-- entries/diamond.go: rows of the table of `PGDiamondEntry`.
use postgres_data_handler.Base.{some, List, [], ◌∷◌, map, Bytes, if◌then◌else◌, ◌≡◌, refl, sym, ap}
use postgres_data_handler.Go.{
  Exec, Result, ok, panic, type_assertion, lift, bind, wrap, map_result, first, ◌>>=◌,
}
use postgres_data_handler.Go.Laws.{bind-eq-ok, ok-injective}
use postgres_data_handler.Entries.Batch.{Spec, batch}
use postgres_data_handler.Core.Social.{LibDiamondEntry}
use postgres_data_handler.Core.{Encoder, OperationType, is_delete, StateChangeEntry}
use postgres_data_handler.Schema.Social.{DiamondEntry}
use postgres_data_handler.Schema.{Table, Row, Value, badger_key, badger_key_of}
use postgres_data_handler.Env.{Codec, Env, World, insert, delete, on_upsert, exec}

module _ (C : Codec) where
  unfoldable pub diamond_encoder_to_pg_struct : LibDiamondEntry → Bytes → C.Params → DiamondEntry
  diamond_encoder_to_pg_struct e key_bytes params = record {
    sender_pkid = C.public_key_to_base58 e.sender_pkid params;
    receiver_pkid = C.public_key_to_base58 e.receiver_pkid params;
    diamond_level = e.diamond_level;
    post_hash = C.hex e.diamond_post_hash;
    badger_key = key_bytes;
  }

as_diamond_entry : Encoder → Result LibDiamondEntry
as_diamond_entry (Encoder.diamond_entry e) = ok e
as_diamond_entry _ = panic type_assertion

module _ (X : Env) where
  -- `&PGDiamondEntry{…}` for one entry.
  unfoldable pub to_row : X.Params → StateChangeEntry → Result Row
  unfolding as_diamond_entry
  to_row params entry =
      bind (as_diamond_entry entry.encoder)
        λ e. ok (Row.diamond_entry (diamond_encoder_to_pg_struct X.codec e entry.key_bytes params))

  unfoldable pub bulk_insert_diamond_entry :
      List StateChangeEntry → OperationType → X.Params → Exec (World X) Unit
  bulk_insert_diamond_entry entries operation_type params = do
    let unique_entries = X.unique_entries entries
    pg_entry_slice ← lift (map_result (to_row params) unique_entries)
    wrap "entries.bulkInsertDiamondEntry: Error inserting entries" (
        exec X
          (insert Table.diamond_entry pg_entry_slice (on_upsert operation_type (badger_key ∷ []))))

  unfoldable pub bulk_delete_diamond_entry :
      List StateChangeEntry → OperationType → Exec (World X) Unit
  bulk_delete_diamond_entry entries operation_type = do
    let unique_entries = X.unique_entries entries
    let keys_to_delete = X.keys_to_delete unique_entries
    wrap "entries.bulkDeleteDiamondEntry: Error deleting entries"
        (exec X (delete Table.diamond_entry badger_key (map Value.bytes keys_to_delete)))

  unfoldable pub diamond_batch_operation : List StateChangeEntry → X.Params → Exec (World X) Unit
  unfolding bulk_insert_diamond_entry bulk_delete_diamond_entry
  diamond_batch_operation entries params = do
    entry ← lift (first entries)
    let operation_type = entry.operation_type
    wrap "entries.PostBatchOperation: Problem with operation type %v" (
        if is_delete operation_type
        then bulk_delete_diamond_entry entries operation_type
        else bulk_insert_diamond_entry entries operation_type params)

  abbrev pub spec : Spec X
  spec = record {
    table = Table.diamond_entry;
    target = badger_key ∷ [];
    to_row = to_row;
    insert_message = "entries.bulkInsertDiamondEntry: Error inserting entries";
    delete_message = "entries.bulkDeleteDiamondEntry: Error deleting entries";
    batch_message = "entries.PostBatchOperation: Problem with operation type %v";
  }

  pub batch_lem :
      (entries : List StateChangeEntry) (params : X.Params)
      → diamond_batch_operation entries params ≡ batch X spec entries params
  unfolding diamond_batch_operation batch
  batch_lem entries params = refl

  -- The row of an entry has the entry's key.
  pub badger_key-to_row :
      (params : X.Params) (entry : StateChangeEntry) (row : Row)
      → to_row params entry ≡ ok row
      → badger_key_of row ≡ some entry.key_bytes
  unfolding to_row diamond_encoder_to_pg_struct
  badger_key-to_row params entry row h =
      let (e, p, q) = bind-eq-ok (as_diamond_entry entry.encoder) _ h in
      sym (ap badger_key_of (ok-injective q))
