-- ===== src/Entries/DerivedKeyEntry.antt =====
-- entries/derived_key.go: rows of the table of `PGDerivedKeyEntry`.
use postgres_data_handler.Base.{
  false, some, List, [], ◌∷◌, map, Bytes, ◌%◌, if◌then◌else◌, ◌≡◌, refl, sym, ap,
}
use postgres_data_handler.Go.{
  Exec, Result, ok, panic, type_assertion, lift, bind, wrap, rewrap, map_result, first, ◌>>=◌,
}
use postgres_data_handler.Go.Laws.{bind-eq-ok, ok-injective}
use postgres_data_handler.Entries.Batch.{Spec, batch}
use postgres_data_handler.Core.Access.{LibDerivedKeyEntry}
use postgres_data_handler.Core.{Encoder, OperationType, is_delete, StateChangeEntry}
use postgres_data_handler.Schema.Access.{DerivedKeyEntry}
use postgres_data_handler.Schema.{Table, Row, Value, badger_key, badger_key_of}
use postgres_data_handler.Env.{
  Codec, Env, World, insert, delete, on_upsert, exec, if_set, first_byte,
}

module _ (C : Codec) where
  unfoldable pub derived_key_encoder_to_pg_struct :
      LibDerivedKeyEntry → Bytes → C.Params → Result DerivedKeyEntry
  derived_key_encoder_to_pg_struct e key_bytes params = ok (record {
    owner_public_key = C.public_key_to_base58 e.owner_public_key params;
    derived_public_key = C.public_key_to_base58 e.derived_public_key params;
    expiration_block = e.expiration_block;
    operation_type = e.operation_type % 256;
    global_deso_limit = if_set e.transaction_spending_limit_tracker (λ v. v.global_deso_limit) 0;
    is_unlimited = if_set e.transaction_spending_limit_tracker (λ v. v.is_unlimited) false;
    transaction_spending_limits =
        if_set e.transaction_spending_limit_tracker C.transaction_spending_limit_to_response
          C.zero_transaction_spending_limit_response;
    extra_data = C.extra_data_to_strings e.extra_data params;
    badger_key = key_bytes;
  })

as_derived_key_entry : Encoder → Result LibDerivedKeyEntry
as_derived_key_entry (Encoder.derived_key_entry e) = ok e
as_derived_key_entry _ = panic type_assertion

module _ (X : Env) where
  -- `&PGDerivedKeyEntry{…}` for one entry.
  unfoldable pub to_row : X.Params → StateChangeEntry → Result Row
  unfolding as_derived_key_entry derived_key_encoder_to_pg_struct first_byte
  to_row params entry = bind (as_derived_key_entry entry.encoder) λ e.
      bind
        (rewrap "entries.bulkInsertDerivedKeyEntry: Problem converting entry to PGEntry"
          (derived_key_encoder_to_pg_struct X.codec e entry.key_bytes params))
        λ row. ok (Row.derived_key_entry row)

  unfoldable pub bulk_insert_derived_key_entry :
      List StateChangeEntry → OperationType → X.Params → Exec (World X) Unit
  bulk_insert_derived_key_entry entries operation_type params = do
    let unique_entries = X.unique_entries entries
    pg_entry_slice ← lift (map_result (to_row params) unique_entries)
    wrap "entries.bulkInsertDerivedKeyEntry: Error inserting entries" (
        exec X (
          insert Table.derived_key_entry pg_entry_slice
            (on_upsert operation_type (badger_key ∷ []))))

  unfoldable pub bulk_delete_derived_key_entry :
      List StateChangeEntry → OperationType → Exec (World X) Unit
  bulk_delete_derived_key_entry entries operation_type = do
    let unique_entries = X.unique_entries entries
    let keys_to_delete = X.keys_to_delete unique_entries
    wrap "entries.bulkDeleteDerivedKeyEntry: Error deleting entries"
        (exec X (delete Table.derived_key_entry badger_key (map Value.bytes keys_to_delete)))

  unfoldable pub derived_key_batch_operation :
      List StateChangeEntry → X.Params → Exec (World X) Unit
  unfolding bulk_insert_derived_key_entry bulk_delete_derived_key_entry
  derived_key_batch_operation entries params = do
    entry ← lift (first entries)
    let operation_type = entry.operation_type
    wrap "entries.PostBatchOperation: Problem with operation type %v" (
        if is_delete operation_type
        then bulk_delete_derived_key_entry entries operation_type
        else bulk_insert_derived_key_entry entries operation_type params)

  abbrev pub spec : Spec X
  spec = record {
    table = Table.derived_key_entry;
    target = badger_key ∷ [];
    to_row = to_row;
    insert_message = "entries.bulkInsertDerivedKeyEntry: Error inserting entries";
    delete_message = "entries.bulkDeleteDerivedKeyEntry: Error deleting entries";
    batch_message = "entries.PostBatchOperation: Problem with operation type %v";
  }

  pub batch_lem :
      (entries : List StateChangeEntry) (params : X.Params)
      → derived_key_batch_operation entries params ≡ batch X spec entries params
  unfolding derived_key_batch_operation batch
  batch_lem entries params = refl

  -- The row of an entry has the entry's key.
  pub badger_key-to_row :
      (params : X.Params) (entry : StateChangeEntry) (row : Row)
      → to_row params entry ≡ ok row
      → badger_key_of row ≡ some entry.key_bytes
  unfolding to_row
  badger_key-to_row params entry row h =
      let (e, p, q) = bind-eq-ok (as_derived_key_entry entry.encoder) _ h in
      sym (ap badger_key_of (ok-injective q))
