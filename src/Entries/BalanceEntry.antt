-- ===== src/Entries/BalanceEntry.antt =====
-- entries/balance.go: rows of the table of `PGBalanceEntry`.
use postgres_data_handler.Base.{
  some, List, [], ◌∷◌, map, Bytes, bytes_eq, if◌then◌else◌, ◌≡◌, refl, arith,
}
use postgres_data_handler.Go.{
  Exec, Result, ok, panic, type_assertion, lift, bind, wrap, map_result, first, ◌>>=◌,
}
use postgres_data_handler.Go.Laws.{bind-eq-ok}
use postgres_data_handler.Entries.Batch.{Spec, batch}
use postgres_data_handler.Core.Coins.{LibBalanceEntry}
use postgres_data_handler.Core.{Encoder, OperationType, is_delete, StateChangeEntry}
use postgres_data_handler.Schema.Coins.{BalanceEntry}
use postgres_data_handler.Schema.{Table, Row, Value, badger_key, badger_key_of}
use postgres_data_handler.Env.{Codec, Env, World, insert, delete, on_upsert, exec, first_byte}

module _ (C : Codec) where
  unfoldable pub balance_entry_encoder_to_pg_struct :
      LibBalanceEntry → Bytes → C.Params → Result BalanceEntry
  balance_entry_encoder_to_pg_struct e key_bytes params = bind (first_byte key_bytes) (λ prefix.
      ok (record {
        hodler_pkid = C.public_key_to_base58 e.hodler_pkid params;
        creator_pkid = C.public_key_to_base58 e.creator_pkid params;
        balance_nanos = C.big_int e.balance_nanos;
        has_purchased = e.has_purchased;
        is_dao_coin = bytes_eq prefix C.prefix_hodler_pkid_creator_pkid_to_dao_coin_balance_entry;
        badger_key = key_bytes;
      }))

as_balance_entry : Encoder → Result LibBalanceEntry
as_balance_entry (Encoder.balance_entry e) = ok e
as_balance_entry _ = panic type_assertion

module _ (X : Env) where
  -- `&PGBalanceEntry{…}` for one entry.
  unfoldable pub to_row : X.Params → StateChangeEntry → Result Row
  unfolding as_balance_entry balance_entry_encoder_to_pg_struct first_byte
  to_row params entry = bind (as_balance_entry entry.encoder) λ e.
      bind (balance_entry_encoder_to_pg_struct X.codec e entry.key_bytes params)
        λ row. ok (Row.balance_entry row)

  unfoldable pub bulk_insert_balance_entry :
      List StateChangeEntry → OperationType → X.Params → Exec (World X) Unit
  bulk_insert_balance_entry entries operation_type params = do
    let unique_entries = X.unique_entries entries
    pg_entry_slice ← lift (map_result (to_row params) unique_entries)
    wrap "entries.bulkInsertBalanceEntry: Error inserting entries" (
        exec X
          (insert Table.balance_entry pg_entry_slice (on_upsert operation_type (badger_key ∷ []))))

  unfoldable pub bulk_delete_balance_entry :
      List StateChangeEntry → OperationType → Exec (World X) Unit
  bulk_delete_balance_entry entries operation_type = do
    let unique_entries = X.unique_entries entries
    let keys_to_delete = X.keys_to_delete unique_entries
    wrap "entries.bulkDeleteBalanceEntry: Error deleting entries"
        (exec X (delete Table.balance_entry badger_key (map Value.bytes keys_to_delete)))

  unfoldable pub balance_batch_operation : List StateChangeEntry → X.Params → Exec (World X) Unit
  unfolding bulk_insert_balance_entry bulk_delete_balance_entry
  balance_batch_operation entries params = do
    entry ← lift (first entries)
    let operation_type = entry.operation_type
    wrap "entries.PostBatchOperation: Problem with operation type %v" (
        if is_delete operation_type
        then bulk_delete_balance_entry entries operation_type
        else bulk_insert_balance_entry entries operation_type params)

  abbrev pub spec : Spec X
  spec = record {
    table = Table.balance_entry;
    target = badger_key ∷ [];
    to_row = to_row;
    insert_message = "entries.bulkInsertBalanceEntry: Error inserting entries";
    delete_message = "entries.bulkDeleteBalanceEntry: Error deleting entries";
    batch_message = "entries.PostBatchOperation: Problem with operation type %v";
  }

  pub batch_lem :
      (entries : List StateChangeEntry) (params : X.Params)
      → balance_batch_operation entries params ≡ batch X spec entries params
  unfolding balance_batch_operation batch
  batch_lem entries params = refl

  -- The row of an entry has the entry's key.
  pub badger_key-to_row :
      (params : X.Params) (entry : StateChangeEntry) (row : Row)
      → to_row params entry ≡ ok row
      → badger_key_of row ≡ some entry.key_bytes
  unfolding to_row
  badger_key-to_row params entry row h =
      let (e, p, q) = bind-eq-ok (as_balance_entry entry.encoder) _ h in
      let (b, r, j) =
        bind-eq-ok (balance_entry_encoder_to_pg_struct X.codec e entry.key_bytes params) _ q in
      let (c, t, u) = bind-eq-ok (first_byte entry.key_bytes) _ r in ground arith
