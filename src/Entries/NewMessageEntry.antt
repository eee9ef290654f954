-- ===== src/Entries/NewMessageEntry.antt =====
-- entries/new_message.go: rows of the table of `PGNewMessageEntry`.
use postgres_data_handler.Base.{
  some, List, [], ◌∷◌, map, Bytes, bytes_eq, if◌then◌else◌, ◌≡◌, refl, arith,
}
use postgres_data_handler.Go.{
  Exec, Result, ok, panic, type_assertion, lift, bind, wrap, map_result, first, ◌>>=◌,
}
use postgres_data_handler.Go.Laws.{bind-eq-ok}
use postgres_data_handler.Entries.Batch.{Spec, batch}
use postgres_data_handler.Core.Messages.{LibNewMessageEntry}
use postgres_data_handler.Core.{Encoder, OperationType, is_delete, StateChangeEntry}
use postgres_data_handler.Schema.Messages.{NewMessageEntry}
use postgres_data_handler.Schema.{Table, Row, Value, badger_key, badger_key_of}
use postgres_data_handler.Env.{
  Codec, Env, World, insert, delete, on_upsert, exec, if_set, first_byte,
}

module _ (C : Codec) where
  unfoldable pub new_message_encoder_to_pg_struct :
      LibNewMessageEntry → Bytes → C.Params → Result NewMessageEntry
  new_message_encoder_to_pg_struct e key_bytes params = bind (first_byte key_bytes) (λ prefix.
      ok (record {
        sender_access_group_owner_public_key =
            if_set e.sender_access_group_owner_public_key (λ v. C.public_key_to_base58 v params) "";
        sender_access_group_key_name = if_set e.sender_access_group_key_name C.text "";
        sender_access_group_public_key =
            if_set e.sender_access_group_public_key (λ v. C.public_key_to_base58 v params) "";
        recipient_access_group_owner_public_key =
            if_set e.recipient_access_group_owner_public_key (λ v. C.public_key_to_base58 v params)
              "";
        recipient_access_group_key_name = if_set e.recipient_access_group_key_name C.text "";
        recipient_access_group_public_key =
            if_set e.recipient_access_group_public_key (λ v. C.public_key_to_base58 v params) "";
        encrypted_text = C.hex e.encrypted_text;
        is_group_chat_message = bytes_eq prefix C.prefix_group_chat_messages_index;
        timestamp = C.unix_nano_to_time e.timestamp_nanos;
        extra_data = C.extra_data_to_strings e.extra_data params;
        badger_key = key_bytes;
      }))

as_new_message_entry : Encoder → Result LibNewMessageEntry
as_new_message_entry (Encoder.new_message_entry e) = ok e
as_new_message_entry _ = panic type_assertion

module _ (X : Env) where
  -- `&PGNewMessageEntry{…}` for one entry.
  unfoldable pub to_row : X.Params → StateChangeEntry → Result Row
  unfolding as_new_message_entry new_message_encoder_to_pg_struct first_byte
  to_row params entry = bind (as_new_message_entry entry.encoder) λ e.
      bind (new_message_encoder_to_pg_struct X.codec e entry.key_bytes params)
        λ row. ok (Row.new_message_entry row)

  unfoldable pub bulk_insert_new_message_entry :
      List StateChangeEntry → OperationType → X.Params → Exec (World X) Unit
  bulk_insert_new_message_entry entries operation_type params = do
    let unique_entries = X.unique_entries entries
    pg_entry_slice ← lift (map_result (to_row params) unique_entries)
    wrap "entries.bulkInsertNewMessageEntry: Error inserting entries" (
        exec X (
          insert Table.new_message_entry pg_entry_slice
            (on_upsert operation_type (badger_key ∷ []))))

  unfoldable pub bulk_delete_new_message_entry :
      List StateChangeEntry → OperationType → Exec (World X) Unit
  bulk_delete_new_message_entry entries operation_type = do
    let unique_entries = X.unique_entries entries
    let keys_to_delete = X.keys_to_delete unique_entries
    wrap "entries.bulkDeleteNewMessageEntry: Error deleting entries"
        (exec X (delete Table.new_message_entry badger_key (map Value.bytes keys_to_delete)))

  unfoldable pub new_message_batch_operation :
      List StateChangeEntry → X.Params → Exec (World X) Unit
  unfolding bulk_insert_new_message_entry bulk_delete_new_message_entry
  new_message_batch_operation entries params = do
    entry ← lift (first entries)
    let operation_type = entry.operation_type
    wrap "entries.PostBatchOperation: Problem with operation type %v" (
        if is_delete operation_type
        then bulk_delete_new_message_entry entries operation_type
        else bulk_insert_new_message_entry entries operation_type params)

  abbrev pub spec : Spec X
  spec = record {
    table = Table.new_message_entry;
    target = badger_key ∷ [];
    to_row = to_row;
    insert_message = "entries.bulkInsertNewMessageEntry: Error inserting entries";
    delete_message = "entries.bulkDeleteNewMessageEntry: Error deleting entries";
    batch_message = "entries.PostBatchOperation: Problem with operation type %v";
  }

  pub batch_lem :
      (entries : List StateChangeEntry) (params : X.Params)
      → new_message_batch_operation entries params ≡ batch X spec entries params
  unfolding new_message_batch_operation batch
  batch_lem entries params = refl

  -- The row of an entry has the entry's key.
  pub badger_key-to_row :
      (params : X.Params) (entry : StateChangeEntry) (row : Row)
      → to_row params entry ≡ ok row
      → badger_key_of row ≡ some entry.key_bytes
  unfolding to_row
  badger_key-to_row params entry row h =
      let (e, p, q) = bind-eq-ok (as_new_message_entry entry.encoder) _ h in
      let (b, r, j) =
        bind-eq-ok (new_message_encoder_to_pg_struct X.codec e entry.key_bytes params) _ q in
      let (c, t, u) = bind-eq-ok (first_byte entry.key_bytes) _ r in ground arith
