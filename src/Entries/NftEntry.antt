-- ===== src/Entries/NftEntry.antt =====
-- entries/nft.go: rows of the table of `PGNftEntry`.
use postgres_data_handler.Base.{some, List, [], ◌∷◌, map, Bytes, if◌then◌else◌, ◌≡◌, refl, sym, ap}
use postgres_data_handler.Go.{
  Exec, Result, ok, panic, type_assertion, lift, bind, wrap, map_result, first, ◌>>=◌,
}
use postgres_data_handler.Go.Laws.{bind-eq-ok, ok-injective}
use postgres_data_handler.Entries.Batch.{Spec, batch}
use postgres_data_handler.Core.Coins.{LibNftEntry}
use postgres_data_handler.Core.{Encoder, OperationType, is_delete, StateChangeEntry}
use postgres_data_handler.Schema.Coins.{NftEntry}
use postgres_data_handler.Schema.{Table, Row, Value, badger_key, badger_key_of}
use postgres_data_handler.Env.{Codec, Env, World, insert, delete, on_upsert, exec, if_set}

module _ (C : Codec) where
  unfoldable pub nft_encoder_to_pg_struct : LibNftEntry → Bytes → C.Params → NftEntry
  nft_encoder_to_pg_struct e key_bytes params = record {
    last_owner_pkid = if_set e.last_owner_pkid (λ v. C.public_key_to_base58 v params) "";
    owner_pkid = C.public_key_to_base58 e.owner_pkid params;
    nft_post_hash = C.hex e.nft_post_hash;
    serial_number = e.serial_number;
    is_for_sale = e.is_for_sale;
    min_bid_amount_nanos = e.min_bid_amount_nanos;
    unlockable_text = if_set e.unlockable_text C.text "";
    last_accepted_bid_amount_nanos = e.last_accepted_bid_amount_nanos;
    is_pending = e.is_pending;
    is_buy_now = e.is_buy_now;
    buy_now_price_nanos = e.buy_now_price_nanos;
    extra_data = C.extra_data_to_strings e.extra_data params;
    badger_key = key_bytes;
  }

as_nft_entry : Encoder → Result LibNftEntry
as_nft_entry (Encoder.nft_entry e) = ok e
as_nft_entry _ = panic type_assertion

module _ (X : Env) where
  -- `&PGNftEntry{…}` for one entry.
  unfoldable pub to_row : X.Params → StateChangeEntry → Result Row
  unfolding as_nft_entry
  to_row params entry =
      bind (as_nft_entry entry.encoder)
        λ e. ok (Row.nft_entry (nft_encoder_to_pg_struct X.codec e entry.key_bytes params))

  unfoldable pub bulk_insert_nft_entry :
      List StateChangeEntry → OperationType → X.Params → Exec (World X) Unit
  bulk_insert_nft_entry entries operation_type params = do
    let unique_entries = X.unique_entries entries
    pg_entry_slice ← lift (map_result (to_row params) unique_entries)
    wrap "entries.bulkInsertNftEntry: Error inserting entries" (
        exec X (insert Table.nft_entry pg_entry_slice (on_upsert operation_type (badger_key ∷ []))))

  unfoldable pub bulk_delete_nft_entry : List StateChangeEntry → OperationType → Exec (World X) Unit
  bulk_delete_nft_entry entries operation_type = do
    let unique_entries = X.unique_entries entries
    let keys_to_delete = X.keys_to_delete unique_entries
    wrap "entries.bulkDeleteNftEntry: Error deleting entries"
        (exec X (delete Table.nft_entry badger_key (map Value.bytes keys_to_delete)))

  unfoldable pub nft_batch_operation : List StateChangeEntry → X.Params → Exec (World X) Unit
  unfolding bulk_insert_nft_entry bulk_delete_nft_entry
  nft_batch_operation entries params = do
    entry ← lift (first entries)
    let operation_type = entry.operation_type
    wrap "entries.PostBatchOperation: Problem with operation type %v" (
        if is_delete operation_type
        then bulk_delete_nft_entry entries operation_type
        else bulk_insert_nft_entry entries operation_type params)

  abbrev pub spec : Spec X
  spec = record {
    table = Table.nft_entry;
    target = badger_key ∷ [];
    to_row = to_row;
    insert_message = "entries.bulkInsertNftEntry: Error inserting entries";
    delete_message = "entries.bulkDeleteNftEntry: Error deleting entries";
    batch_message = "entries.PostBatchOperation: Problem with operation type %v";
  }

  pub batch_lem :
      (entries : List StateChangeEntry) (params : X.Params)
      → nft_batch_operation entries params ≡ batch X spec entries params
  unfolding nft_batch_operation batch
  batch_lem entries params = refl

  -- The row of an entry has the entry's key.
  pub badger_key-to_row :
      (params : X.Params) (entry : StateChangeEntry) (row : Row)
      → to_row params entry ≡ ok row
      → badger_key_of row ≡ some entry.key_bytes
  unfolding to_row nft_encoder_to_pg_struct
  badger_key-to_row params entry row h =
      let (e, p, q) = bind-eq-ok (as_nft_entry entry.encoder) _ h in
      sym (ap badger_key_of (ok-injective q))
