-- ===== src/Entries/PostEntry.antt =====
-- entries/post.go: rows of the table of `PGPostEntry`.
use postgres_data_handler.Base.{
  Option, none, some, List, [], ◌∷◌, map, Bytes, if◌then◌else◌, ◌≡◌, refl, sym, ap,
}
use postgres_data_handler.Go.{
  Exec, Result, ok, panic, type_assertion, lift, bind, wrap, rewrap, map_result, first, ◌>>=◌,
}
use postgres_data_handler.Go.Laws.{bind-eq-ok, ok-injective}
use postgres_data_handler.Entries.Batch.{Spec, batch}
use postgres_data_handler.Core.Social.{LibPostEntry}
use postgres_data_handler.Core.{Encoder, OperationType, is_delete, StateChangeEntry, DesoBodySchema}
use postgres_data_handler.Schema.Social.{PostEntry}
use postgres_data_handler.Schema.{Table, Row, Value, badger_key, badger_key_of, post_hash}
use postgres_data_handler.Env.{
  Codec, Env, World, insert, delete, on_upsert, exec, if_set, first_byte,
}

module _ (C : Codec) where
  -- `postBody`, with the zero values where the post has no body or its body does not decode.
  decode_post_body : Option Bytes → DesoBodySchema
  decode_post_body none = record { body = ""; image_urls = []; video_urls = [] }
  decode_post_body (some bytes) = elim (C.decode_deso_body_schema bytes) [
    | none ↦ record { body = ""; image_urls = []; video_urls = [] }
    | some post_body ↦ post_body
  ]

  unfoldable pub post_entry_encoder_to_pg_struct :
      LibPostEntry → Bytes → C.Params → Result PostEntry
  unfolding decode_post_body
  post_entry_encoder_to_pg_struct e key_bytes params =
      let post_body = decode_post_body e.body in
      ok (record {
        post_hash = C.hex e.post_hash;
        poster_public_key = C.public_key_to_base58 e.poster_public_key params;
        parent_post_hash = C.hex e.parent_stake_id;
        body = post_body.body;
        image_urls = post_body.image_urls;
        video_urls = post_body.video_urls;
        reposted_post_hash = if_set e.reposted_post_hash C.hex "";
        is_quoted_repost = e.is_quoted_repost;
        timestamp = C.unix_nano_to_time e.timestamp_nanos;
        is_hidden = e.is_hidden;
        is_pinned = e.is_pinned;
        is_nft = e.is_nft;
        num_nft_copies = e.num_nft_copies;
        num_nft_copies_for_sale = e.num_nft_copies_for_sale;
        num_nft_copies_burned = e.num_nft_copies_burned;
        has_unlockable = e.has_unlockable;
        nft_royalty_to_creator_basis_points = e.nft_royalty_to_creator_basis_points;
        nft_royalty_to_coin_basis_points = e.nft_royalty_to_coin_basis_points;
        additional_nft_royalties_to_creators_basis_points =
            C.convert_royalty_map_to_byte_strings
              e.additional_nft_royalties_to_creators_basis_points;
        additional_nft_royalties_to_coins_basis_points =
            C.convert_royalty_map_to_byte_strings e.additional_nft_royalties_to_coins_basis_points;
        extra_data = C.extra_data_to_strings e.post_extra_data params;
        is_frozen = e.is_frozen;
        badger_key = key_bytes;
      })

as_post_entry : Encoder → Result LibPostEntry
as_post_entry (Encoder.post_entry e) = ok e
as_post_entry _ = panic type_assertion

module _ (X : Env) where
  -- `&PGPostEntry{…}` for one entry.
  unfoldable pub to_row : X.Params → StateChangeEntry → Result Row
  unfolding as_post_entry post_entry_encoder_to_pg_struct first_byte
  to_row params entry = bind (as_post_entry entry.encoder) λ e.
      bind
        (rewrap "entries.bulkInsertPostEntry: Problem converting post entry to PG struct"
          (post_entry_encoder_to_pg_struct X.codec e entry.key_bytes params))
        λ row. ok (Row.post_entry row)

  unfoldable pub bulk_insert_post_entry :
      List StateChangeEntry → OperationType → X.Params → Exec (World X) Unit
  bulk_insert_post_entry entries operation_type params = do
    let unique_entries = X.unique_entries entries
    pg_entry_slice ← lift (map_result (to_row params) unique_entries)
    wrap "entries.bulkInsertPostEntry: Error inserting entries" (
        exec X (insert Table.post_entry pg_entry_slice (on_upsert operation_type (post_hash ∷ []))))

  unfoldable pub bulk_delete_post_entry :
      List StateChangeEntry → OperationType → Exec (World X) Unit
  bulk_delete_post_entry entries operation_type = do
    let unique_entries = X.unique_entries entries
    let keys_to_delete = X.keys_to_delete unique_entries
    wrap "entries.bulkDeletePostEntry: Error deleting entries"
        (exec X (delete Table.post_entry badger_key (map Value.bytes keys_to_delete)))

  unfoldable pub post_batch_operation : List StateChangeEntry → X.Params → Exec (World X) Unit
  unfolding bulk_insert_post_entry bulk_delete_post_entry
  post_batch_operation entries params = do
    entry ← lift (first entries)
    let operation_type = entry.operation_type
    wrap "entries.PostBatchOperation: Problem with operation type %v" (
        if is_delete operation_type
        then bulk_delete_post_entry entries operation_type
        else bulk_insert_post_entry entries operation_type params)

  abbrev pub spec : Spec X
  spec = record {
    table = Table.post_entry;
    target = post_hash ∷ [];
    to_row = to_row;
    insert_message = "entries.bulkInsertPostEntry: Error inserting entries";
    delete_message = "entries.bulkDeletePostEntry: Error deleting entries";
    batch_message = "entries.PostBatchOperation: Problem with operation type %v";
  }

  pub batch_lem :
      (entries : List StateChangeEntry) (params : X.Params)
      → post_batch_operation entries params ≡ batch X spec entries params
  unfolding post_batch_operation batch
  batch_lem entries params = refl

  -- The row of an entry has the entry's key.
  pub badger_key-to_row :
      (params : X.Params) (entry : StateChangeEntry) (row : Row)
      → to_row params entry ≡ ok row
      → badger_key_of row ≡ some entry.key_bytes
  unfolding to_row
  badger_key-to_row params entry row h =
      let (e, p, q) = bind-eq-ok (as_post_entry entry.encoder) _ h in
      sym (ap badger_key_of (ok-injective q))
