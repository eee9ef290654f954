-- ===== src/Tests/Kinds.antt =====
-- The theorems on the tables of the common shape, at a batch of likes.
use postgres_data_handler.Base.{
  ℕ, ◌≡◌, ◌≢◌, ◌↔◌, ◌⊎◌, inl, inr, refl, ap, subst, ◌∙◌, none, some, List, [], ◌∷◌, In, bytes_eq,
}
use postgres_data_handler.Core.{
  StateChangeEntry, OperationType, delete_operation, upsert_operation, Encoder, keys_of,
}
use postgres_data_handler.Schema.{Table, Row, badger_key, badger_key_of}
use postgres_data_handler.Env.{World, exec}
use postgres_data_handler.Env.Lawful.{columns}
use postgres_data_handler.Go.{ok, first, map_result}
use postgres_data_handler.Go.Laws.{ok-injective}
use postgres_data_handler.Entries.LikeEntry.{
  to_row, like_encoder_to_pg_struct, as_like_entry, bulk_insert_like_entry, bulk_delete_like_entry,
  like_batch_operation,
}
use postgres_data_handler.Entries.Kinds.{Kind, kind_batch_operation}
use postgres_data_handler.Entries.Kinds.Laws.{
  Ok, new, upsert_stores, upsert_adds_only, upsert_keeps_others, delete_exact, batch_atomic,
}
use postgres_data_handler.Tests.Encodings.{digits}
use postgres_data_handler.Tests.Memory.{memory, exec_statement, unique_entries, has_key, any_nil}
use postgres_data_handler.Tests.Memory.Laws.{database, consumer}

abbrev like : OperationType → ℕ → StateChangeEntry
like o n = record {
  operation_type = o;
  key_bytes = 30 ∷ n ∷ [];
  encoder = Encoder.like_entry (record { liker_pub_key = n ∷ []; liked_post_hash = 5 ∷ [] });
  encoder_bytes = n ∷ [];
  block = none;
  block_height = 1;
}

abbrev nothing_stored : World memory
nothing_stored = record { database = []; cache = λ k. none }

abbrev like_row : ℕ → Row
like_row n =
    Row.like_entry (record {
      public_key = digits (n ∷ []);
      post_hash = digits (5 ∷ []);
      badger_key = 30 ∷ n ∷ [];
    })

abbrev two_likes : World memory
two_likes = record {
  database = (Table.like_entry, like_row 1) ∷ (Table.like_entry, like_row 2) ∷ [];
  cache = λ k. none;
}

abbrev upserts : List StateChangeEntry
upserts = like upsert_operation 2 ∷ like upsert_operation 3 ∷ []

upserts-Ok : Ok memory Kind.like_entry tt (like upsert_operation 1) upserts nothing_stored
unfolding kind_batch_operation like_batch_operation first bulk_insert_like_entry to_row
    like_encoder_to_pg_struct as_like_entry map_result exec exec_statement unique_entries has_key
    bytes_eq any_nil
upserts-Ok = refl

deletes-Ok : Ok memory Kind.like_entry tt (like delete_operation 1) [] two_likes
unfolding kind_batch_operation like_batch_operation first bulk_delete_like_entry exec exec_statement
deletes-Ok = refl

upsert_stores_example :
    (u : StateChangeEntry) × In u (like upsert_operation 1 ∷ upserts)
    × (row : Row) × (to_row memory tt u ≡ ok row)
    × (badger_key_of row ≡ some (30 ∷ 3 ∷ []))
    × database.Stored
        (new memory Kind.like_entry tt (like upsert_operation 1) upserts nothing_stored)
        Table.like_entry
        row
upsert_stores_example =
    upsert_stores memory Kind.like_entry tt (like upsert_operation 1) upserts nothing_stored
      database consumer refl upserts-Ok (like upsert_operation 3) (inr (inr (inl refl)))

upsert_adds_only_example :
    database.Stored [] Table.like_entry (like_row 3)
    ⊎ ((x : StateChangeEntry) × In x (like upsert_operation 1 ∷ upserts)
        × (to_row memory tt x ≡ ok (like_row 3)))
unfolding database kind_batch_operation like_batch_operation first bulk_insert_like_entry to_row
    like_encoder_to_pg_struct as_like_entry map_result exec exec_statement unique_entries has_key
    bytes_eq any_nil
upsert_adds_only_example =
    upsert_adds_only memory Kind.like_entry tt (like upsert_operation 1) upserts nothing_stored
      database consumer refl upserts-Ok (like_row 3) (inr (inr (inl refl)))

two_keys : columns (badger_key ∷ []) (like_row 2) ≢ columns (badger_key ∷ []) (like_row 1)
two_keys q = cc

other_keys :
    (x : StateChangeEntry) (row : Row)
    → In x (like upsert_operation 2 ∷ [])
    → to_row memory tt x ≡ ok row
    → columns (badger_key ∷ []) row ≢ columns (badger_key ∷ []) (like_row 1)
unfolding to_row like_encoder_to_pg_struct as_like_entry
other_keys x row (inl e) h =
    let h2 : to_row memory tt (like upsert_operation 2) ≡ ok row =
      subst (λ z. to_row memory tt z ≡ ok row) e h in
    let p : like_row 2 ≡ row = ok-injective h2 in
    λ q. two_keys (ap (columns (badger_key ∷ [])) p ∙ q)
other_keys x row (inr m) h = absurd m

upsert_keeps_others_example :
    database.Stored
      (new memory Kind.like_entry tt (like upsert_operation 2) [] two_likes)
      Table.like_entry
      (like_row 1)
unfolding database kind_batch_operation like_batch_operation first bulk_insert_like_entry to_row
    like_encoder_to_pg_struct as_like_entry map_result exec exec_statement unique_entries has_key
    bytes_eq any_nil
upsert_keeps_others_example =
    upsert_keeps_others memory Kind.like_entry tt (like upsert_operation 2) [] two_likes database
      consumer refl refl (like_row 1) (inl refl) other_keys

delete_exact_example :
    database.Stored
      (new memory Kind.like_entry tt (like delete_operation 1) [] two_likes)
      Table.like_entry
      (like_row 2)
    ↔ (database.Stored two_likes.database Table.like_entry (like_row 2)
        × ¬ In (30 ∷ 2 ∷ []) (keys_of (like delete_operation 1 ∷ [])))
delete_exact_example =
    delete_exact memory Kind.like_entry tt (like delete_operation 1) [] two_likes database consumer
      refl deletes-Ok (like_row 2) (30 ∷ 2 ∷ []) refl

batch_atomic_example :
    database.Stored
      (new memory Kind.like_entry tt (like delete_operation 1) [] two_likes)
      Table.post_entry
      (like_row 2)
    ↔ database.Stored two_likes.database Table.post_entry (like_row 2)
batch_atomic_example =
    batch_atomic memory Kind.like_entry tt (like delete_operation 1) [] two_likes database consumer
      Table.post_entry (like_row 2) (inr λ e. cc)
