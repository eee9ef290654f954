-- ===== src/Entries/BlsPkidPair/Laws.antt =====
-- The cache of entries/bls_pkid_pair.go and its two tables.
use postgres_data_handler.Base.{◌≡◌, refl, sym, ◌∙◌, ap, ◌≢◌, some, List, ◌∷◌, In, Bytes}
use postgres_data_handler.Go.{ok, first, slice_from, slice_to}
use postgres_data_handler.Go.Laws.{bind-eq-ok, ok-injective}
use postgres_data_handler.Go.Ensures.{Ensures, Ensures-wrap_if}
use postgres_data_handler.Core.{Encoder, StateChangeEntry, OperationType, is_delete}
use postgres_data_handler.Schema.{Table, badger_key_of}
use postgres_data_handler.Env.{Env, World}
use postgres_data_handler.Env.Lawful.{IsDatabase, IsConsumer, IsCache}
use postgres_data_handler.Entries.Cached.{Part, cached_insert, cached_delete}
use postgres_data_handler.Entries.Cached.Coherent.{Coherent, IsDecoded, IsKeyed}
use postgres_data_handler.Entries.Cached.Refinement.{
  cached_insert-Coherent, cached_delete-Coherent, Both,
}
use postgres_data_handler.Entries.BlsPkidPair.{
  as_bls_public_key_pkid_pair_entry, bls_public_key_pkid_pair_encoder_to_pg_struct,
  bls_public_key_pkid_pair_snapshot_encoder_to_pg_struct, to_row, to_snapshot_row,
  bulk_insert_bls_pkid_pair_entry, bulk_delete_bls_pkid_pair_entry,
  bls_public_key_pkid_pair_batch_operation,
}

module _ (X : Env) where
  abbrev pub pairs : Part X
  pairs = record {
    table = Table.bls_public_key_pkid_pair_entry;
    key_prefix = X.prefix_validator_bls_public_key_pkid_pair_entry;
    to_row = to_row X;
    insert_message = "entries.bulkInsertBLSPkidPairEntry: Error inserting entries";
    delete_message = "entries.bulkDeleteBLSPkidPairEntry: Error deleting entries";
  }

  abbrev pub snapshot_pairs : Part X
  snapshot_pairs = record {
    table = Table.bls_public_key_pkid_pair_snapshot_entry;
    key_prefix = X.prefix_snapshot_validator_bls_public_key_pkid_pair_entry;
    to_row = to_snapshot_row X;
    insert_message = "entries.bulkInsertBLSPkidPairEntry: Error inserting snapshot entries";
    delete_message = "entries.bulkDeleteBLSPkidPairEntry: Error deleting snapshot entries";
  }

  insert_shape :
      (es : List StateChangeEntry) (o : OperationType) (params : X.Params)
      → bulk_insert_bls_pkid_pair_entry X es o params
        ≡ cached_insert X pairs snapshot_pairs es o params
  unfolding bulk_insert_bls_pkid_pair_entry cached_insert
  insert_shape es o params = refl

  abbrev deleted : List StateChangeEntry → List Bytes
  deleted es = X.keys_to_delete (X.unique_entries es)

  delete_shape :
      (es : List StateChangeEntry) (o : OperationType)
      → bulk_delete_bls_pkid_pair_entry X es o
        ≡ cached_delete X pairs snapshot_pairs (deleted es) (deleted es)
  unfolding bulk_delete_bls_pkid_pair_entry cached_delete
  delete_shape es o = refl

  pairs-IsKeyed : IsKeyed X pairs
  unfolding to_row bls_public_key_pkid_pair_encoder_to_pg_struct
  pairs-IsKeyed params e row h =
      let (v, p, q) = bind-eq-ok (as_bls_public_key_pkid_pair_entry e.encoder) _ h in
      sym (ap badger_key_of (ok-injective q))

  snapshot_pairs-IsKeyed : IsKeyed X snapshot_pairs
  unfolding to_snapshot_row bls_public_key_pkid_pair_snapshot_encoder_to_pg_struct
  snapshot_pairs-IsKeyed params e row h =
      let (v, p, q) = bind-eq-ok (as_bls_public_key_pkid_pair_entry e.encoder) _ h in
      let (s, r, t) =
        bind-eq-ok
          (bls_public_key_pkid_pair_snapshot_encoder_to_pg_struct X.codec v e.key_bytes params) _
          q in
      let (n, a, b) = bind-eq-ok (slice_from 1 e.key_bytes) _ r in
      let (m, c, d) = bind-eq-ok (slice_to 8 n) _ b in
      sym (ap badger_key_of (ok-injective t))
      ∙ ap (λ z. some z) (sym (ap (λ z. z.badger_key) (ok-injective d)))

apart : Table.bls_public_key_pkid_pair_entry ≢ Table.bls_public_key_pkid_pair_snapshot_entry
apart e = cc

module _ (X : Env) (D : IsDatabase X) (K : IsConsumer X) (L : IsCache X) (params : X.Params)
    (decode : Bytes → Encoder) where
  bls_batch_Both :
      (e : StateChangeEntry) (es : List StateChangeEntry) (w : World X)
      → ((x : StateChangeEntry) → In x (e ∷ es) → IsDecoded decode x)
      → Coherent X D (pairs X) params (IsDecoded decode) w
      → Coherent X D (snapshot_pairs X) params (IsDecoded decode) w
      → Ensures (bls_public_key_pkid_pair_batch_operation X (e ∷ es) params) w λ _ v.
        Coherent X D (pairs X) params (IsDecoded decode) v
        × Coherent X D (snapshot_pairs X) params (IsDecoded decode) v
  unfolding bls_public_key_pkid_pair_batch_operation first
  bls_batch_Both e es w good c d =
      let both =
        Both X D K L (pairs X) (snapshot_pairs X) apart (pairs-IsKeyed X) (snapshot_pairs-IsKeyed X)
          params (IsDecoded decode) in
      Ensures-wrap_if (is_delete e.operation_type) _
        (bulk_delete_bls_pkid_pair_entry X (e ∷ es) e.operation_type)
        (bulk_insert_bls_pkid_pair_entry X (e ∷ es) e.operation_type params) w both
        (λ t. rw (delete_shape X (e ∷ es) e.operation_type) λ a h.
          let (p, q) =
            cached_delete-Coherent X D K L (pairs X) (snapshot_pairs X) apart (pairs-IsKeyed X)
              (snapshot_pairs-IsKeyed X) params (IsDecoded decode) (deleted X (e ∷ es))
              (deleted X (e ∷ es)) w c d a h in
          (p λ k i _. i, q λ k i _. i))
        (λ f. rw (insert_shape X (e ∷ es) e.operation_type params) (
          cached_insert-Coherent X D K L (pairs X) (snapshot_pairs X) apart (pairs-IsKeyed X)
            (snapshot_pairs-IsKeyed X) params (IsDecoded decode) (e ∷ es) e.operation_type w good c
            d))

  -- Take `decode` for the consumer's decoding of the bytes of an encoder, and assume that each entry
  -- of a batch of BLS keys has the encoder that its bytes decode to. Let a table agree with the cache
  -- if, for each key with the table's prefix that is cached with some bytes, the table has the row of
  -- an entry with that key whose encoder is what those bytes decode to. If both tables of BLS keys
  -- agree with the cache, then they still do after a batch that returns nil, upsert or delete.
  pub bls_keys_keep-Coherent :
      (e : StateChangeEntry) (es : List StateChangeEntry) (w : World X)
      → ((x : StateChangeEntry) → In x (e ∷ es) → IsDecoded decode x)
      → Coherent X D (pairs X) params (IsDecoded decode) w
      → Coherent X D (snapshot_pairs X) params (IsDecoded decode) w
      → (bls_public_key_pkid_pair_batch_operation X (e ∷ es) params w).0 ≡ ok tt
      → Coherent X D
          (pairs X)
          params
          (IsDecoded decode)
          (bls_public_key_pkid_pair_batch_operation X (e ∷ es) params w).1
        × Coherent X D
            (snapshot_pairs X)
            params
            (IsDecoded decode)
            (bls_public_key_pkid_pair_batch_operation X (e ∷ es) params w).1
  bls_keys_keep-Coherent e es w good c d h = bls_batch_Both e es w good c d tt h
