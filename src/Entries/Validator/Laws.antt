-- ===== src/Entries/Validator/Laws.antt =====
-- The cache of entries/validator.go and its two tables.
use postgres_data_handler.Base.{
  ◌≡◌, refl, sym, ◌∙◌, ap, ◌≢◌, true, false, some, List, ◌∷◌, In, Bytes, has_prefix, Bool-cases,
  ◌⊎◌, inl, inr,
}
use postgres_data_handler.Go.{ok, first}
use postgres_data_handler.Go.Laws.{bind-eq-ok, ok-injective}
use postgres_data_handler.Go.Ensures.{Ensures, Ensures-wrap_if}
use postgres_data_handler.Core.{Encoder, StateChangeEntry, OperationType, is_delete}
use postgres_data_handler.Schema.{Table, Row, badger_key_of}
use postgres_data_handler.Env.{Env, World}
use postgres_data_handler.Env.Lawful.{IsDatabase, IsConsumer, IsCache}
use postgres_data_handler.Entries.Cached.{Part, cached_insert, cached_delete}
use postgres_data_handler.Entries.Cached.Laws.{get-remove_all_other}
use postgres_data_handler.Entries.Cached.Coherent.{Coherent, IsDecoded, IsKeyed}
use postgres_data_handler.Entries.Cached.Refinement.{
  cached_insert-Coherent, cached_delete-Coherent, cached_delete-Gone,
}
use postgres_data_handler.Entries.Validator.{
  as_validator_entry, validator_encoder_to_pg_struct, snapshot_validator_encoder_to_pg_struct,
  snapshot_epoch_number, to_row, to_snapshot_row, bulk_insert_validator_entry,
  bulk_delete_validator_entry, validator_batch_operation,
}

module _ (X : Env) where
  abbrev pub validators : Part X
  validators = record {
    table = Table.validator_entry;
    key_prefix = X.prefix_validator_by_pkid;
    to_row = to_row X;
    insert_message = "entries.bulkInsertValidatorEntry: Error inserting validator entries";
    delete_message = "entries.bulkDeleteValidatorEntry: Error deleting entries";
  }

  abbrev pub snapshots : Part X
  snapshots = record {
    table = Table.snapshot_validator_entry;
    key_prefix = X.prefix_snapshot_validator_set_by_pkid;
    to_row = to_snapshot_row X;
    insert_message = "entries.bulkInsertValidatorEntry: Error inserting snapshot validator entries";
    delete_message = "entries.bulkDeleteSnapshotValidatorEntry: Error deleting entries";
  }

  pub insert_shape :
      (es : List StateChangeEntry) (o : OperationType) (params : X.Params)
      → bulk_insert_validator_entry X es o params ≡ cached_insert X validators snapshots es o params
  unfolding bulk_insert_validator_entry cached_insert
  insert_shape es o params = refl

  abbrev pub deleted : List StateChangeEntry → List Bytes
  deleted es = X.keys_to_delete (X.unique_entries es)

  abbrev pub uncached : List StateChangeEntry → List Bytes
  uncached es = X.filter_keys_by_prefix (deleted es) X.prefix_validator_by_pkid

  pub delete_shape :
      (es : List StateChangeEntry) (o : OperationType)
      → bulk_delete_validator_entry X es o
        ≡ cached_delete X validators snapshots (deleted es) (uncached es)
  unfolding bulk_delete_validator_entry cached_delete
  delete_shape es o = refl

  validators-IsKeyed : IsKeyed X validators
  unfolding to_row validator_encoder_to_pg_struct
  validators-IsKeyed params e row h =
      let (v, p, q) = bind-eq-ok (as_validator_entry e.encoder) _ h in
      sym (ap badger_key_of (ok-injective q))

  snapshots-IsKeyed : IsKeyed X snapshots
  unfolding to_snapshot_row snapshot_validator_encoder_to_pg_struct
  snapshots-IsKeyed params e row h =
      let (v, p, q) = bind-eq-ok (as_validator_entry e.encoder) _ h in
      let (s, r, t) =
        bind-eq-ok (snapshot_validator_encoder_to_pg_struct X.codec v e.key_bytes params) _ q in
      let (n, a, b) = bind-eq-ok (snapshot_epoch_number X.codec e.key_bytes) _ r in
      sym (ap badger_key_of (ok-injective t))
      ∙ ap (λ z. some z) (sym (ap (λ z. z.badger_key) (ok-injective b)))

apart : Table.validator_entry ≢ Table.snapshot_validator_entry
apart e = cc

module _ (X : Env) (D : IsDatabase X) (K : IsConsumer X) (L : IsCache X) (params : X.Params)
    (Good : StateChangeEntry → Type 0) where
  abbrev Kept : StateChangeEntry → Unit {0} → World X → Type 0
  Kept e _ v =
      Coherent X D (validators X) params Good v
      × (is_delete e.operation_type ≡ false → Coherent X D (snapshots X) params Good v)

  batch-Kept :
      (e : StateChangeEntry) (es : List StateChangeEntry) (w : World X)
      → ((x : StateChangeEntry) → In x (e ∷ es) → Good x)
      → Coherent X D (validators X) params Good w
      → Coherent X D (snapshots X) params Good w
      → Ensures (validator_batch_operation X (e ∷ es) params) w (Kept e)
  unfolding validator_batch_operation first
  batch-Kept e es w good c d =
      Ensures-wrap_if (is_delete e.operation_type) _
        (bulk_delete_validator_entry X (e ∷ es) e.operation_type)
        (bulk_insert_validator_entry X (e ∷ es) e.operation_type params) w (Kept e)
        (λ t. rw (delete_shape X (e ∷ es) e.operation_type) λ a h.
          let (p, _) =
            cached_delete-Coherent X D K L (validators X) (snapshots X) apart (validators-IsKeyed X)
              (snapshots-IsKeyed X) params Good (deleted X (e ∷ es)) (uncached X (e ∷ es)) w c d a
              h in
          (
            p λ k i q.
                (K.keys_by_prefix (deleted X (e ∷ es)) X.prefix_validator_by_pkid k).1 (i, q),
            λ f. cc,
          ))
        (λ f. rw (insert_shape X (e ∷ es) e.operation_type params) λ a h.
          let (p, q) =
            cached_insert-Coherent X D K L (validators X) (snapshots X) apart (validators-IsKeyed X)
              (snapshots-IsKeyed X) params Good (e ∷ es) e.operation_type w good c d a h in
          (p, λ _. q))

  abbrev Stale : Bytes → Bytes → Unit {0} → World X → Type 0
  Stale k b _ v =
      (X.cache_get v.cache k ≡ some b)
      × ((r : Row)
          → D.Stored v.database Table.snapshot_validator_entry r
          → ¬ (badger_key_of r ≡ some k))
      × ¬ Coherent X D (snapshots X) params Good v

  snapshot_delete-Stale :
      (e : StateChangeEntry) (es : List StateChangeEntry) (w : World X) (k b : Bytes)
      → is_delete e.operation_type ≡ true
      → In k (deleted X (e ∷ es))
      → has_prefix k X.prefix_snapshot_validator_set_by_pkid ≡ true
      → has_prefix k X.prefix_validator_by_pkid ≡ false
      → X.cache_get w.cache k ≡ some b
      → Ensures (validator_batch_operation X (e ∷ es) params) w (Stale k b)
  unfolding validator_batch_operation first
  snapshot_delete-Stale e es w k b t i p n g =
      Ensures-wrap_if (is_delete e.operation_type) _
        (bulk_delete_validator_entry X (e ∷ es) e.operation_type)
        (bulk_insert_validator_entry X (e ∷ es) e.operation_type params) w (Stale k b)
        (λ _. rw (delete_shape X (e ∷ es) e.operation_type) λ a h.
          let v =
            (cached_delete X (validators X) (snapshots X) (deleted X (e ∷ es)) (uncached X (e ∷ es))
              w).1 in
          let (c, gone) =
            cached_delete-Gone X D K (validators X) (snapshots X) apart (deleted X (e ∷ es))
              (uncached X (e ∷ es)) w a h in
          let same : X.cache_get v.cache k ≡ some b =
            ap (λ z. X.cache_get z k) c
            ∙ get-remove_all_other X L (uncached X (e ∷ es)) w.cache k (λ m.
              let (_, z) =
                (K.keys_by_prefix (deleted X (e ∷ es)) X.prefix_validator_by_pkid k).0 m in
              cc)
            ∙ g in
          (
            same,
            λ r s q. gone r k s q p i,
            λ coherent.
                let (x, _, q, _, row, f, s) = coherent k b same p in
                gone row k s (snapshots-IsKeyed X params x row f ∙ ap (λ z. some z) q) p i,
          ))
        (λ f. cc)

  -- After a delete batch of validators that returns nil, a key that the batch deletes, that has the
  -- prefix of the snapshots' keys and not that of the validators', and that was cached is still
  -- cached with its old bytes. No row of the table of the snapshots has the key, so that this table
  -- does not agree with the cache, whatever is asked of the entries whose rows are to be there.
  pub snapshot_delete_stale :
      (e : StateChangeEntry) (es : List StateChangeEntry) (w : World X) (k b : Bytes)
      → is_delete e.operation_type ≡ true
      → In k (deleted X (e ∷ es))
      → has_prefix k X.prefix_snapshot_validator_set_by_pkid ≡ true
      → has_prefix k X.prefix_validator_by_pkid ≡ false
      → X.cache_get w.cache k ≡ some b
      → (validator_batch_operation X (e ∷ es) params w).0 ≡ ok tt
      → (X.cache_get (validator_batch_operation X (e ∷ es) params w).1.cache k ≡ some b)
        × ((r : Row)
            → ¬ (
                D.Stored
                  (validator_batch_operation X (e ∷ es) params w).1.database
                  Table.snapshot_validator_entry
                  r
                × (badger_key_of r ≡ some k)))
        × ¬ Coherent X D (snapshots X) params Good (validator_batch_operation X (e ∷ es) params w).1
  snapshot_delete_stale e es w k b t i p n g h =
      let (x, y, z) = snapshot_delete-Stale e es w k b t i p n g tt h in (x, λ r (s, q). y r s q, z)

module _ (X : Env) (D : IsDatabase X) (K : IsConsumer X) (L : IsCache X) (params : X.Params)
    (decode : Bytes → Encoder) where
  -- Take `decode` for the consumer's decoding of the bytes of an encoder, and assume that each entry
  -- of a batch of validators has the encoder that its bytes decode to. Let a table agree with the
  -- cache if, for each key with the table's prefix that is cached with some bytes, the table has the
  -- row of an entry with that key whose encoder is what those bytes decode to. If the tables of the
  -- validators and of the snapshots agree with the cache, then after a batch that returns nil the
  -- table of the validators does, and that of the snapshots does unless the batch is a delete.
  pub validators_keep-Coherent :
      (e : StateChangeEntry) (es : List StateChangeEntry) (w : World X)
      → ((x : StateChangeEntry) → In x (e ∷ es) → IsDecoded decode x)
      → Coherent X D (validators X) params (IsDecoded decode) w
      → Coherent X D (snapshots X) params (IsDecoded decode) w
      → (validator_batch_operation X (e ∷ es) params w).0 ≡ ok tt
      → Coherent X D
          (validators X)
          params
          (IsDecoded decode)
          (validator_batch_operation X (e ∷ es) params w).1
        × ((is_delete e.operation_type ≡ true)
            ⊎ Coherent X D
                (snapshots X)
                params
                (IsDecoded decode)
                (validator_batch_operation X (e ∷ es) params w).1)
  validators_keep-Coherent e es w good c d h =
      let (p, q) = batch-Kept X D K L params (IsDecoded decode) e es w good c d tt h in
      (p, elim (Bool-cases (is_delete e.operation_type)) [ inl t ↦ inl t | inr f ↦ inr (q f) ])
