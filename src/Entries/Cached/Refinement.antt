-- ===== src/Entries/Cached/Refinement.antt =====
-- The shared insert and delete keep both parts coherent with the cache.
use postgres_data_handler.Base.{
  ◌≡◌, refl, sym, ◌∙◌, ap, subst, ◌≢◌, true, some, List, [], ◌∷◌, In, Bytes, has_prefix, String,
  map, In-map, In-map_of,
}
use mathlib.Core.Option
use postgres_data_handler.Go.{Exec, Result, ok, lift, map_result, ◌>>=◌}
use postgres_data_handler.Go.Laws.{rewrap-eq-ok, ok-injective}
use postgres_data_handler.Go.Ensures.{Ensures, Ensures-bind}
use postgres_data_handler.Core.{StateChangeEntry, OperationType}
use postgres_data_handler.Schema.{Table, Row, Value, badger_key, badger_key_of}
use postgres_data_handler.Env.{Env, World, delete, exec}
use postgres_data_handler.Env.Lawful.{IsDatabase, IsConsumer, IsCache}
use postgres_data_handler.Entries.Batch.Statements.{exec_ok}
use postgres_data_handler.Entries.Cached.{
  Part, filter_cached, add_entries, insert_rows, cached_insert, remove_all, remove_keys,
  delete_keys, cached_delete,
}
use postgres_data_handler.Entries.Cached.Coherent.{
  Coherent, IsKeyed, insert_rows-Covers, Coherent-add, Coherent-remove, map_bytes-injective,
}

module _ (X : Env) (D : IsDatabase X) where
  delete_keys-kept :
      (t : Table) (m : String) (keys : List Bytes) (w : World X)
      → Ensures (delete_keys X t m keys) w λ _ v.
        (v.cache ≡ w.cache)
        × ((r : Row)
            → D.Stored w.database t r
            → ((k : Bytes) → badger_key_of r ≡ some k → ¬ In k keys)
            → D.Stored v.database t r)
        × ((u : Table) → u ≢ t → (r : Row) → D.Stored w.database u r → D.Stored v.database u r)
  unfolding exec
  delete_keys-kept t m [] w a h = (refl, λ r s _. s, λ u n r s. s)
  delete_keys-kept t m (x ∷ keys) w a h = (
    refl,
    λ r s free. D.delete_keeps t badger_key _ w.database r s λ v c i.
        let (k, j, q) = In-map Value.bytes v (x ∷ keys) i in
        free k (map_bytes-injective (badger_key_of r) (some k) (c ∙ ap some q)) j,
    λ u n r s. D.delete_frame t badger_key _ w.database u n r s,
  )

  -- A delete that returns leaves no row under one of the keys.
  pub delete_keys-gone :
      (t : Table) (m : String) (keys : List Bytes) (w : World X)
      → Ensures (delete_keys X t m keys) w λ _ v.
        (r : Row) (k : Bytes) → D.Stored v.database t r → badger_key_of r ≡ some k → ¬ In k keys
  unfolding exec
  delete_keys-gone t m [] w a h r k s b i = i
  delete_keys-gone t m (x ∷ keys) w a h r k s b i =
      let q = delete t badger_key (map Value.bytes (x ∷ keys)) in
      D.delete_removes t badger_key _ w.database (exec_ok X q w (rewrap-eq-ok m (exec X q w).0 h)) r
        (Value.bytes k) s (ap (Option.map Value.bytes) b) (In-map_of Value.bytes k (x ∷ keys) i)

module _ (X : Env) (D : IsDatabase X) (K : IsConsumer X) (L : IsCache X) (P Q : Part X)
    (apart : P.table ≢ Q.table) (keyed_p : IsKeyed X P) (keyed_q : IsKeyed X Q) (params : X.Params)
    (Good : StateChangeEntry → Type 0) where
  abbrev pub Both : Unit {0} → World X → Type 0
  Both _ v = Coherent X D P params Good v × Coherent X D Q params Good v

  abbrev pub Each : List Bytes → List Bytes → Unit {0} → World X → Type 0
  Each keys uncached _ v =
      (((k : Bytes) → In k keys → has_prefix k P.key_prefix ≡ true → In k uncached)
        → Coherent X D P params Good v)
      × (((k : Bytes) → In k keys → has_prefix k Q.key_prefix ≡ true → In k uncached)
          → Coherent X D Q params Good v)

  module _ (o : OperationType) (us : List StateChangeEntry) where
    abbrev put_q : List Row → Exec (World X) Unit
    put_q more = insert_rows X Q.table o Q.insert_message more >>= λ _. add_entries X us

    abbrev put_p : List Row → List Row → Exec (World X) Unit
    put_p rows more = insert_rows X P.table o P.insert_message rows >>= λ _. put_q more

    abbrev rows_of : Part X → Result (List Row)
    rows_of R = map_result (R.to_row params) (X.filter_entries_by_prefix us R.key_prefix)

    -- From rows to tables and cache.
    put_p-Coherent :
        (rows more : List Row) (u : World X)
        → rows_of P ≡ ok rows
        → rows_of Q ≡ ok more
        → ((e : StateChangeEntry) → In e us → Good e)
        → Coherent X D P params Good u
        → Coherent X D Q params Good u
        → Ensures (put_p rows more) u Both
    unfolding add_entries
    put_p-Coherent rows more u c d good coherent_p coherent_q =
        Ensures-bind (insert_rows X P.table o P.insert_message rows) (λ _. put_q more) u Both
          λ _ e.
            let v1 = (insert_rows X P.table o P.insert_message rows u).1 in
            let (s1, covers1, else1) =
              insert_rows-Covers X D P.table o P.insert_message rows u tt e in
            Ensures-bind (insert_rows X Q.table o Q.insert_message more) (λ _. add_entries X us) v1
              Both
              λ _ f _ _.
                let v2 = (insert_rows X Q.table o Q.insert_message more v1).1 in
                let (s2, covers2, else2) =
                  insert_rows-Covers X D Q.table o Q.insert_message more v1 tt f in
                let cached = λ (k : Bytes). ap (λ c. X.cache_get c k) (s2 ∙ s1) in
                (
                  Coherent-add X D K L P keyed_p params Good us rows u v2 good coherent_p cached c
                      (record {
                        added = λ r i. else2 P.table apart r (covers1.added r i);
                        kept = λ r s free. else2 P.table apart r (covers1.kept r s free);
                      }),
                  Coherent-add X D K L Q keyed_q params Good us more u v2 good coherent_q cached d
                      (record {
                        added = covers2.added;
                        kept = λ r s free.
                            covers2.kept r (else1 Q.table (λ z. apart (sym z)) r s) free;
                      }),
                )

    convert-Coherent :
        (u : World X)
        → ((e : StateChangeEntry) → In e us → Good e)
        → Coherent X D P params Good u
        → Coherent X D Q params Good u
        → Ensures (lift (rows_of P) >>= λ rows. lift (rows_of Q) >>= λ more. put_p rows more) u Both
    convert-Coherent u good coherent_p coherent_q =
        Ensures-bind (lift (rows_of P)) (λ rows. lift (rows_of Q) >>= λ more. put_p rows more) u
          Both
          λ rows c.
            Ensures-bind (lift (rows_of Q)) (λ more. put_p rows more) u Both
              λ more d. put_p-Coherent rows more u c d good coherent_p coherent_q

  -- A look at the cache changes nothing that it answers.
  Coherent-filter :
      (R : Part X) (es : List StateChangeEntry) (w : World X)
      → Coherent X D R params Good w
      → Coherent X D R params Good (filter_cached X es w).1
  unfolding filter_cached
  Coherent-filter R es w coherent k b h p = coherent k b (sym (K.cached_same es w.cache k) ∙ h) p

  -- An insert that returns keeps both parts coherent, if `Good` holds of its entries.
  pub cached_insert-Coherent :
      (entries : List StateChangeEntry) (o : OperationType) (w : World X)
      → ((e : StateChangeEntry) → In e entries → Good e)
      → Coherent X D P params Good w
      → Coherent X D Q params Good w
      → Ensures (cached_insert X P Q entries o params) w Both
  unfolding cached_insert filter_cached
  cached_insert-Coherent entries o w good coherent_p coherent_q =
      let es = X.unique_entries entries in
      Ensures-bind (filter_cached X es)
        (λ us.
          lift (rows_of o us P) >>= λ rows. lift (rows_of o us Q) >>= λ more. put_p o us rows more)
        w Both
        λ us f.
          let same : (X.filter_cached_entries es w.cache).0 ≡ us = ok-injective f in
          convert-Coherent o us (filter_cached X es w).1
            (λ e i. good e (
              K.unique_member entries e
                ((K.not_cached es w.cache e).0 (subst (In e) (sym same) i)).0))
            (Coherent-filter P es w coherent_p) (Coherent-filter Q es w coherent_q)

  -- A delete that returns keeps a part coherent if each key of the part that it deletes leaves the
  -- cache.
  pub cached_delete-Coherent :
      (keys uncached : List Bytes) (w : World X)
      → Coherent X D P params Good w
      → Coherent X D Q params Good w
      → Ensures (cached_delete X P Q keys uncached) w (Each keys uncached)
  unfolding cached_delete remove_keys
  cached_delete-Coherent keys uncached w coherent_p coherent_q =
      let ps = X.filter_keys_by_prefix keys P.key_prefix in
      let qs = X.filter_keys_by_prefix keys Q.key_prefix in
      Ensures-bind (delete_keys X P.table P.delete_message ps)
        (λ _. delete_keys X Q.table Q.delete_message qs >>= λ _. remove_keys X uncached) w
        (Each keys uncached)
        λ _ e.
          let v1 = (delete_keys X P.table P.delete_message ps w).1 in
          let (s1, kept1, else1) = delete_keys-kept X D P.table P.delete_message ps w tt e in
          Ensures-bind (delete_keys X Q.table Q.delete_message qs) (λ _. remove_keys X uncached) v1
            (Each keys uncached)
            λ _ f _ _.
              let v2 = (delete_keys X Q.table Q.delete_message qs v1).1 in
              let (s2, kept2, else2) = delete_keys-kept X D Q.table Q.delete_message qs v1 tt f in
              (
                λ gone.
                    Coherent-remove X D K L P keyed_p params Good keys uncached w v2 coherent_p
                      (s2 ∙ s1) gone
                      λ r s free. else2 P.table apart r (
                        kept1 r s λ k b i.
                          let (m, p) = (K.keys_by_prefix keys P.key_prefix k).0 i in free k b p m),
                λ gone.
                    Coherent-remove X D K L Q keyed_q params Good keys uncached w v2 coherent_q
                      (s2 ∙ s1) gone
                      λ r s free. kept2 r (else1 Q.table (λ z. apart (sym z)) r s) λ k b i.
                        let (m, p) = (K.keys_by_prefix keys Q.key_prefix k).0 i in free k b p m,
              )

module _ (X : Env) (D : IsDatabase X) (K : IsConsumer X) (P Q : Part X)
    (apart : P.table ≢ Q.table) where
  -- The second table has no row under one of the keys with its prefix, and the cache has lost the
  -- keys that it was to lose.
  abbrev pub Gone : List Bytes → List Bytes → X.Cache → Unit {0} → World X → Type 0
  Gone keys uncached c _ v =
      (v.cache ≡ remove_all X uncached c)
      × ((r : Row) (k : Bytes)
          → D.Stored v.database Q.table r
          → badger_key_of r ≡ some k
          → has_prefix k Q.key_prefix ≡ true
          → ¬ In k keys)

  pub cached_delete-Gone :
      (keys uncached : List Bytes) (w : World X)
      → Ensures (cached_delete X P Q keys uncached) w (Gone keys uncached w.cache)
  unfolding cached_delete remove_keys
  cached_delete-Gone keys uncached w =
      let ps = X.filter_keys_by_prefix keys P.key_prefix in
      let qs = X.filter_keys_by_prefix keys Q.key_prefix in
      let rest =
        λ (_ : Unit). delete_keys X Q.table Q.delete_message qs >>= λ _. remove_keys X uncached in
      Ensures-bind (delete_keys X P.table P.delete_message ps) rest w (Gone keys uncached w.cache)
        λ _ e.
          let v1 = (delete_keys X P.table P.delete_message ps w).1 in
          let (s1, kept1, else1) = delete_keys-kept X D P.table P.delete_message ps w tt e in
          Ensures-bind (delete_keys X Q.table Q.delete_message qs) (λ _. remove_keys X uncached) v1
            (Gone keys uncached w.cache)
            λ _ f _ _.
              let (s2, kept2, else2) = delete_keys-kept X D Q.table Q.delete_message qs v1 tt f in
              (
                ap (remove_all X uncached) (s2 ∙ s1),
                λ r k s b p i.
                    delete_keys-gone X D Q.table Q.delete_message qs v1 tt f r k s b
                      ((K.keys_by_prefix keys Q.key_prefix k).1 (i, p)),
              )
