-- ===== src/Entries/Cached/Coherent.antt =====
-- Coherence of the cache with one table, over the shared insert and delete.
use postgres_data_handler.Base.{
  ◌≡◌, refl, sym, ◌∙◌, ap, subst, ◌≢◌, inl, inr, true, Option, none, some, List, [], ◌∷◌, In,
  In-map_of, Bytes, has_prefix, String,
}
use mathlib.Core.Option
use postgres_data_handler.Go.{ok, map_result}
use postgres_data_handler.Go.Laws.{In-map_result, map_result_of, rewrap-eq-ok}
use postgres_data_handler.Go.Ensures.{Ensures}
use postgres_data_handler.Core.{Encoder, StateChangeEntry, OperationType, keys_of}
use postgres_data_handler.Schema.{Table, Row, Value, badger_key, badger_key_of}
use postgres_data_handler.Env.{Env, World, insert, on_upsert, exec}
use postgres_data_handler.Env.Lawful.{IsDatabase, IsConsumer, IsCache, columns}
use postgres_data_handler.Entries.Batch.Laws.{on_upsert-Updates, on_upsert-Untouched}
use postgres_data_handler.Entries.Batch.Statements.{exec_ok}
use postgres_data_handler.Entries.Cached.{Part, add_all, insert_rows, remove_all}
use postgres_data_handler.Entries.Cached.Laws.{get-add_all, get-remove_all}

-- The encoder of an entry is the one that its bytes decode to.
abbrev pub IsDecoded : (Bytes → Encoder) → StateChangeEntry → Type 0
IsDecoded decode e = e.encoder ≡ decode e.encoder_bytes

-- What is cached under a key of the part is stored: the table has the row of an entry that `Good`
-- holds of, with that key and those bytes.
abbrev pub Coherent :
    (X : Env) → IsDatabase X → Part X → X.Params → (StateChangeEntry → Type 0) → World X → Type 0
Coherent X D P params Good w =
    (k b : Bytes)
    → X.cache_get w.cache k ≡ some b
    → has_prefix k P.key_prefix ≡ true
    → (e : StateChangeEntry) × Good e
      × (e.key_bytes ≡ k)
      × (e.encoder_bytes ≡ b)
      × (row : Row) × (P.to_row params e ≡ ok row)
      × D.Stored w.database P.table row

-- Rows of the part carry the keys of their entries.
abbrev pub IsKeyed : (X : Env) → Part X → Type 0
IsKeyed X P =
    (params : X.Params) (e : StateChangeEntry) (row : Row)
    → P.to_row params e ≡ ok row
    → badger_key_of row ≡ some e.key_bytes

some_injective : {A : Type 0} {a b : A} → some a ≡ some b → a ≡ b
some_injective h = cc

-- How an insert of `rows` takes one table from `w` to `v`.
pub record Covers (X : Env) (D : IsDatabase X) (t : Table) (rows : List Row) (w v : World X)
    : Type 0 where
  pub added : (r : Row) → In r rows → D.Stored v.database t r
  pub kept :
      (r : Row)
      → D.Stored w.database t r
      → ((n : Row) → In n rows → badger_key_of n ≢ badger_key_of r)
      → D.Stored v.database t r

pub map_bytes-injective :
    (a b : Option Bytes) → Option.map Value.bytes a ≡ Option.map Value.bytes b → a ≡ b
map_bytes-injective none none h = refl
map_bytes-injective none (some y) h = cc
map_bytes-injective (some x) none h = cc
map_bytes-injective (some x) (some y) h = cc

apart_columns :
    (n r : Row)
    → badger_key_of n ≢ badger_key_of r
    → columns (badger_key ∷ []) n ≢ columns (badger_key ∷ []) r
apart_columns n r h e = h (map_bytes-injective (badger_key_of n) (badger_key_of r) (cc e))

module _ (X : Env) (D : IsDatabase X) where
  pub insert_rows-Covers :
      (t : Table) (o : OperationType) (m : String) (rows : List Row) (w : World X)
      → Ensures (insert_rows X t o m rows) w λ _ v.
        (v.cache ≡ w.cache)
        × Covers X D t rows w v
        × ((u : Table) → u ≢ t → (r : Row) → D.Stored w.database u r → D.Stored v.database u r)
  unfolding exec
  insert_rows-Covers t o m [] w a h =
      (refl, record { added = λ r i. absurd i; kept = λ r s apart. s }, λ u n r s. s)
  insert_rows-Covers t o m (x ∷ rows) w a h =
      let q = insert t (x ∷ rows) (on_upsert o (badger_key ∷ [])) in
      let s = exec_ok X q w (rewrap-eq-ok m (exec X q w).0 h) in
      (
        refl,
        record {
          added = D.insert_adds t (x ∷ rows) _ w.database s (on_upsert-Updates o _);
          kept = λ r old apart.
              D.insert_keeps t (x ∷ rows) _ w.database s r old
                (on_upsert-Untouched o _ (x ∷ rows) r λ n i. apart_columns n r (apart n i));
        },
        λ u n r. (D.insert_frame t (x ∷ rows) _ w.database u n r).1,
      )

module _ (X : Env) (D : IsDatabase X) (K : IsConsumer X) (L : IsCache X) (P : Part X)
    (keyed : IsKeyed X P) (params : X.Params) (Good : StateChangeEntry → Type 0) where
  -- The part is coherent once its rows are in and the entries are cached.
  pub Coherent-add :
      (us : List StateChangeEntry) (rows : List Row) (w v : World X)
      → ((e : StateChangeEntry) → In e us → Good e)
      → Coherent X D P params Good w
      → ((k : Bytes) → X.cache_get v.cache k ≡ X.cache_get w.cache k)
      → map_result (P.to_row params) (X.filter_entries_by_prefix us P.key_prefix) ≡ ok rows
      → Covers X D P.table rows w v
      → Coherent X D P params Good (record v { cache = add_all X us v.cache })
  Coherent-add us rows w v good coherent same c covers k b h p =
      elim (get-add_all X L us v.cache k b h) [
        | inl (e, i, q, j) ↦
            let m =
              (K.by_prefix us P.key_prefix e).1
                (i, subst (λ z. has_prefix z P.key_prefix ≡ true) (sym q) p) in
            let (row, r, n) = map_result_of (P.to_row params) _ c e m in
            (e, good e i, q, j, row, r, covers.added row n)
        | inr (old, away) ↦
            let (e, g, q, j, row, r, s) = coherent k b (sym (same k) ∙ old) p in
            (
              e,
              g,
              q,
              j,
              row,
              r,
              covers.kept row s λ n i h.
                  let (x, m, t) = In-map_result (P.to_row params) _ rows c n i in
                  let f : x.key_bytes ≡ k =
                    some_injective
                      (sym (keyed params x n t) ∙ h ∙ keyed params e row r ∙ ap some q) in
                  away (
                    subst (λ z. In z (keys_of us)) f
                      (In-map_of (λ (y : StateChangeEntry). y.key_bytes) x us
                        ((K.by_prefix us P.key_prefix x).0 m).0)),
            )
      ]

  -- The part stays coherent where its rows are kept, but for keys that leave the cache.
  pub Coherent-remove :
      (keys uncached : List Bytes) (w v : World X)
      → Coherent X D P params Good w
      → (v.cache ≡ w.cache)
      → ((k : Bytes) → In k keys → has_prefix k P.key_prefix ≡ true → In k uncached)
      → ((r : Row)
          → D.Stored w.database P.table r
          → ((k : Bytes)
              → badger_key_of r ≡ some k
              → has_prefix k P.key_prefix ≡ true
              → ¬ In k keys)
          → D.Stored v.database P.table r)
      → Coherent X D P params Good (record v { cache = remove_all X uncached v.cache })
  Coherent-remove keys uncached w v coherent same gone kept k b h p =
      let (held, away) = get-remove_all X L uncached v.cache k b h in
      let (e, g, q, j, row, r, s) =
        coherent k b (subst (λ c. X.cache_get c k ≡ some b) same held) p in
      (
        e,
        g,
        q,
        j,
        row,
        r,
        kept row s λ z f t i.
            let m : k ≡ z = some_injective (ap some (sym q) ∙ sym (keyed params e row r) ∙ f) in
            away (gone k (subst (λ y. In y keys) (sym m) i) p),
      )
