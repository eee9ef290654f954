-- ===== src/Env/Lawful.antt =====
-- What the proofs assume of the database, the consumer and the cache.
use postgres_data_handler.Base.{
  true, ◌≡◌, ◌≢◌, ◌↔◌, ◌⊎◌, Option, none, some, List, map, In, Bytes, has_prefix,
}
use postgres_data_handler.Go.{Error}
use postgres_data_handler.Core.{StateChangeEntry, keys_of}
use postgres_data_handler.Schema.{Table, Column, Value, Row, column}
use postgres_data_handler.Env.{Env, Statement, insert, delete, do_update, OnConflict}

abbrev pub after : (X : Env) → Statement → X.State → X.State
after X q s = (X.exec_statement q s).1

abbrev pub Succeeds : (X : Env) → Statement → X.State → Type 0
Succeeds X q s = (X.exec_statement q s).0 ≡ none

-- The values of the columns that a conflict clause names.
abbrev pub columns : List Column → Row → List (Option Value)
columns target r = map (λ c. column c r) target

-- The clause does not skip rows.
abbrev pub Updates : Option OnConflict → Type 0
Updates none = Unit
Updates (some o) = o.action ≡ do_update

-- The old row `r` conflicts with none of the new ones.
abbrev pub Untouched : Option OnConflict → List Row → Row → Type 0
Untouched none rows r = Unit
Untouched (some o) rows r = (n : Row) → In n rows → columns o.target n ≢ columns o.target r

-- PostgreSQL: a statement that fails changes no table, and one that succeeds changes its own as
-- documented. `Stored s t r` says that table `t` has the row `r`.
pub record IsDatabase (X : Env) : Type 1 where
  pub Stored : X.State → Table → Row → Type 0
  pub failed :
      (q : Statement) (s : X.State) {e : Error}
      → (X.exec_statement q s).0 ≡ some e
      → (t : Table) (r : Row) → Stored (after X q s) t r ↔ Stored s t r
  pub insert_adds :
      (t : Table) (rows : List Row) (o : Option OnConflict) (s : X.State)
      → Succeeds X (insert t rows o) s
      → Updates o
      → (r : Row) → In r rows
      → Stored (after X (insert t rows o) s) t r
  -- Of a row that is skipped for a conflict, the row that it conflicts with is there.
  pub insert_covers :
      (t : Table) (rows : List Row) (o : OnConflict) (s : X.State)
      → Succeeds X (insert t rows (some o)) s
      → (r : Row) → In r rows
      → (n : Row) × Stored (after X (insert t rows (some o)) s) t n
        × (columns o.target n ≡ columns o.target r)
  pub insert_keeps :
      (t : Table) (rows : List Row) (o : Option OnConflict) (s : X.State)
      → Succeeds X (insert t rows o) s
      → (r : Row) → Stored s t r
      → Untouched o rows r
      → Stored (after X (insert t rows o) s) t r
  pub insert_only :
      (t : Table) (rows : List Row) (o : Option OnConflict) (s : X.State)
      → (r : Row) → Stored (after X (insert t rows o) s) t r
      → In r rows ⊎ Stored s t r
  pub insert_frame :
      (t : Table) (rows : List Row) (o : Option OnConflict) (s : X.State) (u : Table)
      → u ≢ t
      → (r : Row) → Stored (after X (insert t rows o) s) u r ↔ Stored s u r
  pub delete_removes :
      (t : Table) (c : Column) (values : List Value) (s : X.State)
      → Succeeds X (delete t c values) s
      → (r : Row) (v : Value) → Stored (after X (delete t c values) s) t r
      → column c r ≡ some v
      → ¬ In v values
  pub delete_keeps :
      (t : Table) (c : Column) (values : List Value) (s : X.State)
      → (r : Row) → Stored s t r
      → ((v : Value) → column c r ≡ some v → ¬ In v values)
      → Stored (after X (delete t c values) s) t r
  pub delete_only :
      (t : Table) (c : Column) (values : List Value) (s : X.State)
      → (u : Table) (r : Row) → Stored (after X (delete t c values) s) u r
      → Stored s u r
  pub delete_frame :
      (t : Table) (c : Column) (values : List Value) (s : X.State) (u : Table)
      → u ≢ t
      → (r : Row) → Stored s u r
      → Stored (after X (delete t c values) s) u r

-- The state consumer's functions on batches.
pub record IsConsumer (X : Env) : Type 0 where
  pub unique_member :
      (es : List StateChangeEntry) (e : StateChangeEntry) → In e (X.unique_entries es) → In e es
  pub unique_covers :
      (es : List StateChangeEntry) (e : StateChangeEntry)
      → In e es
      → (u : StateChangeEntry) × In u (X.unique_entries es) × (u.key_bytes ≡ e.key_bytes)
  pub keys : (es : List StateChangeEntry) → X.keys_to_delete es ≡ keys_of es
  pub by_prefix :
      (es : List StateChangeEntry) (p : Bytes) (e : StateChangeEntry)
      → In e (X.filter_entries_by_prefix es p) ↔ (In e es × (has_prefix e.key_bytes p ≡ true))
  pub keys_by_prefix :
      (ks : List Bytes) (p k : Bytes)
      → In k (X.filter_keys_by_prefix ks p) ↔ (In k ks × (has_prefix k p ≡ true))
  pub not_cached :
      (es : List StateChangeEntry) (c : X.Cache) (e : StateChangeEntry)
      → In e (X.filter_cached_entries es c).0
        ↔ (In e es × (X.cache_get c e.key_bytes ≢ some e.encoder_bytes))
  pub cached_same :
      (es : List StateChangeEntry) (c : X.Cache) (k : Bytes)
      → X.cache_get (X.filter_cached_entries es c).1 k ≡ X.cache_get c k

-- The LRU cache: an entry may be evicted by another, and is otherwise what was added last.
pub record IsCache (X : Env) : Type 0 where
  pub get-add_self : (k b : Bytes) (c : X.Cache) → X.cache_get (X.cache_add k b c) k ≡ some b
  pub get-add :
      (k b : Bytes) (c : X.Cache) (j v : Bytes)
      → X.cache_get (X.cache_add k b c) j ≡ some v
      → ((j ≡ k) × (v ≡ b)) ⊎ (X.cache_get c j ≡ some v)
  pub get-remove_self : (k : Bytes) (c : X.Cache) → X.cache_get (X.cache_remove k c) k ≡ none
  pub get-remove :
      (k : Bytes) (c : X.Cache) (j : Bytes)
      → j ≢ k
      → X.cache_get (X.cache_remove k c) j ≡ X.cache_get c j
