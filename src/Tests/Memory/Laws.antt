-- ===== src/Tests/Memory/Laws.antt =====
-- The database, the consumer and the cache in memory keep the laws that the theorems assume.
use postgres_data_handler.Base.{
  ◌≡◌, ◌≢◌, ◌↔◌, ◌⊎◌, inl, inr, refl, sym, ◌∙◌, ap, Bool, true, false, ◌&&◌, not, Option, none,
  some, Bool-cases, List, [], ◌∷◌, ◌++◌, keep, In, In-append, In-append_left, In-append_right,
  In-keep, In-keep_of, In-map, In-map_of, Bytes, bytes_eq, bytes_eq_iff, has_prefix,
}
use postgres_data_handler.Go.{Error}
use postgres_data_handler.Core.{StateChangeEntry}
use postgres_data_handler.Schema.{Table, Column, Value, Row, column}
use postgres_data_handler.Env.{Statement, insert, delete, update_metadata, raw, OnConflict}
use postgres_data_handler.Env.Lawful.{columns, Succeeds, Untouched, IsDatabase, IsConsumer, IsCache}
use postgres_data_handler.Tests.Equality.{Table-discrete, values-discrete, value-discrete}
use postgres_data_handler.Tests.Memory.{
  Rows, Cache, decided, same_table, conflicts, value_in, as_rows, any_nil, replaced, exec_statement,
  add, remove, unique_entries, has_key, holds, is_cached, memory,
}

decided-true : {A : Type 0} (d : Dec A) → decided d ≡ true → A
decided-true (yes a) h = a
decided-true (no b) h = cc

decided_of : {A : Type 0} (d : Dec A) → A → decided d ≡ true
decided_of (yes a) x = refl
decided_of (no b) x = absurd (b x)

same_table-true : (t u : Table) → same_table t u ≡ true → t ≡ u
unfolding same_table
same_table-true t u h = decided-true (Table-discrete t u) h

same_table_self : (t : Table) → same_table t t ≡ true
unfolding same_table
same_table_self t = decided_of (Table-discrete t t) refl

conflicts-true :
    (target : List Column) (rows : List Row) (r : Row)
    → conflicts target rows r ≡ true
    → (n : Row) × In n rows × (columns target n ≡ columns target r)
unfolding conflicts
conflicts-true target [] r h = cc
conflicts-true target (n ∷ rows) r h =
    elim (Bool-cases (decided (values-discrete (columns target n) (columns target r)))) [
      | inl t ↦
          (n, inl refl, decided-true (values-discrete (columns target n) (columns target r)) t)
      | inr f ↦ let (m, i, e) = conflicts-true target rows r (rw f at h) in (m, inr i, e)
    ]

value_in-true :
    (values : List Value) (v : Option Value)
    → value_in values v ≡ true
    → (x : Value) × (v ≡ some x) × In x values
unfolding value_in
value_in-true [] v h = cc
value_in-true (x ∷ values) v h = elim (Bool-cases (decided (value-discrete v (some x)))) [
  | inl t ↦ (x, decided-true (value-discrete v (some x)) t, inl refl)
  | inr f ↦ let (y, e, i) = value_in-true values v (rw f at h) in (y, e, inr i)
]

value_in_of :
    (values : List Value) (v : Option Value) (x : Value)
    → v ≡ some x
    → In x values
    → value_in values v ≡ true
unfolding value_in
value_in_of [] v x e i = absurd i
value_in_of (y ∷ values) v x e (inl q) =
    rw (decided_of (value-discrete v (some y)) (e ∙ ap (λ z. some z) q)) refl
value_in_of (y ∷ values) v x e (inr i) = elim (Bool-cases (decided (value-discrete v (some y)))) [
  | inl t ↦ rw t refl
  | inr f ↦ rw f (value_in_of values v x e i)
]

In-as_rows :
    (t u : Table) (r : Row) (rows : List Row) → In (u, r) (as_rows t rows) → (u ≡ t) × In r rows
In-as_rows t u r rows i =
    let (n, m, e) = In-map (λ (x : Row). (t, x)) (u, r) rows i in
    (ap (λ p. p.0) e, rw (ap (λ p. p.1) e) m)

&&-true : (a b : Bool) → a && b ≡ true → (a ≡ true) × (b ≡ true)
&&-true true b h = (refl, h)
&&-true false b h = cc

not_of : (b : Bool) → ¬ (b ≡ true) → not b ≡ true
not_of true h = absurd (h refl)
not_of false h = refl

not-true : (b : Bool) → not b ≡ true → b ≡ false
not-true true h = cc
not-true false h = refl

replaced-true :
    (o : Option OnConflict) (t u : Table) (rows : List Row) (r : Row)
    → replaced o t rows (u, r) ≡ true
    → (u ≡ t) × ¬ Untouched o rows r
replaced-true none t u rows r h = cc
replaced-true (some o) t u rows r h =
    let (a, b) = &&-true (same_table u t) _ h in
    let (n, i, e) = conflicts-true o.target rows r b in
    (same_table-true u t a, λ apart. apart n i e)

pub memory_failed :
    (q : Statement) (s : Rows) {e : Error}
    → (exec_statement q s).0 ≡ some e
    → (t : Table) (r : Row) → In (t, r) (exec_statement q s).1 ↔ In (t, r) s
unfolding exec_statement
memory_failed (insert u rows o) s h t r = elim (Bool-cases (any_nil rows)) [
  | inl n ↦ rw n (λ i. i, λ i. i)
  | inr n ↦ cc (n, h)
]
memory_failed (delete u c values) s h t r = cc
memory_failed (update_metadata txns) s h t r = (λ i. i, λ i. i)
memory_failed (raw q) s h t r = (λ i. i, λ i. i)

abbrev inserted : Table → List Row → Option OnConflict → Rows → Rows
inserted t rows o s = as_rows t rows ++ keep (λ x. not (replaced o t rows x)) s

-- A state after an insert is the old one or has the rows.
insert_state :
    (t : Table) (rows : List Row) (o : Option OnConflict) (s : Rows)
    → ((exec_statement (insert t rows o) s).1 ≡ inserted t rows o s)
      ⊎ (((exec_statement (insert t rows o) s).1 ≡ s) × ¬ Succeeds memory (insert t rows o) s)
unfolding exec_statement
insert_state t rows o s = elim (Bool-cases (any_nil rows)) [
  | inl n ↦ inr (rw n refl, λ h. cc (n, h))
  | inr n ↦ inl (rw n refl)
]

inserted-keeps :
    (t : Table) (rows : List Row) (o : Option OnConflict) (s : Rows) (u : Table) (r : Row)
    → In (u, r) s
    → ((u ≡ t) → Untouched o rows r)
    → In (u, r) (inserted t rows o s)
inserted-keeps t rows o s u r i free =
    In-append_right (u, r) (as_rows t rows) _
      (In-keep_of (λ x. not (replaced o t rows x)) (u, r) s i
        (not_of (replaced o t rows (u, r))
          λ h. let (e, touched) = replaced-true o t u rows r h in touched (free e)))

inserted-only :
    (t : Table) (rows : List Row) (o : Option OnConflict) (s : Rows) (u : Table) (r : Row)
    → In (u, r) (inserted t rows o s)
    → ((u ≡ t) × In r rows) ⊎ In (u, r) s
inserted-only t rows o s u r i = elim (In-append (u, r) (as_rows t rows) _ i) [
  | inl a ↦ inl (In-as_rows t u r rows a)
  | inr b ↦ let (m, _) = In-keep (λ x. not (replaced o t rows x)) (u, r) s b in inr m
]

pub memory_insert_adds :
    (t : Table) (rows : List Row) (o : Option OnConflict) (s : Rows)
    → Succeeds memory (insert t rows o) s
    → (r : Row) → In r rows
    → In (t, r) (exec_statement (insert t rows o) s).1
memory_insert_adds t rows o s h r i = elim (insert_state t rows o s) [
  | inl e ↦
      rw e (In-append_left (t, r) (as_rows t rows) _ (In-map_of (λ (x : Row). (t, x)) r rows i))
  | inr (_, n) ↦ absurd (n h)
]

pub memory_insert_keeps :
    (t : Table) (rows : List Row) (o : Option OnConflict) (s : Rows) (u : Table) (r : Row)
    → In (u, r) s
    → ((u ≡ t) → Untouched o rows r)
    → In (u, r) (exec_statement (insert t rows o) s).1
memory_insert_keeps t rows o s u r i free = elim (insert_state t rows o s) [
  | inl e ↦ rw e (inserted-keeps t rows o s u r i free)
  | inr (e, _) ↦ rw e i
]

pub memory_insert_only :
    (t : Table) (rows : List Row) (o : Option OnConflict) (s : Rows) (u : Table) (r : Row)
    → In (u, r) (exec_statement (insert t rows o) s).1
    → ((u ≡ t) × In r rows) ⊎ In (u, r) s
memory_insert_only t rows o s u r i = elim (insert_state t rows o s) [
  | inl e ↦ inserted-only t rows o s u r (rw e at i)
  | inr (e, _) ↦ inr (rw e at i)
]

abbrev deleted : Table → Column → List Value → Table × Row → Bool
deleted t c values x = same_table x.0 t && value_in values (column c x.1)

pub memory_delete_removes :
    (t : Table) (c : Column) (values : List Value) (s : Rows) (r : Row) (v : Value)
    → In (t, r) (exec_statement (delete t c values) s).1
    → column c r ≡ some v
    → ¬ In v values
unfolding exec_statement
memory_delete_removes t c values s r v i e m =
    let (_, h) = In-keep (λ x. not (deleted t c values x)) (t, r) s i in
    let a = same_table_self t in
    let b = value_in_of values (column c r) v e m in
    cc (not-true (deleted t c values (t, r)) h, b, ap (λ z. z && value_in values (column c r)) a)

pub memory_delete_keeps :
    (t : Table) (c : Column) (values : List Value) (s : Rows) (u : Table) (r : Row)
    → In (u, r) s
    → ((u ≡ t) → (v : Value) → column c r ≡ some v → ¬ In v values)
    → In (u, r) (exec_statement (delete t c values) s).1
unfolding exec_statement
memory_delete_keeps t c values s u r i free =
    In-keep_of (λ x. not (deleted t c values x)) (u, r) s i
      (not_of (deleted t c values (u, r)) λ h.
        let (a, b) = &&-true (same_table u t) _ h in
        let (v, e, m) = value_in-true values (column c r) b in free (same_table-true u t a) v e m)

pub memory_delete_only :
    (t : Table) (c : Column) (values : List Value) (s : Rows) (u : Table) (r : Row)
    → In (u, r) (exec_statement (delete t c values) s).1
    → In (u, r) s
unfolding exec_statement
memory_delete_only t c values s u r i =
    let (m, _) = In-keep (λ x. not (deleted t c values x)) (u, r) s i in m

unfoldable pub database : IsDatabase memory
database = record {
  Stored = λ s t r. In (t, r) s;
  failed = memory_failed;
  insert_adds = λ t rows o s h _ r i. memory_insert_adds t rows o s h r i;
  insert_covers = λ t rows o s h r i. (r, memory_insert_adds t rows (some o) s h r i, refl);
  insert_keeps = λ t rows o s h r i free. memory_insert_keeps t rows o s t r i (λ _. free);
  insert_only = λ t rows o s r i. elim (memory_insert_only t rows o s t r i) [
    | inl (e, m) ↦ inl m
    | inr m ↦ inr m
  ];
  insert_frame = λ t rows o s u apart r. (
    λ i. elim (memory_insert_only t rows o s u r i) [ inl (e, m) ↦ absurd (apart e) | inr m ↦ m ],
    λ i. memory_insert_keeps t rows o s u r i (λ e. absurd (apart e)),
  );
  delete_removes = λ t c values s h r v i e. memory_delete_removes t c values s r v i e;
  delete_keeps = λ t c values s r i free. memory_delete_keeps t c values s t r i (λ _. free);
  delete_only = λ t c values s u r i. memory_delete_only t c values s u r i;
  delete_frame =
      λ t c values s u apart r i. memory_delete_keeps t c values s u r i (λ e. absurd (apart e));
}

unique-In : (es : List StateChangeEntry) (e : StateChangeEntry) → In e (unique_entries es) → In e es
unfolding unique_entries
unique-In [] e i = i
unique-In (x ∷ es) e i = elim (Bool-cases (has_key x.key_bytes es)) [
  | inl t ↦ inr (unique-In es e (rw t at i))
  | inr f ↦ elim (rw f at i) [ inl p ↦ inl p | inr m ↦ inr (unique-In es e m) ]
]

has_key-In :
    (k : Bytes) (es : List StateChangeEntry)
    → has_key k es ≡ true
    → (e : StateChangeEntry) × In e es × (e.key_bytes ≡ k)
unfolding has_key
has_key-In k [] h = cc
has_key-In k (x ∷ es) h = elim (Bool-cases (bytes_eq x.key_bytes k)) [
  | inl t ↦ (x, inl refl, (bytes_eq_iff x.key_bytes k).0 t)
  | inr f ↦ let (e, i, p) = has_key-In k es (rw f at h) in (e, inr i, p)
]

unique-covers :
    (es : List StateChangeEntry) (e : StateChangeEntry)
    → In e es
    → (u : StateChangeEntry) × In u (unique_entries es) × (u.key_bytes ≡ e.key_bytes)
unfolding unique_entries
unique-covers [] e i = absurd i
unique-covers (x ∷ es) e i = elim (Bool-cases (has_key x.key_bytes es)) [
  | inl t ↦ rw t (elim i [
    | inl p ↦
        let (y, m, q) = has_key-In x.key_bytes es t in
        let (u, n, s) = unique-covers es y m in (u, n, s ∙ q ∙ ap (λ z. z.key_bytes) (sym p))
    | inr m ↦ unique-covers es e m
  ])
  | inr f ↦ rw f (elim i [
    | inl p ↦ (x, inl refl, ap (λ z. z.key_bytes) (sym p))
    | inr m ↦ let (u, n, s) = unique-covers es e m in (u, inr n, s)
  ])
]

holds-true : (o : Option Bytes) (v : Bytes) → (holds o v ≡ true) ↔ (o ≡ some v)
holds-true none v = (λ h. cc, λ h. cc)
holds-true (some b) v =
    (λ h. ap (λ z. some z) ((bytes_eq_iff b v).0 h), λ h. (bytes_eq_iff b v).1 (cc h))

pub consumer : IsConsumer memory
consumer = record {
  unique_member = unique-In;
  unique_covers = unique-covers;
  keys = λ es. refl;
  by_prefix = λ es p e. (
    In-keep (λ (x : StateChangeEntry). has_prefix x.key_bytes p) e es,
    λ (i, h). In-keep_of (λ (x : StateChangeEntry). has_prefix x.key_bytes p) e es i h,
  );
  keys_by_prefix = λ ks p k.
      (In-keep (λ x. has_prefix x p) k ks, λ (i, h). In-keep_of (λ x. has_prefix x p) k ks i h);
  not_cached = λ es c e. (
    λ i.
        let (m, h) = In-keep (λ x. not (is_cached c x)) e es i in
        (m, λ q. cc (not-true (is_cached c e) h, (holds-true (c e.key_bytes) e.encoder_bytes).1 q)),
    λ (i, h).
        In-keep_of (λ x. not (is_cached c x)) e es i
          (not_of (is_cached c e) λ t. h ((holds-true (c e.key_bytes) e.encoder_bytes).0 t)),
  );
  cached_same = λ es c k. refl;
}

bytes_eq_self : (k : Bytes) → bytes_eq k k ≡ true
bytes_eq_self k = (bytes_eq_iff k k).1 refl

memory_get-add :
    (k b : Bytes) (c : Cache) (j v : Bytes)
    → add k b c j ≡ some v
    → ((j ≡ k) × (v ≡ b)) ⊎ (c j ≡ some v)
unfolding add
memory_get-add k b c j v h = elim (Bool-cases (bytes_eq j k)) [
  | inl t ↦ inl ((bytes_eq_iff j k).0 t, cc (t, h))
  | inr f ↦ inr (rw f at h)
]

memory_get-remove : (k : Bytes) (c : Cache) (j : Bytes) → j ≢ k → remove k c j ≡ c j
unfolding remove
memory_get-remove k c j apart = elim (Bool-cases (bytes_eq j k)) [
  | inl t ↦ absurd (apart ((bytes_eq_iff j k).0 t))
  | inr f ↦ rw f refl
]

memory_get-add_self : (k b : Bytes) (c : Cache) → add k b c k ≡ some b
unfolding add
memory_get-add_self k b c = rw (bytes_eq_self k) refl

memory_get-remove_self : (k : Bytes) (c : Cache) → remove k c k ≡ none
unfolding remove
memory_get-remove_self k c = rw (bytes_eq_self k) refl

pub cache : IsCache memory
cache = record {
  get-add_self = memory_get-add_self;
  get-add = memory_get-add;
  get-remove_self = memory_get-remove_self;
  get-remove = memory_get-remove;
}
