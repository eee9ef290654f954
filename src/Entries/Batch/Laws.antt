-- ===== src/Entries/Batch/Laws.antt =====
-- What one batch leaves in the tables, over a database that keeps its promises.
use postgres_data_handler.Base.{
  ◌≡◌, refl, sym, subst, ap, ◌≢◌, ◌↔◌, ◌⊎◌, inl, inr, true, false, some, List, ◌∷◌, map, In, In-map,
  In-map_of, Bytes, Bool-cases, ◌∙◌,
}
use mathlib.Core.Option
use postgres_data_handler.Go.{ok, map_result, first}
use postgres_data_handler.Go.Laws.{Result-cases, rewrap-eq-ok, In-map_result, map_result_of}
use postgres_data_handler.Core.{OperationType, is_delete, is_upsert, StateChangeEntry, keys_of}
use postgres_data_handler.Schema.{Table, Column, Row, Value, badger_key, badger_key_of}
use postgres_data_handler.Env.{Env, World, Statement, insert, delete, on_upsert, exec}
use postgres_data_handler.Env.Lawful.{
  after, Succeeds, Updates, Untouched, IsDatabase, IsConsumer, columns,
}
use postgres_data_handler.Entries.Batch.{Spec, batch}
use postgres_data_handler.Entries.Batch.Statements.{exec_ok, database-exec, exec_failed}

pub on_upsert-Updates : (o : OperationType) (t : List Column) → Updates (on_upsert o t)
on_upsert-Updates o t = elim (Bool-cases (is_upsert o)) [ inl u ↦ rw u refl | inr u ↦ rw u tt ]

module _ (X : Env) (S : Spec X) (params : X.Params) (e : StateChangeEntry)
    (es : List StateChangeEntry) (w : World X) where
  abbrev pub Ok : Type 0
  Ok = (batch X S (e ∷ es) params w).0 ≡ ok tt

  abbrev pub new : X.State
  new = (batch X S (e ∷ es) params w).1.database

  abbrev pub deleted_values : List Value
  deleted_values = map Value.bytes (X.keys_to_delete (X.unique_entries (e ∷ es)))

  abbrev pub delete_query : Statement
  delete_query =
      delete S.table badger_key (map Value.bytes (X.keys_to_delete (X.unique_entries (e ∷ es))))

  abbrev pub insert_query : List Row → Statement
  insert_query rows = insert S.table rows (on_upsert e.operation_type S.target)

  delete_new : is_delete e.operation_type ≡ true → new ≡ after X delete_query w.database
  unfolding batch first
  delete_new d = rw (new, d) (database-exec X delete_query w)

  delete_ok : is_delete e.operation_type ≡ true → Ok → Succeeds X delete_query w.database
  unfolding batch first
  delete_ok d h =
      exec_ok X delete_query w
        (rewrap-eq-ok S.delete_message _ (rewrap-eq-ok S.batch_message _ (rw d at h)))

  insert_new :
      (rows : List Row)
      → is_delete e.operation_type ≡ false
      → map_result (S.to_row params) (X.unique_entries (e ∷ es)) ≡ ok rows
      → new ≡ after X (insert_query rows) w.database
  unfolding batch first
  insert_new rows d m = rw (new, d, m) (database-exec X (insert_query rows) w)

  insert_ok :
      is_delete e.operation_type ≡ false
      → Ok
      → (rows : List Row) × (map_result (S.to_row params) (X.unique_entries (e ∷ es)) ≡ ok rows)
        × Succeeds X (insert_query rows) w.database
  unfolding batch first
  insert_ok d h = elim (Result-cases (map_result (S.to_row params) (X.unique_entries (e ∷ es)))) [
    | inl (rows, m) ↦ (
      rows,
      m,
      exec_ok X (insert_query rows) w
          (rewrap-eq-ok S.insert_message _ (rewrap-eq-ok S.batch_message _ (rw (d, m) at h))),
    )
    | inr (inl (x, m)) ↦ cc (rw (d, m) at h)
    | inr (inr (x, m)) ↦ cc (rw (d, m) at h)
  ]

  -- What a failed conversion leaves: everything.
  insert_stops :
      is_delete e.operation_type ≡ false
      → ((rows : List Row) → map_result (S.to_row params) (X.unique_entries (e ∷ es)) ≢ ok rows)
      → new ≡ w.database
  unfolding batch first
  insert_stops d h =
      elim (Result-cases (map_result (S.to_row params) (X.unique_entries (e ∷ es)))) [
        | inl (rows, m) ↦ absurd (h rows m)
        | inr (inl (x, m)) ↦ rw (new, d, m)
        | inr (inr (x, m)) ↦ rw (new, d, m)
      ]

  insert_succeeds :
      (rows : List Row)
      → is_delete e.operation_type ≡ false
      → map_result (S.to_row params) (X.unique_entries (e ∷ es)) ≡ ok rows
      → (exec X (insert_query rows) w).0 ≡ ok tt
      → Ok
  unfolding batch first
  insert_succeeds rows d m h = rw (Ok, d, m, h)

  delete_succeeds : is_delete e.operation_type ≡ true → (exec X delete_query w).0 ≡ ok tt → Ok
  unfolding batch first
  delete_succeeds d h = rw (Ok, d, h)

pub on_upsert-Untouched :
    (o : OperationType) (t : List Column) (rows : List Row) (r : Row)
    → ((n : Row) → In n rows → columns t n ≢ columns t r)
    → Untouched (on_upsert o t) rows r
on_upsert-Untouched o t rows r h = elim (Bool-cases (is_upsert o)) [
  | inl u ↦ rw u h
  | inr u ↦ rw u tt
]

abbrev key : StateChangeEntry → Bytes
key x = x.key_bytes

-- The keys that a delete names are those of the batch.
module _ (X : Env) (K : IsConsumer X) (es : List StateChangeEntry) (k : Bytes) where
  deleted_key :
      In k (keys_of es)
      → In (Value.bytes k) (map Value.bytes (X.keys_to_delete (X.unique_entries es)))
  deleted_key i =
      let (x, m, p) = In-map key k es i in
      let (u, j, q) = K.unique_covers es x m in
      In-map_of Value.bytes k _ (
        subst (In k) (sym (K.keys (X.unique_entries es))) (
          subst (λ z. In z (keys_of (X.unique_entries es))) (q ∙ sym p)
            (In-map_of key u (X.unique_entries es) j)))

  deleted_entry :
      In (Value.bytes k) (map Value.bytes (X.keys_to_delete (X.unique_entries es)))
      → In k (keys_of es)
  deleted_entry i =
      let (j, m, p) = In-map Value.bytes (Value.bytes k) _ i in
      let (u, n, q) =
        In-map key j (X.unique_entries es) (subst (In j) (K.keys (X.unique_entries es)) m) in
      let e : k ≡ u.key_bytes = cc in
      subst (λ z. In z (keys_of es)) (sym e) (In-map_of key u es (K.unique_member es u n))

  -- The same, of the keys themselves.
  pub keys_to_delete_exact : In k (keys_of es) ↔ In k (X.keys_to_delete (X.unique_entries es))
  keys_to_delete_exact = (
    λ i.
        let (j, m, p) = In-map Value.bytes (Value.bytes k) _ (deleted_key i) in
        let e : k ≡ j = cc in subst (λ z. In z (X.keys_to_delete (X.unique_entries es))) (sym e) m,
    λ i. deleted_entry (In-map_of Value.bytes k _ i),
  )

module _ (X : Env) (D : IsDatabase X) (K : IsConsumer X) (S : Spec X) (params : X.Params) where
  module _ (e : StateChangeEntry) (es : List StateChangeEntry) (w : World X) where
    -- After a successful insert or upsert each entry's key has a row, of an entry with that key.
    pub batch_stores :
        is_delete e.operation_type ≡ false
        → Ok X S params e es w
        → (x : StateChangeEntry) → In x (e ∷ es)
        → (u : StateChangeEntry) × In u (e ∷ es)
          × (u.key_bytes ≡ x.key_bytes)
          × (row : Row) × (S.to_row params u ≡ ok row)
          × D.Stored (new X S params e es w) S.table row
    batch_stores d h x m =
        let (rows, c, s) = insert_ok X S params e es w d h in
        let (u, i, k) = K.unique_covers (e ∷ es) x m in
        let (row, r, j) = map_result_of (S.to_row params) (X.unique_entries (e ∷ es)) c u i in
        (
          u,
          K.unique_member (e ∷ es) u i,
          k,
          row,
          r,
          subst (λ z. D.Stored z S.table row) (sym (insert_new X S params e es w rows d c))
              (D.insert_adds S.table rows _ w.database s
                (on_upsert-Updates e.operation_type S.target) row j),
        )

    -- A row that no new row conflicts with stays.
    pub batch_keeps :
        is_delete e.operation_type ≡ false
        → Ok X S params e es w
        → (r : Row) → D.Stored w.database S.table r
        → ((x : StateChangeEntry) (row : Row)
            → In x (e ∷ es)
            → S.to_row params x ≡ ok row
            → columns S.target row ≢ columns S.target r)
        → D.Stored (new X S params e es w) S.table r
    batch_keeps d h r old apart =
        let (rows, c, s) = insert_ok X S params e es w d h in
        subst (λ z. D.Stored z S.table r) (sym (insert_new X S params e es w rows d c))
          (D.insert_keeps S.table rows _ w.database s r old (
            on_upsert-Untouched e.operation_type S.target rows r λ n i.
              let (x, m, t) =
                In-map_result (S.to_row params) (X.unique_entries (e ∷ es)) rows c n i in
              apart x n (K.unique_member (e ∷ es) x m) t))

    -- A new row is of an entry of the batch.
    pub batch_only :
        is_delete e.operation_type ≡ false
        → Ok X S params e es w
        → (r : Row) → D.Stored (new X S params e es w) S.table r
        → D.Stored w.database S.table r
          ⊎ ((x : StateChangeEntry) × In x (e ∷ es) × (S.to_row params x ≡ ok r))
    batch_only d h r now =
        let (rows, c, s) = insert_ok X S params e es w d h in
        elim (D.insert_only S.table rows _ w.database r
          (subst (λ z. D.Stored z S.table r) (insert_new X S params e es w rows d c) now)) [
            | inl i ↦
                let (x, m, t) =
                  In-map_result (S.to_row params) (X.unique_entries (e ∷ es)) rows c r i in
                inr (x, K.unique_member (e ∷ es) x m, t)
            | inr old ↦ inl old
          ]

    -- A batch that does not return nil has changed no table.
    pub batch_failed :
        ¬ Ok X S params e es w
        → (t : Table) (r : Row) → D.Stored (new X S params e es w) t r ↔ D.Stored w.database t r
    unfolding exec
    batch_failed h t r = elim (Bool-cases (is_delete e.operation_type)) [
      | inl d ↦
          subst (λ z. D.Stored z t r ↔ D.Stored w.database t r)
            (sym (delete_new X S params e es w d))
            (exec_failed X _ w D (λ k. h (delete_succeeds X S params e es w d k)) t r)
      | inr d ↦ elim (Result-cases (map_result (S.to_row params) (X.unique_entries (e ∷ es)))) [
        | inl (rows, m) ↦
            subst (λ z. D.Stored z t r ↔ D.Stored w.database t r)
              (sym (insert_new X S params e es w rows d m))
              (exec_failed X _ w D (λ k. h (insert_succeeds X S params e es w rows d m k)) t r)
        | inr (inl (x, m)) ↦
            subst (λ z. D.Stored z t r ↔ D.Stored w.database t r)
              (sym (insert_stops X S params e es w d (λ rows k. cc))) ((λ z. z), (λ z. z))
        | inr (inr (x, m)) ↦
            subst (λ z. D.Stored z t r ↔ D.Stored w.database t r)
              (sym (insert_stops X S params e es w d (λ rows k. cc))) ((λ z. z), (λ z. z))
      ]
    ]

    -- A batch changes no other table.
    pub batch_frame :
        (t : Table)
        → t ≢ S.table
        → (r : Row) → D.Stored (new X S params e es w) t r ↔ D.Stored w.database t r
    batch_frame t apart r = elim (Bool-cases (is_delete e.operation_type)) [
      | inl d ↦
          subst (λ z. D.Stored z t r ↔ D.Stored w.database t r)
            (sym (delete_new X S params e es w d))
            (D.delete_only _ _ _ w.database t r, D.delete_frame _ _ _ w.database t apart r)
      | inr d ↦ elim (Result-cases (map_result (S.to_row params) (X.unique_entries (e ∷ es)))) [
        | inl (rows, m) ↦
            subst (λ z. D.Stored z t r ↔ D.Stored w.database t r)
              (sym (insert_new X S params e es w rows d m))
              (D.insert_frame S.table rows _ w.database t apart r)
        | inr (inl (x, m)) ↦
            subst (λ z. D.Stored z t r ↔ D.Stored w.database t r)
              (sym (insert_stops X S params e es w d (λ rows k. cc))) ((λ z. z), (λ z. z))
        | inr (inr (x, m)) ↦
            subst (λ z. D.Stored z t r ↔ D.Stored w.database t r)
              (sym (insert_stops X S params e es w d (λ rows k. cc))) ((λ z. z), (λ z. z))
      ]
    ]

    -- After a successful delete the table has the old rows whose key is not in the batch.
    pub batch_deletes :
        is_delete e.operation_type ≡ true
        → Ok X S params e es w
        → (r : Row) (k : Bytes) → badger_key_of r ≡ some k
        → D.Stored (new X S params e es w) S.table r
          ↔ (D.Stored w.database S.table r × ¬ In k (keys_of (e ∷ es)))
    batch_deletes d h r k b =
        subst
          (λ z. D.Stored z S.table r ↔ (D.Stored w.database S.table r × ¬ In k (keys_of (e ∷ es))))
          (sym (delete_new X S params e es w d))
          (
            (λ now. (
              D.delete_only _ _ _ w.database S.table r now,
              λ i.
                  D.delete_removes _ _ _ w.database (delete_ok X S params e es w d h) r
                    (Value.bytes k) now (ap (Option.map Value.bytes) b)
                    (deleted_key X K (e ∷ es) k i),
            )),
            λ (old, away). D.delete_keeps _ _ _ w.database r old λ v c i.
                let q : v ≡ Value.bytes k = cc (ap (Option.map Value.bytes) b, c) in
                away (
                  deleted_entry X K (e ∷ es) k
                    (subst (λ z. In z (deleted_values X S params e es w)) q i)),
          )
