-- ===== src/Entries/UtxoOperation/Affected/Laws.antt =====
-- Which rows the loop over the affected public keys of a transaction makes.
use postgres_data_handler.Base.{
  ◌≡◌, ◌↔◌, ◌⊎◌, inl, inr, refl, sym, ◌∙◌, ap, subst, Bool-cases, Bool, true, false, String, List,
  [], ◌∷◌, map, In, In-map_of, In-map, Distinct,
}
use text.Mathlib.Text as Text
use text.Mathlib.TextEquality.{eq_iff}
use postgres_data_handler.Schema.Chain.{TransactionEntry, AffectedPublicKeyEntry}
use postgres_data_handler.Entries.UtxoOperation.Affected.{
  in_set, duplicate_key, affected_row, affected_rows_from, affected_rows,
}

pub in_set-In : (s : String) (xs : List String) → (in_set s xs ≡ true) ↔ In s xs
unfolding in_set
in_set-In s [] = (λ h. cc, λ h. absurd h)
in_set-In s (x ∷ xs) = elim (Bool-cases (Text.◌==◌ s x)) [
  | inl t ↦ rw t (λ _. inl ((eq_iff s x).0 t), λ _. refl)
  | inr f ↦ rw f (
    λ h. inr ((in_set-In s xs).0 h),
    λ i. elim i [ inl e ↦ cc ((eq_iff s x).1 e, f) | inr m ↦ (in_set-In s xs).1 m ],
  )
]

pub not_in_set : (s : String) (xs : List String) → in_set s xs ≡ false → ¬ In s xs
not_in_set s xs f i = cc ((in_set-In s xs).1 i, f)

-- The pair of a row, as the loop compares it.
abbrev pub row_key : AffectedPublicKeyEntry → String
row_key r = duplicate_key (r.public_key, r.metadata)

module _ (t : TransactionEntry) where
  abbrev pub rows : List String → List String → List (String × String) → List AffectedPublicKeyEntry
  rows seen seen_keys affected = affected_rows_from t seen seen_keys affected

  abbrev step :
      List String
      → List String
      → String × String
      → List (String × String)
      → Bool
      → List AffectedPublicKeyEntry
  step seen seen_keys a affected true = rows seen seen_keys affected
  step seen seen_keys a affected false =
      affected_row t (in_set a.0 seen_keys) a
      ∷ rows (duplicate_key a ∷ seen) (a.0 ∷ seen_keys) affected

  rows-step :
      (seen seen_keys : List String) (a : String × String) (affected : List (String × String))
      → rows seen seen_keys (a ∷ affected)
        ≡ step seen seen_keys a affected (in_set (duplicate_key a) seen)
  unfolding affected_rows_from
  rows-step seen seen_keys a affected =
      elim (in_set (duplicate_key a) seen)
        as (λ d.
          elim d [
            | true ↦ affected_rows_from t seen seen_keys affected
            | false ↦
                affected_row t (in_set a.0 seen_keys) a
                ∷ affected_rows_from t (duplicate_key a ∷ seen) (a.0 ∷ seen_keys) affected
          ]
          ≡ step seen seen_keys a affected d) [ true ↦ refl | false ↦ refl ]

  pub rows-skip :
      (seen seen_keys : List String) (a : String × String) (affected : List (String × String))
      → in_set (duplicate_key a) seen ≡ true
      → rows seen seen_keys (a ∷ affected) ≡ rows seen seen_keys affected
  rows-skip seen seen_keys a affected d =
      rows-step seen seen_keys a affected ∙ ap (step seen seen_keys a affected) d

  pub rows-take :
      (seen seen_keys : List String) (a : String × String) (affected : List (String × String))
      → in_set (duplicate_key a) seen ≡ false
      → rows seen seen_keys (a ∷ affected)
        ≡ affected_row t (in_set a.0 seen_keys) a
          ∷ rows (duplicate_key a ∷ seen) (a.0 ∷ seen_keys) affected
  rows-take seen seen_keys a affected d =
      rows-step seen seen_keys a affected ∙ ap (step seen seen_keys a affected) d

  pub rows-nil : (seen seen_keys : List String) → rows seen seen_keys [] ≡ []
  unfolding affected_rows_from
  rows-nil seen seen_keys = refl

  sound :
      (seen seen_keys : List String) (affected : List (String × String))
      (r : AffectedPublicKeyEntry)
      → In r (rows seen seen_keys affected)
      → (¬ In (row_key r) seen)
        × ((a : String × String) × In a affected × (b : Bool) × (r ≡ affected_row t b a))
  sound seen seen_keys [] r i = absurd (rw (rows-nil seen seen_keys) at i)
  sound seen seen_keys (a ∷ affected) r i = elim (Bool-cases (in_set (duplicate_key a) seen)) [
    | inl d ↦
        let (new, found) =
          sound seen seen_keys affected r (rw (rows-skip seen seen_keys a affected d) at i) in
        let (b, m, c, e) = found in (new, (b, inr m, c, e))
    | inr d ↦ elim (rw (rows-take seen seen_keys a affected d) at i) [
      | inl e ↦ (
        subst (λ z. ¬ In (row_key z) seen) (sym e) (not_in_set (duplicate_key a) seen d),
        (a, inl refl, in_set a.0 seen_keys, e),
      )
      | inr m ↦
          let (new, found) = sound (duplicate_key a ∷ seen) (a.0 ∷ seen_keys) affected r m in
          let (b, n, c, e) = found in (λ j. new (inr j), (b, inr n, c, e))
    ]
  ]

  complete :
      (seen seen_keys : List String) (affected : List (String × String)) (a : String × String)
      → In a affected
      → In (duplicate_key a) seen
        ⊎ ((r : AffectedPublicKeyEntry) × In r (rows seen seen_keys affected)
            × (row_key r ≡ duplicate_key a))
  complete seen seen_keys [] a i = absurd i
  complete seen seen_keys (x ∷ affected) a i = elim (Bool-cases (in_set (duplicate_key x) seen)) [
    | inl d ↦ rw (rows-skip seen seen_keys x affected d) (elim i [
      | inl e ↦
          inl (
            subst (λ z. In (duplicate_key z) seen) (sym e) ((in_set-In (duplicate_key x) seen).0 d))
      | inr m ↦ complete seen seen_keys affected a m
    ])
    | inr d ↦ rw (rows-take seen seen_keys x affected d) (elim i [
      | inl e ↦ inr (affected_row t (in_set x.0 seen_keys) x, inl refl, ap duplicate_key (sym e))
      | inr m ↦ elim (complete (duplicate_key x ∷ seen) (x.0 ∷ seen_keys) affected a m) [
        | inl (inl e) ↦ inr (affected_row t (in_set x.0 seen_keys) x, inl refl, sym e)
        | inl (inr j) ↦ inl j
        | inr (r, j, e) ↦ inr (r, inr j, e)
      ]
    ])
  ]

  distinct :
      (seen seen_keys : List String) (affected : List (String × String))
      → Distinct (map row_key (rows seen seen_keys affected))
  distinct seen seen_keys [] = rw (rows-nil seen seen_keys) tt
  distinct seen seen_keys (a ∷ affected) = elim (Bool-cases (in_set (duplicate_key a) seen)) [
    | inl d ↦ rw (rows-skip seen seen_keys a affected d) (distinct seen seen_keys affected)
    | inr d ↦ rw (rows-take seen seen_keys a affected d) (
      λ i.
          let (r, m, e) = In-map row_key (duplicate_key a) _ i in
          let (new, _) = sound (duplicate_key a ∷ seen) (a.0 ∷ seen_keys) affected r m in
          new (inl (sym e)),
      distinct (duplicate_key a ∷ seen) (a.0 ∷ seen_keys) affected,
    )
  ]

  -- Of the affected keys of a transaction, with their metadata, no pair as the loop writes it gets
  -- two rows, and a pair has a row exactly if it is among them.
  pub affected_rows_cover :
      (affected : List (String × String)) (s : String)
      → Distinct (map row_key (affected_rows t affected))
        × (In s (map row_key (affected_rows t affected)) ↔ In s (map duplicate_key affected))
  unfolding affected_rows
  affected_rows_cover affected s = (
    distinct [] [] affected,
    (
      λ i.
          let (r, m, e) = In-map row_key s _ i in
          let (_, found) = sound [] [] affected r m in
          let (a, n, b, f) = found in
          subst (λ z. In z (map duplicate_key affected)) (sym (e ∙ ap row_key f))
            (In-map_of duplicate_key a affected n),
      λ i.
          let (a, m, e) = In-map duplicate_key s affected i in
          elim (complete [] [] affected a m) [
            | inl j ↦ absurd j
            | inr (r, n, f) ↦
                subst (λ z. In z (map row_key (affected_rows_from t [] [] affected))) (f ∙ sym e)
                  (In-map_of row_key r _ n)
          ],
    ),
  )
