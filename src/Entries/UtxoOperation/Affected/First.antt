-- ===== src/Entries/UtxoOperation/Affected/First.antt =====
-- Which rows of the affected public keys of a transaction are not marked as duplicates.
use postgres_data_handler.Base.{
  ◌≡◌, ◌↔◌, ◌⊎◌, inl, inr, sym, subst, Bool-cases, Bool, true, not, String, List, [], ◌∷◌, map, In,
  In-map_of, In-map, keep, In-keep, Distinct,
}
use mathlib.Core.Bool.{false≢true}
use postgres_data_handler.Schema.Chain.{TransactionEntry, AffectedPublicKeyEntry}
use postgres_data_handler.Entries.UtxoOperation.Affected.{
  in_set, duplicate_key, affected_rows_from, affected_rows,
}
use postgres_data_handler.Entries.UtxoOperation.Affected.Laws.{
  in_set-In, not_in_set, rows, rows-skip, rows-take, rows-nil,
}

abbrev pub key_of_row : AffectedPublicKeyEntry → String
key_of_row r = r.public_key

-- The rows that are not marked.
abbrev pub is_first : AffectedPublicKeyEntry → Bool
is_first r = not r.is_duplicate

module _ (t : TransactionEntry) where
  -- A row that is not marked has a key that was not seen.
  first_new :
      (seen seen_keys : List String) (affected : List (String × String))
      (r : AffectedPublicKeyEntry)
      → In r (rows t seen seen_keys affected)
      → is_first r ≡ true
      → ¬ In r.public_key seen_keys
  first_new seen seen_keys [] r i f = absurd (rw (rows-nil t seen seen_keys) at i)
  first_new seen seen_keys (a ∷ affected) r i f =
      elim (Bool-cases (in_set (duplicate_key a) seen)) [
        | inl d ↦
            first_new seen seen_keys affected r (rw (rows-skip t seen seen_keys a affected d) at i)
              f
        | inr d ↦ elim (rw (rows-take t seen seen_keys a affected d) at i) [
          | inl e ↦ elim (Bool-cases (in_set a.0 seen_keys)) [
            | inl s ↦
                let g : not (in_set a.0 seen_keys) ≡ true = subst (λ z. is_first z ≡ true) e f in
                absurd (false≢true (rw s at g))
            | inr s ↦ subst (λ z. ¬ In z.public_key seen_keys) (sym e) (not_in_set a.0 seen_keys s)
          ]
          | inr m ↦ λ j. first_new (duplicate_key a ∷ seen) (a.0 ∷ seen_keys) affected r m f (inr j)
        ]
      ]

  first-Distinct :
      (seen seen_keys : List String) (affected : List (String × String))
      → Distinct (map key_of_row (keep is_first (rows t seen seen_keys affected)))
  first-Distinct seen seen_keys [] = rw (rows-nil t seen seen_keys) tt
  first-Distinct seen seen_keys (a ∷ affected) = elim (Bool-cases (in_set (duplicate_key a) seen)) [
    | inl d ↦ rw (rows-skip t seen seen_keys a affected d) (first-Distinct seen seen_keys affected)
    | inr d ↦
        rw (rows-take t seen seen_keys a affected d) (elim (Bool-cases (in_set a.0 seen_keys)) [
          | inl s ↦ rw s (first-Distinct (duplicate_key a ∷ seen) (a.0 ∷ seen_keys) affected)
          | inr s ↦ rw s (
            λ i.
                let (r, m, e) = In-map key_of_row a.0 _ i in
                let (n, f) = In-keep is_first r _ m in
                first_new (duplicate_key a ∷ seen) (a.0 ∷ seen_keys) affected r n f (inl (sym e)),
            first-Distinct (duplicate_key a ∷ seen) (a.0 ∷ seen_keys) affected,
          )
        ])
  ]

  first_covers :
      (seen seen_keys : List String) (affected : List (String × String)) (k : String)
      → In k (map key_of_row (rows t seen seen_keys affected))
      → In k seen_keys ⊎ In k (map key_of_row (keep is_first (rows t seen seen_keys affected)))
  first_covers seen seen_keys [] k i = absurd (rw (rows-nil t seen seen_keys) at i)
  first_covers seen seen_keys (a ∷ affected) k i =
      elim (Bool-cases (in_set (duplicate_key a) seen)) [
        | inl d ↦ rw (rows-skip t seen seen_keys a affected d) (
            first_covers seen seen_keys affected k
              (rw (rows-skip t seen seen_keys a affected d) at i))
        | inr d ↦
            rw (rows-take t seen seen_keys a affected d) (elim (Bool-cases (in_set a.0 seen_keys)) [
              | inl s ↦ rw s (elim (rw (rows-take t seen seen_keys a affected d) at i) [
                | inl e ↦ inl (subst (λ z. In z seen_keys) (sym e) ((in_set-In a.0 seen_keys).0 s))
                | inr m ↦
                    elim (first_covers (duplicate_key a ∷ seen) (a.0 ∷ seen_keys) affected k m) [
                      | inl (inl e) ↦
                          inl (subst (λ z. In z seen_keys) (sym e) ((in_set-In a.0 seen_keys).0 s))
                      | inl (inr j) ↦ inl j
                      | inr j ↦ inr j
                    ]
              ])
              | inr s ↦ rw s (elim (rw (rows-take t seen seen_keys a affected d) at i) [
                | inl e ↦ inr (inl e)
                | inr m ↦
                    elim (first_covers (duplicate_key a ∷ seen) (a.0 ∷ seen_keys) affected k m) [
                      | inl (inl e) ↦ inr (inl e)
                      | inl (inr j) ↦ inl j
                      | inr j ↦ inr (inr j)
                    ]
              ])
            ])
      ]

  -- Among the rows of a transaction that are not marked as duplicates no public key comes twice, and
  -- every public key that has a row has one of them.
  pub affected_rows_first :
      (affected : List (String × String)) (k : String)
      → Distinct (map key_of_row (keep is_first (affected_rows t affected)))
        × (In k (map key_of_row (keep is_first (affected_rows t affected)))
            ↔ In k (map key_of_row (affected_rows t affected)))
  unfolding affected_rows
  affected_rows_first affected k = (
    first-Distinct [] [] affected,
    (
      λ i.
          let (r, m, e) = In-map key_of_row k _ i in
          let (n, _) = In-keep is_first r _ m in
          subst (λ z. In z (map key_of_row (affected_rows_from t [] [] affected))) (sym e)
            (In-map_of key_of_row r _ n),
      λ i. elim (first_covers [] [] affected k i) [ inl j ↦ absurd j | inr j ↦ j ],
    ),
  )
