-- ===== src/Entries/Cached/Laws.antt =====
-- The cache agrees with the tables: what is cached is stored.
use postgres_data_handler.Base.{
  ◌≡◌, refl, sym, ◌∙◌, ◌≢◌, ◌⊎◌, inl, inr, Bool-cases, some, List, [], ◌∷◌, In, Bytes, bytes_eq,
  bytes_eq_iff,
}
use postgres_data_handler.Core.{StateChangeEntry, keys_of}
use postgres_data_handler.Env.{Env}
use postgres_data_handler.Env.Lawful.{IsCache}
use postgres_data_handler.Entries.Cached.{add_all, remove_all}

pub Bytes-cases : (a b : Bytes) → (a ≡ b) ⊎ (a ≢ b)
Bytes-cases a b = elim (Bool-cases (bytes_eq a b)) [
  | inl t ↦ inl ((bytes_eq_iff a b).0 t)
  | inr f ↦ inr (λ e. cc ((bytes_eq_iff a b).1 e))
]

module _ (X : Env) (L : IsCache X) where
  -- After the loop a key has the bytes of an entry that was added, or its old ones if it was none's.
  pub get-add_all :
      (es : List StateChangeEntry) (c : X.Cache) (k b : Bytes)
      → X.cache_get (add_all X es c) k ≡ some b
      → ((e : StateChangeEntry) × In e es × (e.key_bytes ≡ k) × (e.encoder_bytes ≡ b))
        ⊎ ((X.cache_get c k ≡ some b) × ¬ In k (keys_of es))
  unfolding add_all
  get-add_all [] c k b h = inr (h, λ i. i)
  get-add_all (e ∷ es) c k b h = elim (get-add_all es _ k b h) [
    | inl (x, i, p, q) ↦ inl (x, inr i, p, q)
    | inr (g, away) ↦ elim (Bytes-cases k e.key_bytes) [
      | inl same ↦ inl (e, inl refl, sym same, cc (L.get-add_self e.key_bytes e.encoder_bytes c))
      | inr other ↦ elim (L.get-add e.key_bytes e.encoder_bytes c k b g) [
        | inl (same, v) ↦ absurd (other same)
        | inr old ↦ inr (old, λ i. elim i [ inl p ↦ other p | inr j ↦ away j ])
      ]
    ]
  ]

  -- After the loop a key that is left was not removed, and has its old bytes.
  pub get-remove_all :
      (ks : List Bytes) (c : X.Cache) (k b : Bytes)
      → X.cache_get (remove_all X ks c) k ≡ some b
      → (X.cache_get c k ≡ some b) × ¬ In k ks
  unfolding remove_all
  get-remove_all [] c k b h = (h, λ i. i)
  get-remove_all (j ∷ ks) c k b h =
      let (g, away) = get-remove_all ks (X.cache_remove j c) k b h in
      elim (Bytes-cases k j) [
        | inl same ↦ cc (L.get-remove_self j c)
        | inr other ↦
            (cc (L.get-remove j c k other), λ i. elim i [ inl p ↦ other p | inr m ↦ away m ])
      ]

  -- The loop leaves the other keys alone.
  pub get-remove_all_other :
      (ks : List Bytes) (c : X.Cache) (k : Bytes)
      → ¬ In k ks
      → X.cache_get (remove_all X ks c) k ≡ X.cache_get c k
  unfolding remove_all
  get-remove_all_other [] c k away = refl
  get-remove_all_other (j ∷ ks) c k away =
      get-remove_all_other ks (X.cache_remove j c) k (λ i. away (inr i))
      ∙ L.get-remove j c k (λ e. away (inl e))
