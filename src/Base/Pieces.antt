-- ===== src/Base/Pieces.antt =====
-- A list that is put together of pieces, one for each element of another list at its index.
use Prim.Native.Nat.{ℕ, zero, suc, ◌+◌}
use mathlib.Core.Path.{◌≡◌, refl, sym, subst}
use mathlib.Core.Logic.{inl, inr}
use mathlib.Core.Option.{some}
use mathlib.Core.List.{List, [], ◌∷◌, ◌++◌}
use native.Mathlib.Omega.{arith}
use postgres_data_handler.Base.Lists.{get_elem?, In, In-append, In-append_left, In-append_right}

module _ {A B : Type 0} (P : ℕ → A → List B → Type 0) where
  -- `ys` is the pieces for `xs` in order, the first element's index being `n`.
  abbrev pub Concats : ℕ → List A → List B → Type 0
  Concats n [] ys = ys ≡ []
  Concats n (x ∷ xs) ys =
      (piece : List B) × (rest : List B) × (ys ≡ piece ++ rest)
      × P n x piece
      × Concats (suc n) xs rest

  -- What is in the list is in the piece of an element.
  pub Concats-In :
      (n : ℕ) (xs : List A) (ys : List B) (y : B)
      → Concats n xs ys
      → In y ys
      → (i : ℕ) × (x : A) × (piece : List B) × (get_elem? xs i ≡ some x)
        × P (n + i) x piece
        × In y piece
  Concats-In n [] ys y c m = absurd (subst (In y) c m)
  Concats-In n (x ∷ xs) ys y (piece, rest, e, p, c) m =
      elim (In-append y piece rest (subst (In y) e m)) [
        | inl a ↦ (0, x, piece, refl, subst (λ z. P z x piece) (omega arith) p, a)
        | inr b ↦
            let (i, u, q, g, r, j) = Concats-In (suc n) xs rest y c b in
            (suc i, u, q, g, subst (λ z. P z u q) (omega arith) r, j)
      ]

  -- Each element has its piece, and what is in the piece is in the list.
  pub Concats-of :
      (n : ℕ) (xs : List A) (ys : List B) (i : ℕ) (x : A)
      → Concats n xs ys
      → get_elem? xs i ≡ some x
      → (piece : List B) × P (n + i) x piece × ((y : B) → In y piece → In y ys)
  Concats-of n [] ys i x c g = cc
  Concats-of n (u ∷ xs) ys zero x (piece, rest, e, p, c) g =
      let same : u ≡ x = cc in
      (
        piece,
        subst (λ z. P (n + 0) z piece) same (subst (λ z. P z u piece) (omega arith) p),
        λ y m. subst (In y) (sym e) (In-append_left y piece rest m),
      )
  Concats-of n (u ∷ xs) ys (suc i) x (piece, rest, e, p, c) g =
      let (q, r, f) = Concats-of (suc n) xs rest i x c g in
      (
        q,
        subst (λ z. P z x q) (omega arith) r,
        λ y m. subst (In y) (sym e) (In-append_right y piece rest (f y m)),
      )
