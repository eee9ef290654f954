-- ===== src/Go/Laws.antt =====
-- Inversion of steps that succeed, and the elements of a loop's result.
use postgres_data_handler.Base.{◌≡◌, refl, sym, subst, ◌⊎◌, inl, inr, String, List, [], ◌∷◌, In}
use postgres_data_handler.Go.{
  Error, Fault, Result, ok, err, panic, rewrap, restate, bind, map_result,
}

pub ok-injective : {A : Type 0} {a b : A} → ok a ≡ ok b → a ≡ b
ok-injective h = cc

pub Result-cases :
    {A : Type 0} (r : Result A)
    → ((a : A) × (r ≡ ok a)) ⊎ ((e : Error) × (r ≡ err e)) ⊎ ((p : Fault) × (r ≡ panic p))
Result-cases (ok a) = inl (a, refl)
Result-cases (err e) = inr (inl (e, refl))
Result-cases (panic p) = inr (inr (p, refl))

pub rewrap-eq-ok : {A : Type 0} (m : String) (r : Result A) {a : A} → rewrap m r ≡ ok a → r ≡ ok a
rewrap-eq-ok m (ok a) h = h
rewrap-eq-ok m (err e) h = cc
rewrap-eq-ok m (panic p) h = cc

pub restate-eq-ok : {A : Type 0} (m : String) (r : Result A) {a : A} → restate m r ≡ ok a → r ≡ ok a
restate-eq-ok m (ok a) h = h
restate-eq-ok m (err e) h = cc
restate-eq-ok m (panic p) h = cc

pub bind-eq-ok :
    {A B : Type 0} (r : Result A) (f : A → Result B) {b : B}
    → bind r f ≡ ok b
    → (a : A) × (r ≡ ok a) × (f a ≡ ok b)
bind-eq-ok (ok a) f h = (a, refl, h)
bind-eq-ok (err e) f h = cc
bind-eq-ok (panic p) f h = cc

-- The result of a loop over `x ∷ xs` is that for `x` before that of the loop over `xs`.
pub map_result-cons :
    {A B : Type 0} (f : A → Result B) (x : A) (xs : List A) {ys : List B}
    → map_result f (x ∷ xs) ≡ ok ys
    → (z : B) × (zs : List B) × (f x ≡ ok z) × (map_result f xs ≡ ok zs) × (z ∷ zs ≡ ys)
unfolding map_result
map_result-cons f x xs h =
    let (z, p, k) = bind-eq-ok (f x) _ h in
    let (zs, q, j) = bind-eq-ok (map_result f xs) (λ ys. ok (z ∷ ys)) k in
    (z, zs, p, q, ok-injective j)

-- Every element of a loop's result comes from one of its inputs, and each input gives one.
pub In-map_result :
    {A B : Type 0} (f : A → Result B) (xs : List A) (ys : List B)
    → map_result f xs ≡ ok ys
    → (y : B) → In y ys
    → (x : A) × In x xs × (f x ≡ ok y)
unfolding map_result
In-map_result f [] [] h y m = absurd m
In-map_result f [] (y' ∷ ys) h y m = cc
In-map_result {A} {B} f (x ∷ xs) ys h y m =
    let (z, zs, p, q, j) = map_result-cons f x xs h in go z zs p j (In-map_result f xs zs q y)
  where
    go :
        (z : B) (zs : List B)
        → f x ≡ ok z
        → z ∷ zs ≡ ys
        → (In y zs → (x : A) × In x xs × (f x ≡ ok y))
        → (x' : A) × In x' (x ∷ xs) × (f x' ≡ ok y)
    go z zs p j later = elim (subst (In y) (sym j) m) [
      | inl e ↦ (x, inl refl, subst (λ b. f x ≡ ok b) (sym e) p)
      | inr k ↦ let (x', i, r) = later k in (x', inr i, r)
    ]

pub map_result_of :
    {A B : Type 0} (f : A → Result B) (xs : List A) {ys : List B}
    → map_result f xs ≡ ok ys
    → (x : A) → In x xs
    → (y : B) × (f x ≡ ok y) × In y ys
map_result_of f [] h x m = absurd m
map_result_of f (z ∷ xs) h x (inl e) =
    let (y, ys, p, q, j) = map_result-cons f z xs h in (y, rw e p, subst (In y) j (inl refl))
map_result_of f (z ∷ xs) h x (inr m) =
    let (y, ys, p, q, j) = map_result-cons f z xs h in
    let (v, r, i) = map_result_of f xs q x m in (v, r, subst (In v) j (inr i))
