-- ===== src/Go/Ensures.antt =====
-- What holds when a function returns, with a rule for each way to build one.
use postgres_data_handler.Base.{◌≡◌, refl, String, List, [], ◌∷◌, Bool, true, false, if◌then◌else◌}
use postgres_data_handler.Go.{
  Result, ok, err, panic, Exec, lift, continue, wrap, reword, unless_empty, ◌>>=◌,
}
use postgres_data_handler.Go.Laws.{rewrap-eq-ok, restate-eq-ok}

-- If `m` returns at `w`, its result and the world that it leaves have the property.
abbrev pub Ensures : {W A : Type 0} → Exec W A → W → (A → W → Type 0) → Type 0
Ensures {A} m w Q = (a : A) → (m w).0 ≡ ok a → Q a (m w).1

module _ {W A B : Type 0} where
  Ensures-continue :
      (r : Result A) (f : A → Exec W B) (w : W) (Q : B → W → Type 0)
      → ((a : A) → r ≡ ok a → Ensures (f a) w Q)
      → (b : B) → (continue r f w).0 ≡ ok b
      → Q b (continue r f w).1
  Ensures-continue (ok a) f w Q h b e = h a refl b e
  Ensures-continue (err x) f w Q h b e = cc
  Ensures-continue (panic x) f w Q h b e = cc

  pub Ensures-bind :
      (m : Exec W A) (f : A → Exec W B) (w : W) (Q : B → W → Type 0)
      → Ensures m w (λ a v. Ensures (f a) v Q)
      → Ensures (m >>= f) w Q
  Ensures-bind m f w Q h = Ensures-continue (m w).0 f (m w).1 Q h

module _ {W A : Type 0} where
  pub Ensures-lift :
      (r : Result A) (w : W) (Q : A → W → Type 0)
      → ((a : A) → r ≡ ok a → Q a w)
      → Ensures (lift r) w Q
  Ensures-lift r w Q h = h

  pub Ensures-wrap :
      (message : String) (m : Exec W A) (w : W) (Q : A → W → Type 0)
      → Ensures m w Q
      → Ensures (wrap message m) w Q
  Ensures-wrap message m w Q h a e = h a (rewrap-eq-ok message (m w).0 e)

  pub Ensures-reword :
      (message : String) (m : Exec W A) (w : W) (Q : A → W → Type 0)
      → Ensures m w Q
      → Ensures (reword message m) w Q
  Ensures-reword message m w Q h a e = h a (restate-eq-ok message (m w).0 e)

  pub Ensures-unless_empty :
      (xs : List A) (m : Exec W Unit) (w : W) (Q : Unit → W → Type 0)
      → (xs ≡ [] → Q tt w)
      → Ensures m w Q
      → Ensures (unless_empty xs m) w Q
  Ensures-unless_empty [] m w Q none_left h a e = none_left refl
  Ensures-unless_empty (x ∷ xs) m w Q none_left h a e = h a e

  -- A function that takes one of two ways and adds its message to an error of either.
  pub Ensures-wrap_if :
      (b : Bool) (message : String) (m n : Exec W A) (w : W) (Q : A → W → Type 0)
      → (b ≡ true → Ensures m w Q)
      → (b ≡ false → Ensures n w Q)
      → Ensures (wrap message (if b then m else n)) w Q
  Ensures-wrap_if true message m n w Q yes_way no_way = Ensures-wrap message m w Q (yes_way refl)
  Ensures-wrap_if false message m n w Q yes_way no_way = Ensures-wrap message n w Q (no_way refl)
