-- ===== src/Go.antt =====
-- Go's control flow: a function of the program reads and changes a world, and it returns, returns
-- an error, or panics. What was changed before an error or a panic stays changed.
pub mod Laws
pub mod Ensures
use postgres_data_handler.Base.{
  ℕ, leb, if◌then◌else◌, length, take, drop, String, Option, none, some, List, [], ◌∷◌,
}

-- `errors.New`, `fmt.Errorf`, an error of a library, and a cause under `errors.Wrapf`. The format
-- string stands for the message: its arguments are left out.
pub data Error : Type 0 where
  errorf : String → Error
  foreign : ℕ → Error
  wrapped : String → Error → Error

pub data Fault : Type 0 where
  index_out_of_range type_assertion nil_dereference : Fault

pub data Result {ℓ} (A : Type ℓ) : Type ℓ where
  ok : A → Result A
  err : Error → Result A
  panic : Fault → Result A

-- `errors.Wrapf(err, message)`: of a nil error it is nil.
unfoldable pub wrapf : Option Error → String → Option Error
wrapf none message = none
wrapf (some e) message = some (wrapped message e)

abbrev pub Exec {ℓ} : Type ℓ → Type ℓ → Type ℓ
Exec W A = W → Result A × W

abbrev pub pure {ℓ} : {W A : Type ℓ} → A → Exec W A
pure a w = (ok a, w)

abbrev pub fail {ℓ} : {W A : Type ℓ} → Error → Exec W A
fail e w = (err e, w)

abbrev pub lift {ℓ} : {W A : Type ℓ} → Result A → Exec W A
lift r w = (r, w)

abbrev pub continue {ℓ} : {W A B : Type ℓ} → Result A → (A → Exec W B) → Exec W B
continue (ok a) f w = f a w
continue (err e) f w = (err e, w)
continue (panic p) f w = (panic p, w)

infixl 5 ◌>>=◌ ◌>>◌
abbrev pub ◌>>=◌ {ℓ} : {W A B : Type ℓ} → Exec W A → (A → Exec W B) → Exec W B
◌>>=◌ m f w = let (r, w') = m w in continue r f w'

abbrev pub ◌>>◌ {ℓ} : {W A B : Type ℓ} → Exec W A → Exec W B → Exec W B
m >> n = m >>= λ _. n

-- `return err`.
abbrev pub return_error : Option Error → Result (Unit {0})
return_error none = ok tt
return_error (some e) = err e

-- `if err != nil { return errors.Wrapf(err, message) }`
abbrev pub rewrap {ℓ} : {A : Type ℓ} → String → Result A → Result A
rewrap message (ok a) = ok a
rewrap message (err e) = err (wrapped message e)
rewrap message (panic p) = panic p

abbrev pub wrap {ℓ} : {W A : Type ℓ} → String → Exec W A → Exec W A
wrap message m w = let (r, w') = m w in (rewrap message r, w')

-- `if err != nil { return fmt.Errorf("…: %v", err) }`, which keeps no cause.
abbrev pub restate {ℓ} : {A : Type ℓ} → String → Result A → Result A
restate message (ok a) = ok a
restate message (err e) = err (errorf message)
restate message (panic p) = panic p

abbrev pub reword {ℓ} : {W A : Type ℓ} → String → Exec W A → Exec W A
reword message m w = let (r, w') = m w in (restate message r, w')

-- A pure step that may fail, followed by another.
abbrev pub bind {ℓ κ} : {A : Type ℓ} {B : Type κ} → Result A → (A → Result B) → Result B
bind (ok a) f = f a
bind (err e) f = err e
bind (panic p) f = panic p

-- A loop that fills a slice, and leaves at the first error.
unfoldable pub map_result {ℓ κ} :
    {A : Type ℓ} {B : Type κ} → (A → Result B) → List A → Result (List B)
map_result f [] = ok []
map_result f (x ∷ xs) =
    let rest = map_result f xs in bind (f x) (λ y. bind rest (λ ys. ok (y ∷ ys)))

-- `entries[0]`
unfoldable pub first {ℓ} : {A : Type ℓ} → List A → Result A
first [] = panic index_out_of_range
first (x ∷ xs) = ok x

-- `if len(xs) > 0 { … }`
abbrev pub unless_empty {ℓ} : {A W : Type ℓ} → List A → Exec W (Unit {ℓ}) → Exec W (Unit {ℓ})
unless_empty [] m w = (ok tt, w)
unless_empty (x ∷ xs) m w = m w

-- `xs[n:]` and `xs[:n]`, of slices whose capacity is their length.
unfoldable pub slice_from {ℓ} : {A : Type ℓ} → ℕ → List A → Result (List A)
slice_from n xs = if leb n (length xs) then ok (drop n xs) else panic index_out_of_range

unfoldable pub slice_to {ℓ} : {A : Type ℓ} → ℕ → List A → Result (List A)
slice_to n xs = if leb n (length xs) then ok (take n xs) else panic index_out_of_range
