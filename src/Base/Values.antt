-- ===== src/Base/Values.antt =====
-- Values that the program copies and does not compute with.
use Prim.Native.Nat.{ℕ}
use Prim.Native.String.{String}

-- Go's signed integers; `negsuc n` is -(n + 1).
pub data ℤ : Type 0 where
  pos : ℕ → ℤ
  negsuc : ℕ → ℤ

-- A `time.Time`, as the number that stands for it.
abbrev pub Time : Type 0
Time = ℕ

-- A value that is stored as `jsonb`, as its text.
abbrev pub Json : Type 0
Json = String
