-- ===== src/Tests/Equality.antt =====
-- Decisions on tables and column values, for the database of the tests.
use postgres_data_handler.Base.{Bool-cases, inl, inr, String, Option, List}
use native.Mathlib.Decide.{ℕ_discrete}
use text.Mathlib.Text as Text
use text.Mathlib.TextEquality.{eq_iff}
use postgres_data_handler.Schema.{Table, Value}

String-discrete : Discrete String
String-discrete s t = elim (Bool-cases (Text.◌==◌ s t)) [
  | inl e ↦ yes ((eq_iff s t).0 e)
  | inr e ↦ no (λ p. cc ((eq_iff s t).1 p))
]

pub Table-discrete : Discrete Table
Table-discrete = hlevel

pub values-discrete : Discrete (List (Option Value))
values-discrete = hlevel (ℕ_discrete, String-discrete)

pub value-discrete : Discrete (Option Value)
value-discrete = hlevel (ℕ_discrete, String-discrete)
