-- ===== src/Entries/Batch/Statements.antt =====
-- What a statement leaves, read off the result of `exec` under any number of wraps.
use postgres_data_handler.Base.{◌≡◌, refl, ◌≢◌, ◌↔◌, inl, inr, String, arith, Option-cases}
use postgres_data_handler.Go.{Result, ok, err, panic, rewrap}
use postgres_data_handler.Schema.{Table, Row}
use postgres_data_handler.Env.{Env, World, Statement, exec}
use postgres_data_handler.Env.Lawful.{after, Succeeds, IsDatabase}

pub rewrap-eq-ok : {A : Type 0} (m : String) (r : Result A) {a : A} → rewrap m r ≡ ok a → r ≡ ok a
rewrap-eq-ok m (ok a) h = h
rewrap-eq-ok m (err e) h = cc
rewrap-eq-ok m (panic p) h = cc

module _ (X : Env) (q : Statement) (w : World X) where
  pub exec_ok : (exec X q w).0 ≡ ok tt → Succeeds X q w.database
  unfolding exec
  exec_ok h = ground arith

  pub database-exec : (exec X q w).1.database ≡ after X q w.database
  unfolding exec
  database-exec = refl

  pub cache-exec : (exec X q w).1.cache ≡ w.cache
  unfolding exec
  cache-exec = refl

  -- A statement that does not return nil has changed no table.
  pub exec_failed :
      (D : IsDatabase X)
      → (exec X q w).0 ≢ ok tt
      → (t : Table) (r : Row) → D.Stored (exec X q w).1.database t r ↔ D.Stored w.database t r
  unfolding exec
  exec_failed D h t r = elim (Option-cases (X.exec_statement q w.database).0) [
    | inl e ↦ absurd (h (rw e))
    | inr (e, p) ↦ D.failed q w.database p t r
  ]
