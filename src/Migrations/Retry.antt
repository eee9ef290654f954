-- ===== src/Migrations/Retry.antt =====
-- RunMigrationWithRetries of migrations/post_sync_migrations/migration_helpers.go. The database and
-- the query's deadline are in the state that an attempt reads and changes.
use postgres_data_handler.Base.{
  ℕ, zero, suc, ◌+◌, ◌*◌, ◌^◌, ◌<◌, ◌≡◌, inl, inr, refl, ap, Option, none, some, Option-cases, List,
  [], ◌∷◌, arith,
}
use native.Mathlib.Numerals.{unary_clauses}
use postgres_data_handler.Go.{Error, errorf, Result, ok, err}

abbrev pub retry_limit : ℕ
retry_limit = 10

-- The wait after attempt `ii`, in seconds.
abbrev pub wait_time : ℕ → ℕ
wait_time ii = 5 * 2 ^ ii

abbrev pub total : List ℕ → ℕ
total [] = 0
total (w ∷ ws) = w + total ws

abbrev pub Outcome : Type 0 → Type 0
Outcome S = Result (Unit {0}) × List ℕ × S

-- What follows attempt `ii`: nothing on success, else the wait and the rest of the loop.
abbrev pub after_attempt : {S : Type 0} → Option Error → ℕ → S → Outcome S → Outcome S
after_attempt none ii s rest = (ok tt, [], s)
after_attempt (some e) ii s rest = (rest.0, wait_time ii ∷ rest.1, rest.2)

module _ {S : Type 0} (exec_context : S → Option Error × S) where
  -- The loop with the attempts that are left, from attempt `ii`: its result, the waits in order, and
  -- the state.
  unfoldable pub attempts : ℕ → ℕ → S → Outcome S
  attempts zero ii s = (err (errorf "Failed to migrate after 5 attempts"), [], s)
  attempts (suc left) ii s =
      after_attempt (exec_context s).0 ii (exec_context s).1
        (attempts left (suc ii) (exec_context s).1)

  unfoldable pub run_migration_with_retries : S → Outcome S
  run_migration_with_retries s = attempts retry_limit 0 s

  -- The state after a number of attempts.
  abbrev pub tried : ℕ → S → S
  tried zero s = s
  tried (suc k) s = tried k (exec_context s).1

  -- The first attempt that succeeds is that with number `k`.
  abbrev pub FirstSuccess : ℕ → S → Type 0
  FirstSuccess zero s = (exec_context s).0 ≡ none
  FirstSuccess (suc k) s =
      ((e : Error) × ((exec_context s).0 ≡ some e)) × FirstSuccess k (exec_context s).1

  doubled : (ii : ℕ) → 2 ^ suc ii ≡ 2 * 2 ^ ii
  doubled ii = simp unary_clauses (omega arith)

  no_wait : (ii : ℕ) → 0 + 5 * 2 ^ ii ≡ 5 * 2 ^ (ii + 0)
  no_wait ii =
      let e : ii ≡ ii + 0 = omega arith in
      let f : 5 * 2 ^ ii ≡ 5 * 2 ^ (ii + 0) = ap (λ z. 5 * 2 ^ z) e in omega (arith, f)

  attempts_success :
      (n ii k : ℕ) (s : S)
      → FirstSuccess k s
      → k < n
      → ((attempts n ii s).0 ≡ ok tt)
        × (total (attempts n ii s).1 + 5 * 2 ^ ii ≡ 5 * 2 ^ (ii + k))
        × ((attempts n ii s).2 ≡ tried (suc k) s)
  unfolding attempts
  attempts_success zero ii k s h l = absurd (omega arith)
  attempts_success (suc n) ii zero s h l = rw h (refl, no_wait ii, refl)
  attempts_success (suc n) ii (suc k) s ((e, p), h) l =
      let (r, t, f) = attempts_success n (suc ii) k (exec_context s).1 h (omega arith) in
      let same : 5 * 2 ^ (suc ii + k) ≡ 5 * 2 ^ (ii + suc k) = ap (λ z. 5 * 2 ^ z) (omega arith) in
      rw p (r, omega (arith, t, doubled ii, same), f)

  attempts_failure :
      (n ii : ℕ) (s : S)
      → ((k : ℕ) → k < n → ¬ FirstSuccess k s)
      → ((attempts n ii s).0 ≡ err (errorf "Failed to migrate after 5 attempts"))
        × (total (attempts n ii s).1 + 5 * 2 ^ ii ≡ 5 * 2 ^ (ii + n))
        × ((attempts n ii s).2 ≡ tried n s)
  unfolding attempts
  attempts_failure zero ii s h = (refl, no_wait ii, refl)
  attempts_failure (suc n) ii s h = elim (Option-cases (exec_context s).0) [
    | inl p ↦ absurd (h 0 (omega arith) p)
    | inr (e, p) ↦
        let (r, t, f) =
          attempts_failure n (suc ii) (exec_context s).1
            (λ k l g. h (suc k) (omega arith) ((e, p), g)) in
        let same : 5 * 2 ^ (suc ii + n) ≡ 5 * 2 ^ (ii + suc n) =
          ap (λ z. 5 * 2 ^ z) (omega arith) in
        rw p (r, omega (arith, t, doubled ii, same), f)
  ]

  -- If one of the first ten attempts succeeds and those before it fail, then the migration returns
  -- nil after that attempt, having waited 5 * (2 ^ k - 1) seconds, where k attempts failed.
  pub migration_retries :
      (k : ℕ) (s : S)
      → FirstSuccess k s
      → k < 10
      → ((run_migration_with_retries s).0 ≡ ok tt)
        × (total (run_migration_with_retries s).1 + 5 ≡ 5 * 2 ^ k)
        × ((run_migration_with_retries s).2 ≡ tried (suc k) s)
  unfolding run_migration_with_retries
  migration_retries k s h l =
      let (r, t, f) = attempts_success 10 0 k s h l in
      let same : 5 * 2 ^ (0 + k) ≡ 5 * 2 ^ k = ap (λ z. 5 * 2 ^ z) (omega arith) in
      (r, omega (arith, t, same), f)

  -- If none of the first ten attempts succeeds, then the migration returns its error after ten
  -- attempts, having waited 5115 seconds, the last wait included, which is less than the ninety
  -- minutes of its deadline.
  pub migration_gives_up :
      (s : S)
      → ((k : ℕ) → k < 10 → ¬ FirstSuccess k s)
      → ((run_migration_with_retries s).0 ≡ err (errorf "Failed to migrate after 5 attempts"))
        × (total (run_migration_with_retries s).1 ≡ 5115)
        × (total (run_migration_with_retries s).1 < 90 * 60)
        × ((run_migration_with_retries s).2 ≡ tried 10 s)
  unfolding run_migration_with_retries
  migration_gives_up s h =
      let (r, t, f) = attempts_failure 10 0 s h in
      let waited : total (attempts 10 0 s).1 ≡ 5115 = omega (arith, t) in
      (r, waited, omega (arith, waited), f)
