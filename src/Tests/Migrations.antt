-- ===== src/Tests/Migrations.antt =====
-- The theorems on the migrations, at a database that fails twice, at one that always fails, and at a
-- refresh that is running.
use postgres_data_handler.Base.{
  ℕ, zero, suc, ◌+◌, ◌*◌, ◌^◌, ◌≤◌, ◌<◌, ◌≡◌, ◌⊎◌, refl, Option, none, some, arith,
}
use postgres_data_handler.Go.{Error, errorf, foreign, ok, err}
use postgres_data_handler.Migrations.Retry.{
  run_migration_with_retries, total, tried, FirstSuccess, migration_retries, migration_gives_up,
}
use postgres_data_handler.Migrations.Refresh.{
  Refresh, waiting, sending, initial, Reachable, start, next, tick_passed, sent, refresh_exclusive,
}

-- The state counts the failures that are left.
abbrev fails_first : ℕ → Option Error × ℕ
fails_first zero = (none, 0)
fails_first (suc n) = (some (foreign n), n)

abbrev fails : ℕ → Option Error × ℕ
fails n = (some (foreign 0), suc n)

never : (k n : ℕ) → ¬ FirstSuccess fails k n
never zero n h = cc
never (suc k) n (_, h) = never k (suc n) h

migration_retries_example :
    ((run_migration_with_retries fails_first 2).0 ≡ ok tt)
    × (total (run_migration_with_retries fails_first 2).1 + 5 ≡ 5 * 2 ^ 2)
    × ((run_migration_with_retries fails_first 2).2 ≡ tried fails_first 3 2)
migration_retries_example =
    migration_retries fails_first 2 2 ((foreign 1, refl), ((foreign 0, refl), refl)) (omega arith)

migration_gives_up_example :
    ((run_migration_with_retries fails 0).0 ≡ err (errorf "Failed to migrate after 5 attempts"))
    × (total (run_migration_with_retries fails 0).1 ≡ 5115)
    × (total (run_migration_with_retries fails 0).1 < 90 * 60)
    × ((run_migration_with_retries fails 0).2 ≡ tried fails 10 0)
migration_gives_up_example = migration_gives_up fails 0 (λ k _. never k 0)

abbrev busy : Refresh
busy = record { phase = waiting; running = 1; executing = 1; executed = 0 }

busy-Reachable : Reachable busy
busy-Reachable =
    next (record { phase = sending; running = 0; executing = 0; executed = 0 }) busy
      (next initial (record { phase = sending; running = 0; executing = 0; executed = 0 }) start
        (tick_passed 0 0))
      (sent 0 0 0 (omega arith))

refresh_exclusive_example : (busy.executing ≤ 1) × ((busy.phase ≡ waiting) ⊎ (busy.running < 1))
refresh_exclusive_example = refresh_exclusive busy busy-Reachable
