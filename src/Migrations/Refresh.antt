-- ===== src/Migrations/Refresh.antt =====
-- RefreshExplorerStatistics of migrations/post_sync_migrations/migration_helpers.go: the goroutine
-- of one command, with the goroutines that it starts.
use postgres_data_handler.Base.{ℕ, suc, ◌+◌, ◌≤◌, ◌<◌, ◌≡◌, ◌⊎◌, inl, inr, refl, arith}

-- Where the loop stands: it waits for the ticker, or it has passed the test of the channel's length
-- and is about to send.
pub data Phase : Type 0 where
  waiting sending : Phase

-- The loop, the values in the channel `running`, the goroutines that execute the query, and those
-- that have executed it and not yet received.
pub record Refresh : Type 0 where
  pub phase : Phase
  pub running : ℕ
  pub executing : ℕ
  pub executed : ℕ

abbrev pub initial : Refresh
initial = record { phase = waiting; running = 0; executing = 0; executed = 0 }

-- One step of one of the goroutines. A send waits while the channel holds as many values as its
-- capacity, 1.
pub data Step : Refresh → Refresh → Type 0 where
  tick_skipped :
      (n x d : ℕ)
      → 0 < n
      → Step
          (record { phase = waiting; running = n; executing = x; executed = d })
          (record { phase = waiting; running = n; executing = x; executed = d })
  tick_passed :
      (x d : ℕ)
      → Step
          (record { phase = waiting; running = 0; executing = x; executed = d })
          (record { phase = sending; running = 0; executing = x; executed = d })
  sent :
      (n x d : ℕ)
      → n < 1
      → Step
          (record { phase = sending; running = n; executing = x; executed = d })
          (record { phase = waiting; running = suc n; executing = suc x; executed = d })
  query_executed :
      (p : Phase) (n x d : ℕ)
      → Step
          (record { phase = p; running = n; executing = suc x; executed = d })
          (record { phase = p; running = n; executing = x; executed = suc d })
  received :
      (p : Phase) (n x d : ℕ)
      → Step
          (record { phase = p; running = suc n; executing = x; executed = suc d })
          (record { phase = p; running = n; executing = x; executed = d })

pub data Reachable : Refresh → Type 0 where
  start : Reachable initial
  next : (s t : Refresh) → Reachable s → Step s t → Reachable t

-- What a loop that is about to send has seen.
abbrev Seen : Phase → ℕ → Type 0
Seen waiting n = Unit
Seen sending n = n ≡ 0

abbrev Invariant : Refresh → Type 0
Invariant s = (s.running ≡ s.executing + s.executed) × (s.running ≤ 1) × Seen s.phase s.running

Seen-pred : (p : Phase) (n : ℕ) → Seen p (suc n) → Seen p n
Seen-pred waiting n h = tt
Seen-pred sending n h = absurd (omega arith)

Invariant-Step : (s t : Refresh) → Invariant s → Step s t → Invariant t
Invariant-Step _ _ (a, b, c) (tick_skipped n x d h) = (a, b, tt)
Invariant-Step _ _ (a, b, c) (tick_passed x d) = (a, b, refl)
Invariant-Step _ _ (a, b, c) (sent n x d h) = (omega (arith, a), omega (arith, h), tt)
Invariant-Step _ _ (a, b, c) (query_executed p n x d) = (omega (arith, a), b, c)
Invariant-Step _ _ (a, b, c) (received p n x d) =
    (omega (arith, a), omega (arith, b), Seen-pred p n c)

Reachable-Invariant : (s : Refresh) → Reachable s → Invariant s
Reachable-Invariant _ start = (omega arith, omega arith, tt)
Reachable-Invariant _ (next s t r step) = Invariant-Step s t (Reachable-Invariant s r) step

-- However the goroutines of a command interleave, at most one of them executes its query, and a
-- loop that has passed the test finds room in the channel, so that its send does not wait.
pub refresh_exclusive :
    (s : Refresh) → Reachable s → (s.executing ≤ 1) × ((s.phase ≡ waiting) ⊎ (s.running < 1))
refresh_exclusive s r =
    let (a, b, c) = Reachable-Invariant s r in (omega (arith, a, b), room s.phase s.running c)
  where
    room : (p : Phase) (n : ℕ) → Seen p n → (p ≡ waiting) ⊎ (n < 1)
    room waiting n h = inl refl
    room sending n h = inr (omega (arith, h))
