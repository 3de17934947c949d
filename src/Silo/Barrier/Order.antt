-- ===== src/Silo/Barrier/Order.antt =====
-- The order of the threads at the barrier of src/silo/include/synchronizer.hh: the count and the
-- start flag.
use raft_2pl.Prelude.{
  ℕ, zero, suc, ◌+◌, ◌<◌, ◌≤◌, ◌≡◌, ◌∙◌, refl, add32, slt, sign_bit, true, false, List, [], ◌∷◌,
  ◌⊎◌, inl, inr, Bool-cases, arith,
}
use raft_2pl.Twopl.Bank.{All}
use raft_2pl.Silo.Barrier.{
  Synchronizer, WorkerPhase, MainPhase, Bench, BenchSteps, init_count, start_workers, new_bench,
  wait_start, set_start, turn_at, worker_turn, main_turn, created, waiting, running, returned,
  counting, counted, sleeping, stopped, begins, works, mains,
}

-- The thread has not left `wait_start`.
abbrev IsHeld : WorkerPhase → Type 0
IsHeld created = Unit
IsHeld waiting = Unit
IsHeld running = ⊥
IsHeld returned = ⊥

-- The thread has counted down.
abbrev HasCounted : WorkerPhase → Type 0
HasCounted created = ⊥
HasCounted waiting = Unit
HasCounted running = Unit
HasCounted returned = Unit

pub is_created : WorkerPhase → ℕ
is_created created = 1
is_created waiting = 0
is_created running = 0
is_created returned = 0

pub missing : List WorkerPhase → ℕ
missing [] = 0
missing (w ∷ ws) = is_created w + missing ws

abbrev pub Passed : MainPhase → ℕ → Type 0
Passed counting m = Unit
Passed counted m = m ≡ 0
Passed sleeping m = Unit
Passed stopped m = Unit

abbrev pub Started : MainPhase → Synchronizer → Type 0
Started counting s = Unit
Started counted s = Unit
Started sleeping s = s.start ≡ true
Started stopped s = (s.start ≡ true) × (s.quit ≡ true)

pub record IsOrderly (b : Bench) : Type 0 where
  pub counts : b.sync.count ≡ missing b.workers
  pub bounded : missing b.workers < sign_bit
  pub passed : Passed b.main (missing b.workers)
  pub started : Started b.main b.sync
  pub held : ((b.sync.start ≡ false) × All IsHeld b.workers) ⊎ (missing b.workers ≡ 0)

missing-start_workers : (n : ℕ) → missing (start_workers n) ≡ n
unfolding missing start_workers is_created
missing-start_workers zero = refl
missing-start_workers (suc n) = let h = missing-start_workers n in omega arith

start_workers-IsHeld : (n : ℕ) → All IsHeld (start_workers n)
unfolding start_workers
start_workers-IsHeld zero = tt
start_workers-IsHeld (suc n) = (tt, start_workers-IsHeld n)

missing-HasCounted : (ws : List WorkerPhase) → missing ws ≡ 0 → All HasCounted ws
unfolding missing is_created
missing-HasCounted [] h = tt
missing-HasCounted (created ∷ ws) h = absurd (omega arith)
missing-HasCounted (waiting ∷ ws) h = (tt, missing-HasCounted ws (omega arith))
missing-HasCounted (running ∷ ws) h = (tt, missing-HasCounted ws (omega arith))
missing-HasCounted (returned ∷ ws) h = (tt, missing-HasCounted ws (omega arith))

-- A turn of a worker in a list, where `others` threads outside of it have not counted down.
turn_at-counts :
    (i others : ℕ) (ws : List WorkerPhase) (s : Synchronizer)
    → s.count ≡ others + missing ws
    → s.count < sign_bit
    → let r = turn_at i ws s in
      (r.1.count ≡ others + missing r.0)
      × (r.1.count ≤ s.count)
      × (r.1.start ≡ s.start)
      × (r.1.quit ≡ s.quit)
unfolding turn_at wait_start missing is_created add32
turn_at-counts i others [] s h lt = (h, omega arith, refl, refl)
turn_at-counts zero others (created ∷ ws) s h lt = (omega arith, omega arith, refl, refl)
turn_at-counts zero others (waiting ∷ ws) s h lt = elim (Bool-cases s.start) [
  | inl e ↦ rw e (h, omega arith, refl, refl)
  | inr e ↦ rw e (h, omega arith, refl, refl)
]
turn_at-counts zero others (running ∷ ws) s h lt = elim (Bool-cases s.quit) [
  | inl e ↦ rw e (h, omega arith, refl, refl)
  | inr e ↦ rw e (h, omega arith, refl, refl)
]
turn_at-counts zero others (returned ∷ ws) s h lt = (h, omega arith, refl, refl)
turn_at-counts (suc i) others (w ∷ ws) s h lt =
    let r = turn_at-counts i (others + is_created w) ws s (omega arith) lt in
    (omega arith, r.1, r.2, r.3)

turn_at-IsHeld :
    (i : ℕ) (ws : List WorkerPhase) (s : Synchronizer)
    → s.start ≡ false
    → All IsHeld ws
    → All IsHeld (turn_at i ws s).0
unfolding turn_at wait_start
turn_at-IsHeld i [] s off h = tt
turn_at-IsHeld zero (created ∷ ws) s off h = (tt, h.1)
turn_at-IsHeld zero (waiting ∷ ws) s off h = rw off (tt, h.1)
turn_at-IsHeld zero (running ∷ ws) s off h = absurd h.0
turn_at-IsHeld zero (returned ∷ ws) s off h = absurd h.0
turn_at-IsHeld (suc i) (w ∷ ws) s off h = (h.0, turn_at-IsHeld i ws s off h.1)

-- No worker that has a turn changes: each has counted down.
pub stuck-missing :
    (ws : List WorkerPhase) (s : Synchronizer)
    → All (λ (w : WorkerPhase). (wait_start w s).0 ≡ w) ws
    → missing ws ≡ 0
unfolding wait_start missing is_created
stuck-missing [] s h = refl
stuck-missing (created ∷ ws) s h = absurd (cc (h.0))
stuck-missing (waiting ∷ ws) s h = let rest = stuck-missing ws s h.1 in omega arith
stuck-missing (running ∷ ws) s h = let rest = stuck-missing ws s h.1 in omega arith
stuck-missing (returned ∷ ws) s h = let rest = stuck-missing ws s h.1 in omega arith

Passed-le : (main : MainPhase) (m k : ℕ) → k ≤ m → Passed main m → Passed main k
Passed-le counting m k le h = tt
Passed-le counted m k le h = omega arith
Passed-le sleeping m k le h = tt
Passed-le stopped m k le h = tt

Started-keep :
    (main : MainPhase) (s t : Synchronizer)
    → t.start ≡ s.start
    → t.quit ≡ s.quit
    → Started main s
    → Started main t
Started-keep counting s t start quit h = tt
Started-keep counted s t start quit h = tt
Started-keep sleeping s t start quit h = start ∙ h
Started-keep stopped s t start quit h = (start ∙ h.0, quit ∙ h.1)

worker_turn-IsOrderly : (b : Bench) (i : ℕ) → IsOrderly b → IsOrderly (worker_turn b i)
unfolding worker_turn
worker_turn-IsOrderly b i h =
    let bounded : missing b.workers < sign_bit = h.bounded in
    let counts : b.sync.count ≡ missing b.workers = h.counts in
    let r = turn_at-counts i 0 b.workers b.sync (omega arith) (omega arith) in
    let fewer : missing (turn_at i b.workers b.sync).0 ≤ missing b.workers = omega arith in
    record {
      counts = omega arith;
      bounded = omega arith;
      passed = Passed-le b.main _ _ fewer h.passed;
      started = Started-keep b.main b.sync _ r.2 r.3 h.started;
      held = elim h.held [
        | inl off ↦ inl (r.2 ∙ off.0, turn_at-IsHeld i b.workers b.sync off.0 off.1)
        | inr all ↦ inr (omega arith)
      ];
    }

none_left : (m : ℕ) → m < sign_bit → slt 0 m ≡ false → m ≡ 0
none_left m lt e = ground arith

set_start-IsOrderly :
    (main : MainPhase) (s : Synchronizer) (ws : List WorkerPhase)
    → IsOrderly (record { sync = s; main = main; workers = ws })
    → IsOrderly (main_turn (record { sync = s; main = main; workers = ws }))
unfolding main_turn set_start
set_start-IsOrderly counting s ws h = elim (Bool-cases (slt 0 s.count)) [
  | inl e ↦ rw e h
  | inr e ↦
      let bounded : missing ws < sign_bit = h.bounded in
      let counts : s.count ≡ missing ws = h.counts in
      rw e (record {
        counts = h.counts;
        bounded = h.bounded;
        passed = none_left (missing ws) bounded (rw counts at e);
        started = tt;
        held = h.held;
      })
]
set_start-IsOrderly counted s ws h = record {
  counts = h.counts;
  bounded = h.bounded;
  passed = tt;
  started = refl;
  held = inr h.passed;
}
set_start-IsOrderly sleeping s ws h = record {
  counts = h.counts;
  bounded = h.bounded;
  passed = tt;
  started = (h.started, refl);
  held = h.held;
}
set_start-IsOrderly stopped s ws h = h

main_turn-IsOrderly : (b : Bench) → IsOrderly b → IsOrderly (main_turn b)
main_turn-IsOrderly b h = set_start-IsOrderly b.main b.sync b.workers h

new_bench-IsOrderly : (n : ℕ) → n < sign_bit → IsOrderly (new_bench n)
unfolding new_bench init_count
new_bench-IsOrderly n lt =
    let m = missing-start_workers n in
    record {
      counts = omega arith;
      bounded = omega arith;
      passed = tt;
      started = tt;
      held = inl (refl, start_workers-IsHeld n);
    }

pub BenchSteps-IsOrderly :
    (n : ℕ) (b : Bench) → n < sign_bit → BenchSteps (new_bench n) b → IsOrderly b
BenchSteps-IsOrderly n b lt begins = new_bench-IsOrderly n lt
BenchSteps-IsOrderly n b lt (works {d} steps i) =
    worker_turn-IsOrderly d i (BenchSteps-IsOrderly n d lt steps)
BenchSteps-IsOrderly n b lt (mains {d} steps) =
    main_turn-IsOrderly d (BenchSteps-IsOrderly n d lt steps)

-- Fewer than 2 ^ 31 threads, in whatever order they and `main` take their turns: either no thread
-- has left `wait_start`, or every thread has counted down.
BenchSteps-IsHeld :
    (n : ℕ) (b : Bench)
    → n < sign_bit
    → BenchSteps (new_bench n) b
    → All IsHeld b.workers ⊎ All HasCounted b.workers
BenchSteps-IsHeld n b lt steps = elim (BenchSteps-IsOrderly n b lt steps).held [
  | inl off ↦ inl off.1
  | inr all ↦ inr (missing-HasCounted b.workers all)
]
