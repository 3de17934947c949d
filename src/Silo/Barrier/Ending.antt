-- ===== src/Silo/Barrier/Ending.antt =====
-- The end of the benchmark of src/silo/silo.cc: its threads do not wait for each other for ever.
use raft_2pl.Prelude.{ℕ, suc, ◌<◌, ◌≡◌, ◌∙◌, ap, refl, sign_bit, true, List, [], ◌∷◌}
use raft_2pl.Twopl.Bank.{All}
use raft_2pl.Silo.Barrier.{
  Synchronizer, WorkerPhase, MainPhase, Bench, BenchSteps, new_bench, wait_start, set_start,
  turn_at, worker_turn, main_turn, created, waiting, running, returned, counting, counted, sleeping,
  stopped,
}
use raft_2pl.Silo.Barrier.Order.{stuck-missing, IsOrderly, BenchSteps-IsOrderly}

-- No turn of a worker changes the workers.
abbrev IsStuck : List WorkerPhase → Synchronizer → Type 0
IsStuck ws s = (i : ℕ) → (turn_at i ws s).0 ≡ ws

IsStuck-All :
    (ws : List WorkerPhase) (s : Synchronizer)
    → IsStuck ws s
    → All (λ (w : WorkerPhase). (wait_start w s).0 ≡ w) ws
unfolding turn_at
IsStuck-All [] s stuck = tt
IsStuck-All (w ∷ ws) s stuck = (cc (stuck 0), IsStuck-All ws s (λ i. cc (stuck (suc i))))

stuck-returned :
    (ws : List WorkerPhase) (s : Synchronizer)
    → s.start ≡ true
    → s.quit ≡ true
    → All (λ (w : WorkerPhase). (wait_start w s).0 ≡ w) ws
    → All (λ (w : WorkerPhase). w ≡ returned) ws
unfolding wait_start
stuck-returned [] s start quit h = tt
stuck-returned (created ∷ ws) s start quit h = absurd (cc (h.0))
stuck-returned (waiting ∷ ws) s start quit h = absurd (cc (rw start at h.0))
stuck-returned (running ∷ ws) s start quit h = absurd (cc (rw quit at h.0))
stuck-returned (returned ∷ ws) s start quit h = (refl, stuck-returned ws s start quit h.1)

set_start-stuck :
    (main : MainPhase) (s : Synchronizer) (ws : List WorkerPhase)
    → IsOrderly (record { sync = s; main = main; workers = ws })
    → (set_start main s).0 ≡ main
    → All (λ (w : WorkerPhase). (wait_start w s).0 ≡ w) ws
    → (main ≡ stopped) × All (λ (w : WorkerPhase). w ≡ returned) ws
unfolding set_start
set_start-stuck counting s ws h stuck all =
    let none : s.count ≡ 0 = h.counts ∙ stuck-missing ws s all in absurd (cc (rw none at stuck))
set_start-stuck counted s ws h stuck all = absurd (cc stuck)
set_start-stuck sleeping s ws h stuck all = absurd (cc stuck)
set_start-stuck stopped s ws h stuck all = (refl, stuck-returned ws s h.started.0 h.started.1 all)

-- Fewer than 2 ^ 31 threads, in whatever order they and `main` have taken their turns: they do not
-- wait for each other for ever. When no turn of a thread or of `main` changes anything, `main` has
-- called `set_quit` and every worker has returned.
pub BenchSteps-ends :
    (n : ℕ) (b : Bench)
    → n < sign_bit
    → BenchSteps (new_bench n) b
    → ((i : ℕ) → worker_turn b i ≡ b)
    → main_turn b ≡ b
    → (b.main ≡ stopped) × All (λ (w : WorkerPhase). w ≡ returned) b.workers
unfolding worker_turn main_turn
BenchSteps-ends n b lt steps workers main =
    set_start-stuck b.main b.sync b.workers (BenchSteps-IsOrderly n b lt steps)
      (ap (λ (d : Bench). d.main) main)
      (IsStuck-All b.workers b.sync (λ i. ap (λ (d : Bench). d.workers) (workers i)))
