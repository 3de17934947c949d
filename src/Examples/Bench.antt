-- ===== src/Examples/Bench.antt =====
-- A run of the Silo benchmark.
use raft_2pl.Prelude.{ℕ, zero, suc, ◌≡◌, refl, add32, arith}
use raft_2pl.Twopl.Bank.{All}
use raft_2pl.Silo.Barrier.{
  Bench, BenchSteps, WorkerPhase, new_bench, worker_turn, main_turn, begins, works, mains, stopped,
  returned,
}
use raft_2pl.Silo.Barrier.Ending.{BenchSteps-ends}

-- A benchmark with one thread: it counts down, `main` sees that and starts it, sleeps, and stops it.
abbrev bench_end : Bench
bench_end =
    worker_turn (main_turn (worker_turn (main_turn (main_turn (worker_turn (new_bench 1) 0))) 0)) 0

abbrev bench_run : BenchSteps (new_bench 1) bench_end
bench_run = works (mains (works (mains (mains (works begins 0))) 0)) 0

bench_end-stays : (i : ℕ) → worker_turn bench_end i ≡ bench_end
unfolding new_bench worker_turn main_turn add32
bench_end-stays zero = refl
bench_end-stays (suc i) = refl

BenchSteps-ends_example :
    (bench_end.main ≡ stopped) × All (λ (w : WorkerPhase). w ≡ returned) bench_end.workers
unfolding new_bench worker_turn main_turn add32
BenchSteps-ends_example = BenchSteps-ends 1 bench_end (omega arith) bench_run bench_end-stays refl
