-- ===== src/Silo/Barrier.antt =====
-- The start and the end of the Silo benchmark: class Synchronizer of
-- src/silo/include/synchronizer.hh, with its calls in worker and main of src/silo/silo.cc.
use raft_2pl.Prelude.{
  ℕ, zero, suc, ◌%◌, Int32, add32, slt, minus_one, u32, Bool, true, false, if◌then◌else◌, List, [],
  ◌∷◌,
}
pub mod Order
pub mod Ending

pub record Synchronizer : Type 0 where
  pub start : Bool
  pub quit : Bool
  pub count : Int32

-- A thread of the benchmark: before `wait_start`, in its loop, in the loop of `worker`, and after it.
pub data WorkerPhase : Type 0 where
  created waiting running returned : WorkerPhase

-- `main`: in the loop of `set_start`, after the loop, in its sleep, and after `set_quit`.
pub data MainPhase : Type 0 where
  counting counted sleeping stopped : MainPhase

pub record Bench : Type 0 where
  pub sync : Synchronizer
  pub main : MainPhase
  pub workers : List WorkerPhase

pub init_count : ℕ → Synchronizer
init_count n = record { start = false; quit = false; count = n % u32 }

pub start_workers : ℕ → List WorkerPhase
start_workers zero = []
start_workers (suc n) = created ∷ start_workers n

unfoldable pub new_bench : ℕ → Bench
unfolding init_count start_workers
new_bench n = record { sync = init_count n; main = counting; workers = start_workers n }

-- The next access of a worker to the synchronizer: those of `wait_start`, then the tests of `quit`,
-- between which it runs transactions.
pub wait_start : WorkerPhase → Synchronizer → WorkerPhase × Synchronizer
wait_start created s = (waiting, record s { count = add32 s.count minus_one })
wait_start waiting s = (if s.start then running else waiting, s)
wait_start running s = (if s.quit then returned else running, s)
wait_start returned s = (returned, s)

-- The next access of `main` to the synchronizer: those of `set_start`, then `set_quit`.
pub set_start : MainPhase → Synchronizer → MainPhase × Synchronizer
set_start counting s = (if slt 0 s.count then counting else counted, s)
set_start counted s = (sleeping, record s { start = true })
set_start sleeping s = (stopped, record s { quit = true })
set_start stopped s = (stopped, s)

pub turn_at : ℕ → List WorkerPhase → Synchronizer → List WorkerPhase × Synchronizer
turn_at i [] s = ([], s)
turn_at zero (w ∷ ws) s = let r = wait_start w s in (r.0 ∷ ws, r.1)
turn_at (suc i) (w ∷ ws) s = let r = turn_at i ws s in (w ∷ r.0, r.1)

unfoldable pub worker_turn : Bench → ℕ → Bench
unfolding turn_at wait_start
worker_turn b i = let r = turn_at i b.workers b.sync in record b { sync = r.1; workers = r.0 }

unfoldable pub main_turn : Bench → Bench
unfolding set_start
main_turn b = let r = set_start b.main b.sync in record b { sync = r.1; main = r.0 }

-- The threads in any order.
pub data BenchSteps (b : Bench) : Bench → Type 0 where
  begins : BenchSteps b b
  works : {d : Bench} → BenchSteps b d → (i : ℕ) → BenchSteps b (worker_turn d i)
  mains : {d : Bench} → BenchSteps b d → BenchSteps b (main_turn d)
