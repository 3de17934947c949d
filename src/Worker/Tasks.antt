-- ===== src/Worker/Tasks.antt =====
-- The transaction queue is first in, first out, and a task is handed out once.
use raft_2pl.Prelude.{
  ◌≡◌, ap, ◌⊎◌, refl, Int32, minus_one, ◌==◌, arith, inl, inr, Bool-cases, Bool, false, ◌||◌, List,
  [], ◌∷◌, ◌++◌,
}
use mathlib.Core.List.{append-nil}
use raft_2pl.Types.{TransReq}
use raft_2pl.Worker.{Task, WorkerInfo, xact_enqueue, xact_dequeue, take_task, task_load, task_store}

-- Enqueue all, then dequeue as many.
enqueue_all : WorkerInfo → List TransReq → WorkerInfo
enqueue_all wi [] = wi
enqueue_all wi (tx ∷ txs) = enqueue_all (xact_enqueue wi tx) txs

unfoldable pub has_task : List Task → Int32 → Bool
has_task [] lsn = false
has_task (x ∷ xs) lsn = x.lsn == lsn || has_task xs lsn

take_task-append :
    (xs ys : List Task) (t x : Task)
    → has_task xs x.lsn ≡ false
    → take_task (xs ++ x ∷ ys) x.lsn t ≡ (x, xs ++ ys)
unfolding take_task has_task
take_task-append [] ys t x h = ground arith
take_task-append (y ∷ xs) ys t x h = ground (arith, take_task-append xs ys t x)

take_task-absent :
    (xs : List Task) (t : Task) (lsn : Int32)
    → has_task xs lsn ≡ false
    → take_task xs lsn t ≡ (t, xs)
unfolding take_task has_task
take_task-absent [] t lsn h = refl
take_task-absent (y ∷ xs) t lsn h = ground (arith, take_task-absent xs t lsn)

-- What a search finds: nothing, or a first task with the number, which is taken out.
pub take_task-cases :
    (xs : List Task) (lsn : Int32) (t : Task)
    → ((has_task xs lsn ≡ false) × (take_task xs lsn t ≡ (t, xs)))
      ⊎ ((before : List Task) × (x : Task) × (rest : List Task) × (xs ≡ before ++ x ∷ rest)
          × (take_task xs lsn t ≡ (x, before ++ rest))
          × (x.lsn ≡ lsn))
unfolding has_task take_task
take_task-cases [] lsn t = inl (refl, refl)
take_task-cases (y ∷ xs) lsn t = elim (Bool-cases (y.lsn == lsn)) [
  | inl e ↦ inr ([], y, xs, refl, rw e, ground arith)
  | inr e ↦ elim (take_task-cases xs lsn t) [
    | inl (absent, same) ↦ inl (rw (e, absent), rw (e, same))
    | inr (before, x, rest, split, taken, hit) ↦
        inr (y ∷ before, x, rest, ap (◌∷◌ y) split, rw (e, taken), hit)
  ]
]

-- A task stored under a number that is not in the list is loaded once: the first load returns it
-- and leaves the worker as it was before the store, and a load of a number that is not there
-- returns the number -1 and changes nothing.
pub task_load-task_store :
    (wi : WorkerInfo) (t x : Task)
    → has_task wi.task_list x.lsn ≡ false
    → (task_load (task_store wi x) x.lsn t ≡ (x, wi))
      × (task_load wi x.lsn t ≡ (record t { lsn = minus_one }, wi))
unfolding task_load task_store
task_load-task_store wi t x h = (
  rw (take_task-append wi.task_list [] (record t { lsn = minus_one }) x h)
      (ground (arith, append-nil wi.task_list)),
  rw (take_task-absent wi.task_list (record t { lsn = minus_one }) x.lsn h),
)

pub xact_dequeue-cases :
    (wi : WorkerInfo) (tx : TransReq)
    → ((wi.xact_queue ≡ []) × (xact_dequeue wi tx ≡ (record tx { client_id = minus_one }, wi)))
      ⊎ ((front : TransReq) × (rest : List TransReq) × (wi.xact_queue ≡ front ∷ rest)
          × (xact_dequeue wi tx ≡ (front, record wi { xact_queue = rest })))
unfolding xact_dequeue
xact_dequeue-cases wi tx = ground arith
