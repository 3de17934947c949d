-- ===== src/Worker.antt =====
-- What a worker thread, the producers and the notifiers share: src/server/worker.cc,
-- src/include/worker.h. The mutexes make each operation atomic; a queue is the list of its
-- elements, the front first.
pub mod Tasks
use raft_2pl.Prelude.{
  ℕ, Bool, true, false, Int32, minus_one, ◌==◌, if◌then◌else◌, Run, ok, fault, undefined, List, [],
  ◌∷◌, ◌++◌,
}
use raft_2pl.Types.{TransReq}

pub record FollowerInfo : Type 0 where
  pub follower_node_id : Int32
  pub sockfd : Int32
  pub next_index : Int32
  pub sent_index : Int32

-- The list holds the first `nlog` requests of the array `xactSet`.
pub record Task : Type 0 where
  pub worker_id : Int32
  pub lsn : Int32
  pub nlog : Int32
  pub xact_set : List TransReq

pub record WorkerInfo : Type 0 where
  pub worker_id : Int32
  pub followers : List FollowerInfo
  pub commit_index : Int32
  pub xact_queue : List TransReq
  pub task_list : List Task

-- `WorkerInfo::WorkerInfo`; `memory` is what the new object held.
unfoldable pub new_worker_info : WorkerInfo → Int32 → List FollowerInfo → WorkerInfo
new_worker_info memory worker_id followers = record memory {
  worker_id = worker_id;
  followers = followers;
  xact_queue = [];
  task_list = [];
}

-- The first follower with the id; the pointer that the code returns for an unknown id was never
-- set.
unfoldable pub get_follower_info_by_id : List FollowerInfo → Int32 → Run FollowerInfo
get_follower_info_by_id [] id = fault undefined
get_follower_info_by_id (fi ∷ fs) id =
    if fi.follower_node_id == id then ok fi else get_follower_info_by_id fs id

unfoldable pub set_commit_index : WorkerInfo → Int32 → WorkerInfo
set_commit_index wi index = record wi { commit_index = index }

unfoldable pub xact_enqueue : WorkerInfo → TransReq → WorkerInfo
xact_enqueue wi tx = record wi { xact_queue = wi.xact_queue ++ tx ∷ [] }

-- `tx` is the local variable before it is set: on an empty queue only its `clientId` is.
pub xact_dequeue : WorkerInfo → TransReq → TransReq × WorkerInfo
xact_dequeue wi tx = elim wi.xact_queue [
  | [] ↦ (record tx { client_id = minus_one }, wi)
  | front ∷ rest ↦ (front, record wi { xact_queue = rest })
]

-- The search of `taskLoad`: the first task with the number, `t` if there is none, and the list
-- without it.
pub take_task : List Task → Int32 → Task → Task × List Task
take_task [] lsn t = (t, [])
take_task (x ∷ xs) lsn t =
    let (found, rest) = take_task xs lsn t in if x.lsn == lsn then (x, xs) else (found, x ∷ rest)

-- `t` is the local variable before its `lsn` is set.
unfoldable pub task_load : WorkerInfo → Int32 → Task → Task × WorkerInfo
unfolding take_task
task_load wi lsn t =
    let (found, rest) = take_task wi.task_list lsn (record t { lsn = minus_one }) in
    (found, record wi { task_list = rest })

unfoldable pub task_store : WorkerInfo → Task → WorkerInfo
task_store wi t = record wi { task_list = wi.task_list ++ t ∷ [] }
