-- ===== src/Raft/Setup.antt =====
-- The workers of a leader: the loop of Raft::setupLeader and Raft::getWorkerInfoById
-- (src/server/raft.cc).
use raft_2pl.Prelude.{
  ltb, ℕ, zero, suc, ◌≡◌, ◌∙◌, ap, refl, Int32, minus_one, ◌==◌, if◌then◌else◌, arith, true, inl,
  inr, Bool-cases, Run, ok, fault, undefined, List, [], ◌∷◌, ◌++◌,
}
use raft_2pl.Nodes.{RaftNode, is_me, get_id}
use raft_2pl.Worker.{FollowerInfo, WorkerInfo, new_worker_info}

-- The followers of a worker: every other node, not connected; the rest of the struct is what
-- `malloc` gave, `memory`.
pub setup_followers : FollowerInfo → List RaftNode → List FollowerInfo
setup_followers memory [] = []
setup_followers memory (r ∷ rs) =
    let rest = setup_followers memory rs in
    if is_me r
    then rest
    else record memory { sockfd = minus_one; follower_node_id = get_id r.node } ∷ rest

-- The workers `0 … n - 1`; `blank i` is the memory of the `i`-th.
pub setup_workers : (ℕ → WorkerInfo) → FollowerInfo → List RaftNode → ℕ → List WorkerInfo
unfolding setup_followers
setup_workers blank memory nodes zero = []
setup_workers blank memory nodes (suc n) =
    setup_workers blank memory nodes n
    ++ new_worker_info (blank n) n (setup_followers memory nodes) ∷ []

-- The loop of the search: without a `break` the last worker with the id is kept.
last_worker : List WorkerInfo → Int32 → Run WorkerInfo → Run WorkerInfo
last_worker [] id ret = ret
last_worker (w ∷ ws) id ret = last_worker ws id (if w.worker_id == id then ok w else ret)

-- A pointer that was never set is undefined.
pub get_worker_info_by_id : List WorkerInfo → Int32 → Run WorkerInfo
unfolding last_worker
get_worker_info_by_id ws id = last_worker ws id (fault undefined)

last_worker-snoc :
    (ws : List WorkerInfo) (w : WorkerInfo) (id : Int32) (ret : Run WorkerInfo)
    → last_worker (ws ++ w ∷ []) id ret
      ≡ (if w.worker_id == id then ok w else last_worker ws id ret)
unfolding last_worker
last_worker-snoc [] w id ret = refl
last_worker-snoc (x ∷ ws) w id ret =
    last_worker-snoc ws w id (if x.worker_id == id then ok x else ret)

-- Of the `n` workers that a leader starts, the search for an id below `n` finds the worker with
-- that id and the followers of the cluster; the search for any other id is undefined.
pub get_worker_info_by_id-setup_workers :
    (blank : ℕ → WorkerInfo) (memory : FollowerInfo) (nodes : List RaftNode) (n id : ℕ)
    → get_worker_info_by_id (setup_workers blank memory nodes n) id ≡ (
        if ltb id n
        then ok (new_worker_info (blank id) id (setup_followers memory nodes))
        else fault undefined)
unfolding get_worker_info_by_id setup_workers last_worker new_worker_info
get_worker_info_by_id-setup_workers blank memory nodes zero id = ground arith
get_worker_info_by_id-setup_workers blank memory nodes (suc n) id =
    let followers = setup_followers memory nodes in
    let w = new_worker_info (blank n) n followers in
    let rest = get_worker_info_by_id-setup_workers blank memory nodes n id in
    last_worker-snoc (setup_workers blank memory nodes n) w id (fault undefined)
    ∙ elim (Bool-cases (n == id)) [
      | inl same ↦
          let at : n ≡ id = ground arith in
          let inside : ltb id (suc n) ≡ true = ground arith in
          rw (same, inside) (ap (λ (i : ℕ). ok (new_worker_info (blank i) i followers)) at)
      | inr apart ↦ let last : ltb id (suc n) ≡ ltb id n = ground arith in rw (apart, last) rest
    ]
