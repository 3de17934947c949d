-- ===== src/Raft/Progress.antt =====
-- That the leader cannot get stuck: from a node that holds no granted request, what is queued can
-- be served (src/server/raft.cc: worker, notifier).
pub mod Grants
pub mod Votes
pub mod Turns
pub mod Drain
use raft_2pl.Prelude.{◌≡◌, []}
use raft_2pl.Raft.{Node, at_loop}

-- The worker is at the head of its loop, and no request is granted and uncommitted.
pub record IsIdle (n : Node) : Type 0 where
  pub head : n.point ≡ at_loop
  pub buffer : n.log_buffer ≡ []
  pub tasks : n.info.task_list ≡ []
