-- ===== src/Examples/Answers.antt =====
-- The leader's threads as seen from the clients.
use raft_2pl.Prelude.{Returns, of_u64, ◌+◌, ◌≡◌, refl, true, [], ◌∷◌, arith}
use raft_2pl.Nodes.{ClientNode, set_id, set_send_sock, set_recv_sock}
use raft_2pl.Status.Votes.{vote_at-nil}
use raft_2pl.Worker.Tasks.{has_task}
use raft_2pl.Rpc.{ResponseAppendEntries}
use raft_2pl.Raft.Invariant.{IsSound}
use raft_2pl.Raft.Acks.{TaskLeft}
use raft_2pl.Raft.Quorum.{IsYes, quorum_lem}
use raft_2pl.Raft.{notifier_step, Node}
use raft_2pl.Raft.Clients.{connected, enqueue_command}
use raft_2pl.Raft.Clients.Found.{find_client-one, find_client-only}
use raft_2pl.Raft.Outstanding.{count, outstanding}
use raft_2pl.Raft.Threads.{hear_all, Moves, hears, produces, here, next}
use raft_2pl.Raft.Answers.Steps.{produced}
use raft_2pl.Raft.Answers.Once.{count_answers, IsSole, Moves-Once}
use raft_2pl.Raft.Progress.Turns.{IsReady}
use raft_2pl.Examples.{small, small-IsSized, upward, upward-IsAccepted}
use raft_2pl.Examples.Nodes.{
  no_node, leader_node, leader_node-IsSound, first_follower, second_follower, first_follower_known,
  second_follower_known, good_ack, sent_task, stored_node, stored_node-IsSound, stored_node-Acked,
}

-- The second ack for the stored task, and then a command of the client.
abbrev busy_node : Node
busy_node = record stored_node-Acked.0 {
  info = enqueue_command stored_node-Acked.0.info 0 8 (upward ∷ []);
}

abbrev busy_moves : Moves small 0 (λ sock. true) stored_node busy_node
busy_moves =
    next
      (next here (
        hears stored_node stored_node-Acked.0 good_ack sent_task
          (record {
            mine = refl;
            follower = first_follower;
            known = first_follower_known;
            natural = omega arith;
          })
          stored_node-Acked.1))
      (produces stored_node-Acked.0 0 8 (upward ∷ []) (upward-IsAccepted, tt))

abbrev pub only_client : ClientNode
only_client = connected no_node 0 [] 5_000 20

pub only_client-IsSole : IsSole (only_client ∷ []) only_client
unfolding connected set_id set_send_sock set_recv_sock
only_client-IsSole = record {
  found = find_client-one only_client;
  alone = λ id d hit same. find_client-only only_client d id hit;
}

Moves-Once_example : count_answers 20 7 busy_node.messages + count 0 7 (outstanding busy_node) ≡ 2
unfolding produced connected set_send_sock set_id of_u64
Moves-Once_example =
    Moves-Once small 0 (λ sock. true) only_client 7 busy_moves small-IsSized stored_node-IsSound
      (refl, tt) (refl, tt) (λ sock. refl) only_client-IsSole

-- No ack for the stored task has been counted; the cluster has three nodes.
abbrev uncounted_node : Node
uncounted_node = record stored_node { status = record stored_node.status { votes = [] } }

uncounted_node-IsSound : IsSound small uncounted_node
uncounted_node-IsSound = record {
  store = stored_node-IsSound.store;
  queued = stored_node-IsSound.queued;
  retried = stored_node-IsSound.retried;
  room = stored_node-IsSound.room;
  sent = tt;
  tasks = stored_node-IsSound.tasks;
}

good_ack-IsYes : IsYes uncounted_node.info 4 good_ack
good_ack-IsYes = (
  record {
    mine = refl;
    follower = first_follower;
    known = first_follower_known;
    natural = omega arith;
  },
  refl,
  refl,
)

-- The other follower's ack.
abbrev second_ack : ResponseAppendEntries
second_ack = record good_ack { r_node_id = 2 }

second_ack-IsYes : IsYes uncounted_node.info 4 second_ack
second_ack-IsYes = (
  record {
    mine = refl;
    follower = second_follower;
    known = second_follower_known;
    natural = omega arith;
  },
  refl,
  refl,
)

has_sent_task : has_task (sent_task ∷ []) 4 ≡ true
unfolding has_task
has_sent_task = refl

quorum_example :
    Returns (hear_all small 0 (λ sock. true) uncounted_node sent_task (good_ack ∷ [])) λ m.
      (m ≡ record uncounted_node { status = m.status })
      × Returns
          (notifier_step small 1 (λ sock. true) m second_ack sent_task)
          (λ k. IsSound small k × TaskLeft small (λ sock. true) uncounted_node 4 k)
quorum_example =
    quorum_lem small 0 (λ sock. true) small-IsSized sent_task 4 uncounted_node (good_ack ∷ [])
      second_ack uncounted_node-IsSound (omega arith) has_sent_task (vote_at-nil 4) refl
      (second_ack-IsYes, (good_ack-IsYes, tt))

pub leader_node-IsReady : IsReady small (1 ∷ 2 ∷ []) leader_node
leader_node-IsReady = record {
  sound = leader_node-IsSound;
  idle = record { head = refl; buffer = refl; tasks = refl };
  real = (refl, tt);
  retried = λ off. absurd (cc);
  small = omega arith;
  fresh = λ j le. vote_at-nil j;
  quorum = refl;
  distinct = ((refl, tt), (tt, tt));
  known = ((first_follower, first_follower_known), ((second_follower, second_follower_known), tt));
}
