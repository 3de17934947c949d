-- ===== src/Examples/Cluster.antt =====
-- A follower that receives groups, and the workers of a leader.
use raft_2pl.Prelude.{ℕ, Bool, ◌≡◌, refl, true, false, Returns, List, [], ◌∷◌, ◌++◌, map}
use raft_2pl.Log.{Log}
use raft_2pl.Rpc.{append_entries}
use raft_2pl.Worker.{FollowerInfo, WorkerInfo}
use raft_2pl.Raft.Follower.{Packet, log_receiver, log_receiver_lem, ack_of, record_of}
use raft_2pl.Nodes.{RaftNode}
use raft_2pl.Examples.{upward_tx}

abbrev empty_log : Log
empty_log = record { entries = []; last_synced_index = 0; file = [] }

abbrev first_packet : Packet
first_packet = (
  record {
    rpc_kind = append_entries;
    term = 1;
    leader_id = 0;
    prev_log_index = 0;
    prev_log_term = 0;
    leader_commit = 0;
    lsn = 0;
    log = upward_tx ∷ [];
    sz_log = 1;
    worker_id = 2;
    r_node_id = 1;
  },
  7,
)

abbrev second_packet : Packet
second_packet = (record (first_packet.0) { lsn = 1 }, 9)

log_receiver_example :
    Returns (log_receiver 1 true true empty_log (first_packet ∷ (second_packet ∷ []))) λ r.
      (r.1 ≡ map (ack_of 1) (first_packet ∷ (second_packet ∷ [])))
      × (r.0.entries ≡ [] ++ map record_of (first_packet ∷ (second_packet ∷ [])))
      × (r.0.file ≡ [] ++ map record_of (first_packet ∷ (second_packet ∷ [])))
log_receiver_example =
    log_receiver_lem 1 empty_log (first_packet ∷ (second_packet ∷ []))
      ((refl, refl, refl), ((refl, refl, refl), tt))

abbrev blank_follower : FollowerInfo
blank_follower = record { follower_node_id = 0; sockfd = 0; next_index = 0; sent_index = 0 }

abbrev blank_worker : WorkerInfo
blank_worker = record {
  worker_id = 0;
  followers = [];
  commit_index = 0;
  xact_queue = [];
  task_list = [];
}

abbrev raft_node : ℕ → Bool → RaftNode
raft_node id me = record {
  node = record { id = id; hostname = []; listen_port = 0 };
  voted_for_me = false;
  rvrpc_sent = false;
  isme = me;
}

abbrev three_nodes : List RaftNode
three_nodes = raft_node 0 true ∷ (raft_node 1 false ∷ (raft_node 2 false ∷ []))
