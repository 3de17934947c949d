-- ===== src/Examples/Nodes.antt =====
-- The leader's threads and its clients.
use raft_2pl.Prelude.{
  minus_one, ◌%◌, ◌≡◌, refl, u32, true, false, [], ◌∷◌, arith, Returns, ok, ◌>>=◌, of_u64, length,
}
use raft_2pl.Status.{leader}
use raft_2pl.Kvs.Locks.{with_lock}
use raft_2pl.Worker.{Task, FollowerInfo, get_follower_info_by_id}
use raft_2pl.Worker.Tasks.{has_task}
use raft_2pl.Rpc.{ResponseAppendEntries, response_append_entries}
use raft_2pl.Twopl.Commit.{total}
use raft_2pl.Raft.{Node, Timeval, Outside, at_loop, at_store, worker_step, notifier_step}
use raft_2pl.Nodes.{NodeBase, ClientNode, set_id, set_send_sock}
use raft_2pl.Raft.Clients.{connected, accept_client, erase_client, find_client}
use raft_2pl.Raft.Clients.Ids.{accept_client-erase_client}
use raft_2pl.Raft.Invariant.{IsSound}
use raft_2pl.Raft.Acks.{Acked, notifier_step-Acked}
use raft_2pl.Raft.Groups.{IsLogging}
use raft_2pl.Raft.Rounds.{worker_step-IsSound}
use raft_2pl.Raft.Threads.{
  IsHeard, works, here, next, Moves-IsSound, hear_all, AllHeld, early_acks_lost,
}
use raft_2pl.Examples.{
  small, small-IsSized, even_store, even_store-IsIndexed, upward-IsAccepted, upward_tx,
}

abbrev pub no_node : NodeBase
no_node = record { id = 0; hostname = []; listen_port = 0 }

abbrev no_time : Timeval
no_time = record { tv_sec = 0; tv_usec = 0 }

abbrev pub first_follower : FollowerInfo
first_follower = record { follower_node_id = 1; sockfd = 9; next_index = 1; sent_index = 0 }

abbrev pub second_follower : FollowerInfo
second_follower = record { follower_node_id = 2; sockfd = 10; next_index = 1; sent_index = 0 }

-- A leader of a cluster of three; the worker holds one request in its queue.
abbrev pub leader_node : Node
leader_node = record {
  kvs = even_store;
  status = record {
    storage_directory_name = [];
    votes = [];
    state = leader;
    current_term = 1;
    voted_for = 0;
    timeout_time = 0;
  };
  lsn_counter = 0;
  me = 0;
  cluster_size = 3;
  clients = connected no_node 0 [] 5_000 20 ∷ [];
  info = record {
    worker_id = 0;
    followers = first_follower ∷ second_follower ∷ [];
    commit_index = 0;
    xact_queue = upward_tx ∷ [];
    task_list = [];
  };
  raft_nodes = [];
  sockets = λ id. minus_one;
  log = record { entries = []; last_synced_index = 0; file = [] };
  can_do_xact_deq = true;
  xact = upward_tx;
  log_buffer = [];
  pre_log_send = no_time;
  point = at_loop;
  packets = [];
  messages = [];
}

pub leader_node-IsSound : IsSound small leader_node
leader_node-IsSound = record {
  store = record { indexed = even_store-IsIndexed; accepted = tt; held = λ k. refl };
  queued = (upward-IsAccepted, tt);
  retried = λ off. upward-IsAccepted;
  room = omega arith;
  sent = tt;
  tasks = tt;
}

abbrev pub later : Outside
later = record {
  now = record { tv_sec = 1; tv_usec = 0 };
  memory = upward_tx;
  log_time = 5;
  wrote = true;
  synced = true;
  connect2raftnode = λ p. ok 12;
}

pub later-IsLogging : IsLogging leader_node later
later-IsLogging = record {
  wrote = refl;
  synced = refl;
  counter = omega arith;
  connects = λ p. (12, refl);
}

worker_step-IsSound_example :
    Returns
      (worker_step small leader_node at_loop later)
      λ m. IsSound small m × (m.kvs.hash ≡ even_store.hash)
worker_step-IsSound_example =
    worker_step-IsSound small small-IsSized leader_node later leader_node-IsSound later-IsLogging

Moves-IsSound_example :
    IsSound small worker_step-IsSound_example.0
    × (total 8 worker_step-IsSound_example.0.kvs.hash % u32 ≡ total 8 even_store.hash % u32)
Moves-IsSound_example =
    Moves-IsSound small 0 (λ sock. true) small-IsSized
      (next here (
        works leader_node worker_step-IsSound_example.0 later later-IsLogging
          worker_step-IsSound_example.1))
      leader_node-IsSound

-- The group is sent and its task is not yet stored.
abbrev pub sent_task : Task
sent_task = record { worker_id = 0; lsn = 4; nlog = 1; xact_set = upward_tx ∷ [] }

abbrev sent_node : Node
sent_node = record leader_node {
  kvs = with_lock (with_lock even_store 1 true) 3 true;
  point = at_store sent_task;
}

sent_node-IsSound : IsSound small sent_node
sent_node-IsSound = record {
  store = record {
    indexed = even_store-IsIndexed;
    accepted = (upward-IsAccepted, tt);
    held = λ k. ground arith;
  };
  queued = (upward-IsAccepted, tt);
  retried = λ off. upward-IsAccepted;
  room = omega arith;
  sent = (refl, omega arith);
  tasks = tt;
}

abbrev pub good_ack : ResponseAppendEntries
good_ack = record {
  rpc_kind = response_append_entries;
  term = 1;
  success = true;
  lsn = 4;
  worker_id = 0;
  r_node_id = 1;
}

pub first_follower_known :
    get_follower_info_by_id (first_follower ∷ second_follower ∷ []) 1 ≡ ok first_follower
unfolding get_follower_info_by_id
first_follower_known = refl

pub second_follower_known :
    get_follower_info_by_id (first_follower ∷ second_follower ∷ []) 2 ≡ ok second_follower
unfolding get_follower_info_by_id
second_follower_known = refl

abbrev good_ack-IsHeard : IsHeard sent_node.info good_ack
good_ack-IsHeard = record {
  mine = refl;
  follower = first_follower;
  known = first_follower_known;
  natural = omega arith;
}

notifier_step-Acked_example :
    Returns
      (notifier_step small 1 (λ sock. true) sent_node good_ack sent_task)
      (Acked small (λ sock. true) sent_node good_ack)
notifier_step-Acked_example =
    notifier_step-Acked small small-IsSized 0 (λ sock. true) sent_node good_ack sent_task
      first_follower sent_node-IsSound refl first_follower_known (omega arith)

-- The task is stored, and one follower has acknowledged its record.
abbrev pub stored_node : Node
stored_node = record sent_node {
  info = record leader_node.info { task_list = sent_task ∷ [] };
  status = record leader_node.status { votes = (4, 1) ∷ [] };
  point = at_loop;
}

pub stored_node-IsSound : IsSound small stored_node
stored_node-IsSound = record {
  store = record {
    indexed = even_store-IsIndexed;
    accepted = (upward-IsAccepted, tt);
    held = λ k. ground arith;
  };
  queued = (upward-IsAccepted, tt);
  retried = λ off. upward-IsAccepted;
  room = omega arith;
  sent = tt;
  tasks = ((refl, omega arith), tt);
}

-- The second ack commits the task.
pub stored_node-Acked :
    Returns
      (notifier_step small 1 (λ sock. true) stored_node good_ack sent_task)
      (Acked small (λ sock. true) stored_node good_ack)
stored_node-Acked =
    notifier_step-Acked small small-IsSized 0 (λ sock. true) stored_node good_ack sent_task
      first_follower stored_node-IsSound refl first_follower_known (omega arith)

no_task : has_task [] 4 ≡ false
unfolding has_task
no_task = refl

early_acks_lost_example :
    Returns
      (hear_all small 0 (λ sock. true) sent_node sent_task (good_ack ∷ good_ack ∷ []) >>= λ m.
        worker_step small m m.point later)
      λ m. (m.info.task_list ≡ sent_task ∷ []) × (m.messages ≡ []) × AllHeld m.kvs (upward_tx ∷ [])
early_acks_lost_example =
    early_acks_lost small 0 (λ sock. true) sent_node sent_task sent_task later
      (good_ack ∷ good_ack ∷ []) small-IsSized sent_node-IsSound refl no_task
      ((good_ack-IsHeard, refl), ((good_ack-IsHeard, refl), tt))

abbrev first_client : ClientNode
first_client = connected no_node 0 [] 5_000 20

abbrev second_client : ClientNode
second_client = connected no_node 1 [] 5_001 21

-- The first of two clients is erased: the next one gets the id 1 too.
accept_client-erase_client_example :
    let left = erase_client (first_client ∷ second_client ∷ []) 20 in
    (of_u64 (length left) ≡ 1)
    × (find_client (accept_client no_node left [] 5_002 22) (of_u64 (length left))
        ≡ second_client ∷ [])
unfolding connected set_id set_send_sock of_u64
accept_client-erase_client_example =
    accept_client-erase_client no_node [] [] first_client second_client [] 5_002 22
      (refl, (refl, tt)) tt (omega arith)
