-- ===== src/Raft.antt =====
-- The leader's threads: `Raft::worker`, `Raft::notifier` and `Raft::producer` of
-- src/server/raft.cc, with the timer functions. A node is the state that the threads share and
-- the local variables of the worker thread; one worker is modelled with all notifiers, producers
-- and clients. The threads run between the points where they touch shared state.
pub mod Clients
pub mod Invariant
pub mod Commits
pub mod Acks
pub mod Attempts
pub mod Groups
pub mod Rounds
pub mod Threads
pub mod Posting
pub mod Quorum
pub mod Progress
pub mod Outstanding
pub mod Forwards
pub mod Answers
pub mod Follower
pub mod Setup
pub mod Server
pub mod Receiver
pub mod Producer
use raft_2pl.Prelude.{
  ◌>>=◌, ◌>>◌, ℕ, ◌+◌, ◌*◌, ◌/◌, Bool, not, ◌&&◌, ◌||◌, Int32, slt, leb, ltb, minus_one, ◌==◌,
  if◌then◌else◌, add32, sub32, of_u64, Run, ok, fault, undefined, assert, List, [], ◌∷◌, ◌++◌,
  length, take,
}
use raft_2pl.Types.{Sizes, TransReq, max_group_entry, log_timeout}
use raft_2pl.Kvs.{Kvs}
use raft_2pl.Twopl.{transfer_work, commit_work}
use raft_2pl.Status.{Status, add_vote_count}
use raft_2pl.Log.{Log}
use raft_2pl.Logging.{logging_work}
use raft_2pl.Worker.{
  FollowerInfo, Task, WorkerInfo, get_follower_info_by_id, set_commit_index, xact_dequeue,
  task_load, task_store,
}
use raft_2pl.Rpc.{
  AppendEntriesRpc, CommitMessage, ResponseAppendEntries, arpc_by_fields, cm_by_fields,
}
use raft_2pl.Nodes.{ClientNode, RaftNode, is_me, get_id}
use Clients.{send_to_client}

pub record Timeval : Type 0 where
  pub tv_sec : ℕ
  pub tv_usec : ℕ

-- `diff >= LOG_TIMEOUT`, with the subtraction brought to the other side.
time_out : Timeval → Timeval → Bool
time_out prev cur =
    leb (prev.tv_sec * 1000 * 1000 + prev.tv_usec + log_timeout)
      (cur.tv_sec * 1000 * 1000 + cur.tv_usec)

-- Where the worker stands: at the head of its loop, or after the sends and before `taskStore`.
pub data Point : Type 0 where
  at_loop : Point
  at_store : Task → Point

pub record Node : Type 0 where
  pub kvs : Kvs
  pub status : Status
  pub lsn_counter : ℕ
  pub me : Int32
  pub cluster_size : Int32
  pub clients : List ClientNode
  pub info : WorkerInfo
  pub raft_nodes : List RaftNode
  -- `sockfd` of the `follower_info` with this node id, which the worker sets when it connects.
  pub sockets : Int32 → Int32
  -- The worker's local variables; `buffid` is the length of `log_buffer`.
  pub log : Log
  pub can_do_xact_deq : Bool
  pub xact : TransReq
  pub log_buffer : List TransReq
  pub pre_log_send : Timeval
  pub point : Point
  -- What was passed to `sendRPC`, in order: to followers by node id, to clients by socket.
  pub packets : List (Int32 × AppendEntriesRpc)
  pub messages : List (Int32 × CommitMessage)

-- What a round of the worker reads from outside: the time, the memory of a fresh local
-- `trans_req`, whether `write` and `fsync` succeed, and what `connect2raftnode` comes to: a socket,
-- an exit, or a loop that does not end.
pub record Outside : Type 0 where
  pub now : Timeval
  pub memory : TransReq
  pub log_time : ℕ
  pub wrote : Bool
  pub synced : Bool
  pub connect2raftnode : RaftNode → Run Int32

-- `if (canDoXactDeq == true) xact = workerInfo->xactDequeue();`
pub take_xact : Node → TransReq → Node
take_xact n memory =
    let (tx, wi) = xact_dequeue n.info memory in
    if n.can_do_xact_deq then record n { xact = tx; info = wi } else n

-- The packet for one follower.
pub packet_for : Node → Int32 → Int32 → FollowerInfo → AppendEntriesRpc
packet_for n nlog lsn fi =
    let cur_term = n.status.current_term in
    arpc_by_fields cur_term n.me (sub32 fi.next_index 1) (sub32 cur_term 1) n.info.commit_index
      n.log_buffer nlog lsn n.info.worker_id fi.follower_node_id

-- The search for the follower among the nodes, and the connection to it.
pub connect_follower : (RaftNode → Run Int32) → List RaftNode → FollowerInfo → Run Int32
unfolding is_me get_id
connect_follower connect [] fi = ok minus_one
connect_follower connect (p ∷ ps) fi =
    let rest = connect_follower connect ps fi in
    if not (is_me p) && (get_id p.node == fi.follower_node_id) then connect p else rest

pub socket_of : (RaftNode → Run Int32) → List RaftNode → FollowerInfo → Int32 → Run Int32
unfolding connect_follower
socket_of connect nodes fi sock =
    if sock == minus_one then connect_follower connect nodes fi else ok sock

abbrev pub set_socket : (Int32 → Int32) → Int32 → Int32 → Int32 → Int32
set_socket sockets id sock j = if j == id then sock else sockets j

-- The loop over the followers: each is connected to where it is not, then the packet is sent.
pub send_packets :
    (RaftNode → Run Int32)
    → Node
    → Int32
    → Int32
    → (Int32 → Int32)
    → List FollowerInfo
    → Run ((Int32 → Int32) × List (Int32 × AppendEntriesRpc))
unfolding packet_for socket_of
send_packets connect n nlog lsn sockets [] = ok (sockets, [])
send_packets connect n nlog lsn sockets (fi ∷ fs) = do
  let id = fi.follower_node_id
  sock ← socket_of connect n.raft_nodes fi (sockets id)
  r ← send_packets connect n nlog lsn (set_socket sockets id sock) fs
  ok (r.0, (id, packet_for n nlog lsn fi) ∷ r.1)

-- `preLogSend` is set after each send, so not at all if there is no follower.
abbrev pub set_log_send : List FollowerInfo → Timeval → Timeval → Timeval
set_log_send [] prev now = prev
set_log_send (fi ∷ fs) prev now = now

-- `(timeOut(preLogSend) && buffid > 0) || (buffid == MAX_GROUP_ENTRY)`
pub is_group_due : Node → Timeval → Bool
unfolding time_out
is_group_due n now =
    time_out n.pre_log_send now && ltb 0 (length n.log_buffer)
    || length n.log_buffer == max_group_entry

-- The group is logged and sent; the task is a local variable until it is stored.
pub send_group : Node → Outside → Run Node
unfolding send_packets
send_group n o = do
  assert (ltb 0 (length n.log_buffer))
  let nlog = of_u64 (length n.log_buffer)
  r ←
      logging_work n.lsn_counter n.log n.log_buffer nlog n.status.current_term o.log_time o.wrote
        o.synced
  let lsn = r.0
  sent ← send_packets o.connect2raftnode n nlog lsn n.sockets n.info.followers
  let t : Task = record {
    worker_id = n.info.worker_id;
    lsn = lsn;
    nlog = nlog;
    xact_set = take nlog n.log_buffer;
  }
  ok (record n {
    lsn_counter = r.1;
    log = r.2;
    log_buffer = [];
    pre_log_send = set_log_send n.info.followers n.pre_log_send o.now;
    point = at_store t;
    sockets = sent.0;
    packets = n.packets ++ sent.1;
  })

module _ (s : Sizes) where
  -- `if (xact.clientId != -1) …`; `transferWork` sorts the request in place.
  pub try_xact : Node → Run Node
  try_xact n = if n.xact.client_id == minus_one then ok n else (do
    r ← transfer_work s n.kvs n.xact.req
    let tx = record n.xact { req = r.1 }
    ok (record n {
      kvs = r.2;
      xact = tx;
      can_do_xact_deq = r.0;
      log_buffer = if r.0 then n.log_buffer ++ tx ∷ [] else n.log_buffer;
    }))

  -- A round of the loop up to the sends.
  pub worker_round : Node → Outside → Run Node
  unfolding take_xact is_group_due
  worker_round n o = do
    tried ← try_xact (take_xact n o.memory)
    if is_group_due tried o.now then send_group tried o else ok tried

  -- The next step of the worker thread.
  pub worker_step : Node → Point → Outside → Run Node
  unfolding worker_round
  worker_step n at_loop o = worker_round n o
  worker_step n (at_store t) o = ok (record n { info = task_store n.info t; point = at_loop })

-- `int > int`: more votes than half of the cluster, rounded down.
abbrev pub is_quorum : Int32 → Int32 → Bool
is_quorum votes cluster_size = slt (cluster_size / 2) votes

module _ (s : Sizes) (fuel : ℕ) (send_ok : Int32 → Bool) where
  -- One round of the notifier's loop over the task's requests.
  pub commit_xact : Node → Int32 → TransReq → Run Node
  commit_xact n next_index xact = do
    kvs ← commit_work s fuel n.kvs xact.req
    let (clients, sent) =
        send_to_client send_ok n.clients xact.client_id (cm_by_fields xact.command_id)
    ok (record n {
      kvs = kvs;
      info = set_commit_index n.info next_index;
      clients = clients;
      messages = n.messages ++ sent;
    })

  pub commit_xacts : Node → Int32 → List TransReq → Run Node
  unfolding commit_xact
  commit_xacts n next_index [] = ok n
  commit_xacts n next_index (x ∷ xs) = do
    m ← commit_xact n next_index x
    commit_xacts m next_index xs

  -- The task of a record with a quorum: a number of -1 means that it was loaded before, or is not
  -- stored.
  pub commit_task : Node → Int32 → Task → Run Node
  unfolding commit_xacts
  commit_task n next_index t =
      if t.lsn == minus_one then ok n else commit_xacts n next_index (take t.nlog t.xact_set)

  pub count_ack : Node → Int32 → Int32 → Task → Run Node
  unfolding commit_task
  count_ack n next_index lsn memory = do
    v ← add_vote_count n.status lsn
    let voted = record n { status = v.1 }
    let loaded = task_load voted.info lsn memory
    if is_quorum v.0 n.cluster_size
        then commit_task (record voted { info = loaded.1 }) next_index loaded.0
        else ok voted

  -- What the notifier does with an ack; `memory` is a fresh local `task`. An ack for another
  -- worker than the modelled one would use a pointer that was never set.
  pub notifier_step : Node → ResponseAppendEntries → Task → Run Node
  unfolding count_ack
  notifier_step n ack memory = do
    if n.info.worker_id == ack.worker_id then ok tt else fault undefined
    fi ← get_follower_info_by_id n.info.followers ack.r_node_id
    let next_index = add32 fi.next_index 1
    if ack.success then count_ack n next_index ack.lsn memory else ok n
