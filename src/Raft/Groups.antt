-- ===== src/Raft/Groups.antt =====
-- A group of requests: when it is due, and what sending it does (src/server/raft.cc, worker).
use raft_2pl.Prelude.{
  ◌>>=◌, suc, ◌%◌, ◌<◌, ◌≡◌, ◌==◌, ◌&&◌, not, Bool-cases, inl, inr, minus_one, Int32, Run, ok, List,
  ◌∷◌, subst, sym, refl, u32, sign_bit, ltb, true, false, [], ◌++◌, length, take-length, arith,
  Returns, of_u64,
}
use raft_2pl.Types.{Sizes, TransReq, max_group_entry}
use raft_2pl.Nodes.{RaftNode, is_me, get_id}
use raft_2pl.Worker.{Task, FollowerInfo}
use raft_2pl.Logging.Replica.{logging_work-below}
use raft_2pl.Twopl.Bank.{IsConsistent}
use raft_2pl.Raft.{
  Node, Timeval, Point, at_loop, at_store, Outside, take_xact, is_group_due, send_group,
  send_packets, packet_for, set_log_send, connect_follower, socket_of, set_socket,
}
use raft_2pl.Raft.Invariant.{requests, task_requests, sent_requests, IsSound, IsSoundBelow}

abbrev pub IsOk {ℓ} : {A : Type ℓ} → Run A → Type ℓ
IsOk {A} run = (res : A) × (run ≡ ok res)

-- The outside lets the log be written and every other node be connected to, and the numbers of the
-- records have not run out.
pub record IsLogging (n : Node) (o : Outside) : Type 0 where
  pub wrote : o.wrote ≡ true
  pub synced : o.synced ≡ true
  pub counter : n.lsn_counter < sign_bit
  pub connects : (p : RaftNode) → IsOk (o.connect2raftnode p)

connect_follower-returns :
    (connect : RaftNode → Run Int32) (nodes : List RaftNode) (fi : FollowerInfo)
    → ((p : RaftNode) → IsOk (connect p))
    → IsOk (connect_follower connect nodes fi)
unfolding connect_follower
connect_follower-returns connect [] fi h = (minus_one, refl)
connect_follower-returns connect (p ∷ ps) fi h =
    elim (Bool-cases (not (is_me p) && (get_id p.node == fi.follower_node_id))) [
      | inl hit ↦ let (sock, run) = h p in (sock, rw hit run)
      | inr miss ↦ let (sock, run) = connect_follower-returns connect ps fi h in (sock, rw miss run)
    ]

socket_of-returns :
    (connect : RaftNode → Run Int32) (nodes : List RaftNode) (fi : FollowerInfo) (sock : Int32)
    → ((p : RaftNode) → IsOk (connect p))
    → IsOk (socket_of connect nodes fi sock)
unfolding socket_of
socket_of-returns connect nodes fi sock h = elim (Bool-cases (sock == minus_one)) [
  | inl new ↦ let (got, run) = connect_follower-returns connect nodes fi h in (got, rw new run)
  | inr old ↦ (sock, rw old refl)
]

-- With all nodes in reach, the sends return.
pub send_packets-returns :
    (connect : RaftNode → Run Int32) (n : Node) (nlog lsn : Int32) (sockets : Int32 → Int32)
    (fs : List FollowerInfo)
    → ((p : RaftNode) → IsOk (connect p))
    → IsOk (send_packets connect n nlog lsn sockets fs)
unfolding send_packets
send_packets-returns connect n nlog lsn sockets [] h = (_, refl)
send_packets-returns connect n nlog lsn sockets (fi ∷ fs) h =
    let id = fi.follower_node_id in
    let (sock, run) = socket_of-returns connect n.raft_nodes fi (sockets id) h in
    let (sent, ran) = send_packets-returns connect n nlog lsn (set_socket sockets id sock) fs h in
    ((sent.0, (id, packet_for n nlog lsn fi) ∷ sent.1), rw (run, ◌>>=◌, ran) refl)

pub send_group-IsSound :
    (s : Sizes) (n : Node) (o : Outside)
    → IsSoundBelow s (suc max_group_entry) n
    → IsLogging n o
    → n.point ≡ at_loop
    → 0 < length n.log_buffer
    → Returns (send_group n o) λ m. IsSound s m × (m.kvs ≡ n.kvs)
unfolding send_group of_u64
send_group-IsSound s n o h io head some =
    let full : ltb 0 (length n.log_buffer) ≡ true = ground arith in
    let count : length n.log_buffer % u32 ≡ length n.log_buffer = omega (arith, h.room) in
    let (r, run, (lsn, counter, grown)) =
      logging_work-below n.lsn_counter n.log n.log_buffer (length n.log_buffer)
        n.status.current_term o.log_time io.counter in
    let whole = take-length n.log_buffer in
    let t : Task = record {
      worker_id = n.info.worker_id;
      lsn = r.0;
      nlog = length n.log_buffer;
      xact_set = n.log_buffer;
    } in
    let (sent, ran) =
      send_packets-returns o.connect2raftnode n (length n.log_buffer) r.0 n.sockets n.info.followers
        io.connects in
    let ran' =
      subst
        (λ (k : Int32).
          send_packets o.connect2raftnode n k r.0 n.sockets n.info.followers ≡ ok sent)
        (sym count) ran in
    let m : Node = record n {
      lsn_counter = r.1;
      log = r.2;
      log_buffer = [];
      pre_log_send = set_log_send n.info.followers n.pre_log_send o.now;
      point = at_store t;
      sockets = sent.0;
      packets = n.packets ++ sent.1;
    } in
    (
      m,
      rw (full, count, io.wrote, io.synced, ◌>>=◌, run, ran', whole) refl,
      (
        record {
          store =
              subst
                (λ (p : Point). IsConsistent s (record {
                  kvs = n.kvs;
                  pending =
                      requests n.log_buffer ++ (sent_requests p ++ task_requests n.info.task_list);
                }))
                head h.store;
          queued = h.queued;
          retried = h.retried;
          room = omega arith;
          sent = (refl, omega (arith, h.room));
          tasks = h.tasks;
        },
        refl,
      ),
    )

pub take_xact-frame :
    (n : Node) (memory : TransReq)
    → (take_xact n memory).kvs ≡ n.kvs
      × ((take_xact n memory).point ≡ n.point)
      × ((take_xact n memory).lsn_counter ≡ n.lsn_counter)
unfolding take_xact
take_xact-frame n memory = ground arith

-- A group is sent from a buffer that is not empty, and a full buffer is sent.
pub is_group_due-some :
    (n : Node) (now : Timeval)
    → length n.log_buffer < suc max_group_entry
    → (is_group_due n now ≡ true → 0 < length n.log_buffer)
      × (is_group_due n now ≡ false → length n.log_buffer < max_group_entry)
unfolding is_group_due
is_group_due-some n now h = (λ e. ground arith, λ e. ground arith)
