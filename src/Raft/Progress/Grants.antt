-- ===== src/Raft/Progress/Grants.antt =====
-- The worker with no granted request: the next one is granted, logged and sent.
use raft_2pl.Prelude.{
  ◌>>=◌, ℕ, ◌+◌, ◌≡◌, ◌∙◌, ap, refl, Int32, minus_one, Bool, true, false, ◌==◌, [], ◌∷◌, ◌++◌,
  arith, ok, Returns, of_u64, to_nat,
}
use raft_2pl.Types.{Sizes, ClientRequest, log_timeout}
use raft_2pl.Kvs.{Kvs}
use raft_2pl.Kvs.Table.{IsSized}
use raft_2pl.Logging.Replica.{logging_work-below}
use raft_2pl.Worker.{Task}
use raft_2pl.Twopl.Transfer.{transfer_work-Attempt}
use raft_2pl.Twopl.Bank.{holders}
use raft_2pl.Raft.{
  Node, Timeval, at_store, Outside, try_xact, is_group_due, send_group, set_log_send, take_xact,
  worker_round,
}
use raft_2pl.Raft.Invariant.{IsSound, pending}
use raft_2pl.Raft.Attempts.{IsOffered}
use raft_2pl.Raft.Groups.{IsLogging, send_packets-returns}
use raft_2pl.Raft.Progress.{IsIdle}

-- A time at which the group is due.
abbrev pub next_time : Timeval → Timeval
next_time t = record { tv_sec = t.tv_sec; tv_usec = t.tv_usec + log_timeout }

free_lock : (b : Bool) → to_nat b ≡ 0 → b ≡ false
free_lock true h = absurd (omega arith)
free_lock false h = refl

pending-IsIdle : (n : Node) → IsIdle n → pending n ≡ []
pending-IsIdle n idle = rw (idle.buffer, idle.head, idle.tasks) refl

-- What granting the request at hand makes of the node.
abbrev granted_node : Node → ClientRequest → Kvs → Node
granted_node n req kvs = record n {
  kvs = kvs;
  xact = record n.xact { req = req };
  can_do_xact_deq = true;
  log_buffer = record n.xact { req = req } ∷ [];
}

module _ (s : Sizes) (sized : IsSized s) where
  try_xact-granted :
      (n : Node)
      → IsSound s n
      → IsIdle n
      → IsOffered s n
      → (n.xact.client_id == minus_one) ≡ false
      → (req : ClientRequest) × (kvs : Kvs) × (try_xact s n ≡ ok (granted_node n req kvs))
  unfolding try_xact
  try_xact-granted n h idle offered real =
      let (res, run, attempt) = transfer_work-Attempt s n.kvs n.xact.req sized (offered real) in
      let none = pending-IsIdle n idle in
      let lock : (k : ℕ) → n.kvs.locked k ≡ false =
        λ k. free_lock (n.kvs.locked k) (h.store.held k ∙ ap (holders k) none) in
      let free : res.0 ≡ true =
        attempt.granted ∙ rw (lock n.xact.req.from, lock n.xact.req.to) refl in
      (res.1, res.2, rw (real, run, ◌>>=◌, free, idle.buffer) refl)

-- The task of the request at hand.
abbrev pub task_of : Node → ClientRequest → Task
task_of n req = record {
  worker_id = n.info.worker_id;
  lsn = n.lsn_counter;
  nlog = 1;
  xact_set = record n.xact { req = req } ∷ [];
}

-- What the round makes of the node after `take_xact`: the request is granted, logged and sent.
pub record Launched (n m : Node) : Type 0 where
  pub req : ClientRequest
  pub point : m.point ≡ at_store (task_of n req)
  pub info : m.info ≡ n.info
  pub buffer : m.log_buffer ≡ []
  pub free : m.can_do_xact_deq ≡ true
  pub counter : m.lsn_counter ≡ n.lsn_counter + 1
  pub status : m.status ≡ n.status
  pub size : m.cluster_size ≡ n.cluster_size

send_group-Launched :
    (n : Node) (req : ClientRequest) (kvs : Kvs) (o : Outside)
    → IsLogging n o
    → Returns (send_group (granted_node n req kvs) o) (Launched n)
unfolding send_group of_u64
send_group-Launched n req kvs o io =
    let g = granted_node n req kvs in
    let (r, run, (lsn, counter, grown)) =
      logging_work-below n.lsn_counter n.log g.log_buffer 1 n.status.current_term o.log_time
        io.counter in
    let t : Task = record (task_of n req) { lsn = r.0 } in
    let (sent, ran) =
      send_packets-returns o.connect2raftnode g 1 r.0 n.sockets n.info.followers io.connects in
    let m : Node = record g {
      lsn_counter = r.1;
      log = r.2;
      log_buffer = [];
      pre_log_send = set_log_send n.info.followers n.pre_log_send o.now;
      point = at_store t;
      sockets = sent.0;
      packets = n.packets ++ sent.1;
    } in
    (
      m,
      rw (io.wrote, io.synced, ◌>>=◌, run, ran) refl,
      record {
        req = req;
        point = ap (λ (l : Int32). at_store (record (task_of n req) { lsn = l })) lsn;
        info = refl;
        buffer = refl;
        free = refl;
        counter = counter;
        status = refl;
        size = refl;
      },
    )

granted_due :
    (n : Node) (req : ClientRequest) (kvs : Kvs)
    → is_group_due (granted_node n req kvs) (next_time n.pre_log_send) ≡ true
unfolding is_group_due
granted_due n req kvs = ground arith

module _ (s : Sizes) (sized : IsSized s) where
  -- From a node without a granted request, a round in time for the group grants, logs and sends the
  -- request at hand.
  pub worker_round-Launched :
      (n : Node) (o : Outside)
      → o.now ≡ next_time (take_xact n o.memory).pre_log_send
      → let got = take_xact n o.memory in
        IsSound s got
        → IsIdle got
        → IsOffered s got
        → (got.xact.client_id == minus_one) ≡ false
        → IsLogging got o
        → Returns (worker_round s n o) (Launched got)
  unfolding worker_round
  worker_round-Launched n o time h idle offered real io =
      let got = take_xact n o.memory in
      let (req, kvs, run) = try_xact-granted s sized got h idle offered real in
      let (m, ran, launched) = send_group-Launched got req kvs o io in
      let due : is_group_due (granted_node got req kvs) o.now ≡ true =
        rw time (granted_due got req kvs) in
      (m, rw (run, ◌>>=◌, due) ran, launched)
