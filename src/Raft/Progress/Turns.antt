-- ===== src/Raft/Progress/Turns.antt =====
-- The next request that waits is granted, logged and sent, and its task is stored.
use raft_2pl.Prelude.{
  ℕ, suc, ◌+◌, ◌/◌, ◌==◌, ◌<◌, ◌≤◌, ◌≡◌, ◌∙◌, sym, ap, subst, refl, Int32, minus_one, sign_bit,
  Bool, true, false, List, [], ◌∷◌, ◌++◌, length, arith, inl, inr, ok, Bool-cases,
}
use raft_2pl.Types.{Sizes, TransReq}
use raft_2pl.Kvs.Table.{IsSized}
use raft_2pl.Status.{vote_at}
use raft_2pl.Worker.{Task, WorkerInfo, FollowerInfo, get_follower_info_by_id, task_store}
use raft_2pl.Worker.Tasks.{xact_dequeue-cases}
use raft_2pl.Twopl.Bank.{All}
use raft_2pl.Nodes.{RaftNode}
use raft_2pl.Raft.{Node, Point, at_loop, Outside, take_xact, worker_step}
use raft_2pl.Raft.Invariant.{IsSound}
use raft_2pl.Raft.Groups.{IsOk}
use raft_2pl.Raft.Attempts.{IsOffered, take_xact-IsSound}
use raft_2pl.Raft.Commits.{fixed, Fixed}
use raft_2pl.Raft.Outstanding.{held, IsReal}
use raft_2pl.Raft.Threads.{Moves, works, here, next}
use raft_2pl.Raft.Answers.Steps.{produced}
use raft_2pl.Raft.Progress.{IsIdle}
use raft_2pl.Raft.Progress.Grants.{task_of, next_time, worker_round-Launched}
use raft_2pl.Raft.Progress.Votes.{IsQuiet, heard}

-- How many requests wait: the queue and the one that is retried.
abbrev pub waiting : Node → ℕ
waiting n = length n.info.xact_queue + length (held n.can_do_xact_deq n.xact)

abbrev IsDistinct : List Int32 → Type 0
IsDistinct [] = Unit
IsDistinct (v ∷ vs) = All (λ (w : Int32). (w == v) ≡ false) vs × IsDistinct vs

-- A leader which holds no granted request, and has counted no ack for the records to come. The
-- requests that wait have clients. The voters are different followers, as many as make a quorum.
pub record IsReady (s : Sizes) (voters : List Int32) (n : Node) : Type 0 where
  pub sound : IsSound s n
  pub idle : IsIdle n
  pub real : All IsReal n.info.xact_queue
  pub retried : n.can_do_xact_deq ≡ false → IsReal n.xact
  pub small : n.cluster_size < sign_bit
  pub fresh : (j : Int32) → n.lsn_counter ≤ j → vote_at n.status.votes j ≡ 0
  pub quorum : length voters ≡ n.cluster_size / 2 + 1
  pub distinct : IsDistinct voters
  pub known :
      All
        (λ (v : Int32). (f : FollowerInfo) × (get_follower_info_by_id n.info.followers v ≡ ok f))
        voters

-- After `take_xact` with a request that waits.
record Offered (s : Sizes) (n got : Node) : Type 0 where
  sound : IsSound s got
  idle : IsIdle got
  offered : IsOffered s got
  hand : IsReal got.xact
  real : All IsReal got.info.xact_queue
  count : suc (length got.info.xact_queue) ≡ waiting n
  same_fixed : fixed got ≡ fixed n
  status : got.status ≡ n.status

take_xact-Offered :
    (s : Sizes) (voters : List Int32) (n : Node) (memory : TransReq)
    → IsReady s voters n
    → 0 < waiting n
    → Offered s n (take_xact n memory)
unfolding take_xact
take_xact-Offered s voters n memory h some =
    let (sound, offered) = take_xact-IsSound s n memory h.sound in
    elim (Bool-cases n.can_do_xact_deq) [
      | inr off ↦
          let e : take_xact n memory ≡ n = ground arith in
          record {
            sound = sound;
            idle = subst IsIdle (sym e) h.idle;
            offered = offered;
            hand = subst (λ (x : Node). IsReal x.xact) (sym e) (h.retried off);
            real = subst (λ (x : Node). All IsReal x.info.xact_queue) (sym e) h.real;
            count = ap (λ (x : Node). suc (length x.info.xact_queue)) e ∙ ground arith;
            same_fixed = ap fixed e;
            status = ap (λ (x : Node). x.status) e;
          }
      | inl on ↦ elim (xact_dequeue-cases n.info memory) [
        | inl (empty, e) ↦ absurd (ground (arith, ap (λ (q : List TransReq). length q) empty))
        | inr (front, rest, split, e) ↦
            let m : Node = record n { xact = front; info = record n.info { xact_queue = rest } } in
            let e' : take_xact n memory ≡ m = ground (arith, e) in
            let all = subst (All IsReal) split h.real in
            record {
              sound = sound;
              idle =
                  subst IsIdle (sym e')
                    (record { head = h.idle.head; buffer = h.idle.buffer; tasks = h.idle.tasks });
              offered = offered;
              hand = subst (λ (x : Node). IsReal x.xact) (sym e') all.0;
              real = subst (λ (x : Node). All IsReal x.info.xact_queue) (sym e') all.1;
              count =
                  ap (λ (x : Node). suc (length x.info.xact_queue)) e'
                  ∙ ground (arith, ap (λ (q : List TransReq). length q) split);
              same_fixed = ap fixed e';
              status = ap (λ (x : Node). x.status) e';
            }
      ]
    ]

-- What does not change while a request is served.
abbrev pub Cluster : Type 0
Cluster = Int32 × List FollowerInfo × Int32

abbrev pub cluster : Node → Cluster
cluster n = (n.info.worker_id, n.info.followers, n.cluster_size)

module _ (s : Sizes) (fuel : ℕ) (send_ok : Int32 → Bool) where
  -- The next request was granted, logged and sent, and its task is stored.
  pub record Stored (n m : Node) : Type 0 where
    pub moves : Moves s fuel send_ok n m
    pub quiet : IsQuiet s fuel send_ok moves
    pub heard_acks : heard s fuel send_ok moves ≡ []
    pub task : Task
    pub tasks : m.info.task_list ≡ task ∷ []
    pub lsn : task.lsn ≡ n.lsn_counter
    pub head : m.point ≡ at_loop
    pub buffer : m.log_buffer ≡ []
    pub free : m.can_do_xact_deq ≡ true
    pub real : All IsReal m.info.xact_queue
    pub count : suc (length m.info.xact_queue) ≡ waiting n
    pub same_cluster : cluster m ≡ cluster n
    pub counter : m.lsn_counter ≡ n.lsn_counter + 1
    pub status : m.status ≡ n.status

  module _ (sized : IsSized s) where
    pub store_next :
        (voters : List Int32) (n : Node)
        → IsReady s voters n
        → 0 < waiting n
        → n.lsn_counter + 1 < sign_bit
        → (m : Node) × Stored n m
    unfolding worker_step task_store produced heard
    store_next voters n h some room =
        let got = take_xact n n.xact in
        let o : Outside = record {
          now = next_time got.pre_log_send;
          memory = n.xact;
          log_time = 0;
          wrote = true;
          synced = true;
          connect2raftnode = λ p. ok minus_one;
        } in
        let in_reach : (p : RaftNode) → IsOk (o.connect2raftnode p) = λ p. (minus_one, refl) in
        let off = take_xact-Offered s voters n n.xact h some in
        let count : got.lsn_counter ≡ n.lsn_counter = ap (λ (f : Fixed). f.3) off.same_fixed in
        let (m, run, l) =
          worker_round-Launched s sized n o refl off.sound off.idle off.offered off.hand
            (record { wrote = refl; synced = refl; connects = in_reach; counter = omega arith }) in
        let t = task_of got l.req in
        let stored : Node = record m { info = task_store m.info t; point = at_loop } in
        let first : worker_step s n n.point o ≡ ok m =
          subst (λ (p : Point). worker_step s n p o ≡ ok m) (sym h.idle.head) run in
        let second : worker_step s m m.point o ≡ ok stored =
          subst (λ (p : Point). worker_step s m p o ≡ ok stored) (sym l.point) refl in
        (
          stored,
          record {
            moves =
                next
                  (next here (
                    works n m o
                      (record {
                        wrote = refl;
                        synced = refl;
                        connects = in_reach;
                        counter = omega arith;
                      })
                      first))
                  (works m stored o
                    (record {
                      wrote = refl;
                      synced = refl;
                      connects = in_reach;
                      counter = omega (arith, l.counter);
                    })
                    second);
            quiet = refl;
            heard_acks = refl;
            task = t;
            tasks =
                ap (λ (wi : WorkerInfo). wi.task_list ++ t ∷ []) l.info
                ∙ ap (λ (ts : List Task). ts ++ t ∷ []) off.idle.tasks;
            lsn = count;
            head = refl;
            buffer = l.buffer;
            free = l.free;
            real = subst (λ (wi : WorkerInfo). All IsReal wi.xact_queue) (sym l.info) off.real;
            count = ap (λ (wi : WorkerInfo). suc (length wi.xact_queue)) l.info ∙ off.count;
            same_cluster =
                ap (λ (wi : WorkerInfo). (wi.worker_id, wi.followers, stored.cluster_size)) l.info
                ∙ ap (λ (c : Int32). (got.info.worker_id, got.info.followers, c)) l.size
                ∙ ap (λ (f : Fixed). (f.0, f.1, f.2)) off.same_fixed;
            counter = l.counter ∙ ap (λ (x : ℕ). x + 1) count;
            status = l.status ∙ off.status;
          },
        )
