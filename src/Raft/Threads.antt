-- ===== src/Raft/Threads.antt =====
-- The threads of the leader together: the worker, the notifiers and the producers in any order.
use raft_2pl.Prelude.{
  ℕ, suc, ◌%◌, ◌<◌, ◌≤◌, ◌≡◌, ◌∙◌, sym, ap, subst, refl, Int32, u32, sign_bit, Bool, true, false,
  List, [], ◌∷◌, ◌++◌, arith, Returns, ok, ok_injective, Run, ◌>>=◌, to_nat,
}
use raft_2pl.Types.{Sizes, ClientRequest, TransReq}
use raft_2pl.Kvs.{Kvs, HashObject}
use raft_2pl.Kvs.Table.{IsSized}
use raft_2pl.Worker.{
  Task, WorkerInfo, FollowerInfo, task_store, get_follower_info_by_id, xact_enqueue,
}
use raft_2pl.Worker.Tasks.{has_task}
use raft_2pl.Rpc.{ResponseAppendEntries}
use raft_2pl.Twopl.Transfer.{IsAccepted}
use raft_2pl.Twopl.Commit.{total}
use raft_2pl.Twopl.Bank.{All, holders, holders-append}
use raft_2pl.Raft.{Node, Point, at_loop, at_store, Outside, worker_step, notifier_step}
use raft_2pl.Raft.Clients.{enqueue_command}
use raft_2pl.Raft.Invariant.{requests, task_requests, sent_requests, IsSound, All-append}
use raft_2pl.Raft.Acks.{Acked-absent, notifier_step-Acked}
use raft_2pl.Raft.Groups.{IsLogging}
use raft_2pl.Raft.Rounds.{worker_step-IsSound}

-- An ack that the notifier can read: for this worker, from a follower that it knows, with a
-- number that is no negative `int`.
pub record IsHeard (wi : WorkerInfo) (ack : ResponseAppendEntries) : Type 0 where
  pub mine : wi.worker_id ≡ ack.worker_id
  pub follower : FollowerInfo
  pub known : get_follower_info_by_id wi.followers ack.r_node_id ≡ ok follower
  pub natural : ack.lsn < sign_bit

module _ (s : Sizes) (fuel : ℕ) (send_ok : Int32 → Bool) where
  -- A step of one thread. The commands hold requests between two different keys of the database:
  -- `transferWork` asserts that the keys differ, and indexes the arrays with them.
  pub data Move : Node → Node → Type 0 where
    works : (n m : Node) (o : Outside) → IsLogging n o → worker_step s n n.point o ≡ ok m → Move n m
    hears :
        (n m : Node) (ack : ResponseAppendEntries) (memory : Task)
        → IsHeard n.info ack
        → notifier_step s (suc fuel) send_ok n ack memory ≡ ok m
        → Move n m
    produces :
        (n : Node) (client command : Int32) (reqs : List ClientRequest)
        → All (IsAccepted s) reqs
        → Move n (record n { info = enqueue_command n.info client command reqs })

  pub data Moves (n : Node) : Node → Type 0 where
    here : Moves n n
    next : {k m : Node} → Moves n k → Move k m → Moves n m

  enqueue_command-IsSound :
      (n : Node) (client command : Int32) (reqs : List ClientRequest)
      → All (IsAccepted s) reqs
      → IsSound s n
      → IsSound s (record n { info = enqueue_command n.info client command reqs })
  unfolding enqueue_command xact_enqueue
  enqueue_command-IsSound n client command [] a h = h
  enqueue_command-IsSound n client command (r ∷ rs) a h =
      let tx : TransReq = record { client_id = client; command_id = command; req = r } in
      enqueue_command-IsSound (record n { info = xact_enqueue n.info tx }) client command rs a.1
        (record {
          store = h.store;
          queued =
              All-append (λ (x : TransReq). IsAccepted s x.req) n.info.xact_queue (tx ∷ []) h.queued
                (a.0, tt);
          retried = h.retried;
          room = h.room;
          sent = h.sent;
          tasks = h.tasks;
        })

  -- Whatever the order of the worker's steps, the acks and the commands of clients, where each
  -- request of a command is between two different keys of the database, the log can be written, the
  -- nodes can be connected to, fewer than 2 ^ 31 records have been numbered, and each ack is for this
  -- worker, from a follower that it knows, for a record with a non-negative number: a sound node
  -- stays sound (every lock is held exactly when one granted, uncommitted request has its key), and
  -- the sum of all balances is the same modulo 2 ^ 32.
  pub Moves-IsSound :
      {n m : Node}
      → IsSized s
      → Moves n m
      → IsSound s n
      → IsSound s m × (total s.database m.kvs.hash % u32 ≡ total s.database n.kvs.hash % u32)
  Moves-IsSound sized here h = (h, refl)
  Moves-IsSound sized (next r (works n m o io run)) h =
      let (k, t) = Moves-IsSound sized r h in
      let (m', run', (sound, same)) = worker_step-IsSound s sized n o k io in
      let e : m' ≡ m = ok_injective (sym run' ∙ run) in
      (
        subst (IsSound s) e sound,
        ap (λ (x : Node). total s.database x.kvs.hash % u32) (sym e)
            ∙ ap (λ (f : ℕ → HashObject). total s.database f % u32) same
            ∙ t,
      )
  Moves-IsSound sized (next r (hears n m ack memory heard run)) h =
      let (k, t) = Moves-IsSound sized r h in
      let (m', run', acked) =
        notifier_step-Acked s sized fuel send_ok n ack memory heard.follower k heard.mine
          heard.known heard.natural in
      let e : m' ≡ m = ok_injective (sym run' ∙ run) in
      (
        subst (IsSound s) e acked.sound,
        ap (λ (x : Node). total s.database x.kvs.hash % u32) (sym e) ∙ acked.total ∙ t,
      )
  Moves-IsSound sized (next r (produces n client command reqs a)) h =
      let (k, t) = Moves-IsSound sized r h in (enqueue_command-IsSound n client command reqs a k, t)

  -- The acks of a list, one after the other.
  unfoldable pub hear_all : Node → Task → List ResponseAppendEntries → Run Node
  hear_all n memory [] = ok n
  hear_all n memory (a ∷ acks) =
      notifier_step s (suc fuel) send_ok n a memory >>= λ m. hear_all m memory acks

  hear_early :
      (n : Node) (memory : Task) (lsn : Int32) (acks : List ResponseAppendEntries)
      → IsSized s
      → IsSound s n
      → has_task n.info.task_list lsn ≡ false
      → All (λ (a : ResponseAppendEntries). IsHeard n.info a × (a.lsn ≡ lsn)) acks
      → Returns (hear_all n memory acks) λ m. IsSound s m × (m ≡ record n { status = m.status })
  unfolding hear_all
  hear_early n memory lsn [] sized h absent all = (n, refl, (h, refl))
  hear_early n memory lsn (a ∷ acks) sized h absent all =
      let heard = all.0.0 in
      let (m, run, acked) =
        notifier_step-Acked s sized fuel send_ok n a memory heard.follower h heard.mine heard.known
          heard.natural in
      let e = Acked-absent s send_ok n a m acked (rw (all.0.1) absent) in
      let same : n.info ≡ m.info = sym (ap (λ (x : Node). x.info) e) in
      let (k, ran, (sound, f)) =
        hear_early m memory lsn acks sized acked.sound (rw (← same) absent) (
          subst
            (λ (wi : WorkerInfo).
              All (λ (x : ResponseAppendEntries). IsHeard wi x × (x.lsn ≡ lsn)) acks)
            same all.1) in
      (k, rw (run, ◌>>=◌) ran, (sound, f ∙ ap (λ (x : Node). record x { status = k.status }) e))

-- Both keys of every request of the list are locked.
abbrev pub AllHeld : Kvs → List TransReq → Type 0
AllHeld kvs xs =
    All (λ (x : TransReq). (kvs.locked x.req.from ≡ true) × (kvs.locked x.req.to ≡ true)) xs

held-AllHeld :
    (kvs : Kvs) (xs : List TransReq)
    → ((k : ℕ) → holders k (requests xs) ≤ to_nat (kvs.locked k))
    → AllHeld kvs xs
held-AllHeld kvs [] h = tt
held-AllHeld kvs (x ∷ xs) h = (
  (ground (arith, h x.req.from), ground (arith, h x.req.to)),
  held-AllHeld kvs xs (λ k. omega (arith, h k)),
)

-- For a sound node: if every ack for a group is handled between the worker's sends and its `taskStore`, none of them
-- commits it, and then the worker stores the task: the group stays in the list with all its locks
-- held, and no client has had an answer for it.
pub early_acks_lost :
    (s : Sizes) (fuel : ℕ) (send_ok : Int32 → Bool) (n : Node) (t memory : Task) (o : Outside)
    (acks : List ResponseAppendEntries)
    → IsSized s
    → IsSound s n
    → n.point ≡ at_store t
    → has_task n.info.task_list t.lsn ≡ false
    → All (λ (a : ResponseAppendEntries). IsHeard n.info a × (a.lsn ≡ t.lsn)) acks
    → Returns (hear_all s fuel send_ok n memory acks >>= λ m. worker_step s m m.point o) λ m.
      (m.info.task_list ≡ n.info.task_list ++ t ∷ [])
      × (m.messages ≡ n.messages)
      × AllHeld m.kvs t.xact_set
unfolding worker_step task_store
early_acks_lost s fuel send_ok n t memory o acks sized h waits absent all =
    let (m, run, (sound, e)) = hear_early s fuel send_ok n memory t.lsn acks sized h absent all in
    let at : m.point ≡ at_store t = ap (λ (x : Node). x.point) e ∙ waits in
    let stored : Node = record m { info = task_store m.info t; point = at_loop } in
    let counts : (k : ℕ) → holders k (requests t.xact_set) ≤ to_nat (m.kvs.locked k) = λ k.
      let pend =
        subst
          (λ (p : Point).
            to_nat (m.kvs.locked k)
            ≡ holders k
                (requests m.log_buffer ++ (sent_requests p ++ task_requests m.info.task_list)))
          at (sound.store.held k) in
      omega (
        arith,
        holders-append k (requests m.log_buffer)
            (requests t.xact_set ++ task_requests m.info.task_list),
        holders-append k (requests t.xact_set) (task_requests m.info.task_list),
      ) in
    (
      stored,
      rw (run, ◌>>=◌, at) refl,
      (
        ap (λ (x : Node). x.info.task_list ++ t ∷ []) e,
        ap (λ (x : Node). x.messages) e,
        held-AllHeld m.kvs t.xact_set counts,
      ),
    )
