-- ===== src/Raft/Rounds.antt =====
-- The worker keeps the node sound.
use mathlib.Core.List.{append_assoc, append-nil}
use raft_2pl.Prelude.{
  ◌>>=◌, ◌≡◌, ◌∙◌, sym, ap, subst, refl, List, [], ◌∷◌, ◌++◌, arith, inl, inr, Returns, Bool-cases,
}
use raft_2pl.Types.{Sizes}
use raft_2pl.Kvs.{Kvs}
use raft_2pl.Kvs.Table.{IsSized}
use raft_2pl.Worker.{Task, task_store}
use raft_2pl.Twopl.Transfer.{IsAccepted}
use raft_2pl.Twopl.Bank.{IsConsistent, holders-append}
use raft_2pl.Raft.{
  Node, Point, at_loop, at_store, Outside, take_xact, is_group_due, worker_round, worker_step,
}
use raft_2pl.Raft.Invariant.{
  requests, task_requests, sent_requests, IsCounted, IsSound, SentIsCounted, reorder, All-append,
  All-split,
}
use raft_2pl.Raft.Attempts.{take_xact-IsSound, try_xact-IsSound}
use raft_2pl.Raft.Groups.{IsLogging, send_group-IsSound, take_xact-frame, is_group_due-some}

task_requests-snoc :
    (ts : List Task) (t : Task)
    → task_requests (ts ++ t ∷ []) ≡ task_requests ts ++ requests t.xact_set
task_requests-snoc [] t = append-nil (requests t.xact_set)
task_requests-snoc (x ∷ ts) t =
    rw (task_requests-snoc ts t)
      (sym (append_assoc (requests x.xact_set) (task_requests ts) (requests t.xact_set)))

module _ (s : Sizes) (sized : IsSized s) where
  worker_round-IsSound :
      (n : Node) (o : Outside)
      → IsSound s n
      → IsLogging n o
      → n.point ≡ at_loop
      → Returns (worker_round s n o) λ m. IsSound s m × (m.kvs.hash ≡ n.kvs.hash)
  unfolding worker_round
  worker_round-IsSound n o h io head =
      let (sound, offered) = take_xact-IsSound s n o.memory h in
      let (kvs, point, counter) = take_xact-frame n o.memory in
      let (m, run, (below, same, stay, count)) =
        try_xact-IsSound s sized (take_xact n o.memory) sound offered in
      let due = is_group_due-some m o.now below.room in
      let sum : m.kvs.hash ≡ n.kvs.hash = same ∙ ap (λ (k : Kvs). k.hash) kvs in
      elim (Bool-cases (is_group_due m o.now)) [
        | inr early ↦ (
          m,
          rw (run, ◌>>=◌, early) refl,
          (
            record {
              store = below.store;
              queued = below.queued;
              retried = below.retried;
              room = due.1 early;
              sent = below.sent;
              tasks = below.tasks;
            },
            sum,
          ),
        )
        | inl ready ↦
            let (k, ran, (done, kept)) =
              send_group-IsSound s m o below
                (record {
                  wrote = io.wrote;
                  synced = io.synced;
                  counter = rw (count, counter) io.counter;
                  connects = io.connects;
                })
                (stay ∙ point ∙ head) (due.0 ready) in
            (k, rw (run, ◌>>=◌, ready) ran, (done, ap (λ (x : Kvs). x.hash) kept ∙ sum))
      ]

  task_store-IsSound :
      (n : Node) (t : Task)
      → IsSound s n
      → n.point ≡ at_store t
      → IsSound s (record n { info = task_store n.info t; point = at_loop })
  unfolding task_store
  task_store-IsSound n t h here =
      let tasks = n.info.task_list in
      let own = requests t.xact_set in
      let buffer = requests n.log_buffer in
      let store =
        subst
          (λ (p : Point).
            IsConsistent s (record {
              kvs = n.kvs;
              pending = buffer ++ (sent_requests p ++ task_requests tasks);
            }))
          here h.store in
      record {
        store = rw task_requests-snoc (
            reorder s n.kvs (buffer ++ (own ++ task_requests tasks))
              (buffer ++ (task_requests tasks ++ own))
              (λ k. omega (
                arith,
                holders-append k buffer (own ++ task_requests tasks),
                holders-append k own (task_requests tasks),
                holders-append k buffer (task_requests tasks ++ own),
                holders-append k (task_requests tasks) own,
              ))
              (λ a.
                let x = All-split (IsAccepted s) buffer (own ++ task_requests tasks) a in
                let y = All-split (IsAccepted s) own (task_requests tasks) x.1 in
                All-append (IsAccepted s) buffer (task_requests tasks ++ own) x.0
                  (All-append (IsAccepted s) (task_requests tasks) own y.1 y.0))
              store);
        queued = h.queued;
        retried = h.retried;
        room = h.room;
        sent = tt;
        tasks = All-append IsCounted tasks (t ∷ []) h.tasks (subst SentIsCounted here h.sent, tt);
      }

  worker_step-at :
      (n : Node) (p : Point) (o : Outside)
      → IsSound s n
      → IsLogging n o
      → n.point ≡ p
      → Returns (worker_step s n p o) λ m. IsSound s m × (m.kvs.hash ≡ n.kvs.hash)
  unfolding worker_step
  worker_step-at n at_loop o h io here = worker_round-IsSound n o h io here
  worker_step-at n (at_store t) o h io here = (_, refl, (task_store-IsSound n t h here, refl))

  -- Each step of the worker of a sound node returns if the log can be written, every node can be
  -- connected to, and fewer than 2 ^ 31 records have been numbered; the node stays sound (so its
  -- buffer holds fewer than 100 requests at the next step, and never writes past the array), and no
  -- balance changes.
  pub worker_step-IsSound :
      (n : Node) (o : Outside)
      → IsSound s n
      → IsLogging n o
      → Returns (worker_step s n n.point o) λ m. IsSound s m × (m.kvs.hash ≡ n.kvs.hash)
  worker_step-IsSound n o h io = worker_step-at n n.point o h io refl
