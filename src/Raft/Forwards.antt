-- ===== src/Raft/Forwards.antt =====
-- The worker passes requests on and loses none (src/server/raft.cc, worker).
use raft_2pl.Prelude.{
  ◌>>=◌, suc, ◌+◌, ◌<◌, ◌≡◌, ◌∙◌, sym, ap, subst, refl, Int32, ltb, List, [], ◌∷◌, ◌++◌, arith, inl,
  inr, ok, ok_injective, Run-cases, Bool-cases, length, take, take-length, of_u64,
}
use raft_2pl.Types.{Sizes, max_group_entry}
use raft_2pl.Kvs.Table.{IsSized}
use raft_2pl.Logging.{logging_work}
use raft_2pl.Worker.{Task, task_store}
use raft_2pl.Twopl.Bank.{All}
use raft_2pl.Raft.{
  Node, Point, at_loop, at_store, Outside, take_xact, is_group_due, send_group, send_packets,
  worker_round, worker_step,
}
use raft_2pl.Raft.Invariant.{IsSound}
use raft_2pl.Raft.Attempts.{take_xact-IsSound, try_xact-IsSound}
use raft_2pl.Raft.Outstanding.{
  count, count-append, sent_xacts, held, task_xacts, outstanding, count-outstanding, IsReal, Rest,
  rest_of, take_xact-Taken, try_xact-Tried,
}

-- A step of the worker: it answers nobody, and the node holds the requests that it held, each as
-- often.
pub record Forwarded (n m : Node) : Type 0 where
  pub clients : m.clients ≡ n.clients
  pub messages : m.messages ≡ n.messages
  pub real : All IsReal m.info.xact_queue
  pub counts : (c k : Int32) → count c k (outstanding m) ≡ count c k (outstanding n)

send_group-Forwarded :
    (n m : Node) (o : Outside)
    → length n.log_buffer < suc max_group_entry
    → n.point ≡ at_loop
    → All IsReal n.info.xact_queue
    → send_group n o ≡ ok m
    → Forwarded n m
unfolding send_group of_u64
send_group-Forwarded n m o room head real run = elim (Bool-cases (ltb 0 (length n.log_buffer))) [
  | inr empty ↦ absurd (cc (rw (empty, ◌>>=◌) at run))
  | inl some ↦
      let nlog = of_u64 (length n.log_buffer) in
      elim (Run-cases (
        logging_work n.lsn_counter n.log n.log_buffer nlog n.status.current_term o.log_time o.wrote
          o.synced)) [
            | inl (why, e) ↦ absurd (cc (rw (some, ◌>>=◌, e) at run))
            | inr (r, e) ↦
                elim (Run-cases
                  (send_packets o.connect2raftnode n nlog r.0 n.sockets n.info.followers)) [
                    | inl (why, f) ↦ absurd (cc (rw (some, ◌>>=◌, e, f) at run))
                    | inr (sent, f) ↦
                        let e' = ok_injective (rw (some, ◌>>=◌, e, f) at run) in
                        let fits : nlog ≡ length n.log_buffer = omega arith in
                        let whole : take nlog n.log_buffer ≡ n.log_buffer =
                          rw fits (take-length n.log_buffer) in
                        record {
                          clients = sym (ap (λ (x : Node). x.clients) e');
                          messages = sym (ap (λ (x : Node). x.messages) e');
                          real = subst (λ (x : Node). All IsReal x.info.xact_queue) e' real;
                          counts = λ c k. omega (
                            arith,
                            count-outstanding c k m,
                            count-outstanding c k n,
                            ap (λ (x : Node). count c k x.info.xact_queue) e',
                            ap (λ (x : Node). count c k (held x.can_do_xact_deq x.xact)) e',
                            ap (λ (x : Node). count c k x.log_buffer) e',
                            ap (λ (x : Node). count c k (sent_xacts x.point)) e',
                            ap (λ (x : Node). count c k (task_xacts x.info.task_list)) e',
                            ap (count c k) whole,
                            ap (λ (p : Point). count c k (sent_xacts p)) head,
                          );
                        }
                  ]
          ]
]

module _ (s : Sizes) (sized : IsSized s) where
  worker_round-Forwarded :
      (n m : Node) (o : Outside)
      → IsSound s n
      → All IsReal n.info.xact_queue
      → n.point ≡ at_loop
      → worker_round s n o ≡ ok m
      → Forwarded n m
  unfolding worker_round
  worker_round-Forwarded n m o h real head run =
      let got = take_xact n o.memory in
      let (sound, offered) = take_xact-IsSound s n o.memory h in
      let taken = take_xact-Taken n o.memory real in
      let (t, ran, (below, same, stay, counter)) = try_xact-IsSound s sized got sound offered in
      let tried = try_xact-Tried s got t ran in
      let rest : rest_of t ≡ rest_of n = tried.same ∙ taken.same in
      let real' : All IsReal t.info.xact_queue = subst (All IsReal) (sym tried.queue) taken.real in
      let counts : (c k : Int32) → count c k (outstanding t) ≡ count c k (outstanding n) = λ c k.
        omega (
          arith,
          count-outstanding c k t,
          count-outstanding c k n,
          taken.counts c k,
          tried.counts c k,
          ap (count c k) tried.queue,
          ap (count c k) taken.buffer,
          ap (λ (r : Rest). count c k (sent_xacts r.0)) rest,
          ap (λ (r : Rest). count c k (task_xacts r.1)) rest,
        ) in
      let done : Forwarded n t = record {
        clients = ap (λ (r : Rest). r.2) rest;
        messages = ap (λ (r : Rest). r.3) rest;
        real = real';
        counts = counts;
      } in
      elim (Bool-cases (is_group_due t o.now)) [
        | inr early ↦
            let e : t ≡ m = ok_injective (rw (ran, ◌>>=◌, early) at run) in
            subst (Forwarded n) e done
        | inl due ↦
            let sent =
              send_group-Forwarded t m o below.room (ap (λ (r : Rest). r.0) rest ∙ head) real'
                (rw (ran, ◌>>=◌, due) at run) in
            record {
              clients = sent.clients ∙ done.clients;
              messages = sent.messages ∙ done.messages;
              real = sent.real;
              counts = λ c k. sent.counts c k ∙ counts c k;
            }
      ]

  task_xacts-snoc :
      (c k : Int32) (ts : List Task) (t : Task)
      → count c k (task_xacts (ts ++ t ∷ [])) ≡ count c k (task_xacts ts) + count c k t.xact_set
  task_xacts-snoc c k [] t = omega (arith, count-append c k t.xact_set [])
  task_xacts-snoc c k (x ∷ ts) t = omega (
    arith,
    task_xacts-snoc c k ts t,
    count-append c k x.xact_set (task_xacts (ts ++ t ∷ [])),
    count-append c k x.xact_set (task_xacts ts),
  )

  worker_step-at :
      (n m : Node) (p : Point) (o : Outside)
      → IsSound s n
      → All IsReal n.info.xact_queue
      → n.point ≡ p
      → worker_step s n p o ≡ ok m
      → Forwarded n m
  unfolding worker_step task_store
  worker_step-at n m at_loop o h real here run = worker_round-Forwarded n m o h real here run
  worker_step-at n m (at_store t) o h real here run =
      let e = ok_injective run in
      subst (Forwarded n) e (record {
        clients = refl;
        messages = refl;
        real = real;
        counts = λ c k. omega (
          arith,
          count-outstanding c k n,
          count-outstanding c k (record n { info = task_store n.info t; point = at_loop }),
          task_xacts-snoc c k n.info.task_list t,
          ap (λ (p : Point). count c k (sent_xacts p)) here,
        );
      })

  -- Whatever a step of the worker does, from a sound node: nobody is answered, and the node holds
  -- the requests that it held, each as often.
  pub worker_step-Forwarded :
      (n m : Node) (o : Outside)
      → IsSound s n
      → All IsReal n.info.xact_queue
      → worker_step s n n.point o ≡ ok m
      → Forwarded n m
  worker_step-Forwarded n m o h real run = worker_step-at n m n.point o h real refl run
