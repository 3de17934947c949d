-- ===== src/Raft/Answers/Steps.antt =====
-- The leader's threads in any order, as seen from the clients.
use mathlib.Core.List.{append-nil}
use raft_2pl.Prelude.{
  ℕ, suc, ◌+◌, ◌≡◌, ◌∙◌, sym, ap, subst, refl, Int32, Bool, List, [], ◌∷◌, ◌++◌, arith, inl, inr,
  ok, ok_injective,
}
use raft_2pl.Types.{Sizes, ClientRequest, TransReq}
use raft_2pl.Kvs.Table.{IsSized}
use raft_2pl.Raft.Groups.{IsLogging}
use raft_2pl.Rpc.{ResponseAppendEntries}
use raft_2pl.Worker.{Task}
use raft_2pl.Twopl.Bank.{All}
use raft_2pl.Twopl.Ledger.{balances_of}
use raft_2pl.Raft.{Node, Outside, worker_step, notifier_step}
use raft_2pl.Raft.Clients.{enqueue_command}
use raft_2pl.Raft.Invariant.{IsSound, All-append, All-split}
use raft_2pl.Raft.Commits.{Kept, kept}
use raft_2pl.Raft.Acks.{notifier_step-Acked}
use raft_2pl.Raft.Rounds.{worker_step-IsSound}
use raft_2pl.Raft.Outstanding.{
  count, count-append, held, sent_xacts, task_xacts, outstanding, count-outstanding, IsReal,
}
use raft_2pl.Raft.Forwards.{worker_step-Forwarded}
use raft_2pl.Raft.Threads.{IsHeard, works, hears, produces, Moves, here, next, Moves-IsSound}
use raft_2pl.Raft.Answers.{
  tagged, enqueue_command-tagged, Served, task_xacts-middle, quiet-Served, Served-trans,
}

module _ (s : Sizes) (fuel : ℕ) (send_ok : Int32 → Bool) where
  -- The requests that came in during the moves.
  unfoldable pub produced : {n m : Node} → Moves s fuel send_ok n m → List TransReq
  produced here = []
  produced (next moves (works n m o io run)) = produced moves
  produced (next moves (hears n m ack memory heard run)) = produced moves
  produced (next moves (produces n client command reqs a)) =
      produced moves ++ tagged client command reqs

  left_counts :
      (c k : Int32) (n m : Node) (before rest : List Task) (t : Task)
      → n.info.task_list ≡ before ++ t ∷ rest
      → kept m ≡ kept (record n { info = record n.info { task_list = before ++ rest } })
      → count c k t.xact_set + count c k (outstanding m) ≡ count c k (outstanding n) + 0
  left_counts c k n m before rest t split left = omega (
    arith,
    count-outstanding c k m,
    count-outstanding c k n,
    task_xacts-middle c k before rest t,
    ap (λ (ts : List Task). count c k (task_xacts ts)) split,
    ap (λ (x : Kept). count c k x.0) left,
    ap (λ (x : Kept). count c k (task_xacts x.1)) left,
    ap (λ (x : Kept). count c k x.2) left,
    ap (λ (x : Kept). count c k (held x.5 x.3)) left,
    ap (λ (x : Kept). count c k (sent_xacts x.4)) left,
  )

  module _ (sized : IsSized s) where
    works-Served :
        (n m : Node) (o : Outside)
        → IsLogging n o
        → worker_step s n n.point o ≡ ok m
        → IsSound s n
        → All IsReal n.info.xact_queue
        → All IsReal m.info.xact_queue × Served s send_ok n m []
    works-Served n m o io run h real =
        let (m', run', (sound, same)) = worker_step-IsSound s sized n o h io in
        let e : m' ≡ m = ok_injective (sym run' ∙ run) in
        let passed = worker_step-Forwarded s sized n m o h real run in
        (
          passed.real,
          quiet-Served s send_ok n m [] passed.clients passed.messages
              (ap (λ (x : Node). balances_of x.kvs.hash) (sym e) ∙ ap balances_of same)
              (λ c k. omega (arith, passed.counts c k)),
        )

    hears-Served :
        (n m : Node) (ack : ResponseAppendEntries) (memory : Task)
        → IsHeard n.info ack
        → notifier_step s (suc fuel) send_ok n ack memory ≡ ok m
        → IsSound s n
        → All IsReal n.info.xact_queue
        → All IsReal m.info.xact_queue × Served s send_ok n m []
    hears-Served n m ack memory heard run h real =
        let (m', run', acked) =
          notifier_step-Acked s sized fuel send_ok n ack memory heard.follower h heard.mine
            heard.known heard.natural in
        let e : m' ≡ m = ok_injective (sym run' ∙ run) in
        subst (λ (x : Node). All IsReal x.info.xact_queue × Served s send_ok n x []) e
          (elim acked.outcome [
            | inl (why, same) ↦
                subst (λ (x : Node). All IsReal x.info.xact_queue × Served s send_ok n x [])
                  (sym same)
                  (
                    real,
                    quiet-Served s send_ok n (record n { status = m'.status }) [] refl refl refl
                        (λ c k. omega arith),
                  )
            | inr (decisive, (before, t, rest, split, hit, left, accepted, posts, answers)) ↦ (
              subst (λ (x : Kept). All IsReal x.0) (sym left) real,
              record {
                done = t.xact_set;
                accepted = accepted;
                answered = answers;
                posts = posts;
                counts = λ c k. left_counts c k n m' before rest t split left;
              },
            )
          ])

    produces-Served :
        (n : Node) (client command : Int32) (reqs : List ClientRequest)
        → let m : Node = record n { info = enqueue_command n.info client command reqs } in
          All IsReal n.info.xact_queue
          → All IsReal (tagged client command reqs)
          → All IsReal m.info.xact_queue × Served s send_ok n m (tagged client command reqs)
    produces-Served n client command reqs real new =
        let more = tagged client command reqs in
        let m : Node = record n {
          info = record n.info { xact_queue = n.info.xact_queue ++ more };
        } in
        let e = enqueue_command-tagged n.info client command reqs in
        rw e (
          All-append IsReal n.info.xact_queue more real new,
          quiet-Served s send_ok n m more refl refl refl (λ c k. omega (
            arith,
            count-outstanding c k m,
            count-outstanding c k n,
            count-append c k n.info.xact_queue more,
          )),
        )

    Served-quiet :
        (n k m : Node) (xs : List TransReq)
        → Served s send_ok n k xs
        → Served s send_ok k m []
        → Served s send_ok n m xs
    Served-quiet n k m xs a b =
        subst (Served s send_ok n m) (append-nil xs) (Served-trans s send_ok n k m xs [] a b)

    Moves-Served-IsReal :
        {n m : Node} (moves : Moves s fuel send_ok n m)
        → IsSound s n
        → All IsReal n.info.xact_queue
        → All IsReal (produced moves)
        → All IsReal m.info.xact_queue × Served s send_ok n m (produced moves)
    unfolding produced
    Moves-Served-IsReal {n} here h real new =
        (real, quiet-Served s send_ok n n [] refl refl refl (λ c k. omega arith))
    Moves-Served-IsReal {n} (next moves (works k m o io run)) h real new =
        let (real', first) = Moves-Served-IsReal moves h real new in
        let sound = (Moves-IsSound s fuel send_ok sized moves h).0 in
        let (kept_real, last) = works-Served k m o io run sound real' in
        (kept_real, Served-quiet n k m (produced moves) first last)
    Moves-Served-IsReal {n} (next moves (hears k m ack memory heard run)) h real new =
        let (real', first) = Moves-Served-IsReal moves h real new in
        let sound = (Moves-IsSound s fuel send_ok sized moves h).0 in
        let (kept_real, last) = hears-Served k m ack memory heard run sound real' in
        (kept_real, Served-quiet n k m (produced moves) first last)
    Moves-Served-IsReal {n} (next moves (produces k client command reqs a)) h real new =
        let (early, late) = All-split IsReal (produced moves) (tagged client command reqs) new in
        let (real', first) = Moves-Served-IsReal moves h real early in
        let (kept_real, last) = produces-Served k client command reqs real' late in
        (
          kept_real,
          Served-trans s send_ok n k _ (produced moves) (tagged client command reqs) first last,
        )

    pub Moves-Served :
        {n m : Node} (moves : Moves s fuel send_ok n m)
        → IsSound s n
        → All IsReal n.info.xact_queue
        → All IsReal (produced moves)
        → Served s send_ok n m (produced moves)
    Moves-Served moves h real new = (Moves-Served-IsReal moves h real new).1
