-- ===== src/Raft/Posting.antt =====
-- The leader's threads as seen from its balances.
use raft_2pl.Prelude.{
  ℕ, ◌≡◌, ◌∙◌, sym, ap, refl, Int32, Bool, List, [], ◌∷◌, ◌++◌, ok_injective, inl, inr,
}
use raft_2pl.Types.{Sizes, ClientRequest}
use raft_2pl.Kvs.Table.{IsSized}
use raft_2pl.Twopl.Transfer.{IsAccepted}
use raft_2pl.Twopl.Bank.{All}
use raft_2pl.Twopl.Ledger.{balances_of, posted, post_all}
use raft_2pl.Raft.{Node}
use raft_2pl.Raft.Clients.{enqueue_command}
use raft_2pl.Raft.Invariant.{IsSound, requests, All-append}
use raft_2pl.Raft.Acks.{notifier_step-Acked}
use raft_2pl.Raft.Rounds.{worker_step-IsSound}
use raft_2pl.Raft.Threads.{Move, works, hears, produces, Moves, here, next, Moves-IsSound}

pub post_all-append :
    (balances : ℕ → Int32) (xs ys : List ClientRequest)
    → post_all balances (xs ++ ys) ≡ post_all (post_all balances xs) ys
post_all-append balances [] ys = refl
post_all-append balances (x ∷ xs) ys = post_all-append (posted balances x) xs ys

-- The balances of `m` are those of `n` after some transfers.
abbrev pub Posted : Sizes → Node → Node → Type 0
Posted s n m =
    (xs : List ClientRequest) × All (IsAccepted s) xs
    × (balances_of m.kvs.hash ≡ post_all (balances_of n.kvs.hash) xs)

unchanged-Posted : (s : Sizes) (n m : Node) → m.kvs.hash ≡ n.kvs.hash → Posted s n m
unchanged-Posted s n m e = ([], tt, ap balances_of e)

Posted-trans : (s : Sizes) (n k m : Node) → Posted s n k → Posted s k m → Posted s n m
Posted-trans s n k m (xs, a, e) (ys, b, f) = (
  xs ++ ys,
  All-append (IsAccepted s) xs ys a b,
  f
      ∙ ap (λ (v : ℕ → Int32). post_all v ys) e
      ∙ sym (post_all-append (balances_of n.kvs.hash) xs ys),
)

module _ (s : Sizes) (fuel : ℕ) (send_ok : Int32 → Bool) (sized : IsSized s) where
  Move-Posted : {n m : Node} → Move s fuel send_ok n m → IsSound s n → Posted s n m
  Move-Posted (works n m o io run) h =
      let (m', run', (sound, same)) = worker_step-IsSound s sized n o h io in
      let e : m' ≡ m = ok_injective (sym run' ∙ run) in
      unchanged-Posted s n m (ap (λ (x : Node). x.kvs.hash) (sym e) ∙ same)
  Move-Posted (hears n m ack memory heard run) h =
      let (m', run', acked) =
        notifier_step-Acked s sized fuel send_ok n ack memory heard.follower h heard.mine
          heard.known heard.natural in
      let e : m' ≡ m = ok_injective (sym run' ∙ run) in
      let back = ap (λ (x : Node). balances_of x.kvs.hash) (sym e) in
      elim acked.outcome [
        | inl (why, same) ↦ ([], tt, back ∙ ap (λ (x : Node). balances_of x.kvs.hash) same)
        | inr (decisive, (before, t, rest, split, hit, left, accepted, posts, answers)) ↦
            (requests t.xact_set, accepted, back ∙ posts)
      ]
  Move-Posted (produces n client command reqs a) h =
      unchanged-Posted s n (record n { info = enqueue_command n.info client command reqs }) refl

  -- From a sound node, whatever the order of the worker's steps, the acks and the commands of
  -- clients: the balances are those at the start after a list of whole transfers between two keys
  -- of the database, one after the other.
  pub Moves-Posted : {n m : Node} → Moves s fuel send_ok n m → IsSound s n → Posted s n m
  Moves-Posted {n} here h = unchanged-Posted s n n refl
  Moves-Posted {n} (next {k} {m} r st) h =
      Posted-trans s n k m (Moves-Posted r h)
        (Move-Posted st (Moves-IsSound s fuel send_ok sized r h).0)
