-- ===== src/Raft/Answers.antt =====
-- What the leader's threads promise to the clients: every request that is queued is held until it
-- is posted and answered (src/server/raft.cc: worker, notifier, producer).
pub mod Steps
pub mod Once
use mathlib.Core.List.{append_assoc, append-nil, map-append}
use raft_2pl.Prelude.{ℕ, ◌+◌, ◌≡◌, ◌∙◌, sym, ap, refl, Int32, Bool, List, [], ◌∷◌, ◌++◌, map, arith}
use raft_2pl.Types.{Sizes, ClientRequest, TransReq}
use raft_2pl.Nodes.{ClientNode}
use raft_2pl.Rpc.{CommitMessage, cm_by_fields}
use raft_2pl.Worker.{Task, WorkerInfo, xact_enqueue}
use raft_2pl.Twopl.Bank.{All}
use raft_2pl.Twopl.Transfer.{IsAccepted}
use raft_2pl.Twopl.Ledger.{balances_of, post_all}
use raft_2pl.Raft.{Node}
use raft_2pl.Raft.Clients.{enqueue_command, send_to_client}
use raft_2pl.Raft.Invariant.{requests, All-append}
use raft_2pl.Raft.Commits.{Answered, answer_all}
use raft_2pl.Raft.Outstanding.{count, count-append, task_xacts, outstanding}
use raft_2pl.Raft.Posting.{post_all-append}

-- The requests of a command, as the producer queues them.
abbrev pub tagged : Int32 → Int32 → List ClientRequest → List TransReq
tagged client command = map λ r. record { client_id = client; command_id = command; req = r }

pub enqueue_command-tagged :
    (wi : WorkerInfo) (client command : Int32) (reqs : List ClientRequest)
    → enqueue_command wi client command reqs
      ≡ record wi { xact_queue = wi.xact_queue ++ tagged client command reqs }
unfolding enqueue_command xact_enqueue
enqueue_command-tagged wi client command [] =
    ap (λ (q : List TransReq). record wi { xact_queue = q }) (sym (append-nil wi.xact_queue))
enqueue_command-tagged wi client command (r ∷ rs) =
    let tx : TransReq = record { client_id = client; command_id = command; req = r } in
    enqueue_command-tagged (xact_enqueue wi tx) client command rs
    ∙ ap (λ (q : List TransReq). record wi { xact_queue = q })
        (append_assoc wi.xact_queue (tx ∷ []) (tagged client command rs))

abbrev Outcome : Type 0
Outcome = List ClientNode × List (Int32 × CommitMessage)

answer_all-append :
    (send_ok : Int32 → Bool) (clients : List ClientNode) (xs ys : List TransReq)
    → let first = answer_all send_ok clients xs in
      let rest = answer_all send_ok first.0 ys in
      answer_all send_ok clients (xs ++ ys) ≡ (rest.0, first.1 ++ rest.1)
answer_all-append send_ok clients [] ys = refl
answer_all-append send_ok clients (x ∷ xs) ys =
    let first = send_to_client send_ok clients x.client_id (cm_by_fields x.command_id) in
    let middle = answer_all send_ok first.0 xs in
    let rest = answer_all send_ok middle.0 ys in
    ap (λ (r : Outcome). (r.0, first.1 ++ r.1)) (answer_all-append send_ok first.0 xs ys)
    ∙ ap (λ (q : List (Int32 × CommitMessage)). (rest.0, q))
        (sym (append_assoc first.1 middle.1 rest.1))

-- From `n` to `m` the requests of `queued` came in. Those of `done` left: each was posted to the
-- balances and answered, in this order; all others are held by `m`, each as often as it came.
pub record Served (s : Sizes) (send_ok : Int32 → Bool) (n m : Node) (queued : List TransReq)
    : Type 0 where
  pub done : List TransReq
  pub accepted : All (IsAccepted s) (requests done)
  pub answered : Answered send_ok n done m
  pub posts : balances_of m.kvs.hash ≡ post_all (balances_of n.kvs.hash) (requests done)
  pub counts :
      (c k : Int32)
      → count c k done + count c k (outstanding m) ≡ count c k (outstanding n) + count c k queued

pub task_xacts-middle :
    (c k : Int32) (before rest : List Task) (t : Task)
    → count c k (task_xacts (before ++ t ∷ rest))
      ≡ count c k t.xact_set + count c k (task_xacts (before ++ rest))
task_xacts-middle c k [] rest t = count-append c k t.xact_set (task_xacts rest)
task_xacts-middle c k (x ∷ before) rest t = omega (
  arith,
  task_xacts-middle c k before rest t,
  count-append c k x.xact_set (task_xacts (before ++ t ∷ rest)),
  count-append c k x.xact_set (task_xacts (before ++ rest)),
)

-- A step that changes nothing but the status, or passes requests on.
pub quiet-Served :
    (s : Sizes) (send_ok : Int32 → Bool) (n m : Node) (queued : List TransReq)
    → m.clients ≡ n.clients
    → m.messages ≡ n.messages
    → balances_of m.kvs.hash ≡ balances_of n.kvs.hash
    → ((c k : Int32) → count c k (outstanding m) ≡ count c k (outstanding n) + count c k queued)
    → Served s send_ok n m queued
quiet-Served s send_ok n m queued clients messages posts counts = record {
  done = [];
  accepted = tt;
  answered = (clients, messages ∙ sym (append-nil n.messages));
  posts = posts;
  counts = λ c k. omega (arith, counts c k);
}

pub Served-trans :
    (s : Sizes) (send_ok : Int32 → Bool) (n k m : Node) (xs ys : List TransReq)
    → Served s send_ok n k xs
    → Served s send_ok k m ys
    → Served s send_ok n m (xs ++ ys)
Served-trans s send_ok n k m xs ys a b =
    let all = answer_all-append send_ok n.clients a.done b.done in
    let early = answer_all send_ok n.clients a.done in
    let later = answer_all send_ok early.0 b.done in
    let e = ap (λ (cs : List ClientNode). answer_all send_ok cs b.done) a.answered.0 in
    record {
      done = a.done ++ b.done;
      accepted =
          rw (map-append (λ (x : TransReq). x.req) a.done b.done)
            (All-append (IsAccepted s) (requests a.done) (requests b.done) a.accepted b.accepted);
      answered = (
        b.answered.0 ∙ ap (λ (r : Outcome). r.0) e ∙ sym (ap (λ (r : Outcome). r.0) all),
        b.answered.1
            ∙ ap (λ (r : Outcome). k.messages ++ r.1) e
            ∙ ap (λ (q : List (Int32 × CommitMessage)). q ++ later.1) a.answered.1
            ∙ append_assoc n.messages early.1 later.1
            ∙ ap (λ (r : Outcome). n.messages ++ r.1) (sym all),
      );
      posts =
          b.posts
          ∙ ap (λ (v : ℕ → Int32). post_all v (requests b.done)) a.posts
          ∙ sym (post_all-append (balances_of n.kvs.hash) (requests a.done) (requests b.done))
          ∙ ap (post_all (balances_of n.kvs.hash))
              (sym (map-append (λ (x : TransReq). x.req) a.done b.done));
      counts = λ c j. omega (
        arith,
        a.counts c j,
        b.counts c j,
        count-append c j a.done b.done,
        count-append c j xs ys,
      );
    }
