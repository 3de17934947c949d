-- ===== src/Raft/Outstanding.antt =====
-- The requests that a node holds: queued, retried, buffered, sent or stored as a task
-- (src/server/raft.cc, worker).
use raft_2pl.Prelude.{
  ◌>>=◌, ℕ, ◌+◌, ◌≡◌, ap, subst, refl, Int32, minus_one, Bool, true, false, ◌==◌, ◌&&◌, List, [],
  ◌∷◌, ◌++◌, arith, inl, inr, ok, ok_injective, Run-cases, Bool-cases, if◌then◌else◌, to_nat,
}
use raft_2pl.Types.{Sizes, TransReq}
use raft_2pl.Twopl.{transfer_work}
use raft_2pl.Nodes.{ClientNode}
use raft_2pl.Rpc.{CommitMessage}
use raft_2pl.Worker.{Task}
use raft_2pl.Worker.Tasks.{xact_dequeue-cases}
use raft_2pl.Twopl.Bank.{All}
use raft_2pl.Raft.{Node, Point, at_loop, at_store, take_xact, try_xact}

-- How many requests of the list belong to the command of the client.
abbrev pub count : (client command : Int32) → List TransReq → ℕ
count client command [] = 0
count client command (x ∷ xs) =
    to_nat (x.client_id == client && x.command_id == command) + count client command xs

pub count-append :
    (c k : Int32) (xs ys : List TransReq) → count c k (xs ++ ys) ≡ count c k xs + count c k ys
count-append c k [] ys = omega arith
count-append c k (x ∷ xs) ys = omega (arith, count-append c k xs ys)

-- The request that is retried.
abbrev pub held : Bool → TransReq → List TransReq
held on xact = if on then [] else xact ∷ []

abbrev pub sent_xacts : Point → List TransReq
sent_xacts at_loop = []
sent_xacts (at_store t) = t.xact_set

abbrev pub task_xacts : List Task → List TransReq
task_xacts [] = []
task_xacts (t ∷ ts) = t.xact_set ++ task_xacts ts

abbrev pub outstanding : Node → List TransReq
outstanding n =
    n.info.xact_queue
    ++ (held n.can_do_xact_deq n.xact
        ++ (n.log_buffer ++ (sent_xacts n.point ++ task_xacts n.info.task_list)))

pub count-outstanding :
    (c k : Int32) (n : Node)
    → count c k (outstanding n)
      ≡ count c k n.info.xact_queue
        + (count c k (held n.can_do_xact_deq n.xact)
            + (count c k n.log_buffer
                + (count c k (sent_xacts n.point) + count c k (task_xacts n.info.task_list))))
count-outstanding c k n =
    let stored = task_xacts n.info.task_list in
    let sent = sent_xacts n.point ++ stored in
    let buffer = n.log_buffer ++ sent in
    let back = held n.can_do_xact_deq n.xact in
    omega (
      arith,
      count-append c k n.info.xact_queue (back ++ buffer),
      count-append c k back buffer,
      count-append c k n.log_buffer sent,
      count-append c k (sent_xacts n.point) stored,
    )

-- The id -1 stands for no request.
abbrev pub IsReal : TransReq → Type 0
IsReal x = (x.client_id == minus_one) ≡ false

-- The request at hand after `take_xact`.
abbrev pub hand : Node → List TransReq
hand n = if n.xact.client_id == minus_one then held n.can_do_xact_deq n.xact else n.xact ∷ []

-- What an attempt leaves alone.
abbrev pub Rest : Type 0
Rest = Point × List Task × List ClientNode × List (Int32 × CommitMessage)

abbrev pub rest_of : Node → Rest
rest_of n = (n.point, n.info.task_list, n.clients, n.messages)

pub record Taken (n m : Node) : Type 0 where
  pub same : rest_of m ≡ rest_of n
  pub buffer : m.log_buffer ≡ n.log_buffer
  pub real : All IsReal m.info.xact_queue
  pub counts :
      (c k : Int32)
      → count c k m.info.xact_queue + count c k (hand m)
        ≡ count c k n.info.xact_queue + count c k (held n.can_do_xact_deq n.xact)

pub take_xact-Taken :
    (n : Node) (memory : TransReq) → All IsReal n.info.xact_queue → Taken n (take_xact n memory)
unfolding take_xact
take_xact-Taken n memory h = elim (Bool-cases n.can_do_xact_deq) [
  | inr off ↦
      let e : take_xact n memory ≡ n = ground arith in
      rw e (record { same = refl; buffer = refl; real = h; counts = λ c k. ground arith })
  | inl on ↦ elim (xact_dequeue-cases n.info memory) [
    | inl (empty, e) ↦
        let m : Node = record n { xact = record memory { client_id = minus_one } } in
        let e' : take_xact n memory ≡ m = ground (arith, e) in
        rw e' (record { same = refl; buffer = refl; real = h; counts = λ c k. ground arith })
    | inr (front, rest, split, e) ↦
        let m : Node = record n { xact = front; info = record n.info { xact_queue = rest } } in
        let e' : take_xact n memory ≡ m = ground (arith, e) in
        let all = subst (All IsReal) split h in
        rw e' (record {
          same = refl;
          buffer = refl;
          real = all.1;
          counts = λ c k. ground (arith, ap (count c k) split);
        })
  ]
]

pub record Tried (n m : Node) : Type 0 where
  pub same : rest_of m ≡ rest_of n
  pub queue : m.info.xact_queue ≡ n.info.xact_queue
  pub counts :
      (c k : Int32)
      → count c k (held m.can_do_xact_deq m.xact) + count c k m.log_buffer
        ≡ count c k (hand n) + count c k n.log_buffer

granted_counts :
    (c k : Int32) (granted : Bool) (tx : TransReq) (xs : List TransReq)
    → count c k (held granted tx) + count c k (if granted then xs ++ tx ∷ [] else xs)
      ≡ count c k (tx ∷ []) + count c k xs
granted_counts c k true tx xs = omega (arith, count-append c k xs (tx ∷ []))
granted_counts c k false tx xs = refl

module _ (s : Sizes) where
  pub try_xact-Tried : (n m : Node) → try_xact s n ≡ ok m → Tried n m
  unfolding try_xact
  try_xact-Tried n m run = elim (Bool-cases (n.xact.client_id == minus_one)) [
    | inl idle ↦
        let e : n ≡ m = ok_injective (rw idle at run) in
        rw (← e) (record { same = refl; queue = refl; counts = λ c k. rw idle refl })
    | inr real ↦ elim (Run-cases (transfer_work s n.kvs n.xact.req)) [
      | inl (why, e) ↦ absurd (cc (rw (real, e, ◌>>=◌) at run))
      | inr (r, e) ↦
          let tx : TransReq = record n.xact { req = r.1 } in
          let e' = ok_injective (rw (real, e, ◌>>=◌) at run) in
          rw (← e') (record {
            same = refl;
            queue = refl;
            counts = λ c k. rw real (granted_counts c k r.0 tx n.log_buffer);
          })
    ]
  ]
