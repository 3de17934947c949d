-- ===== src/Raft/Attempts.antt =====
-- The request at hand: taken from the queue, tried, and put in the buffer (src/server/raft.cc, worker).
use mathlib.Core.List.{map-append}
use raft_2pl.Prelude.{
  ℕ, suc, ◌<◌, ◌≡◌, subst, refl, minus_one, Bool, true, false, List, [], ◌∷◌, ◌++◌, length,
  length-append, arith, inl, inr, ◌==◌, if◌then◌else◌, Returns, Bool-cases,
}
use raft_2pl.Types.{Sizes, ClientRequest, TransReq, max_group_entry}
use raft_2pl.Kvs.{Kvs}
use raft_2pl.Kvs.Table.{IsSized}
use raft_2pl.Worker.Tasks.{xact_dequeue-cases}
use raft_2pl.Twopl.Transfer.{IsAccepted, transfer_work-Attempt, sort_request-IsAccepted}
use raft_2pl.Twopl.Bank.{All, IsConsistent, holders-append, attempted-IsConsistent}
use raft_2pl.Raft.{Node, take_xact, try_xact}
use raft_2pl.Raft.Invariant.{
  requests, task_requests, sent_requests, bank, IsSound, IsSoundBelow, reorder, All-append,
  All-split,
}

-- The request at hand, if there is one, names two keys of the database.
abbrev pub IsOffered : Sizes → Node → Type 0
IsOffered s n = (n.xact.client_id == minus_one) ≡ false → IsAccepted s n.xact.req

pub take_xact-IsSound :
    (s : Sizes) (n : Node) (memory : TransReq)
    → IsSound s n
    → IsSound s (take_xact n memory) × IsOffered s (take_xact n memory)
unfolding take_xact
take_xact-IsSound s n memory h = elim (Bool-cases n.can_do_xact_deq) [
  | inr off ↦ let same : take_xact n memory ≡ n = ground arith in rw same (h, λ _. h.retried off)
  | inl on ↦ elim (xact_dequeue-cases n.info memory) [
    | inl (empty, e) ↦
        let same : take_xact n memory
            ≡ record n { xact = record memory { client_id = minus_one } } =
          ground (arith, e) in
        rw same (
          record {
            store = h.store;
            queued = h.queued;
            retried = λ off. absurd (cc);
            room = h.room;
            sent = h.sent;
            tasks = h.tasks;
          },
          λ real. absurd (cc),
        )
    | inr (front, rest, split, e) ↦
        let same : take_xact n memory
            ≡ record n { xact = front; info = record n.info { xact_queue = rest } } =
          ground (arith, e) in
        let queued = subst (All (λ (x : TransReq). IsAccepted s x.req)) split h.queued in
        rw same (
          record {
            store = h.store;
            queued = queued.1;
            retried = λ off. absurd (cc);
            room = h.room;
            sent = h.sent;
            tasks = h.tasks;
          },
          λ _. queued.0,
        )
  ]
]

-- The requests of the buffer with one more, in the order in which the bank counts them.
granted_last :
    (s : Sizes) (kvs : Kvs) (xs : List TransReq) (tx : TransReq) (others : List ClientRequest)
    → IsConsistent s (record { kvs = kvs; pending = tx.req ∷ (requests xs ++ others) })
    → IsConsistent s (record { kvs = kvs; pending = requests (xs ++ tx ∷ []) ++ others })
granted_last s kvs xs tx others = rw map-append (
    reorder s kvs (tx.req ∷ (requests xs ++ others)) ((requests xs ++ tx.req ∷ []) ++ others)
      (λ k. omega (
        arith,
        holders-append k (requests xs ++ tx.req ∷ []) others,
        holders-append k (requests xs) (tx.req ∷ []),
        holders-append k (requests xs) others,
      ))
      (λ h.
        let a = All-split (IsAccepted s) (requests xs) others h.1 in
        All-append (IsAccepted s) (requests xs ++ tx.req ∷ []) others
          (All-append (IsAccepted s) (requests xs) (tx.req ∷ []) a.0 (h.0, tt)) a.1))

granted_store :
    (s : Sizes) (kvs : Kvs) (xs : List TransReq) (tx : TransReq) (others : List ClientRequest)
    (granted : Bool)
    → IsConsistent s (record {
      kvs = kvs;
      pending = if granted then tx.req ∷ (requests xs ++ others) else requests xs ++ others;
    })
    → IsConsistent s
        (record { kvs = kvs; pending = requests (if granted then xs ++ tx ∷ [] else xs) ++ others })
granted_store s kvs xs tx others true c = granted_last s kvs xs tx others c
granted_store s kvs xs tx others false c = c

granted_room :
    (granted : Bool) (xs : List TransReq) (tx : TransReq) (m : ℕ)
    → length xs < m
    → length (if granted then xs ++ tx ∷ [] else xs) < suc m
granted_room true xs tx m h = omega (arith, length-append xs (tx ∷ []))
granted_room false xs tx m h = omega arith

module _ (s : Sizes) (sized : IsSized s) where
  -- A round's attempt: the buffer may be full after it.
  pub try_xact-IsSound :
      (n : Node)
      → IsSound s n
      → IsOffered s n
      → Returns (try_xact s n) λ m.
        IsSoundBelow s (suc max_group_entry) m
        × (m.kvs.hash ≡ n.kvs.hash)
        × (m.point ≡ n.point)
        × (m.lsn_counter ≡ n.lsn_counter)
  unfolding try_xact
  try_xact-IsSound n h offered = elim (Bool-cases (n.xact.client_id == minus_one)) [
    | inl idle ↦ (
      n,
      rw idle refl,
      (
        record {
          store = h.store;
          queued = h.queued;
          retried = h.retried;
          room = omega (arith, h.room);
          sent = h.sent;
          tasks = h.tasks;
        },
        refl,
        refl,
        refl,
      ),
    )
    | inr real ↦
        let accepted = offered real in
        let (res, run, attempt) = transfer_work-Attempt s n.kvs n.xact.req sized accepted in
        let sorted = (sort_request-IsAccepted s n.xact.req sized accepted).0 in
        let own : IsAccepted s res.1 = rw attempt.sorted sorted in
        let store =
          attempted-IsConsistent s (bank n) n.xact.req res sized accepted attempt h.store in
        let others = sent_requests n.point ++ task_requests n.info.task_list in
        let tx : TransReq = record n.xact { req = res.1 } in
        let m : Node = record n {
          kvs = res.2;
          xact = tx;
          can_do_xact_deq = res.0;
          log_buffer = if res.0 then n.log_buffer ++ tx ∷ [] else n.log_buffer;
        } in
        (
          m,
          rw (real, run) refl,
          (
            record {
              store = granted_store s res.2 n.log_buffer tx others res.0 store;
              queued = h.queued;
              retried = λ _. own;
              room = granted_room res.0 n.log_buffer tx max_group_entry h.room;
              sent = h.sent;
              tasks = h.tasks;
            },
            attempt.hash,
            refl,
            refl,
          ),
        )
  ]
