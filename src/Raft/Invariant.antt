-- ===== src/Raft/Invariant.antt =====
-- The invariant of a node: its store is consistent with the requests that the worker and the task
-- list hold.
use raft_2pl.Prelude.{
  ℕ, ◌+◌, ◌<◌, ◌≤◌, ◌≡◌, ◌∙◌, sym, false, List, [], ◌∷◌, ◌++◌, map, length, arith,
}
use raft_2pl.Types.{Sizes, ClientRequest, TransReq, max_group_entry}
use raft_2pl.Kvs.{Kvs}
use raft_2pl.Worker.{Task}
use raft_2pl.Twopl.Transfer.{IsAccepted}
use raft_2pl.Twopl.Bank.{Bank, All, IsConsistent, holders, holders-append}
use raft_2pl.Raft.{Node, Point, at_loop, at_store}

abbrev pub requests : List TransReq → List ClientRequest
requests = map λ x. x.req

abbrev pub task_requests : List Task → List ClientRequest
task_requests [] = []
task_requests (t ∷ ts) = requests t.xact_set ++ task_requests ts

-- The group that is sent and not yet stored.
abbrev pub sent_requests : Point → List ClientRequest
sent_requests at_loop = []
sent_requests (at_store t) = requests t.xact_set

-- The granted requests that are not committed.
abbrev pub pending : Node → List ClientRequest
pending n = requests n.log_buffer ++ (sent_requests n.point ++ task_requests n.info.task_list)

abbrev pub bank : Node → Bank
bank n = record { kvs = n.kvs; pending = pending n }

-- A task's count is the length of its list, and fits the array.
abbrev pub IsCounted : Task → Type 0
IsCounted t = (t.nlog ≡ length t.xact_set) × (length t.xact_set ≤ max_group_entry)

abbrev pub SentIsCounted : Point → Type 0
SentIsCounted at_loop = Unit
SentIsCounted (at_store t) = IsCounted t

-- The requests in the queue and the one that the worker retries name two keys of the database.
-- The buffer is shorter than `bound`.
pub record IsSoundBelow (s : Sizes) (bound : ℕ) (n : Node) : Type 0 where
  pub store : IsConsistent s (bank n)
  pub queued : All (λ (x : TransReq). IsAccepted s x.req) n.info.xact_queue
  pub retried : n.can_do_xact_deq ≡ false → IsAccepted s n.xact.req
  pub room : length n.log_buffer < bound
  pub sent : SentIsCounted n.point
  pub tasks : All IsCounted n.info.task_list

abbrev pub IsSound : Sizes → Node → Type 0
IsSound s n = IsSoundBelow s max_group_entry n

pub All-append {ℓ κ} :
    {A : Type ℓ} (P : A → Type κ) (xs ys : List A) → All P xs → All P ys → All P (xs ++ ys)
All-append P [] ys h k = k
All-append P (x ∷ xs) ys h k = (h.0, All-append P xs ys h.1 k)

pub All-split {ℓ κ} :
    {A : Type ℓ} (P : A → Type κ) (xs ys : List A) → All P (xs ++ ys) → All P xs × All P ys
All-split P [] ys h = (tt, h)
All-split P (x ∷ xs) ys h = let r = All-split P xs ys h.1 in ((h.0, r.0), r.1)

-- Consistency does not depend on the order of the pending requests.
pub reorder :
    (s : Sizes) (kvs : Kvs) (xs ys : List ClientRequest)
    → ((k : ℕ) → holders k ys ≡ holders k xs)
    → (All (IsAccepted s) xs → All (IsAccepted s) ys)
    → IsConsistent s (record { kvs = kvs; pending = xs })
    → IsConsistent s (record { kvs = kvs; pending = ys })
reorder s kvs xs ys same all c = record {
  indexed = c.indexed;
  accepted = all c.accepted;
  held = λ k. c.held k ∙ sym (same k);
}

-- The middle of three parts moves to the front.
reorder_middle :
    (s : Sizes) (kvs : Kvs) (xs ys zs : List ClientRequest)
    → IsConsistent s (record { kvs = kvs; pending = xs ++ (ys ++ zs) })
    → IsConsistent s (record { kvs = kvs; pending = ys ++ (xs ++ zs) })
reorder_middle s kvs xs ys zs =
    reorder s kvs (xs ++ (ys ++ zs)) (ys ++ (xs ++ zs))
      (λ k. omega (
        arith,
        holders-append k xs (ys ++ zs),
        holders-append k ys zs,
        holders-append k ys (xs ++ zs),
        holders-append k xs zs,
      ))
      (λ h.
        let a = All-split (IsAccepted s) xs (ys ++ zs) h in
        let b = All-split (IsAccepted s) ys zs a.1 in
        All-append (IsAccepted s) ys (xs ++ zs) b.0 (All-append (IsAccepted s) xs zs a.0 b.1))

-- The requests of all tasks are those of one task and those of the others.
holders-task_requests :
    (k : ℕ) (before rest : List Task) (t : Task)
    → holders k (task_requests (before ++ t ∷ rest))
      ≡ holders k (requests t.xact_set) + holders k (task_requests (before ++ rest))
holders-task_requests k [] rest t = holders-append k (requests t.xact_set) (task_requests rest)
holders-task_requests k (x ∷ before) rest t = omega (
  arith,
  holders-task_requests k before rest t,
  holders-append k (requests x.xact_set) (task_requests (before ++ t ∷ rest)),
  holders-append k (requests x.xact_set) (task_requests (before ++ rest)),
)

All-task_requests {κ} :
    (P : ClientRequest → Type κ) (before rest : List Task) (t : Task)
    → All P (task_requests (before ++ t ∷ rest))
    → All P (requests t.xact_set) × All P (task_requests (before ++ rest))
All-task_requests P [] rest t h = All-split P (requests t.xact_set) (task_requests rest) h
All-task_requests P (x ∷ before) rest t h =
    let a = All-split P (requests x.xact_set) (task_requests (before ++ t ∷ rest)) h in
    let b = All-task_requests P before rest t a.1 in
    (b.0, All-append P (requests x.xact_set) (task_requests (before ++ rest)) a.0 b.1)

-- The requests of one task move to the front.
pub task_to_front :
    (s : Sizes) (kvs : Kvs) (xs ys : List ClientRequest) (before rest : List Task) (t : Task)
    → IsConsistent s
        (record { kvs = kvs; pending = xs ++ (ys ++ task_requests (before ++ t ∷ rest)) })
    → IsConsistent s (record {
      kvs = kvs;
      pending = requests t.xact_set ++ (xs ++ (ys ++ task_requests (before ++ rest)));
    })
task_to_front s kvs xs ys before rest t =
    let all = task_requests (before ++ t ∷ rest) in
    let left = task_requests (before ++ rest) in
    let own = requests t.xact_set in
    reorder s kvs (xs ++ (ys ++ all)) (own ++ (xs ++ (ys ++ left)))
      (λ k. omega (
        arith,
        holders-append k xs (ys ++ all),
        holders-append k ys all,
        holders-task_requests k before rest t,
        holders-append k own (xs ++ (ys ++ left)),
        holders-append k xs (ys ++ left),
        holders-append k ys left,
      ))
      (λ h.
        let a = All-split (IsAccepted s) xs (ys ++ all) h in
        let b = All-split (IsAccepted s) ys all a.1 in
        let c = All-task_requests (IsAccepted s) before rest t b.1 in
        All-append (IsAccepted s) own (xs ++ (ys ++ left)) c.0 (
          All-append (IsAccepted s) xs (ys ++ left) a.0
            (All-append (IsAccepted s) ys left b.0 c.1)))
