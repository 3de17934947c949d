-- ===== src/Twopl/Ledger.antt =====
-- What the engine promises: a ledger whose balances change by whole transfers of granted requests,
-- and in which no two granted requests share a key. The store with its locks refines it.
use raft_2pl.Prelude.{
  ℕ, ◌≡◌, ◌∙◌, ap, sym, subst, refl, true, ◌==◌, if◌then◌else◌, Int32, add32, sub32, [],
  ok_injective, List, ◌∷◌, ◌++◌, inl, inr, Bool-cases, arith,
}
use raft_2pl.Types.{Sizes, ClientRequest}
use raft_2pl.Kvs.{Kvs, HashObject}
use raft_2pl.Kvs.Table.{IsSized}
use raft_2pl.Twopl.{sort_request}
use raft_2pl.Twopl.Transfer.{
  is_free, sort_request-cases, IsAccepted, transfer_work-IsAccepted, Attempt, transfer_work-Attempt,
}
use raft_2pl.Twopl.Commit.{Committed}
use raft_2pl.Twopl.Bank.{
  Bank, holders, Step, attempt, commit, Reach, here, next, IsConsistent, commit_returns,
  Reach-IsConsistent, attempted, All-middle,
}

pub record Ledger : Type 0 where
  pub balances : ℕ → Int32
  pub granted : List ClientRequest

-- A transfer of `diff` from the first key to the second.
abbrev pub posted : (ℕ → Int32) → ClientRequest → ℕ → Int32
posted balances r k =
    if k == r.to
    then add32 (balances k) r.diff
    else (if k == r.from then sub32 (balances k) r.diff else balances k)

-- A request is granted only if no granted one has either of its keys; a granted one is posted.
pub data LedgerStep : Ledger → Ledger → Type 0 where
  grants :
      (l : Ledger) (r : ClientRequest)
      → holders r.from l.granted ≡ 0
      → holders r.to l.granted ≡ 0
      → LedgerStep l (record l { granted = r ∷ l.granted })
  posts :
      (l : Ledger) (before rest : List ClientRequest) (r : ClientRequest)
      → l.granted ≡ before ++ r ∷ rest
      → LedgerStep l (record { balances = posted l.balances r; granted = before ++ rest })

pub data LedgerReach (l : Ledger) : Ledger → Type 0 where
  stays : LedgerReach l l
  goes_on : {m n : Ledger} → LedgerReach l m → LedgerStep m n → LedgerReach l n

abbrev pub balances_of : (ℕ → HashObject) → ℕ → Int32
balances_of hash k = (hash k).value

-- The transfers of a list, in its order.
abbrev pub post_all : (ℕ → Int32) → List ClientRequest → ℕ → Int32
post_all balances [] = balances
post_all balances (r ∷ rs) = post_all (posted balances r) rs

-- The ledger that a store with its pending requests stands for.
abbrev pub ledger_of : Bank → Ledger
ledger_of b = record { balances = balances_of b.kvs.hash; granted = b.pending }

granted_free :
    (s : Sizes) (b : Bank) (req : ClientRequest)
    → IsSized s
    → IsAccepted s req
    → IsConsistent s b
    → is_free b.kvs req ≡ true
    → (holders (sort_request req).from b.pending ≡ 0)
      × (holders (sort_request req).to b.pending ≡ 0)
granted_free s b req sized a c free =
    let from_free : holders req.from b.pending ≡ 0 = ground (arith, c.held req.from) in
    let to_free : holders req.to b.pending ≡ 0 = ground (arith, c.held req.to) in
    elim (sort_request-cases s req sized a) [
      | inl (lt, e) ↦ rw e (to_free, from_free)
      | inr (ge, e) ↦ rw e (from_free, to_free)
    ]

-- What a commit makes of every balance.
posted_lem :
    (s : Sizes) (kvs after : Kvs) (req : ClientRequest) (k : ℕ)
    → IsAccepted s req
    → Committed s kvs req after
    → (after.hash k).value ≡ posted (λ j. (kvs.hash j).value) req k
posted_lem s kvs after req k a d = elim (Bool-cases (k == req.to)) [
  | inl e ↦
      let at : k ≡ req.to = ground arith in
      rw e (
        ap (λ (j : ℕ). (after.hash j).value) at
        ∙ d.to_value
        ∙ ap (λ (j : ℕ). add32 (kvs.hash j).value req.diff) (sym at))
  | inr apart ↦ elim (Bool-cases (k == req.from)) [
    | inl e ↦
        let at : k ≡ req.from = ground arith in
        rw (apart, e)
          (ap (λ (j : ℕ). (after.hash j).value) at
            ∙ d.from_value
            ∙ ap (λ (j : ℕ). sub32 (kvs.hash j).value req.diff) (sym at))
    | inr other ↦
        rw (apart, other) (ap (λ (h : HashObject). h.value) (d.others k (rw (other, apart) refl)))
  ]
]

pub commit_posted :
    (s : Sizes) (kvs after : Kvs) (req : ClientRequest)
    → IsAccepted s req
    → Committed s kvs req after
    → balances_of after.hash ≡ posted (balances_of kvs.hash) req
commit_posted s kvs after req a d = λ i j. posted_lem s kvs after req j a d i

Step-LedgerReach :
    (s : Sizes) {b c : Bank}
    → IsSized s
    → Step s b c
    → IsConsistent s b
    → LedgerReach (ledger_of b) (ledger_of c)
Step-LedgerReach s sized (attempt b req res inside run) h =
    let a = transfer_work-IsAccepted s b.kvs req res inside run in
    let (r, ran, t) = transfer_work-Attempt s b.kvs req sized a in
    let same : r ≡ res = ok_injective (sym ran ∙ run) in
    let u : Attempt b.kvs req res = subst (Attempt b.kvs req) same t in
    let same_balances = ap balances_of (sym u.hash) in
    elim (Bool-cases res.0) [
      | inr refused ↦
          let e : ledger_of b ≡ ledger_of (attempted b res) =
            rw (attempted, refused)
              (ap {B = Ledger} (λ (v : ℕ → Int32). record { balances = v; granted = b.pending })
                same_balances) in
          subst (LedgerReach (ledger_of b)) e stays
      | inl given ↦
          let free = granted_free s b req sized a h (sym u.granted ∙ given) in
          let e : ◌≡◌ {A = Ledger}
              (record { balances = balances_of b.kvs.hash; granted = res.1 ∷ b.pending })
              (ledger_of (attempted b res)) =
            rw (attempted, given)
              (ap {B = Ledger}
                (λ (v : ℕ → Int32). record { balances = v; granted = res.1 ∷ b.pending })
                same_balances) in
          subst (LedgerReach (ledger_of b)) e (
            goes_on stays (
              grants (ledger_of b) res.1
                (ap (λ (r : ClientRequest). holders r.from b.pending) u.sorted ∙ free.0)
                (ap (λ (r : ClientRequest). holders r.to b.pending) u.sorted ∙ free.1)))
    ]
Step-LedgerReach s sized (commit b before rest req fuel kvs e run) h =
    let (k, ran, d) = (commit_returns s b before rest req fuel sized h e).0 in
    let same : k ≡ kvs = ok_injective (sym ran ∙ run) in
    let a = (All-middle (IsAccepted s) before req rest (rw e at h.accepted)).0 in
    let balances = sym (commit_posted s b.kvs kvs req a (subst (Committed s b.kvs req) same d)) in
    subst
      (λ (v : ℕ → Int32).
        LedgerReach (ledger_of b) (record { balances = v; granted = before ++ rest }))
      balances (goes_on stays (posts (ledger_of b) before rest req e))

LedgerReach-trans : {l m n : Ledger} → LedgerReach l m → LedgerReach m n → LedgerReach l n
LedgerReach-trans r stays = r
LedgerReach-trans r (goes_on p st) = goes_on (LedgerReach-trans r p) st

-- Every run of attempts, of requests between keys of the database, and of commits on a consistent
-- store, all of which return, is a run of the ledger: a request is
-- granted only while no granted one has either of its keys, and the balances change by whole
-- transfers of granted requests, one after the other, and by nothing else.
pub Reach-LedgerReach :
    (s : Sizes) {b c : Bank}
    → IsSized s
    → Reach s b c
    → IsConsistent s b
    → LedgerReach (ledger_of b) (ledger_of c)
Reach-LedgerReach s sized here h = stays
Reach-LedgerReach s sized (next r st) h =
    LedgerReach-trans (Reach-LedgerReach s sized r h)
      (Step-LedgerReach s sized st (Reach-IsConsistent s sized r h).0)
