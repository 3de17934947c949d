-- ===== src/Twopl/Bank.antt =====
-- The workers and the notifiers of one node share the store: worker threads attempt requests and
-- notifier threads commit granted ones, in any order. A granted request stays pending until it is
-- committed.
use raft_2pl.Prelude.{
  ℕ, suc, ◌+◌, ◌%◌, ◌≡◌, ◌∙◌, ap, sym, refl, Int32, u32, if◌then◌else◌, arith, inl, inr, Bool-cases,
  Bool, true, false, ok, Returns, ok_injective, List, [], ◌∷◌, ◌++◌, to_nat,
}
use raft_2pl.Types.{Sizes, ClientRequest}
use raft_2pl.Kvs.{Kvs, HashObject}
use raft_2pl.Kvs.Table.{IsSized, IsIndexed}
use raft_2pl.Kvs.Build.{Built}
use raft_2pl.Twopl.{sort_request, transfer_work, commit_work}
use raft_2pl.Twopl.Transfer.{
  IsAccepted, IsInside, transfer_work-IsAccepted, is_key, Attempt, transfer_work-Attempt,
  sort_request-IsAccepted,
}
use raft_2pl.Twopl.Commit.{total, Committed, commit_work-Committed}

pub record Bank : Type 0 where
  pub kvs : Kvs
  pub pending : List ClientRequest

-- How many pending requests hold key `k`.
abbrev pub holders : ℕ → List ClientRequest → ℕ
holders k [] = 0
holders k (r ∷ rs) = to_nat (is_key r k) + holders k rs

abbrev pub All {ℓ κ} : {A : Type ℓ} → (A → Type κ) → List A → Type κ
All P [] = Unit
All P (x ∷ xs) = P x × All P xs

-- What an attempt that returned `res` makes of the bank.
abbrev pub attempted : Bank → Bool × ClientRequest × Kvs → Bank
attempted b res = record { kvs = res.2; pending = if res.0 then res.1 ∷ b.pending else b.pending }

pub data Step (s : Sizes) : Bank → Bank → Type 0 where
  attempt :
      (b : Bank) (req : ClientRequest) (res : Bool × ClientRequest × Kvs)
      → IsInside s req
      → transfer_work s b.kvs req ≡ ok res
      → Step s b (attempted b res)
  commit :
      (b : Bank) (before rest : List ClientRequest) (req : ClientRequest) (fuel : ℕ) (kvs : Kvs)
      → b.pending ≡ before ++ req ∷ rest
      → commit_work s (suc fuel) b.kvs req ≡ ok kvs
      → Step s b (record { kvs = kvs; pending = before ++ rest })

pub data Reach (s : Sizes) (b : Bank) : Bank → Type 0 where
  here : Reach s b b
  next : {c d : Bank} → Reach s b c → Step s c d → Reach s b d

-- A lock is held exactly when one pending request has the key, and never for two.
pub record IsConsistent (s : Sizes) (b : Bank) : Type 0 where
  pub indexed : IsIndexed s b.kvs
  pub accepted : All (IsAccepted s) b.pending
  pub held : (k : ℕ) → to_nat (b.kvs.locked k) ≡ holders k b.pending

pub holders-append :
    (k : ℕ) (xs ys : List ClientRequest) → holders k (xs ++ ys) ≡ holders k xs + holders k ys
holders-append k [] ys = omega arith
holders-append k (x ∷ xs) ys = omega (arith, holders-append k xs ys)

pub All-middle {ℓ κ} :
    {A : Type ℓ} (P : A → Type κ) (xs : List A) (y : A) (ys : List A)
    → All P (xs ++ y ∷ ys)
    → P y × All P (xs ++ ys)
All-middle P [] y ys h = h
All-middle P (x ∷ xs) y ys h = let r = All-middle P xs y ys h.1 in (r.0, (h.0, r.1))

IsIndexed-hash :
    (s : Sizes) (kvs kvs' : Kvs) → kvs'.hash ≡ kvs.hash → IsIndexed s kvs → IsIndexed s kvs'
IsIndexed-hash s kvs kvs' e h k lt = ap (λ (f : ℕ → HashObject). (f k).key) e ∙ h k lt

pub attempted-IsConsistent :
    (s : Sizes) (b : Bank) (req : ClientRequest) (res : Bool × ClientRequest × Kvs)
    → IsSized s
    → IsAccepted s req
    → Attempt b.kvs req res
    → IsConsistent s b
    → IsConsistent s (attempted b res)
unfolding sort_request
attempted-IsConsistent s b req res sized a t c =
    let sorted = (sort_request-IsAccepted s req sized a).0 in
    record {
      indexed = IsIndexed-hash s b.kvs res.2 t.hash c.indexed;
      accepted = elim (Bool-cases res.0) [
        | inl granted ↦ rw (granted, t.sorted) (sorted, c.accepted)
        | inr refused ↦ rw refused c.accepted
      ];
      held = λ k. elim (Bool-cases res.0) [
        | inl granted ↦ rw (granted, t.sorted) (ground (arith, c.held k, t.locks k, t.granted))
        | inr refused ↦ rw refused (ground (arith, c.held k, t.locks k))
      ];
    }

-- The facts about one pending request.
record Pending (s : Sizes) (b : Bank) (before rest : List ClientRequest) (req : ClientRequest)
    : Type 0 where
  sound : IsAccepted s req
  others : All (IsAccepted s) (before ++ rest)
  alone : (k : ℕ) → is_key req k ≡ true → (b.kvs.locked k ≡ true) × (holders k (before ++ rest) ≡ 0)
  apart : (k : ℕ) → is_key req k ≡ false → to_nat (b.kvs.locked k) ≡ holders k (before ++ rest)

pending_lem :
    (s : Sizes) (b : Bank) (before rest : List ClientRequest) (req : ClientRequest)
    → b.pending ≡ before ++ req ∷ rest
    → IsConsistent s b
    → Pending s b before rest req
pending_lem s b before rest req e c =
    let counts : (k : ℕ)
        → to_nat (b.kvs.locked k) ≡ to_nat (is_key req k) + holders k (before ++ rest) =
      λ k.
        c.held k
        ∙ ap (holders k) e
        ∙ omega (arith, holders-append k before (req ∷ rest), holders-append k before rest) in
    let parts = All-middle (IsAccepted s) before req rest (rw e at c.accepted) in
    record {
      sound = parts.0;
      others = parts.1;
      alone = λ k h. ground (arith, counts k);
      apart = λ k h. ground (arith, counts k);
    }

pub commit_work-IsConsistent :
    (s : Sizes) (b : Bank) (before rest : List ClientRequest) (req : ClientRequest) (kvs : Kvs)
    → b.pending ≡ before ++ req ∷ rest
    → Committed s b.kvs req kvs
    → IsConsistent s b
    → IsConsistent s (record { kvs = kvs; pending = before ++ rest })
commit_work-IsConsistent s b before rest req kvs e d c =
    let p = pending_lem s b before rest req e c in
    record {
      indexed = d.indexed;
      accepted = p.others;
      held = λ k. ground (arith, d.locks k, p.alone k, p.apart k);
    }

-- In a consistent bank the commit of any pending request returns: its two locks are held, and no
-- other pending request has either key.
pub commit_returns :
    (s : Sizes) (b : Bank) (before rest : List ClientRequest) (req : ClientRequest) (fuel : ℕ)
    → IsSized s
    → IsConsistent s b
    → b.pending ≡ before ++ req ∷ rest
    → Returns (commit_work s (suc fuel) b.kvs req) (Committed s b.kvs req)
      × (holders req.from (before ++ rest) ≡ 0)
      × (holders req.to (before ++ rest) ≡ 0)
commit_returns s b before rest req fuel sized c e =
    let p = pending_lem s b before rest req e c in
    let f = p.alone req.from (ground arith) in
    let t = p.alone req.to (ground arith) in
    (commit_work-Committed s b.kvs req sized c.indexed p.sound fuel f.0 t.0, f.1, t.1)

Step-IsConsistent :
    (s : Sizes) {b c : Bank} → IsSized s → Step s b c → IsConsistent s b → IsConsistent s c
Step-IsConsistent s sized (attempt b req res inside run) h =
    let a = transfer_work-IsAccepted s b.kvs req res inside run in
    let (r, ran, t) = transfer_work-Attempt s b.kvs req sized a in
    let same : r ≡ res = ok_injective (sym ran ∙ run) in
    attempted-IsConsistent s b req res sized a (rw same at t) h
Step-IsConsistent s sized (commit b before rest req fuel kvs e run) h =
    let (k, ran, d) = (commit_returns s b before rest req fuel sized h e).0 in
    let same : k ≡ kvs = ok_injective (sym ran ∙ run) in
    commit_work-IsConsistent s b before rest req kvs e (rw same at d) h

Step-total :
    (s : Sizes) {b c : Bank}
    → IsSized s
    → Step s b c
    → IsConsistent s b
    → total s.database c.kvs.hash % u32 ≡ total s.database b.kvs.hash % u32
Step-total s sized (attempt b req res inside run) h =
    let a = transfer_work-IsAccepted s b.kvs req res inside run in
    let (r, ran, t) = transfer_work-Attempt s b.kvs req sized a in
    let same : r ≡ res = ok_injective (sym ran ∙ run) in
    let kept : res.2.hash ≡ b.kvs.hash =
      ap (λ (x : Bool × ClientRequest × Kvs). x.2.hash) (sym same) ∙ t.hash in
    rw kept
Step-total s sized (commit b before rest req fuel kvs e run) h =
    let (k, ran, d) = (commit_returns s b before rest req fuel sized h e).0 in
    let same : k ≡ kvs = ok_injective (sym ran ∙ run) in rw (← same) d.total

-- Whatever requests between keys of the database are attempted, with the same key twice or not, in
-- whatever order, and in whatever order granted ones are committed: after attempts and commits that
-- return, a consistent bank is consistent (each lock is held exactly when one pending request has its key, and never for two),
-- and the sum of all balances is the same modulo 2 ^ 32.
pub Reach-IsConsistent :
    (s : Sizes) {b c : Bank}
    → IsSized s
    → Reach s b c
    → IsConsistent s b
    → IsConsistent s c × (total s.database c.kvs.hash % u32 ≡ total s.database b.kvs.hash % u32)
Reach-IsConsistent s sized here h = (h, refl)
Reach-IsConsistent s sized (next r st) h =
    let (k, t) = Reach-IsConsistent s sized r h in
    (Step-IsConsistent s sized st k, Step-total s sized st k ∙ t)

-- The bank right after the constructor is consistent.
Built-IsConsistent :
    (s : Sizes) (rand : ℕ → Int32) (kvs : Kvs)
    → Built s rand kvs
    → IsConsistent s (record { kvs = kvs; pending = [] })
Built-IsConsistent s rand kvs b = record {
  indexed = b.indexed;
  accepted = tt;
  held = λ k. ap to_nat (b.unlocked k);
}
