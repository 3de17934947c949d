-- ===== src/Twopl/Transfer.antt =====
-- `transferWork` takes both locks of a request or none.
use raft_2pl.Prelude.{
  ℕ, ◌<◌, ◌≡◌, ◌≢◌, ◌∙◌, refl, Int32, u32, slt, ltb, not, ◌==◌, ◌&&◌, ◌||◌, if◌then◌else◌, write_at,
  arith, inl, inr, ◌⊎◌, Bool-cases, Bool, true, false, ok, ◌>>=◌, Returns,
}
use raft_2pl.Types.{Sizes, ClientRequest}
use raft_2pl.Kvs.{Kvs}
use raft_2pl.Kvs.Table.{IsSized}
use raft_2pl.Kvs.Locks.{with_lock, lock_lem, unlock_lem}
use raft_2pl.Twopl.{sort_request, lock_second, transfer_work}

-- What both keys of a request have to be for the code to accept it.
pub record IsAccepted (s : Sizes) (req : ClientRequest) : Type 0 where
  pub from_in : req.from < s.database
  pub to_in : req.to < s.database
  pub apart : req.from ≢ req.to
  pub diff_in : req.diff < u32

-- The keys of a request are keys of the database, be they different or not.
abbrev pub IsInside : Sizes → ClientRequest → Type 0
IsInside s req = (req.from < s.database) × (req.to < s.database) × (req.diff < u32)

-- A transfer from a key to itself fails the assertion.
pub transfer_work-IsAccepted :
    (s : Sizes) (kvs : Kvs) (req : ClientRequest) (res : Bool × ClientRequest × Kvs)
    → IsInside s req
    → transfer_work s kvs req ≡ ok res
    → IsAccepted s req
unfolding transfer_work
transfer_work-IsAccepted s kvs req res inside run = elim (Bool-cases (req.from == req.to)) [
  | inl same ↦ absurd (cc (rw (same, ◌>>=◌) at run))
  | inr other ↦ record {
    from_in = inside.0;
    to_in = inside.1;
    apart = ground (arith, other);
    diff_in = inside.2;
  }
]

abbrev pub is_key : ClientRequest → Int32 → Bool
is_key req k = k == req.from || k == req.to

abbrev pub is_free : Kvs → ClientRequest → Bool
is_free kvs req = not (kvs.locked req.from) && not (kvs.locked req.to)

-- The result of an attempt on `req`: it is granted exactly when both keys were free; then both
-- are locked, and otherwise every lock is as it was; the table does not change.
pub record Attempt (kvs : Kvs) (req : ClientRequest) (res : Bool × ClientRequest × Kvs)
    : Type 0 where
  pub granted : res.0 ≡ is_free kvs req
  pub sorted : res.1 ≡ sort_request req
  pub hash : res.2.hash ≡ kvs.hash
  pub locks : (j : ℕ) → res.2.locked j ≡ kvs.locked j || (res.0 && is_key req j)

pub sort_request-IsAccepted :
    (s : Sizes) (req : ClientRequest)
    → IsSized s
    → IsAccepted s req
    → IsAccepted s (sort_request req) × (slt (sort_request req).from (sort_request req).to ≡ true)
unfolding sort_request
sort_request-IsAccepted s req sized a = ground (arith, a.apart)

-- The code's order of the keys is the order of the numbers.
pub sort_request-cases :
    (s : Sizes) (req : ClientRequest)
    → IsSized s
    → IsAccepted s req
    → ((ltb req.to req.from ≡ true)
        × (sort_request req ≡ record req { from = req.to; to = req.from }))
      ⊎ ((ltb req.to req.from ≡ false) × (sort_request req ≡ req))
unfolding sort_request
sort_request-cases s req sized a = ground (arith, a.apart)

-- The second lock, once the first is taken.
lock_second_lem :
    (s : Sizes) (kvs : Kvs) (req : ClientRequest)
    → IsSized s
    → IsAccepted s req
    → kvs.locked req.from ≡ true
    → lock_second s kvs req
      ≡ ok (
        not (kvs.locked req.to),
        req,
        if kvs.locked req.to
            then with_lock (with_lock kvs req.to true) req.from false
            else with_lock kvs req.to true,
      )
unfolding lock_second
lock_second_lem s kvs req sized a held =
    let first = lock_lem s kvs req.to sized a.to_in in
    elim (Bool-cases (kvs.locked req.to)) [
      | inl busy ↦
          rw
            (
              first,
              busy,
              ◌>>=◌,
              unlock_lem s (with_lock kvs req.to true) req.from sized a.from_in (ground arith),
            )
            refl
      | inr free ↦ rw (first, free) refl
    ]

lock_both : Kvs → ClientRequest → Bool × ClientRequest × Kvs
lock_both kvs req =
    let first = with_lock kvs req.from true in
    if kvs.locked req.from then (false, req, first) else (
      not (kvs.locked req.to),
      req,
      if kvs.locked req.to
          then with_lock (with_lock first req.to true) req.from false
          else with_lock first req.to true,
    )

transfer_work_run :
    (s : Sizes) (kvs : Kvs) (req : ClientRequest)
    → IsSized s
    → IsAccepted s req
    → transfer_work s kvs req ≡ ok (lock_both kvs (sort_request req))
unfolding transfer_work lock_both
transfer_work_run s kvs req sized a =
    let sorted = sort_request req in
    let b = (sort_request-IsAccepted s req sized a).0 in
    let e : not (req.from == req.to) ≡ true = ground (arith, a.apart) in
    let first = lock_lem s kvs sorted.from sized b.from_in in
    let apart : write_at kvs.locked sorted.from true sorted.to ≡ kvs.locked sorted.to =
      ground (arith, b.apart) in
    elim (Bool-cases (kvs.locked sorted.from)) [
      | inl busy ↦ rw (e, first, busy) refl
      | inr free ↦
          rw (e, first, free, ◌>>=◌)
            (lock_second_lem s (with_lock kvs sorted.from true) sorted sized b (ground arith)
              ∙ rw apart)
    ]

-- On a request whose two keys are different keys of the database, `transferWork` returns: it
-- reports success exactly when both keys were free, and then both are locked; on failure no lock
-- has changed. The request comes back sorted, and the table is untouched.
pub transfer_work-Attempt :
    (s : Sizes) (kvs : Kvs) (req : ClientRequest)
    → IsSized s
    → IsAccepted s req
    → Returns (transfer_work s kvs req) (Attempt kvs req)
unfolding lock_both sort_request
transfer_work-Attempt s kvs req sized a = (
  lock_both kvs (sort_request req),
  transfer_work_run s kvs req sized a,
  record {
    granted = ground (arith, a.apart);
    sorted = ground arith;
    hash = ground arith;
    locks = λ j. ground (arith, a.apart);
  },
)

-- After a grant both keys of the sorted request are locked.
pub Attempt-held :
    (kvs : Kvs) (req : ClientRequest) (res : Bool × ClientRequest × Kvs)
    → Attempt kvs req res
    → res.0 ≡ true
    → (res.2.locked (sort_request req).from ≡ true) × (res.2.locked (sort_request req).to ≡ true)
unfolding sort_request
Attempt-held kvs req res a e = ground (arith, a.locks req.from, a.locks req.to)
