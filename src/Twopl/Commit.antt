-- ===== src/Twopl/Commit.antt =====
-- `commitWork` moves the amount and gives both locks back.
use raft_2pl.Prelude.{
  ℕ, zero, suc, ◌+◌, ◌%◌, ◌<◌, ◌≤◌, ◌≡◌, ◌∙◌, ap, sym, refl, u32, ltb, not, ◌==◌, ◌&&◌,
  if◌then◌else◌, write_at, arith, inl, inr, Bool-cases, true, false, ok, ◌>>=◌, Returns, add32,
  sub32,
}
use raft_2pl.Types.{Sizes, ClientRequest}
use raft_2pl.Kvs.{Kvs, HashObject}
use raft_2pl.Kvs.Table.{
  IsSized, IsIndexed, updated, updated-IsIndexed, index_read_lem, index_update_lem,
}
use raft_2pl.Kvs.Locks.{with_lock, unlock_lem}
use raft_2pl.Twopl.{sort_request, transfer_work, commit_work}
use raft_2pl.Twopl.Transfer.{
  IsAccepted, is_key, is_free, transfer_work-Attempt, sort_request-IsAccepted, Attempt-held,
  sort_request-cases,
}

-- The sum of the first `n` balances.
pub total : ℕ → (ℕ → HashObject) → ℕ
total zero hash = 0
total (suc n) hash = total n hash + (hash n).value

-- The relation between the store before and after a commit of `req`: `diff` has moved from the first key to the second, modulo
-- 2 ^ 32, and the two locks are free; no other key has changed.
pub record Committed (s : Sizes) (kvs : Kvs) (req : ClientRequest) (after : Kvs) : Type 0 where
  pub indexed : IsIndexed s after
  pub from_value : (after.hash req.from).value ≡ sub32 (kvs.hash req.from).value req.diff
  pub to_value : (after.hash req.to).value ≡ add32 (kvs.hash req.to).value req.diff
  pub others : (j : ℕ) → is_key req j ≡ false → after.hash j ≡ kvs.hash j
  pub locks : (j : ℕ) → after.locked j ≡ kvs.locked j && not (is_key req j)
  pub total : total s.database after.hash % u32 ≡ total s.database kvs.hash % u32

total_above :
    (n k : ℕ) (hash : ℕ → HashObject) (x : HashObject)
    → n ≤ k
    → total n (write_at hash k x) ≡ total n hash
unfolding total
total_above zero k hash x h = refl
total_above (suc n) k hash x h = ground (arith, total_above n k hash x (omega arith))

total_write :
    (n k : ℕ) (hash : ℕ → HashObject) (x : HashObject)
    → k < n
    → total n (write_at hash k x) + (hash k).value ≡ total n hash + x.value
unfolding total
total_write zero k hash x h = absurd (omega arith)
total_write (suc n) k hash x h = elim (Bool-cases (k == n)) [
  | inl e ↦
      let same : k ≡ n = ground arith in
      rw same (ground (arith, total_above n n hash x (omega arith)))
  | inr e ↦ ground (arith, total_write n k hash x)
]

-- The table after a commit.
abbrev committed : Kvs → ClientRequest → Kvs
committed kvs req =
    let debited = updated kvs req.from (sub32 (kvs.hash req.from).value req.diff) in
    let credited = updated debited req.to (add32 (kvs.hash req.to).value req.diff) in
    with_lock (with_lock credited req.from false) req.to false

module _ (s : Sizes) (kvs : Kvs) (req : ClientRequest) (sized : IsSized s)
    (indexed : IsIndexed s kvs) (accepted : IsAccepted s req) where
  commit_work_run :
      (fuel : ℕ)
      → kvs.locked req.from ≡ true
      → kvs.locked req.to ≡ true
      → commit_work s (suc fuel) kvs req ≡ ok (committed kvs req)
  unfolding commit_work
  commit_work_run fuel hf ht =
      let v = sub32 (kvs.hash req.from).value req.diff in
      let w = add32 (kvs.hash req.to).value req.diff in
      let debited = updated kvs req.from v in
      let credited = updated debited req.to w in
      rw
        (
          index_read_lem sized kvs indexed fuel req.from accepted.from_in,
          ◌>>=◌,
          index_read_lem sized kvs indexed fuel req.to accepted.to_in,
          index_update_lem sized kvs indexed fuel req.from v accepted.from_in,
          index_update_lem sized debited (updated-IsIndexed s kvs req.from v indexed) fuel req.to w
              accepted.to_in,
          unlock_lem s credited req.from sized accepted.from_in hf,
        )
        (unlock_lem s (with_lock credited req.from false) req.to sized accepted.to_in
          (ground (arith, accepted.apart)))

  committed-total :
      total s.database (committed kvs req).hash % u32 ≡ total s.database kvs.hash % u32
  unfolding add32 sub32
  committed-total =
      let v = sub32 (kvs.hash req.from).value req.diff in
      let w = add32 (kvs.hash req.to).value req.diff in
      let debited = updated kvs req.from v in
      let same : (debited.hash req.to).value ≡ (kvs.hash req.to).value =
        ground (arith, accepted.apart) in
      let first =
        total_write s.database req.from kvs.hash (record (kvs.hash req.from) { value = v })
          accepted.from_in in
      let second =
        total_write s.database req.to debited.hash (record (debited.hash req.to) { value = w })
          accepted.to_in in
      let d = accepted.diff_in in omega arith

  -- With both keys locked, `commitWork` on two different keys of the database returns: `diff` has
  -- moved from the first key to the second, both locks are free, every other balance and lock is
  -- as it was, and the sum of all balances is the same modulo 2 ^ 32.
  pub commit_work-Committed :
      (fuel : ℕ)
      → kvs.locked req.from ≡ true
      → kvs.locked req.to ≡ true
      → Returns (commit_work s (suc fuel) kvs req) (Committed s kvs req)
  unfolding add32 sub32
  commit_work-Committed fuel hf ht =
      let v = sub32 (kvs.hash req.from).value req.diff in
      let w = add32 (kvs.hash req.to).value req.diff in
      let debited = updated kvs req.from v in
      (
        committed kvs req,
        commit_work_run fuel hf ht,
        record {
          indexed =
              updated-IsIndexed s debited req.to w (updated-IsIndexed s kvs req.from v indexed);
          from_value = ground (arith, accepted.apart);
          to_value = ground (arith, accepted.apart);
          others = λ j h. ground arith;
          locks = λ j. ground arith;
          total = committed-total;
        },
      )

-- A granted request that is committed moves `diff` from the smaller key to the larger one,
-- whatever the request says: where the payer's key is the larger, the payer gains the amount and
-- the payee loses it.
pub transfer-commit_direction :
    (s : Sizes) (kvs : Kvs) (req : ClientRequest) (fuel : ℕ)
    → IsSized s
    → IsIndexed s kvs
    → IsAccepted s req
    → is_free kvs req ≡ true
    → Returns (transfer_work s kvs req >>= λ r. commit_work s (suc fuel) r.2 r.1) λ after.
      ((after.hash req.from).value ≡ (
        if ltb req.to req.from
        then add32 (kvs.hash req.from).value req.diff
        else sub32 (kvs.hash req.from).value req.diff))
      × ((after.hash req.to).value ≡ (
          if ltb req.to req.from
          then sub32 (kvs.hash req.to).value req.diff
          else add32 (kvs.hash req.to).value req.diff))
transfer-commit_direction s kvs req fuel sized indexed accepted free =
    let (res, run, attempt) = transfer_work-Attempt s kvs req sized accepted in
    let sorted = sort_request req in
    let b = (sort_request-IsAccepted s req sized accepted).0 in
    let held = Attempt-held kvs req res attempt (attempt.granted ∙ free) in
    let (after, ran, done) =
      commit_work-Committed s res.2 sorted sized
        (λ k h. ap (λ (f : ℕ → HashObject). (f k).key) attempt.hash ∙ indexed k h) b fuel held.0
        held.1 in
    let same : (k : ℕ) → (res.2.hash k).value ≡ (kvs.hash k).value =
      λ k. ap (λ (f : ℕ → HashObject). (f k).value) attempt.hash in
    (
      after,
      rw (run, attempt.sorted) ran,
      (elim (sort_request-cases s req sized accepted) [
        | inl (lt, e) ↦ (
          rw (lt, ← same req.from)
              (ap (λ (r : ClientRequest). (after.hash r.to).value) (sym e)
                ∙ done.to_value
                ∙ ap (λ (r : ClientRequest). add32 (res.2.hash r.to).value r.diff) e),
          rw (lt, ← same req.to)
              (ap (λ (r : ClientRequest). (after.hash r.from).value) (sym e)
                ∙ done.from_value
                ∙ ap (λ (r : ClientRequest). sub32 (res.2.hash r.from).value r.diff) e),
        )
        | inr (ge, e) ↦ (
          rw (ge, ← same req.from)
              (ap (λ (r : ClientRequest). (after.hash r.from).value) (sym e)
                ∙ done.from_value
                ∙ ap (λ (r : ClientRequest). sub32 (res.2.hash r.from).value r.diff) e),
          rw (ge, ← same req.to)
              (ap (λ (r : ClientRequest). (after.hash r.to).value) (sym e)
                ∙ done.to_value
                ∙ ap (λ (r : ClientRequest). add32 (res.2.hash r.to).value r.diff) e),
        )
      ]),
    )
