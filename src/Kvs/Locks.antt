-- ===== src/Kvs/Locks.antt =====
-- The mutexes of the store: what `lock` and `unlock` do on every key.
use raft_2pl.Prelude.{
  ℕ, ◌<◌, ◌≡◌, refl, Int32, not, write_at, arith, Bool, true, false, ok, fault, undefined, Returns,
}
use raft_2pl.Types.{Sizes}
use raft_2pl.Kvs.{Kvs, in_database, lock, unlock}
use raft_2pl.Kvs.Table.{IsSized}

abbrev pub with_lock : Kvs → ℕ → Bool → Kvs
with_lock kvs k held = record kvs { locked = write_at kvs.locked k held }

in_database_lem : (s : Sizes) (k : Int32) → IsSized s → k < s.database → in_database s k ≡ true
in_database_lem s k sized h = ground arith

module _ (s : Sizes) (kvs : Kvs) (k : Int32) where
  pub lock_lem :
      IsSized s → k < s.database → lock s kvs k ≡ ok (not (kvs.locked k), with_lock kvs k true)
  unfolding lock
  lock_lem sized h = rw (in_database_lem s k sized h) (ground arith)

  pub unlock_lem :
      IsSized s → k < s.database → kvs.locked k ≡ true → unlock s kvs k ≡ ok (with_lock kvs k false)
  unfolding unlock
  unlock_lem sized h held = rw (in_database_lem s k sized h, held) refl

  -- For a key of the database whose mutex is free: `lock` takes it; a second `lock` then answers
  -- false and leaves every mutex as it is; `unlock` then makes every mutex as it was, with the tables
  -- unchanged; and `unlock` without the `lock` is undefined.
  pub lock-unlock :
      IsSized s
      → k < s.database
      → kvs.locked k ≡ false
      → let held = with_lock kvs k true in
        (lock s kvs k ≡ ok (true, held))
        × Returns (lock s held k) (λ r. (r.0 ≡ false) × ((j : ℕ) → r.1.locked j ≡ held.locked j))
        × Returns (unlock s held k) (λ left.
          ((j : ℕ) → left.locked j ≡ kvs.locked j)
          × (left.hash ≡ kvs.hash)
          × (left.key ≡ kvs.key)
          × (left.value ≡ kvs.value))
        × (unlock s kvs k ≡ fault undefined)
  unfolding lock unlock
  lock-unlock sized h free =
      let inside = in_database_lem s k sized h in
      (
        rw (inside, free) refl,
        (
          (false, with_lock (with_lock kvs k true) k true),
          rw inside (ground arith),
          (refl, λ j. ground arith),
        ),
        (
          with_lock (with_lock kvs k true) k false,
          rw inside (ground arith),
          (λ j. ground (arith, free), refl, refl, refl),
        ),
        rw (inside, free) refl,
      )
