-- ===== src/Kvs/Table.antt =====
-- The hash index of the store: what `index_read` and `index_update` do to it, and when they return.
use raft_2pl.Prelude.{
  ℕ, zero, suc, ◌%◌, ◌≤◌, ◌<◌, ◌≡◌, ◌≢◌, refl, inl, inr, Int32, is_negative, sign_bit, ◌==◌,
  if◌then◌else◌, Bool-cases, ok, fault, out_of_fuel, ◌>>=◌, write_at, arith,
}
use native.Mathlib.Nat.{mod-eq_of_lt}
use raft_2pl.Types.{Sizes}
use raft_2pl.Kvs.{HashObject, Kvs, next_bid, probe, first_bid, index_read, index_update}

-- The sizes fit: every key has a bucket of its own number, and keys are non-negative `int`s.
pub record IsSized (s : Sizes) : Type 0 where
  pub roomy : s.database ≤ s.bucket
  pub small : s.bucket < sign_bit

-- Every key of the database stands in the bucket of its own number.
abbrev pub IsIndexed : Sizes → Kvs → Type 0
IsIndexed s kvs = (k : ℕ) → k < s.database → (kvs.hash k).key ≡ k

-- The store after an update of key `k`.
abbrev pub updated : Kvs → ℕ → Int32 → Kvs
updated kvs k v = record kvs { hash = write_at kvs.hash k (record (kvs.hash k) { value = v }) }

module _ {s : Sizes} (sized : IsSized s) where
  pub first_bid_lem : (k : ℕ) → k < s.database → first_bid s k ≡ ok k
  unfolding first_bid
  first_bid_lem k h = let lt : k < s.bucket = omega arith in rw (mod-eq_of_lt lt) (ground arith)

  pub probe_at :
      (fuel : ℕ) (hash : ℕ → HashObject) (key bid : ℕ)
      → (hash bid).key ≡ key
      → probe s (suc fuel) hash key bid ≡ ok bid
  unfolding probe
  probe_at fuel hash key bid e = ground arith

module _ {s : Sizes} (sized : IsSized s) (kvs : Kvs) (indexed : IsIndexed s kvs) where
  -- A key of the database is found by the first comparison: one round is enough.
  pub index_read_lem :
      (fuel k : ℕ) → k < s.database → index_read s (suc fuel) kvs k ≡ ok (kvs.hash k).value
  unfolding index_read
  index_read_lem fuel k h =
      rw (first_bid_lem sized k h, ◌>>=◌, probe_at sized fuel kvs.hash k k (indexed k h))

  pub index_update_lem :
      (fuel k : ℕ) (v : Int32)
      → k < s.database
      → index_update s (suc fuel) kvs k v ≡ ok (updated kvs k v)
  unfolding index_update
  index_update_lem fuel k v h =
      rw (first_bid_lem sized k h, ◌>>=◌, probe_at sized fuel kvs.hash k k (indexed k h))

-- An update keeps every key in its own bucket.
pub updated-IsIndexed :
    (s : Sizes) (kvs : Kvs) (k : ℕ) (v : Int32) → IsIndexed s kvs → IsIndexed s (updated kvs k v)
updated-IsIndexed s kvs k v indexed j h = ground (arith, indexed j h, indexed k)

-- Reading back after an update of key `k` gives the new value at `k` and the old value at every
-- other key of the database; neither call runs out of rounds, and none faults.
pub index_read-index_update :
    (s : Sizes) (kvs : Kvs) (fuel k j : ℕ) (v : Int32)
    → IsSized s
    → IsIndexed s kvs
    → k < s.database
    → j < s.database
    → (index_update s (suc fuel) kvs k v >>= λ after. index_read s (suc fuel) after j)
      ≡ ok (if j == k then v else (kvs.hash j).value)
index_read-index_update s kvs fuel k j v sized indexed hk hj =
    rw
      (
        index_update_lem sized kvs indexed fuel k v hk,
        ◌>>=◌,
        index_read_lem sized (updated kvs k v) (updated-IsIndexed s kvs k v indexed) fuel j hj,
      )
      (ground arith)

probe-absent :
    (s : Sizes) (fuel : ℕ) (hash : ℕ → HashObject) (key bid : ℕ)
    → ((b : ℕ) → (hash b).key ≢ key)
    → probe s fuel hash key bid ≡ fault out_of_fuel
unfolding probe
probe-absent s zero hash key bid absent = refl
probe-absent s (suc fuel) hash key bid absent =
    ground (arith, absent bid, probe-absent s fuel hash key (next_bid s bid) absent)

-- A look-up of a key that no bucket holds does not stop at an empty bucket: however many rounds
-- it is given, it has not returned. The same holds of an update.
pub index_read-absent :
    (s : Sizes) (kvs : Kvs) (fuel key : ℕ) (value : Int32)
    → key < sign_bit
    → ((b : ℕ) → (kvs.hash b).key ≢ key)
    → (index_read s fuel kvs key ≡ fault out_of_fuel)
      × (index_update s fuel kvs key value ≡ fault out_of_fuel)
unfolding index_read index_update first_bid
index_read-absent s kvs fuel key value h absent =
    let stuck = probe-absent s fuel kvs.hash key (key % s.bucket) absent in
    elim (Bool-cases (is_negative key)) [
      | inl e ↦ absurd (ground arith)
      | inr e ↦ (rw (e, stuck), rw (e, stuck))
    ]
