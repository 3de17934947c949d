-- ===== src/Kvs/Scan.antt =====
-- The linear scans `read` and `update` over the arrays of the store.
use raft_2pl.Prelude.{
  write_at, ℕ, zero, suc, ◌+◌, ◌≤◌, ◌<◌, ◌≡◌, ◌≢◌, ◌∙◌, Int32, ◌==◌, if◌then◌else◌, arith, leb, ltb,
  ◌&&◌, inl, inr, Bool-cases,
}
use raft_2pl.Types.{Sizes}
use raft_2pl.Kvs.{Kvs, read_from, read, update_from, update}

-- The key array is the identity, as the constructor leaves it.
abbrev IsKeyed : Kvs → Type 0
IsKeyed kvs = (k : ℕ) → kvs.key k ≡ k

read_from_lem :
    (kvs : Kvs) (i n k : ℕ) → IsKeyed kvs → i ≤ k → k < i + n → read_from kvs k i n ≡ kvs.value k
unfolding read_from
read_from_lem kvs i zero k keyed lo hi = absurd (omega arith)
read_from_lem kvs i (suc n) k keyed lo hi = elim (Bool-cases (k == kvs.key i)) [
  | inl e ↦ let same : i ≡ k = ground (arith, keyed i) in rw (e, same)
  | inr e ↦
      let apart : i ≢ k = ground (arith, keyed i) in
      rw e (read_from_lem kvs (i + 1) n k keyed (omega arith) (omega arith))
]

update_from_lem :
    (kvs : Kvs) (values : ℕ → Int32) (k v i n j : ℕ)
    → IsKeyed kvs
    → update_from kvs.key values k v i n j
      ≡ (if j == k then (if leb i k && ltb k (i + n) then v else values j) else values j)
unfolding update_from
update_from_lem kvs values k v i zero j keyed = ground arith
update_from_lem kvs values k v i (suc n) j keyed =
    update_from_lem kvs (if k == kvs.key i then write_at values i v else values) k v (i + 1) n j
      keyed
    ∙ ground (arith, keyed i)

-- `read` after `update` of key `k` gives the new value at `k`, and the old value at every other
-- key of the database.
pub read-update :
    (s : Sizes) (kvs : Kvs) (k j : ℕ) (v : Int32)
    → IsKeyed kvs
    → k < s.database
    → j < s.database
    → read s (update s kvs k v) j ≡ (if j == k then v else kvs.value j)
unfolding read update
read-update s kvs k j v keyed hk hj =
    rw (read_from_lem (update s kvs k v) 0 s.database j keyed (omega arith) (omega arith))
      (rw (update_from_lem kvs kvs.value k v 0 s.database j keyed) (ground arith))
