-- ===== src/Kvs/Build.antt =====
-- The constructor of the store: it ends, and every key gets the bucket of its own number.
use raft_2pl.Prelude.{
  ℕ, zero, suc, ◌≤◌, ◌<◌, ◌≡◌, refl, false, Int32, ◌>>=◌, write_at, arith, [], Returns,
}
use raft_2pl.Types.{Sizes, invalid}
use raft_2pl.Kvs.{HashObject, Kvs, hash_key, hash_keys, new_kvs}
use raft_2pl.Kvs.Table.{IsSized, IsIndexed, first_bid_lem, probe_at}

-- The first `n` buckets hold the keys of their numbers and the values, all others are empty.
record Filled (value : ℕ → Int32) (n : ℕ) (hash : ℕ → HashObject) : Type 0 where
  placed : (k : ℕ) → k < n → (hash k).key ≡ k
  stored : (k : ℕ) → k < n → (hash k).value ≡ value k
  empty : (b : ℕ) → n ≤ b → (hash b).key ≡ invalid

hash_keys-Filled :
    {s : Sizes} (sized : IsSized s) (fuel : ℕ) (clear : ℕ → HashObject) (value : ℕ → Int32) (n : ℕ)
    → n ≤ s.database
    → ((b : ℕ) → (clear b).key ≡ invalid)
    → Returns (hash_keys s (suc fuel) clear (λ i. i) value n) (Filled value n)
unfolding hash_keys hash_key
hash_keys-Filled sized fuel clear value zero h e = (
  clear,
  refl,
  record {
    placed = λ k lt. absurd (omega arith);
    stored = λ k lt. absurd (omega arith);
    empty = λ b _. e b;
  },
)
hash_keys-Filled {s} sized fuel clear value (suc n) h e =
    let (hash, run, filled) = hash_keys-Filled sized fuel clear value n (omega arith) e in
    (
      write_at hash n (record { key = n; value = value n }),
      rw (
        run,
        ◌>>=◌,
        first_bid_lem sized n h,
        probe_at sized fuel hash invalid n (filled.empty n (omega arith)),
      ),
      record {
        placed = λ k lt. ground (arith, filled.placed k);
        stored = λ k lt. ground (arith, filled.stored k);
        empty = λ b le. ground (arith, filled.empty b);
      },
    )

-- What the constructor leaves: key `k` with the value `rand k` in bucket `k`, no other bucket in
-- use, no lock held and no memo.
pub record Built (s : Sizes) (rand : ℕ → Int32) (kvs : Kvs) : Type 0 where
  pub indexed : IsIndexed s kvs
  pub stored : (k : ℕ) → k < s.database → (kvs.hash k).value ≡ rand k
  pub empty : (b : ℕ) → s.database ≤ b → (kvs.hash b).key ≡ invalid
  pub arrays : (k : ℕ) → (kvs.key k ≡ k) × (kvs.value k ≡ rand k)
  pub unlocked : (k : ℕ) → kvs.locked k ≡ false
  pub memos : kvs.memo_index ≡ []

-- If the buckets are at least as many as the keys and their number is a positive `int`, the
-- constructor ends with one round of probing for each key, and leaves key `k` with the `k`-th
-- random value in bucket `k`, every other bucket empty, every lock free and no memo.
pub new_kvs-Built :
    (s : Sizes) (fuel : ℕ) (rand : ℕ → Int32) (memory : ℕ → HashObject)
    → IsSized s
    → Returns (new_kvs s (suc fuel) rand memory) (Built s rand)
unfolding new_kvs
new_kvs-Built s fuel rand memory sized =
    let (hash, run, filled) =
      hash_keys-Filled sized fuel (λ b. record (memory b) { key = invalid }) rand s.database
        (omega arith) (λ b. refl) in
    (
      record { hash = hash; key = λ i. i; value = rand; locked = λ _. false; memo_index = [] },
      rw (run, ◌>>=◌),
      record {
        indexed = filled.placed;
        stored = filled.stored;
        empty = filled.empty;
        arrays = λ k. (refl, refl);
        unlocked = λ k. refl;
        memos = refl;
      },
    )
