-- ===== src/Kvs.antt =====
-- The key-value store of the two-phase locking build: src/2pl/kvs.cc and src/2pl/include/kvs.h.
-- An array is a function of its index; a mutex is a flag that says whether some thread holds it.
pub mod Locks
pub mod Table
pub mod Build
pub mod Scan
pub mod Memos
use raft_2pl.Prelude.{
  ℕ, zero, suc, ◌+◌, ◌-◌, ◌%◌, Bool, true, false, ◌&&◌, ◌||◌, List, [], ◌∷◌, ◌++◌, Int32,
  is_negative, ltb, leb, ◌==◌, if◌then◌else◌, not, write_at, Run, ok, fault, undefined, out_of_fuel,
  exit_failure, ◌>>=◌, ◌>>◌, assert,
}
use raft_2pl.Types.{Sizes, invalid}

pub record HashObject : Type 0 where
  pub key : Int32
  pub value : Int32

pub record Memo : Type 0 where
  pub index : Int32
  pub lock_list : List Int32
  pub client_id : Int32

pub record Kvs : Type 0 where
  pub hash : ℕ → HashObject
  pub key : ℕ → Int32
  pub value : ℕ → Int32
  pub locked : ℕ → Bool
  pub memo_index : List Memo

-- What `pthread_mutex_trylock` returns.
pub data TryLock : Type 0 where
  success ebusy eagain other : TryLock

abbrev mutex_trylock : Bool → TryLock × Bool
mutex_trylock true = (ebusy, true)
mutex_trylock false = (success, true)

-- To unlock a mutex that is not locked is undefined. The flag does not say which thread holds the
-- mutex: the notifier unlocks what the worker has locked, which POSIX leaves undefined for a mutex of
-- the default kind, and which is taken here to release it.
abbrev mutex_unlock : Bool → Run Bool
mutex_unlock true = ok false
mutex_unlock false = fault undefined

-- What `KVS::lock` makes of the mutex's answer.
unfoldable pub lock_result : TryLock → Run Bool
lock_result ebusy = ok false
lock_result eagain = fault exit_failure
lock_result other = fault exit_failure
lock_result success = ok true

-- The scan of `read` from cell `i` on, with `n` cells left.
pub read_from : Kvs → Int32 → ℕ → ℕ → Int32
read_from kvs key i zero = 0
read_from kvs key i (suc n) = if key == kvs.key i then kvs.value i else read_from kvs key (i + 1) n

-- The scan of `update`, which writes every cell that holds the key.
pub update_from : (ℕ → Int32) → (ℕ → Int32) → Int32 → Int32 → ℕ → ℕ → ℕ → Int32
update_from keys values key value i zero = values
update_from keys values key value i (suc n) =
    update_from keys (if key == keys i then write_at values i value else values) key value (i + 1) n

module _ (s : Sizes) where
  -- `bid += HASH_DELTA; if (bid >= SIZ_HASH_BUCKET) bid -= SIZ_HASH_BUCKET;`
  pub next_bid : ℕ → ℕ
  next_bid bid = let b = bid + s.delta in if leb s.bucket b then b - s.bucket else b

  -- The loop that walks the buckets until one holds `key`.
  pub probe : ℕ → (ℕ → HashObject) → Int32 → ℕ → Run ℕ
  unfolding next_bid
  probe zero hash key bid = fault out_of_fuel
  probe (suc fuel) hash key bid =
      let rest = probe fuel hash key (next_bid bid) in
      if (hash bid).key == key then ok bid else rest

  -- `key % SIZ_HASH_BUCKET` is negative for a negative key: a read out of bounds.
  pub first_bid : Int32 → Run ℕ
  first_bid key = if is_negative key then fault undefined else ok (key % s.bucket)

  -- One round of the constructor's loop over the database.
  pub hash_key : ℕ → (ℕ → HashObject) → Int32 → Int32 → Run (ℕ → HashObject)
  unfolding probe first_bid
  hash_key fuel hash key value = do
    start ← first_bid key
    bid ← probe fuel hash invalid start
    ok (write_at hash bid (record { key = key; value = value }))

  -- The rounds `0 … n - 1`.
  pub hash_keys : ℕ → (ℕ → HashObject) → (ℕ → Int32) → (ℕ → Int32) → ℕ → Run (ℕ → HashObject)
  unfolding hash_key
  hash_keys fuel hash key value zero = ok hash
  hash_keys fuel hash key value (suc n) = do
    h ← hash_keys fuel hash key value n
    hash_key fuel h (key n) (value n)

  -- `KVS::KVS()`: `rand n` is what the `n`-th call of `rand()` returns, `memory` what the table
  -- holds before.
  pub new_kvs : ℕ → (ℕ → Int32) → (ℕ → HashObject) → Run Kvs
  unfolding hash_keys
  new_kvs fuel rand memory = do
    let key = λ (i : ℕ). i
    let clear = λ (b : ℕ). record (memory b) { key = invalid }
    h ← hash_keys fuel clear key rand s.database
    ok (record { hash = h; key = key; value = rand; locked = λ _. false; memo_index = [] })

  pub index_read : ℕ → Kvs → Int32 → Run Int32
  unfolding probe first_bid
  index_read fuel kvs key = do
    start ← first_bid key
    bid ← probe fuel kvs.hash key start
    ok (kvs.hash bid).value

  pub index_update : ℕ → Kvs → Int32 → Int32 → Run Kvs
  unfolding probe first_bid
  index_update fuel kvs key value = do
    start ← first_bid key
    bid ← probe fuel kvs.hash key start
    ok (record kvs { hash = write_at kvs.hash bid (record (kvs.hash bid) { value = value }) })

  -- `key >= 0 && key < SIZ_DATABASE`.
  abbrev pub in_database : Int32 → Bool
  in_database key = not (is_negative key) && ltb key s.database

  pub lock : Kvs → Int32 → Run (Bool × Kvs)
  unfolding lock_result
  lock kvs key = do
    assert (in_database key)
    let (ret, held) = mutex_trylock (kvs.locked key)
    taken ← lock_result ret
    ok (taken, record kvs { locked = write_at kvs.locked key held })

  pub unlock : Kvs → Int32 → Run Kvs
  unlock kvs key = do
    assert (in_database key)
    held ← mutex_unlock (kvs.locked key)
    ok (record kvs { locked = write_at kvs.locked key held })

  unfoldable pub read : Kvs → Int32 → Int32
  unfolding read_from
  read kvs key = read_from kvs key 0 s.database

  pub update : Kvs → Int32 → Int32 → Kvs
  unfolding update_from
  update kvs key value = record kvs { value = update_from kvs.key kvs.value key value 0 s.database }

-- The search of `getLockMemo`: the first memo at `index`, `m` if there is none, and the list
-- without it.
pub take_memo : List Memo → Int32 → Memo → Memo × List Memo
take_memo [] index m = (m, [])
take_memo (x ∷ xs) index m =
    let (found, rest) = take_memo xs index m in
    if x.index == index then (x, xs) else (found, x ∷ rest)

-- `m` is the local variable before its `clientID` is set.
pub get_lock_memo : Kvs → Int32 → Memo → Memo × Kvs
unfolding take_memo
get_lock_memo kvs index m =
    let (found, rest) = take_memo kvs.memo_index index (record m { client_id = invalid }) in
    (found, record kvs { memo_index = rest })

pub has_memo : List Memo → Int32 → Bool
has_memo [] index = false
has_memo (x ∷ xs) index = x.index == index || has_memo xs index

pub set_lock_memo : Kvs → Int32 → List Int32 → Int32 → Run Kvs
unfolding has_memo
set_lock_memo kvs last_log_index lock_list client_id =
    let m : Memo = record {
      index = last_log_index;
      lock_list = lock_list;
      client_id = client_id;
    } in
    if has_memo kvs.memo_index last_log_index
    then fault exit_failure
    else ok (record kvs { memo_index = kvs.memo_index ++ m ∷ [] })
