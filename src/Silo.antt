-- ===== src/Silo.antt =====
-- The Silo engine of the SILO build: src/silo/transaction.cc, with src/silo/include/tuple.hh and
-- src/silo/include/silo_op_element.hh, as its Makefile configures it (VAL_SIZE is 4, and a lock
-- that is busy in the validation aborts). The table is a function of the key; a pointer to a tuple
-- is its key.
pub mod Phases
pub mod Locking
pub mod Alone
pub mod Balances
pub mod Tids
pub mod Undo
pub mod Epochs
pub mod Barrier
pub mod Procedures
pub mod Database
use raft_2pl.Prelude.{
  ℕ, zero, suc, ◌+◌, ◌*◌, ◌/◌, ◌%◌, ◌^◌, Bool, true, false, not, ◌&&◌, ◌||◌, Int32, slt, leb, ltb,
  ◌==◌, if◌then◌else◌, add32, sub32, neg32, is_negative, Run, ok, fault, undefined, out_of_fuel,
  ◌>>=◌, ◌>>◌, assert, List, [], ◌∷◌, ◌++◌, to_nat, write_at,
}
use raft_2pl.Types.{ClientRequest}

-- The fields of the union; `tid` has 29 bits and `epoch` has 32.
pub record Tidword : Type 0 where
  pub lock : Bool
  pub latest : Bool
  pub absent : Bool
  pub tid : ℕ
  pub epoch : ℕ

-- `obj_`, with the first field in the lowest bit.
abbrev pub obj : Tidword → ℕ
obj w =
    to_nat w.lock
    + 2 * to_nat w.latest
    + 4 * to_nat w.absent
    + 8 * (w.tid % 2 ^ 29)
    + 2 ^ 32 * (w.epoch % 2 ^ 32)

abbrev pub zero_word : Tidword
zero_word = record { lock = false; latest = false; absent = false; tid = 0; epoch = 0 }

-- `std::max(v, w)`, which is `v` unless `v < w`.
abbrev pub max_word : Tidword → Tidword → Tidword
max_word v w = if ltb (obj v) (obj w) then w else v

-- `w.tid++`.
abbrev pub next_tid : Tidword → Tidword
next_tid w = record w { tid = (w.tid + 1) % 2 ^ 29 }

-- `val` is the four bytes of `val_`.
pub record Tuple : Type 0 where
  pub tidword : Tidword
  pub val : List ℕ

pub record ReadElement : Type 0 where
  pub key : ℕ
  pub tidword : Tidword
  pub val : List ℕ

pub record WriteElement : Type 0 where
  pub key : ℕ
  pub val : List ℕ

pub data TransactionStatus : Type 0 where
  in_flight committed aborted : TransactionStatus

-- The executor of a thread, with the table (`get_tuple`) and the thread's `ThLocalEpoch`.
pub record TxnExecutor : Type 0 where
  pub table : ℕ → Tuple
  pub tuple_num : ℕ
  pub local_epoch : ℕ
  pub read_set : List ReadElement
  pub write_set : List WriteElement
  pub status : TransactionStatus
  pub mrctid : Tidword
  pub max_rset : Tidword
  pub max_wset : Tidword
  pub write_val : List ℕ

-- `begin`, which leaves the two sets alone.
pub begin_txn : TxnExecutor → TxnExecutor
begin_txn t = record t { status = in_flight; max_wset = zero_word; max_rset = zero_word }

abbrev pub abort : TxnExecutor → TxnExecutor
abort t = record t { read_set = []; write_set = [] }

-- `searchReadSet(key) != nullptr`.
pub search_read_set : List ReadElement → ℕ → Bool
search_read_set [] key = false
search_read_set (r ∷ rs) key = r.key == key || search_read_set rs key

unfoldable pub search_write_set : List WriteElement → ℕ → Bool
search_write_set [] key = false
search_write_set (w ∷ ws) key = w.key == key || search_write_set ws key

-- `DB::get_tuple`: an index out of the table is undefined.
pub get_tuple : TxnExecutor → ℕ → Run Tuple
get_tuple t key = if ltb key t.tuple_num then ok (t.table key) else fault undefined

-- A locked tuple is read again until the lock is clear: without another thread, forever.
unfoldable pub read : TxnExecutor → ℕ → Run TxnExecutor
unfolding get_tuple
read t key =
    if search_read_set t.read_set key || search_write_set t.write_set key then ok t else (do
      tuple ← get_tuple t key
      if tuple.tidword.lock
          then fault out_of_fuel
          else ok (record t {
            read_set =
                t.read_set ++ record { key = key; tidword = tuple.tidword; val = tuple.val } ∷ [];
          }))

-- The bytes of a `std::string_view` made from a `char` pointer: those before the first zero. A
-- search past the end of the array is undefined.
unfoldable pub string_view : List ℕ → Run (List ℕ)
string_view [] = fault undefined
string_view (b ∷ bs) =
    let rest = string_view bs in if b == 0 then ok [] else (rest >>= λ s. ok (b ∷ s))

-- `write(key, val)`, with `val` converted to a `std::string_view`.
pub write : TxnExecutor → ℕ → List ℕ → Run TxnExecutor
unfolding get_tuple string_view
write t key val = do
  view ← string_view val
  if search_write_set t.write_set key then ok t else (do
    tuple ← get_tuple t key
    ok (record t { write_set = t.write_set ++ record { key = key; val = view } ∷ [] }))

-- A tuple with its lock bit set or cleared.
abbrev pub with_bit : Tuple → Bool → Tuple
with_bit x b = record x { tidword = record (x.tidword) { lock = b } }

pub unlock_write_set : List WriteElement → (ℕ → Tuple) → ℕ → Tuple
unlock_write_set [] table = table
unlock_write_set (w ∷ ws) table =
    unlock_write_set ws (write_at table w.key (with_bit (table w.key) false))

-- The loop of `lockWriteSet`: `done` are the elements before the iterator.
unfoldable pub lock_from : List WriteElement → List WriteElement → TxnExecutor → TxnExecutor
lock_from done [] t = t
lock_from done (w ∷ ws) t =
    let x = t.table w.key in
    let taken = record t {
      table = write_at t.table w.key (with_bit x true);
      max_wset = max_word t.max_wset x.tidword;
    } in
    let rest = lock_from (done ++ w ∷ []) ws taken in
    if x.tidword.lock
    then record t { status = aborted; table = unlock_write_set done t.table }
    else rest

unfoldable pub lock_write_set : TxnExecutor → TxnExecutor
unfolding lock_from
lock_write_set t = lock_from [] t.write_set t
