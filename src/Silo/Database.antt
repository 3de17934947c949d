-- ===== src/Silo/Database.antt =====
-- The construction of the Silo table: src/silo/db.cc. The threads of makeDB run in any order, each
-- as a whole: no two of them write to the same tuple.
pub mod Tuples
use raft_2pl.Prelude.{
  ℕ, zero, suc, ◌+◌, ◌-◌, ◌*◌, ◌/◌, ◌%◌, Bool, true, false, ltb, ◌==◌, if◌then◌else◌, write_at, set,
  Run, ok, fault, undefined, exit_failure, ◌>>=◌, ◌>>◌, List, [], ◌∷◌,
}
use raft_2pl.Silo.{Tuple, zero_word}
use raft_2pl.Silo.Epochs.{u64}

-- The word with epoch 1, `latest` set and the lock clear, and 'a' and a zero as the first bytes.
pub init_tuple : Tuple → Tuple
init_tuple old = record {
  tidword = record zero_word { epoch = 1; latest = true; lock = false };
  val = set (set old.val 0 97) 1 0;
}

-- The loop over `n` tuples from `i` on; one out of the table is undefined.
pub init_tuples : (tuple_num : ℕ) → (ℕ → Tuple) → (i n : ℕ) → Run (ℕ → Tuple)
unfolding init_tuple
init_tuples tuple_num table i zero = ok table
init_tuples tuple_num table i (suc n) =
    let rest = init_tuples tuple_num (write_at table i (init_tuple (table i))) (suc i) n in
    if ltb i tuple_num then rest else fault undefined

-- `for (auto i = start; i <= end; ++i)`
pub part_table_init : (tuple_num : ℕ) → (ℕ → Tuple) → (start end : ℕ) → Run (ℕ → Tuple)
unfolding init_tuples
part_table_init tuple_num table start end =
    if ltb end start then ok table else init_tuples tuple_num table start (suc end - start)

-- The loop from the number of cores down; 0 is returned without a core.
pub largest_divisor : (tuple_num i : ℕ) → ℕ
largest_divisor tuple_num zero = 0
largest_divisor tuple_num (suc i) =
    let rest = largest_divisor tuple_num i in if tuple_num % suc i == 0 then suc i else rest

-- `hardware_concurrency` is `cores`. The exit at `i == 1` is never reached.
unfoldable pub decide_parallel_build_number : (tuple_num cores : ℕ) → ℕ
unfolding largest_divisor
decide_parallel_build_number tuple_num cores =
    let found = largest_divisor tuple_num cores in if ltb tuple_num 1000 then 1 else found

-- What the thread `i` of `maxthread` does.
pub build_thread : (tuple_num maxthread : ℕ) → (ℕ → Tuple) → ℕ → Run (ℕ → Tuple)
unfolding part_table_init
build_thread tuple_num maxthread table i =
    let block = tuple_num / maxthread in
    part_table_init tuple_num table (i * block % u64) ((suc i * block + u64 - 1) % u64)

-- The threads in an order.
pub build_threads : (tuple_num maxthread : ℕ) → (ℕ → Tuple) → List ℕ → Run (ℕ → Tuple)
unfolding build_thread
build_threads tuple_num maxthread table [] = ok table
build_threads tuple_num maxthread table (i ∷ order) = do
  next ← build_thread tuple_num maxthread table i
  build_threads tuple_num maxthread next order

-- `DB::makeDB`: `allocated` tells whether `posix_memalign` succeeded, `memory` is the table that it
-- gave, `order` the order of the threads by their numbers below `maxthread`.
pub make_db : (tuple_num cores : ℕ) → Bool → (ℕ → Tuple) → (ℕ → List ℕ) → Run (ℕ → Tuple)
unfolding build_threads decide_parallel_build_number
make_db tuple_num cores allocated memory order =
    let maxthread = decide_parallel_build_number tuple_num cores in
    if allocated
    then build_threads tuple_num maxthread memory (order maxthread)
    else fault exit_failure
