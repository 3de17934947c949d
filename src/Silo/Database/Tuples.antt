-- ===== src/Silo/Database/Tuples.antt =====
-- Every tuple of the table is set.
use native.Mathlib.Nat.{
  mul-le-mul_right, suc-mul, div-mul-le_self, lt-div-mul-add, div-lt_iff_lt-mul, mod-add-div,
  mul-zero, mod-one,
}
use raft_2pl.Prelude.{
  ℕ, zero, suc, ◌+◌, ◌-◌, ◌*◌, ◌/◌, ◌%◌, ◌≤◌, ◌<◌, ◌≡◌, ◌∙◌, ap, sym, refl, Bool, true, false, leb,
  ltb, ltb→lt, ◌==◌, ◌&&◌, ◌||◌, if◌then◌else◌, write_at, set, Bool-cases, Returns, ◌>>=◌, List, [],
  ◌∷◌, inl, inr, arith,
}
use raft_2pl.Twopl.Bank.{All}
use raft_2pl.Nodes.Grants.{is_in}
use raft_2pl.Silo.{Tuple}
use raft_2pl.Silo.Epochs.{u64}
use raft_2pl.Silo.Database.{
  init_tuple, init_tuples, part_table_init, largest_divisor, decide_parallel_build_number,
  build_thread, build_threads, make_db,
}

set_twice : (v : List ℕ) → set (set (set (set v 0 97) 1 0) 0 97) 1 0 ≡ set (set v 0 97) 1 0
set_twice [] = refl
set_twice (a ∷ []) = refl
set_twice (a ∷ b ∷ v) = refl

init_tuple_twice : (t : Tuple) → init_tuple (init_tuple t) ≡ init_tuple t
unfolding init_tuple
init_tuple_twice t = ap (λ (v : List ℕ). record (init_tuple t) { val = v }) (set_twice t.val)

-- The tuples of a thread.
abbrev is_between : (start n k : ℕ) → Bool
is_between start n k = leb start k && ltb k (start + n)

init_tuples_step :
    (table : ℕ → Tuple) (i n k : ℕ)
    → let next = write_at table i (init_tuple (table i)) in
      (if is_between (suc i) n k then init_tuple (next k) else next k)
      ≡ (if is_between i (suc n) k then init_tuple (table k) else table k)
init_tuples_step table i n k = elim (Bool-cases (k == i)) [
  | inl same ↦
      let at : k ≡ i = ground arith in
      let past : leb (suc i) k ≡ false = ground arith in
      let low : leb i k ≡ true = ground arith in
      let high : ltb k (i + suc n) ≡ true = ground arith in
      rw (past, low, high, same) (ap (λ (j : ℕ). init_tuple (table j)) (sym at))
  | inr other ↦
      let low : leb (suc i) k ≡ leb i k = ground arith in
      let high : ltb k (suc i + n) ≡ ltb k (i + suc n) = ground arith in rw (other, low, high) refl
]

init_tuples_lem :
    (tuple_num : ℕ) (table : ℕ → Tuple) (i n : ℕ)
    → i + n ≤ tuple_num
    → Returns
        (init_tuples tuple_num table i n)
        λ after. (k : ℕ) → after k ≡ (if is_between i n k then init_tuple (table k) else table k)
unfolding init_tuples
init_tuples_lem tuple_num table i zero h = (table, refl, λ k. ground arith)
init_tuples_lem tuple_num table i (suc n) h =
    let inside : ltb i tuple_num ≡ true = ground arith in
    let next = write_at table i (init_tuple (table i)) in
    let (after, run, e) = init_tuples_lem tuple_num next (suc i) n (omega arith) in
    (after, rw inside run, λ k. e k ∙ init_tuples_step table i n k)

suc-le : {i m : ℕ} → i < m → suc i ≤ m
suc-le h = omega arith

-- The tuple `k` after a thread, or some threads, of which one has it exactly if `own` is true.
abbrev IsBuilt : Bool → Tuple → Tuple → Type 0
IsBuilt own before after = after ≡ (if own then init_tuple before else before)

module _ (tuple_num maxthread : ℕ) (some_threads : 0 < maxthread)
    (divides : tuple_num % maxthread ≡ 0) (some_tuples : 0 < tuple_num)
    (small : tuple_num < u64) where
  abbrev block : ℕ
  block = tuple_num / maxthread

  whole : maxthread * block ≡ tuple_num
  whole = omega (arith, mod-add-div tuple_num maxthread)

  -- The thread `i` stays inside the table, and has a tuple to set.
  bounds : (i : ℕ) → i < maxthread → (i * block + block ≤ tuple_num) × (0 < block)
  bounds i h = elim (Bool-cases (block == 0)) [
    | inl none_left ↦
        let e : block ≡ 0 = ground arith in
        let nothing : maxthread * block ≡ 0 =
          ap (λ (b : ℕ). maxthread * b) e ∙ mul-zero maxthread in
        absurd (omega (arith, whole))
    | inr positive ↦
        let below = mul-le-mul_right block (suc-le h) in
        (omega (arith, below, suc-mul i block, whole), ground arith)
  ]

  build_thread_lem :
      (table : ℕ → Tuple) (i : ℕ)
      → i < maxthread
      → Returns
          (build_thread tuple_num maxthread table i)
          λ after. (k : ℕ) → IsBuilt (is_between (i * block) block k) (table k) (after k)
  unfolding build_thread part_table_init
  build_thread_lem table i h =
      let (inside, positive) = bounds i h in
      let start : i * block % u64 ≡ i * block = omega arith in
      let size : suc i * block ≡ i * block + block = suc-mul i block in
      let end : (suc i * block + u64 - 1) % u64 ≡ i * block + (block - 1) = omega (arith, size) in
      let forward : ltb (i * block + (block - 1)) (i * block) ≡ false = ground arith in
      let count : suc (i * block + (block - 1)) - i * block ≡ block = omega arith in
      let (after, run, e) = init_tuples_lem tuple_num table (i * block) block inside in
      (after, rw (start, end, forward, count) run, e)

  -- Whether one of the threads has the tuple `k`.
  abbrev covers : List ℕ → ℕ → Bool
  covers [] k = false
  covers (i ∷ order) k = is_between (i * block) block k || covers order k

  IsBuilt-trans :
      (a b : Bool) (x y z : Tuple) → IsBuilt a x y → IsBuilt b y z → IsBuilt (a || b) x z
  IsBuilt-trans true true x y z e f = f ∙ ap init_tuple e ∙ init_tuple_twice x
  IsBuilt-trans true false x y z e f = f ∙ e
  IsBuilt-trans false true x y z e f = f ∙ ap init_tuple e
  IsBuilt-trans false false x y z e f = f ∙ e

  build_threads_lem :
      (table : ℕ → Tuple) (order : List ℕ)
      → All (λ (i : ℕ). i < maxthread) order
      → Returns
          (build_threads tuple_num maxthread table order)
          λ after. (k : ℕ) → IsBuilt (covers order k) (table k) (after k)
  unfolding build_threads
  build_threads_lem table [] h = (table, refl, λ k. refl)
  build_threads_lem table (i ∷ order) h =
      let (next, run, e) = build_thread_lem table i h.0 in
      let (after, ran, f) = build_threads_lem next order h.1 in
      (
        after,
        rw (run, ◌>>=◌) ran,
        λ k.
            IsBuilt-trans (is_between (i * block) block k) (covers order k) (table k) (next k)
              (after k) (e k) (f k),
      )

  covers-in :
      (order : List ℕ) (i k : ℕ)
      → is_in i order ≡ true
      → is_between (i * block) block k ≡ true
      → covers order k ≡ true
  covers-in [] i k h e = absurd (cc)
  covers-in (j ∷ order) i k h e = elim (Bool-cases (i == j)) [
    | inl same ↦
        let at : i ≡ j = ground arith in
        let own : is_between (j * block) block k ≡ true =
          ap (λ (x : ℕ). is_between (x * block) block k) (sym at) ∙ e in
        rw own refl
    | inr other ↦
        let rest = covers-in order i k (rw other at h) e in
        elim (Bool-cases (is_between (j * block) block k)) [
          | inl own ↦ rw own refl
          | inr apart ↦ rw (apart, rest) refl
        ]
  ]

  covers-out :
      (order : List ℕ) (k : ℕ)
      → All (λ (i : ℕ). i < maxthread) order
      → tuple_num ≤ k
      → covers order k ≡ false
  covers-out [] k h out = refl
  covers-out (i ∷ order) k h out =
      let (inside, positive) = bounds i h.0 in
      let past : ltb k (i * block + block) ≡ false = ground arith in
      let rest = covers-out order k h.1 out in
      elim (Bool-cases (leb (i * block) k)) [
        | inl low ↦ rw (low, past, rest) refl
        | inr high ↦ rw (high, rest) refl
      ]

  covers_lem :
      (order : List ℕ) (k : ℕ)
      → All (λ (i : ℕ). i < maxthread) order
      → ((i : ℕ) → i < maxthread → is_in i order ≡ true)
      → covers order k ≡ ltb k tuple_num
  covers_lem order k h every = elim (Bool-cases (ltb k tuple_num)) [
    | inr out ↦ rw out (covers-out order k h (ground arith))
    | inl inside ↦
        let (fits, positive) = bounds 0 some_threads in
        let below : k < maxthread * block = omega (arith, ltb→lt k tuple_num inside, whole) in
        let owner : k / block < maxthread = (div-lt_iff_lt-mul positive).1 below in
        let low = div-mul-le_self k block in
        let high = lt-div-mul-add {a = k} positive in
        let own : is_between (k / block * block) block k ≡ true = ground (arith, low, high) in
        rw inside (covers-in order (k / block) k (every (k / block) owner) own)
  ]

largest_divisor_lem :
    (tuple_num i : ℕ)
    → 0 < i
    → (0 < largest_divisor tuple_num i) × (tuple_num % largest_divisor tuple_num i ≡ 0)
unfolding largest_divisor
largest_divisor_lem tuple_num zero h = absurd (omega arith)
largest_divisor_lem tuple_num (suc zero) h =
    let one_divides : (tuple_num % 1 == 0) ≡ true = ground (arith, mod-one tuple_num) in
    rw one_divides (omega arith, mod-one tuple_num)
largest_divisor_lem tuple_num (suc (suc i)) h = elim (Bool-cases (tuple_num % suc (suc i) == 0)) [
  | inl divides ↦ rw divides (omega arith, ground arith)
  | inr other ↦ rw other (largest_divisor_lem tuple_num (suc i) (omega arith))
]

decide_lem :
    (tuple_num cores : ℕ)
    → 0 < cores
    → (0 < decide_parallel_build_number tuple_num cores)
      × (tuple_num % decide_parallel_build_number tuple_num cores ≡ 0)
unfolding decide_parallel_build_number
decide_lem tuple_num cores h = elim (Bool-cases (ltb tuple_num 1000)) [
  | inl few ↦ rw few (omega arith, mod-one tuple_num)
  | inr many ↦ rw many (largest_divisor_lem tuple_num cores h)
]

-- With memory for a table of some tuples, fewer than 2 ^ 64, and at least one core, in whatever
-- order the threads run: makeDB returns, every tuple of the table is set, and nothing outside it.
pub make_db_lem :
    (tuple_num cores : ℕ) (memory : ℕ → Tuple) (order : ℕ → List ℕ)
    → 0 < tuple_num
    → tuple_num < u64
    → 0 < cores
    → All
        (λ (i : ℕ). i < decide_parallel_build_number tuple_num cores)
        (order (decide_parallel_build_number tuple_num cores))
    → ((i : ℕ)
        → i < decide_parallel_build_number tuple_num cores
        → is_in i (order (decide_parallel_build_number tuple_num cores)) ≡ true)
    → Returns
        (make_db tuple_num cores true memory order)
        λ after. (k : ℕ) → after k ≡ (if ltb k tuple_num then init_tuple (memory k) else memory k)
unfolding make_db
make_db_lem tuple_num cores memory order some_tuples small some_cores own every =
    let m = decide_parallel_build_number tuple_num cores in
    let (positive, divides) = decide_lem tuple_num cores some_cores in
    let (after, run, e) =
      build_threads_lem tuple_num m positive divides some_tuples small memory (order m) own in
    (
      after,
      run,
      λ k.
          e k
          ∙ ap (λ (b : Bool). if b then init_tuple (memory k) else memory k)
              (covers_lem tuple_num m positive divides some_tuples small (order m) k own every),
    )
