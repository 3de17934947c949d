-- ===== src/Silo/Locking.antt =====
-- The locks of the write set are taken all or none.
use mathlib.Core.List.{append_assoc, append-nil}
use raft_2pl.Prelude.{
  subst, ℕ, ◌≡◌, ◌∙◌, sym, ap, refl, Bool, true, false, ◌||◌, ◌==◌, if◌then◌else◌, arith, inl, inr,
  ◌⊎◌, Bool-cases, List, [], ◌∷◌, ◌++◌, write_at,
}
use raft_2pl.Silo.{
  Tuple, WriteElement, TxnExecutor, aborted, with_bit, search_write_set, unlock_write_set, max_word,
  lock_from, lock_write_set,
}

unlock_write_set-at :
    (ws : List WriteElement) (table : ℕ → Tuple) (k : ℕ)
    → unlock_write_set ws table k
      ≡ (if search_write_set ws k then with_bit (table k) false else table k)
unfolding unlock_write_set search_write_set
unlock_write_set-at [] table k = refl
unlock_write_set-at (w ∷ ws) table k =
    let rest = unlock_write_set-at ws (write_at table w.key (with_bit (table w.key) false)) k in
    elim (Bool-cases (w.key == k)) [
      | inl same ↦ let at : w.key ≡ k = ground arith in ground (arith, rest, ap table at)
      | inr apart ↦ ground (arith, rest)
    ]

search_write_set-snoc :
    (ws : List WriteElement) (w : WriteElement) (k : ℕ)
    → search_write_set (ws ++ w ∷ []) k ≡ (search_write_set ws k || (w.key == k))
unfolding search_write_set
search_write_set-snoc [] w k = ground arith
search_write_set-snoc (x ∷ ws) w k = ground (arith, search_write_set-snoc ws w k)

-- Some tuple of the elements is locked.
abbrev pub is_busy : List WriteElement → (ℕ → Tuple) → Bool
is_busy [] table = false
is_busy (w ∷ ws) table = (table w.key).tidword.lock || is_busy ws table

-- No two elements have one key, and none has the key of one of `done`.
abbrev pub IsFresh : List WriteElement → List WriteElement → Type 0
IsFresh done [] = Unit
IsFresh done (w ∷ ws) = (search_write_set done w.key ≡ false) × IsFresh (done ++ w ∷ []) ws

-- The table in which the tuples of the elements are locked.
abbrev with_locks : List WriteElement → (ℕ → Tuple) → ℕ → Tuple
with_locks ws table k = if search_write_set ws k then with_bit (table k) true else table k

-- What the loop makes of the executor `t`: all or none.
abbrev pub AllOrNone : Bool → List WriteElement → (ℕ → Tuple) → TxnExecutor → TxnExecutor → Type 0
AllOrNone busy ws table t r =
    ((busy ≡ true) × (r.status ≡ aborted) × ((k : ℕ) → r.table k ≡ table k))
    ⊎ ((busy ≡ false) × (r.status ≡ t.status) × ((k : ℕ) → r.table k ≡ with_locks ws table k))

-- Locked and then unlocked, a free tuple is as it was.
with_bit-free : (x : Tuple) → x.tidword.lock ≡ false → with_bit (with_bit x true) false ≡ x
with_bit-free x free = ap (with_bit x) (sym free)

module _ (done : List WriteElement) (now table : ℕ → Tuple)
    (held : (k : ℕ) → now k ≡ with_locks done table k)
    (free : (k : ℕ) → search_write_set done k ≡ true → (table k).tidword.lock ≡ false) where
  pub unlock_write_set-with_locks : (k : ℕ) → unlock_write_set done now k ≡ table k
  unlock_write_set-with_locks k = elim (Bool-cases (search_write_set done k)) [
    | inl e ↦
        unlock_write_set-at done now k ∙ rw (e, held k, e) (with_bit-free (table k) (free k e))
    | inr e ↦ unlock_write_set-at done now k ∙ rw (e, held k, e) refl
  ]

  module _ (w : WriteElement) (idle : (table w.key).tidword.lock ≡ false) where
    free-snoc :
        (k : ℕ) → search_write_set (done ++ w ∷ []) k ≡ true → (table k).tidword.lock ≡ false
    free-snoc k e = elim (Bool-cases (w.key == k)) [
      | inl same ↦ let at : w.key ≡ k = ground arith in rw (← at) idle
      | inr apart ↦ free k (ground (arith, search_write_set-snoc done w k))
    ]

    held-snoc :
        now w.key ≡ table w.key
        → (k : ℕ)
        → write_at now w.key (with_bit (now w.key) true) k ≡ with_locks (done ++ w ∷ []) table k
    held-snoc here k =
        rw (search_write_set-snoc done w k, here)
          (elim (Bool-cases (w.key == k)) [
            | inl same ↦ let at : w.key ≡ k = ground arith in ground (arith, ap table at)
            | inr apart ↦ ground (arith, held k)
          ])

-- The executor after the lock of one more element.
abbrev pub taken : TxnExecutor → WriteElement → TxnExecutor
taken t w = record t {
  table = write_at t.table w.key (with_bit (t.table w.key) true);
  max_wset = max_word t.max_wset (t.table w.key).tidword;
}

pub lock_from-free :
    (done ws : List WriteElement) (t : TxnExecutor) (w : WriteElement)
    → (t.table w.key).tidword.lock ≡ false
    → lock_from done (w ∷ ws) t ≡ lock_from (done ++ w ∷ []) ws (taken t w)
unfolding lock_from
lock_from-free done ws t w free =
    let stop : TxnExecutor = record t { status = aborted; table = unlock_write_set done t.table } in
    ap (λ (b : Bool). if b then stop else lock_from (done ++ w ∷ []) ws (taken t w)) free

lock_from_lem :
    (done ws : List WriteElement) (t : TxnExecutor) (table : ℕ → Tuple)
    → ((k : ℕ) → t.table k ≡ with_locks done table k)
    → ((k : ℕ) → search_write_set done k ≡ true → (table k).tidword.lock ≡ false)
    → IsFresh done ws
    → AllOrNone (is_busy ws table) (done ++ ws) table t (lock_from done ws t)
unfolding lock_from
lock_from_lem done [] t table held free fresh = inr (refl, refl, λ k. rw append-nil (held k))
lock_from_lem done (w ∷ ws) t table held free fresh =
    let here : t.table w.key ≡ table w.key = held w.key ∙ rw (fresh.0) refl in
    let bit = ap (λ (x : Tuple). x.tidword.lock) here in
    elim (Bool-cases (table w.key).tidword.lock) [
      | inl busy ↦ inl (
        rw busy refl,
        rw (bit, busy) refl,
        λ k. rw (bit, busy) (unlock_write_set-with_locks done t.table table held free k),
      )
      | inr idle ↦
          let rest = lock_from (done ++ w ∷ []) ws (taken t w) in
          let step = lock_from-free done ws t w (bit ∙ idle) in
          let all : AllOrNone (is_busy ws table) (done ++ w ∷ ws) table t rest =
            subst (λ (xs : List WriteElement). AllOrNone (is_busy ws table) xs table t rest)
              (append_assoc done (w ∷ []) ws)
              (lock_from_lem (done ++ w ∷ []) ws (taken t w) table
                (held-snoc done t.table table held free w idle here)
                (free-snoc done t.table table held free w idle) fresh.1) in
          subst (λ (r : TxnExecutor). AllOrNone (is_busy (w ∷ ws) table) (done ++ w ∷ ws) table t r)
            (sym step) (rw idle all)
    ]

-- The write set has no key twice. Either a tuple of it was locked: then the transaction is aborted
-- and the table is as it was; or none was: then each tuple of the write set is locked, with nothing
-- else of the table changed.
pub lock_write_set_lem :
    (t : TxnExecutor)
    → IsFresh [] t.write_set
    → AllOrNone (is_busy t.write_set t.table) t.write_set t.table t (lock_write_set t)
unfolding lock_write_set search_write_set
lock_write_set_lem t fresh =
    lock_from_lem [] t.write_set t t.table (λ k. refl) (λ k e. absurd (cc)) fresh

-- The elements of a set that is not busy are free.
pub is_busy-free :
    (ws : List WriteElement) (table : ℕ → Tuple) (k : ℕ)
    → is_busy ws table ≡ false
    → search_write_set ws k ≡ true
    → (table k).tidword.lock ≡ false
unfolding search_write_set
is_busy-free [] table k idle found = absurd (cc)
is_busy-free (w ∷ ws) table k idle found = elim (Bool-cases (w.key == k)) [
  | inl same ↦ let at : w.key ≡ k = ground arith in rw (← at) (ground (arith, idle))
  | inr apart ↦ is_busy-free ws table k (ground (arith, idle)) (ground (arith, found))
]

pub lock_from-write_set :
    (done ws : List WriteElement) (t : TxnExecutor) → (lock_from done ws t).write_set ≡ t.write_set
unfolding lock_from
lock_from-write_set done [] t = refl
lock_from-write_set done (w ∷ ws) t = elim (Bool-cases (t.table w.key).tidword.lock) [
  | inl busy ↦
      ap (λ (x : TxnExecutor). x.write_set)
        (ap
          (λ (b : Bool).
            if b
            then record t { status = aborted; table = unlock_write_set done t.table }
            else lock_from (done ++ w ∷ []) ws (taken t w))
          busy)
  | inr free ↦
      ap (λ (x : TxnExecutor). x.write_set) (lock_from-free done ws t w free)
      ∙ lock_from-write_set (done ++ w ∷ []) ws (taken t w)
]
