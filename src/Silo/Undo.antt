-- ===== src/Silo/Undo.antt =====
-- A transaction that fails its validation leaves the table as it was (src/silo/transaction.cc).
use raft_2pl.Prelude.{ℕ, ◌≡◌, ◌∙◌, ap, refl, true, false, Bool-cases, inl, inr, List, [], ◌∷◌}
use raft_2pl.Silo.{
  Tuple, ReadElement, WriteElement, in_flight, TxnExecutor, max_word, unlock_write_set,
  lock_write_set,
}
use raft_2pl.Silo.Locking.{
  IsFresh, is_busy-free, lock_write_set_lem, lock_from-write_set, unlock_write_set-with_locks,
}
use raft_2pl.Silo.Phases.{sort, is_stale, is_aborted, check_reads, validation_phase}

-- The table after a check that fails.
check_reads-false :
    (rs : List ReadElement) (t : TxnExecutor)
    → (check_reads rs t).0 ≡ false
    → (check_reads rs t).1.table ≡ unlock_write_set t.write_set t.table
unfolding check_reads
check_reads-false [] t failed = absurd (cc)
check_reads-false (r ∷ rs) t failed = elim (Bool-cases (is_stale t r)) [
  | inl stale ↦ rw stale refl
  | inr valid ↦ rw valid (
      check_reads-false rs (record t { max_rset = max_word t.max_rset (t.table r.key).tidword })
        (rw valid at failed))
]

lock_write_set-frame : (t : TxnExecutor) → (lock_write_set t).write_set ≡ t.write_set
unfolding lock_write_set
lock_write_set-frame t = lock_from-write_set [] t.write_set t

-- A transaction in flight whose write set has no key twice, and whose validation fails, be it at a
-- lock or at a read that has gone stale: every tuple is as it was, its lock included.
pub validation_phase-undone :
    (epoch : ℕ) (t : TxnExecutor)
    → IsFresh [] (sort t.write_set)
    → t.status ≡ in_flight
    → (validation_phase epoch t).0 ≡ false
    → (k : ℕ) → (validation_phase epoch t).1.table k ≡ t.table k
unfolding validation_phase
validation_phase-undone epoch t fresh flying failed k =
    let s : TxnExecutor = record t { write_set = sort t.write_set } in
    let locked = lock_write_set s in
    elim (lock_write_set_lem s fresh) [
      | inl (busy, status, same) ↦
          let gone : is_aborted locked.status ≡ true = rw status refl in rw gone (same k)
      | inr (idle, status, held) ↦
          let on : is_aborted locked.status ≡ false = rw (status, flying) refl in
          let next : TxnExecutor = record locked { local_epoch = epoch } in
          let undone = check_reads-false locked.read_set next (rw on at failed) in
          rw on (
            ap (λ (f : ℕ → Tuple). f k) undone
            ∙ ap (λ (ws : List WriteElement). unlock_write_set ws locked.table k)
                (lock_write_set-frame s)
            ∙ unlock_write_set-with_locks s.write_set locked.table t.table held
                (λ j found. is_busy-free s.write_set t.table j idle found) k)
    ]
