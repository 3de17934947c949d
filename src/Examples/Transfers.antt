-- ===== src/Examples/Transfers.antt =====
-- Transfers under two-phase locking.
use raft_2pl.Prelude.{◌%◌, ◌≡◌, refl, u32, true, [], ◌∷◌, arith, Returns, ◌>>=◌, add32, sub32}
use raft_2pl.Kvs.{Kvs}
use raft_2pl.Kvs.Locks.{with_lock}
use raft_2pl.Twopl.{transfer_work, commit_work}
use raft_2pl.Twopl.Transfer.{Attempt, transfer_work-Attempt}
use raft_2pl.Twopl.Commit.{total, Committed, commit_work-Committed, transfer-commit_direction}
use raft_2pl.Twopl.Bank.{
  Bank, attempt, Reach, here, next, IsConsistent, holders, attempted, commit_returns,
  Reach-IsConsistent,
}
use raft_2pl.Twopl.Ledger.{LedgerReach, ledger_of, Reach-LedgerReach}
use raft_2pl.Examples.{
  small, small-IsSized, even_store, even_store-IsIndexed, downward, downward-IsAccepted, upward,
  upward-IsAccepted,
}

transfer_work-Attempt_example :
    Returns (transfer_work small even_store downward) (Attempt even_store downward)
transfer_work-Attempt_example =
    transfer_work-Attempt small even_store downward small-IsSized downward-IsAccepted

-- The payer 5 of `downward` ends with 130, and the payee 2 with 70.
transfer-commit_direction_example :
    Returns
      (transfer_work small even_store downward >>= λ r. commit_work small 1 r.2 r.1)
      λ after. ((after.hash 5).value ≡ add32 100 30) × ((after.hash 2).value ≡ sub32 100 30)
transfer-commit_direction_example =
    transfer-commit_direction small even_store downward 0 small-IsSized even_store-IsIndexed
      downward-IsAccepted refl

abbrev both_held : Kvs
both_held = with_lock (with_lock even_store 1 true) 3 true

commit_work-Committed_example :
    Returns (commit_work small 1 both_held upward) (Committed small both_held upward)
commit_work-Committed_example =
    commit_work-Committed small both_held upward small-IsSized even_store-IsIndexed
      upward-IsAccepted 0 refl refl

abbrev empty_bank : Bank
empty_bank = record { kvs = even_store; pending = [] }

empty_bank-IsConsistent : IsConsistent small empty_bank
empty_bank-IsConsistent = record { indexed = even_store-IsIndexed; accepted = tt; held = λ k. refl }

abbrev held_bank : Bank
held_bank = attempted empty_bank transfer_work-Attempt_example.0

one_step : Reach small empty_bank held_bank
one_step = next here (
    attempt empty_bank downward transfer_work-Attempt_example.0
      (omega arith, omega arith, omega arith) transfer_work-Attempt_example.1)

Reach-IsConsistent_example :
    IsConsistent small held_bank
    × (total 8 held_bank.kvs.hash % u32 ≡ total 8 even_store.hash % u32)
Reach-IsConsistent_example = Reach-IsConsistent small small-IsSized one_step empty_bank-IsConsistent

Reach-LedgerReach_example : LedgerReach (ledger_of empty_bank) (ledger_of held_bank)
Reach-LedgerReach_example = Reach-LedgerReach small small-IsSized one_step empty_bank-IsConsistent

-- A bank with one pending request.
abbrev pending_bank : Bank
pending_bank = record { kvs = both_held; pending = upward ∷ [] }

pending_bank-IsConsistent : IsConsistent small pending_bank
pending_bank-IsConsistent = record {
  indexed = even_store-IsIndexed;
  accepted = (upward-IsAccepted, tt);
  held = λ k. ground arith;
}

commit_returns_example :
    Returns (commit_work small 1 both_held upward) (Committed small both_held upward)
    × (holders 1 [] ≡ 0)
    × (holders 3 [] ≡ 0)
commit_returns_example =
    commit_returns small pending_bank [] [] upward 0 small-IsSized pending_bank-IsConsistent refl
