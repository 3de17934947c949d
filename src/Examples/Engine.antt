-- ===== src/Examples/Engine.antt =====
-- Transactions of the Silo engine.
use raft_2pl.Prelude.{
  ltb, if◌then◌else◌, ℕ, ◌%◌, ◌<◌, ◌≤◌, ◌≡◌, refl, true, false, ok, Returns, [], ◌∷◌, arith, add32,
  sub32, neg32,
}
use raft_2pl.Types.{ClientRequest}
use raft_2pl.Silo.{
  Tidword, TxnExecutor, in_flight, zero_word, obj, string_view, lock_write_set, lock_from,
  search_write_set,
}
use raft_2pl.Silo.Locking.{AllOrNone, is_busy, lock_write_set_lem}
use raft_2pl.Silo.Phases.{
  to_bytes, of_bytes, sort_request, transfer_work, validation_phase, sort, insert, check_reads,
  is_stale, commit_tid,
}
use raft_2pl.Silo.Alone.{IsOpen, idle, from_amount, to_amount}
use raft_2pl.Silo.Balances.{Transferred, transfer_work-Transferred, transfer_work-zero_byte}
use raft_2pl.Silo.Tids.{commit_tid_lem}
use raft_2pl.Twopl.Bank.{All}
use raft_2pl.Silo.Epochs.{
  LocalEpoch, Epochs, EpochSteps, new_epochs, load_epoch, store_epoch, leader_work, loads, stores,
  leads, here, next, IsNear, EpochSteps-IsNear,
}
use raft_2pl.Silo.Database.{init_tuple, decide_parallel_build_number, make_db}
use raft_2pl.Silo.Database.Tuples.{make_db_lem}
use raft_2pl.Silo.Undo.{validation_phase-undone}

abbrev first_word : Tidword
first_word = record { lock = false; latest = true; absent = false; tid = 0; epoch = 1 }

-- A table of eight tuples that hold 100, and an executor that has read the tuple 2 before another
-- transaction wrote it.
abbrev late_executor : TxnExecutor
late_executor = record {
  table = λ k. record { tidword = first_word; val = 100 ∷ (0 ∷ (0 ∷ (0 ∷ []))) };
  tuple_num = 8;
  local_epoch = 1;
  read_set = record { key = 2; tidword = zero_word; val = 7 ∷ (0 ∷ (0 ∷ (0 ∷ []))) } ∷ [];
  write_set = record { key = 2; val = 6 ∷ [] } ∷ (record { key = 5; val = 9 ∷ [] } ∷ []);
  status = in_flight;
  mrctid = zero_word;
  max_rset = zero_word;
  max_wset = zero_word;
  write_val = 48 ∷ (0 ∷ (0 ∷ (0 ∷ [])));
}

apart_keys : search_write_set (record { key = 2; val = 6 ∷ [] } ∷ []) 5 ≡ false
unfolding search_write_set
apart_keys = refl

no_keys : (k : ℕ) → search_write_set [] k ≡ false
unfolding search_write_set
no_keys k = refl

lock_write_set_example :
    AllOrNone
      (is_busy late_executor.write_set late_executor.table)
      late_executor.write_set
      late_executor.table
      late_executor
      (lock_write_set late_executor)
lock_write_set_example = lock_write_set_lem late_executor (no_keys 2, (apart_keys, tt))

fails : (validation_phase 3 late_executor).0 ≡ false
unfolding validation_phase sort insert lock_write_set lock_from check_reads is_stale
    search_write_set
fails = refl

validation_phase-undone_example :
    (validation_phase 3 late_executor).1.table 5 ≡ late_executor.table 5
unfolding sort insert
validation_phase-undone_example =
    validation_phase-undone 3 late_executor (no_keys 2, (apart_keys, tt)) refl fails 5

-- A transfer of 30 from the key 5 to the key 2, and one of all of the key 2 to the key 5.
abbrev some_money : ClientRequest
some_money = record { from = 5; to = 2; diff = 30; tx_id = 0 }

abbrev all_money : ClientRequest
all_money = record { from = 2; to = 5; diff = 100; tx_id = 0 }

some_money-IsOpen : IsOpen late_executor some_money
some_money-IsOpen = record {
  small = omega arith;
  from_in = omega arith;
  to_in = omega arith;
  apart = refl;
  from_free = refl;
  to_free = refl;
}

all_money-IsOpen : IsOpen late_executor all_money
all_money-IsOpen = record {
  small = omega arith;
  from_in = omega arith;
  to_in = omega arith;
  apart = refl;
  from_free = refl;
  to_free = refl;
}

some_from_view :
    string_view (to_bytes (from_amount late_executor (sort_request some_money))) ≡ ok (130 ∷ [])
unfolding string_view to_bytes of_bytes sort_request sub32 neg32
some_from_view = refl

some_to_view :
    string_view (to_bytes (to_amount late_executor (sort_request some_money))) ≡ ok (70 ∷ [])
unfolding string_view to_bytes of_bytes sort_request add32 neg32
some_to_view = refl

transfer_work-Transferred_example :
    Returns
      (transfer_work 3 (idle late_executor) some_money)
      (Transferred late_executor (sort_request some_money) (130 ∷ []) (70 ∷ []))
transfer_work-Transferred_example =
    transfer_work-Transferred late_executor some_money 3 (130 ∷ []) (70 ∷ []) some_money-IsOpen
      some_from_view some_to_view

all_from_amount : from_amount late_executor (sort_request all_money) % 256 ≡ 0
unfolding of_bytes sort_request sub32
all_from_amount = refl

all_to_view :
    string_view (to_bytes (to_amount late_executor (sort_request all_money))) ≡ ok (200 ∷ [])
unfolding string_view to_bytes of_bytes sort_request add32
all_to_view = refl

-- The key 2, which gave its 100 away, holds the text of the number 0 of the thread.
transfer_work-zero_byte_example :
    Returns (transfer_work 3 (idle late_executor) all_money) λ r.
      (r.0 ≡ true) × ((r.1.table (sort_request all_money).from).val ≡ 48 ∷ (0 ∷ (0 ∷ (0 ∷ []))))
transfer_work-zero_byte_example =
    transfer_work-zero_byte late_executor all_money 3 (200 ∷ []) all_money-IsOpen all_from_amount
      all_to_view

commit_tid_example :
    (obj late_executor.max_wset < obj (commit_tid late_executor))
    × (obj late_executor.max_rset < obj (commit_tid late_executor))
    × (obj late_executor.mrctid < obj (commit_tid late_executor))
    × (late_executor.local_epoch ≤ (commit_tid late_executor).epoch)
commit_tid_example =
    commit_tid_lem late_executor (omega arith, omega arith) (omega arith, omega arith)
      (omega arith, omega arith) (omega arith)

-- One thread beside the thread 0 has stored the epoch and loaded it again, which it stores after the
-- thread 0 has worked.
abbrev loaded_again : Epochs
loaded_again = load_epoch (store_epoch (load_epoch (new_epochs 1) 1) 1) 1

abbrev late_store : Epochs
late_store = store_epoch (leader_work 40 100 loaded_again 0).0 1

abbrev late_steps : EpochSteps (new_epochs 1) late_store
late_steps =
    next
      (next
        (next (next (next here (loads (new_epochs 1) 1)) (stores (load_epoch (new_epochs 1) 1) 1))
          (loads (store_epoch (load_epoch (new_epochs 1) 1) 1) 1))
        (leads 40 100 0 loaded_again))
      (stores (leader_work 40 100 loaded_again 0).0 1)

EpochSteps-IsNear_example :
    All (λ (t : LocalEpoch). IsNear late_store.global t.epoch) late_store.others
EpochSteps-IsNear_example = EpochSteps-IsNear 1 late_store late_steps

-- A thousand tuples and four cores; the threads run in another order than their numbers.
make_db_example :
    Returns
      (make_db 1000 4 true
        (λ k. record { tidword = zero_word; val = 7 ∷ 7 ∷ 7 ∷ 7 ∷ [] })
        (λ m. 2 ∷ 0 ∷ 3 ∷ 1 ∷ []))
      λ after.
        (k : ℕ)
        → after k ≡ (
            if ltb k 1000
            then init_tuple (record { tidword = zero_word; val = 7 ∷ 7 ∷ 7 ∷ 7 ∷ [] })
            else record { tidword = zero_word; val = 7 ∷ 7 ∷ 7 ∷ 7 ∷ [] })
unfolding decide_parallel_build_number
make_db_example =
    make_db_lem 1000 4 (λ k. record { tidword = zero_word; val = 7 ∷ 7 ∷ 7 ∷ 7 ∷ [] })
      (λ m. 2 ∷ 0 ∷ 3 ∷ 1 ∷ []) (omega arith) (omega arith) (omega arith)
      (omega arith, (omega arith, (omega arith, (omega arith, tt)))) (λ i h. ground arith)
