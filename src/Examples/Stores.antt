-- ===== src/Examples/Stores.antt =====
-- The store and its hash index.
use raft_2pl.Prelude.{
  ◌*◌, ◌≡◌, refl, [], arith, Returns, ok, fault, out_of_fuel, exit_failure, ◌>>=◌,
}
use raft_2pl.Kvs.{Kvs, Memo, index_read, index_update, read, new_kvs, lock_result}
use raft_2pl.Kvs.TryLock.{eagain}
use raft_2pl.Kvs.Table.{index_read-index_update, index_read-absent}
use raft_2pl.Kvs.Build.{Built, new_kvs-Built}
use raft_2pl.Examples.{small, small-IsSized, even_store, even_store-IsIndexed}

new_kvs-Built_example :
    Returns
      (new_kvs small 1 (λ i. i * 10) (λ b. record { key = 0; value = 0 }))
      (Built small (λ i. i * 10))
new_kvs-Built_example =
    new_kvs-Built small 0 (λ i. i * 10) (λ b. record { key = 0; value = 0 }) small-IsSized

index_read-index_update_example :
    (index_update small 1 even_store 3 250 >>= λ after. index_read small 1 after 3) ≡ ok 250
index_read-index_update_example =
    index_read-index_update small even_store 0 3 3 250 small-IsSized even_store-IsIndexed
      (omega arith) (omega arith)

-- The table of a store in which key 9 stands nowhere.
abbrev sparse : Kvs
sparse = record even_store { hash = λ b. record { key = 0; value = 0 } }

index_read-absent_example :
    (index_read small 1000 sparse 9 ≡ fault out_of_fuel)
    × (index_update small 1000 sparse 9 5 ≡ fault out_of_fuel)
index_read-absent_example = index_read-absent small sparse 1000 9 5 (omega arith) (λ b. omega arith)

abbrev no_memo : Memo
no_memo = record { index = 0; lock_list = []; client_id = 0 }

read_run : read small even_store 9 ≡ 0
unfolding read
read_run = refl

lock_eagain : lock_result eagain ≡ fault exit_failure
unfolding lock_result
lock_eagain = refl
