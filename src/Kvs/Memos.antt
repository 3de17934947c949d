-- ===== src/Kvs/Memos.antt =====
-- The lock memos: `setLockMemo` and `getLockMemo`.
use raft_2pl.Prelude.{◌≡◌, refl, Int32, arith, List, [], ◌∷◌, ◌++◌, false, ok, ◌>>=◌}
use raft_2pl.Types.{invalid}
use raft_2pl.Kvs.{Memo, Kvs, take_memo, get_lock_memo, has_memo, set_lock_memo}

take_memo-append :
    (xs : List Memo) (m x : Memo)
    → has_memo xs x.index ≡ false
    → take_memo (xs ++ x ∷ []) x.index m ≡ (x, xs)
unfolding take_memo has_memo
take_memo-append [] m x h = ground arith
take_memo-append (y ∷ xs) m x h = ground (arith, take_memo-append xs m x)

take_memo-absent :
    (xs : List Memo) (m : Memo) (index : Int32)
    → has_memo xs index ≡ false
    → take_memo xs index m ≡ (m, xs)
unfolding take_memo has_memo
take_memo-absent [] m index h = refl
take_memo-absent (y ∷ xs) m index h = ground (arith, take_memo-absent xs m index)

-- A memo stored at a free index is handed out once: `getLockMemo` returns it and leaves the store
-- as it was before, and a second `getLockMemo` returns the invalid client.
get-set_lock_memo :
    (kvs : Kvs) (index : Int32) (locks : List Int32) (client : Int32) (m : Memo)
    → has_memo kvs.memo_index index ≡ false
    → ((set_lock_memo kvs index locks client >>= λ k. ok (get_lock_memo k index m))
        ≡ ok (record { index = index; lock_list = locks; client_id = client }, kvs))
      × ((get_lock_memo kvs index m).0.client_id ≡ invalid)
unfolding set_lock_memo get_lock_memo
get-set_lock_memo kvs index locks client m h =
    let stored : Memo = record { index = index; lock_list = locks; client_id = client } in
    (
      rw (h, take_memo-append kvs.memo_index (record m { client_id = invalid }) stored h),
      rw (take_memo-absent kvs.memo_index (record m { client_id = invalid }) index h),
    )
