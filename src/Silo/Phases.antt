-- ===== src/Silo/Phases.antt =====
-- The phases of a transaction: the validation, the writes, and the transfer
-- (src/silo/transaction.cc).
use raft_2pl.Prelude.{
  ℕ, ◌-◌, ◌+◌, ◌*◌, ◌/◌, ◌%◌, ◌^◌, Bool, true, false, not, ◌&&◌, ◌||◌, Int32, slt, ltb, u32, ◌==◌,
  if◌then◌else◌, add32, sub32, neg32, is_negative, Run, ok, fault, undefined, ◌>>=◌, ◌>>◌, assert,
  List, [], ◌∷◌, write_at,
}
use raft_2pl.Types.{ClientRequest}
use raft_2pl.Silo.{
  Tidword, zero_word, max_word, next_tid, Tuple, ReadElement, WriteElement, TransactionStatus,
  in_flight, committed, aborted, TxnExecutor, begin_txn, abort, read, write, search_write_set,
  unlock_write_set, lock_write_set,
}

-- `sort(write_set_.begin(), write_set_.end())`, by key.
unfoldable pub insert : WriteElement → List WriteElement → List WriteElement
insert w [] = w ∷ []
insert w (x ∷ xs) = if ltb x.key w.key then x ∷ insert w xs else w ∷ x ∷ xs

unfoldable pub sort : List WriteElement → List WriteElement
unfolding insert
sort [] = []
sort (w ∷ ws) = insert w (sort ws)

-- Another transaction wrote the tuple since it was read, or holds its lock.
unfoldable pub is_stale : TxnExecutor → ReadElement → Bool
is_stale t r =
    let check = (t.table r.key).tidword in
    not (r.tidword.epoch == check.epoch)
    || not (r.tidword.tid == check.tid)
    || (check.lock && not (search_write_set t.write_set r.key))

-- Phase 2 of the validation.
unfoldable pub check_reads : List ReadElement → TxnExecutor → Bool × TxnExecutor
unfolding is_stale
check_reads [] t = (true, record t { status = committed })
check_reads (r ∷ rs) t =
    let rest =
      check_reads rs (record t { max_rset = max_word t.max_rset (t.table r.key).tidword }) in
    if is_stale t r
    then (false, record t { status = aborted; table = unlock_write_set t.write_set t.table })
    else rest

abbrev pub is_aborted : TransactionStatus → Bool
is_aborted aborted = true
is_aborted in_flight = false
is_aborted committed = false

-- `validationPhase`; `epoch` is the `GlobalEpoch`.
unfoldable pub validation_phase : ℕ → TxnExecutor → Bool × TxnExecutor
unfolding check_reads sort
validation_phase epoch t =
    let locked = lock_write_set (record t { write_set = sort t.write_set }) in
    let checked = check_reads locked.read_set (record locked { local_epoch = epoch }) in
    if is_aborted locked.status then (false, locked) else checked

-- `memcpy` over the first bytes.
unfoldable pub overlay : List ℕ → List ℕ → List ℕ
overlay [] old = old
overlay (b ∷ bs) [] = []
overlay (b ∷ bs) (x ∷ old) = b ∷ overlay bs old

-- The bytes of a tuple after the write of an element: an empty string means the benchmark's value.
unfoldable pub written_val : List ℕ → List ℕ → List ℕ → List ℕ
unfolding overlay
written_val write_val [] old = write_val
written_val write_val (b ∷ bs) old = overlay (b ∷ bs) old

unfoldable pub write_all : List ℕ → Tidword → List WriteElement → (ℕ → Tuple) → ℕ → Tuple
unfolding written_val
write_all write_val word [] table = table
write_all write_val word (w ∷ ws) table = write_all write_val word ws (
    write_at table w.key
      (record { tidword = word; val = written_val write_val w.val (table w.key).val }))

-- The three candidates of `writePhase`, and the greatest as the tid of the commit.
unfoldable pub commit_tid : TxnExecutor → Tidword
commit_tid t =
    let tid_a = next_tid (max_word t.max_wset t.max_rset) in
    let tid_b = next_tid t.mrctid in
    let tid_c = record zero_word { epoch = t.local_epoch } in
    record (max_word (max_word tid_a tid_b) tid_c) { lock = false; latest = true }

unfoldable pub write_phase : TxnExecutor → TxnExecutor
unfolding write_all commit_tid
write_phase t = record t {
  mrctid = commit_tid t;
  table = write_all t.write_val (commit_tid t) t.write_set t.table;
  read_set = [];
  write_set = [];
}

-- The four bytes of an `int32_t`, the lowest first, and back.
unfoldable pub to_bytes : Int32 → List ℕ
to_bytes a = a % 256 ∷ a / 256 % 256 ∷ a / 2 ^ 16 % 256 ∷ a / 2 ^ 24 % 256 ∷ []

unfoldable pub of_bytes : List ℕ → Int32
of_bytes [] = 0
of_bytes (b ∷ bs) = b + 256 * of_bytes bs

-- The swap under `// sort`, which negates `diff`.
unfoldable pub sort_request : ClientRequest → ClientRequest
sort_request req =
    if slt req.to req.from
    then record req { from = req.to; to = req.from; diff = neg32 req.diff }
    else req

-- `int` to `std::uint64_t`.
abbrev pub key_of : Int32 → ℕ
key_of k = if is_negative k then k + 2 ^ 64 - u32 else k

-- `read_set_[0]` and `read_set_[1]`.
unfoldable pub first_reads : List ReadElement → Run (ReadElement × ReadElement)
first_reads [] = fault undefined
first_reads (a ∷ []) = fault undefined
first_reads (a ∷ (b ∷ rs)) = ok (a, b)

-- The reads and the writes of `transferWork`.
unfoldable pub execute : TxnExecutor → ClientRequest → Run TxnExecutor
unfolding first_reads to_bytes of_bytes
execute t req = do
  t₁ ← read (begin_txn t) (key_of req.from)
  t₂ ← read t₁ (key_of req.to)
  (from, to) ← first_reads t₂.read_set
  let from_amount = sub32 (of_bytes from.val) req.diff
  let to_amount = add32 (of_bytes to.val) req.diff
  t₃ ← write t₂ (key_of req.from) (to_bytes from_amount)
  write t₃ (key_of req.to) (to_bytes to_amount)

unfoldable pub transfer_work : ℕ → TxnExecutor → ClientRequest → Run (Bool × TxnExecutor)
unfolding execute validation_phase write_phase sort_request
transfer_work epoch t request = do
  assert (not (request.from == request.to))
  executed ← execute t (sort_request request)
  let (valid, checked) = validation_phase epoch executed
  if valid then ok (true, write_phase checked) else ok (false, abort checked)
