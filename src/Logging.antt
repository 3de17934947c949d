-- ===== src/Logging.antt =====
-- The write-ahead log records: src/server/logging.cc. `time` is what `gettimeofday` gives; the
-- flags say whether `write` and `fsync` succeed.
pub mod Replica
use raft_2pl.Prelude.{
  ◌>>=◌, ◌>>◌, ℕ, ◌+◌, ◌%◌, ◌^◌, Bool, not, Int32, is_negative, slt, of_u64, Run, ok, fault,
  undefined, if◌then◌else◌, ltb, assert, List, take,
}
use raft_2pl.Types.{TransReq, Entry, max_group_entry}
use raft_2pl.Log.{Log, add_entry}
use raft_2pl.Rpc.{AppendEntriesRpc}

-- `_lsn.fetch_add(1)` on the shared 64-bit counter.
get_log_sequence_number : ℕ → ℕ × ℕ
get_log_sequence_number counter = (counter, (counter + 1) % 2 ^ 64)

-- The overload of the leader, whose groups hold 100 requests at most: the number of the record, the counter and the log after it.
pub logging_work : ℕ → Log → List TransReq → Int32 → Int32 → ℕ → Bool → Bool → Run (Int32 × ℕ × Log)
unfolding get_log_sequence_number
logging_work counter log log_buffer nlog term time wrote synced = do
  let (raw, counter') = get_log_sequence_number counter
  let lsn = of_u64 raw
  assert (not (is_negative lsn))
  let e : Entry = record {
    lsn = lsn;
    term = term;
    nlog = nlog;
    time = time;
    xact_set = take nlog log_buffer;
  }
  log' ← add_entry log e wrote synced
  ok (lsn, counter', log')

-- The overload of the follower. `memcpy` copies from the array of the packet to that of the entry:
-- past their end where the packet's count is too large.
unfoldable pub logging_work_arpc : Log → AppendEntriesRpc → ℕ → Bool → Bool → Run Log
logging_work_arpc log arpc time wrote synced = do
  let lsn = arpc.lsn
  let nlog = arpc.sz_log
  let e : Entry = record {
    lsn = lsn;
    term = arpc.term;
    nlog = nlog;
    time = time;
    xact_set = take nlog arpc.log;
  }
  assert (not (is_negative lsn))
  assert (slt 0 nlog)
  if ltb max_group_entry nlog then fault undefined else ok tt
  add_entry log e wrote synced
