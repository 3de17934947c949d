-- ===== src/Logging/Replica.antt =====
-- The numbers of the records, and the copy that a follower writes.
use raft_2pl.Prelude.{
  ◌>>=◌, ltb, lt→ltb, if◌then◌else◌, assertion, fault, ◌≤◌, Bool-cases, false, inl, inr, ◌∙◌, ℕ,
  ◌+◌, ◌%◌, ◌^◌, ◌<◌, ◌≤◌, ◌≡◌, refl, Int32, u32, sign_bit, is_negative, slt, not, of_u64, arith,
  true, false, ok, fault, assertion, Run, Returns, List, [], ◌∷◌, ◌++◌, take, length, take-length,
}
use raft_2pl.Types.{TransReq, Entry, max_group_entry}
use raft_2pl.Log.{Log, add_entry}
use raft_2pl.Rpc.{AppendEntriesRpc, arpc_by_fields}
use raft_2pl.Logging.{logging_work, logging_work_arpc}

-- The log with one more record.
abbrev pub with_record : Log → Entry → Log
with_record log e = record log { entries = log.entries ++ e ∷ []; file = log.file ++ e ∷ [] }

-- The record that the leader writes for the counter's value.
abbrev pub written : ℕ → List TransReq → Int32 → Int32 → ℕ → Entry
written counter buffer nlog term time = record {
  lsn = counter;
  term = term;
  nlog = nlog;
  time = time;
  xact_set = take nlog buffer;
}

-- A counter below 2 ^ 32, with a log file that can be written: below 2 ^ 31 the counter is the
-- number of the record and goes up by one, and the log grows by the record, in memory and in the
-- file; from 2 ^ 31 on the number is negative as an int and the assertion fails.
pub logging_work_lem :
    (counter : ℕ) (log : Log) (buffer : List TransReq) (nlog term : Int32) (time : ℕ)
    → counter < u32
    → logging_work counter log buffer nlog term time true true ≡ (
        if ltb counter sign_bit
        then ok (counter, counter + 1, with_record log (written counter buffer nlog term time))
        else fault assertion)
unfolding logging_work add_entry of_u64
logging_work_lem counter log buffer nlog term time h =
    let same : counter % u32 ≡ counter = omega arith in
    elim (Bool-cases (ltb counter sign_bit)) [
      | inl lo ↦
          let plus : not (is_negative counter) ≡ true = ground arith in
          let up : (counter + 1) % 2 ^ 64 ≡ counter + 1 = omega arith in
          rw (same, plus, up, lo) refl
      | inr hi ↦
          let minus : not (is_negative counter) ≡ false = ground arith in rw (same, minus, hi) refl
    ]

-- A counter below 2 ^ 31 is the number of the record that the leader writes.
pub logging_work-below :
    (counter : ℕ) (log : Log) (buffer : List TransReq) (nlog term : Int32) (time : ℕ)
    → counter < sign_bit
    → Returns (logging_work counter log buffer nlog term time true true) λ r.
      (r.0 ≡ counter)
      × (r.1 ≡ counter + 1)
      × (r.2.entries ≡ log.entries ++ written counter buffer nlog term time ∷ [])
logging_work-below counter log buffer nlog term time h = (
  (counter, counter + 1, with_record log (written counter buffer nlog term time)),
  logging_work_lem counter log buffer nlog term time (omega arith)
      ∙ rw (lt→ltb counter sign_bit h) refl,
  (refl, refl, refl),
)

-- Two records that agree in all but the time of writing.
abbrev pub SameRecord : Entry → Entry → Type 0
SameRecord a b = (a.lsn ≡ b.lsn) × (a.term ≡ b.term) × (a.nlog ≡ b.nlog) × (a.xact_set ≡ b.xact_set)

-- The leader logs a group and sends it, and the follower logs what it receives: the two logs.
pub replicate_group : ℕ → Log → Log → List TransReq → AppendEntriesRpc → ℕ → ℕ → Run (Log × Log)
replicate_group counter leader follower buffer packet time time' = do
  r ← logging_work counter leader buffer (length buffer) packet.term time true true
  copy ←
      logging_work_arpc follower
        (arpc_by_fields packet.term packet.leader_id packet.prev_log_index packet.prev_log_term
          packet.leader_commit buffer (length buffer) r.0 packet.worker_id packet.r_node_id)
        time' true true
  ok (r.2, copy)

-- A group of 1 to 100 requests that the leader logs and sends: the leader and the follower append
-- to their logs records that agree in number, term, count and requests, and hold the whole group.
pub replicate_group_lem :
    (counter : ℕ) (leader follower : Log) (buffer : List TransReq) (packet : AppendEntriesRpc)
    (time time' : ℕ)
    → counter < sign_bit
    → 0 < length buffer
    → length buffer ≤ max_group_entry
    → Returns (replicate_group counter leader follower buffer packet time time') λ logs.
      (a : Entry) × (b : Entry) × (logs.0.entries ≡ leader.entries ++ a ∷ [])
      × (logs.1.entries ≡ follower.entries ++ b ∷ [])
      × SameRecord a b
      × (a.xact_set ≡ buffer)
unfolding replicate_group logging_work logging_work_arpc add_entry of_u64 arpc_by_fields
replicate_group_lem counter leader follower buffer packet time time' h lo hi =
    let same : counter % u32 ≡ counter = omega arith in
    let plus : not (is_negative counter) ≡ true = ground arith in
    let some_logs : slt 0 (length buffer) ≡ true = ground arith in
    let fits : ltb max_group_entry (length buffer) ≡ false = ground arith in
    let a : Entry = record {
      lsn = counter;
      term = packet.term;
      nlog = length buffer;
      time = time;
      xact_set = buffer;
    } in
    let b : Entry = record a { time = time' } in
    (
      (with_record leader a, with_record follower b),
      rw (same, plus, take-length buffer, take-length buffer, some_logs, plus, fits) refl,
      (a, b, refl, refl, (refl, refl, refl, refl), refl),
    )
