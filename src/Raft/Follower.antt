-- ===== src/Raft/Follower.antt =====
-- A follower's receiver of groups: Raft::logReceiver (src/server/raft.cc).
use mathlib.Core.List.{append_assoc, append-nil}
use raft_2pl.Prelude.{
  ◌>>=◌, ℕ, ◌≡◌, ◌∙◌, sym, refl, Int32, slt, ltb, is_negative, Bool, true, false, Returns, Run, ok,
  List, [], ◌∷◌, ◌++◌, map, take,
}
use raft_2pl.Types.{Entry, max_group_entry}
use raft_2pl.Log.{Log, add_entry}
use raft_2pl.Logging.{logging_work_arpc}
use raft_2pl.Rpc.{AppendEntriesRpc, ResponseAppendEntries, response_append_entries, rae_by_fields}
use raft_2pl.Twopl.Bank.{All}

-- A packet, with the time at which its record is written.
abbrev pub Packet : Type 0
Packet = AppendEntriesRpc × ℕ

-- A round of the loop: the record is written, then the ack is sent.
log_receiver_step : Int32 → Bool → Bool → Log → Packet → Run (Log × ResponseAppendEntries)
log_receiver_step cur_term wrote synced log p = do
  log' ← logging_work_arpc log p.0 p.1 wrote synced
  ok (log', rae_by_fields cur_term true p.0.lsn p.0.worker_id p.0.r_node_id)

-- The rounds for the packets that arrive; `cur_term` is read once, before the loop.
pub log_receiver : Int32 → Bool → Bool → Log → List Packet → Run (Log × List ResponseAppendEntries)
unfolding log_receiver_step
log_receiver cur_term wrote synced log [] = ok (log, [])
log_receiver cur_term wrote synced log (p ∷ ps) = do
  (log', ack) ← log_receiver_step cur_term wrote synced log p
  (last, acks) ← log_receiver cur_term wrote synced log' ps
  ok (last, ack ∷ acks)

-- A packet of a leader: its number is no negative `int`, and it holds 1 to 100 requests.
abbrev IsGroup : Packet → Type 0
IsGroup p =
    (is_negative p.0.lsn ≡ false)
    × (slt 0 p.0.sz_log ≡ true)
    × (ltb max_group_entry p.0.sz_log ≡ false)

abbrev pub record_of : Packet → Entry
record_of p = record {
  lsn = p.0.lsn;
  term = p.0.term;
  nlog = p.0.sz_log;
  time = p.1;
  xact_set = take p.0.sz_log p.0.log;
}

abbrev pub ack_of : Int32 → Packet → ResponseAppendEntries
ack_of cur_term p = record {
  rpc_kind = response_append_entries;
  term = cur_term;
  success = true;
  lsn = p.0.lsn;
  worker_id = p.0.worker_id;
  r_node_id = p.0.r_node_id;
}

-- Groups of 1 to 100 requests, with numbers that are no negative `int`s, that arrive at a follower
-- whose log can be written: every group is acknowledged with its number, worker and node, in the order of arrival, and its record stands in that order at the end
-- of the log, in memory and in the file.
pub log_receiver_lem :
    (cur_term : Int32) (log : Log) (ps : List Packet)
    → All IsGroup ps
    → Returns (log_receiver cur_term true true log ps) λ r.
      (r.1 ≡ map (ack_of cur_term) ps)
      × (r.0.entries ≡ log.entries ++ map record_of ps)
      × (r.0.file ≡ log.file ++ map record_of ps)
unfolding log_receiver log_receiver_step logging_work_arpc add_entry rae_by_fields
log_receiver_lem cur_term log [] groups =
    ((log, []), refl, (refl, sym (append-nil log.entries), sym (append-nil log.file)))
log_receiver_lem cur_term log (p ∷ ps) groups =
    let e = record_of p in
    let next : Log = record log { entries = log.entries ++ e ∷ []; file = log.file ++ e ∷ [] } in
    let (r, run, (acks, entries, file)) = log_receiver_lem cur_term next ps groups.1 in
    (
      (r.0, ack_of cur_term p ∷ r.1),
      rw (groups.0.0, groups.0.1, groups.0.2, ◌>>=◌, run) refl,
      (
        rw acks refl,
        entries ∙ append_assoc log.entries (e ∷ []) (map record_of ps),
        file ∙ append_assoc log.file (e ∷ []) (map record_of ps),
      ),
    )
