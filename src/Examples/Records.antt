-- ===== src/Examples/Records.antt =====
-- Log records, votes, tasks.
use raft_2pl.Prelude.{
  ltb, if◌then◌else◌, assertion, fault, sign_bit, ◌+◌, ◌≡◌, sign_bit, true, [], ◌∷◌, arith, Returns,
  ok, fault, assertion, ◌+◌,
}
use raft_2pl.Types.{Entry}
use raft_2pl.Log.{Log, get_term, log_match}
use raft_2pl.Log.Terms.{get_term_lem}
use raft_2pl.Logging.{logging_work}
use raft_2pl.Logging.Replica.{
  logging_work_lem, with_record, written, replicate_group, replicate_group_lem, SameRecord,
}
use raft_2pl.Rpc.{AppendEntriesRpc, append_entries}
use raft_2pl.Status.{Status, follower}
use raft_2pl.Worker.{Task, WorkerInfo}
use raft_2pl.Examples.{upward_tx}

abbrev first_entry : Entry
first_entry = record { lsn = 0; term = 4; nlog = 1; time = 0; xact_set = upward_tx ∷ [] }

abbrev short_log : Log
short_log = record { entries = first_entry ∷ []; last_synced_index = 0; file = first_entry ∷ [] }

get_term_example : (get_term short_log 0 ≡ ok 4) × (log_match short_log 0 4 ≡ ok true)
get_term_example = get_term_lem short_log 0 4 (omega arith) (omega arith)

logging_work_example : logging_work 5 short_log (upward_tx ∷ []) 1 4 99 true true ≡ (
    if ltb 5 sign_bit
    then ok (5, 5 + 1, with_record short_log (written 5 (upward_tx ∷ []) 1 4 99))
    else fault assertion)
logging_work_example = logging_work_lem 5 short_log (upward_tx ∷ []) 1 4 99 (omega arith)

abbrev packet : AppendEntriesRpc
packet = record {
  rpc_kind = append_entries;
  term = 4;
  leader_id = 0;
  prev_log_index = 0;
  prev_log_term = 3;
  leader_commit = 0;
  lsn = 0;
  log = [];
  sz_log = 0;
  worker_id = 0;
  r_node_id = 1;
}

replicate_group_example :
    Returns (replicate_group 1 short_log short_log (upward_tx ∷ []) packet 10 20) λ logs.
      (a : Entry) × (b : Entry) × (logs.0.entries ≡ first_entry ∷ a ∷ [])
      × (logs.1.entries ≡ first_entry ∷ b ∷ [])
      × SameRecord a b
      × (a.xact_set ≡ upward_tx ∷ [])
replicate_group_example =
    replicate_group_lem 1 short_log short_log (upward_tx ∷ []) packet 10 20 (omega arith)
      (omega arith) (omega arith)

abbrev one_vote : Status
one_vote = record {
  storage_directory_name = [];
  votes = (3, 1) ∷ [];
  state = follower;
  current_term = 0;
  voted_for = 0;
  timeout_time = 0;
}

abbrev idle_info : WorkerInfo
idle_info = record {
  worker_id = 0;
  followers = [];
  commit_index = 0;
  xact_queue = [];
  task_list = [];
}

abbrev one_task : Task
one_task = record { worker_id = 0; lsn = 6; nlog = 1; xact_set = upward_tx ∷ [] }
