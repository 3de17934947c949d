-- ===== src/Rpc.antt =====
-- The messages between nodes and clients: src/include/rpckind.h, src/include/rpc.h,
-- src/server/rpc.cc, with the header and the command of a client of src/include/header.h. A message
-- is a value; Rpc/Frames has the bytes of an acknowledgement. `printRPC` is of src/server/functions.cc.
pub mod Frames
use raft_2pl.Prelude.{ℕ, Bool, Int32, List, take, Run, ok, fault, exit_failure}
use raft_2pl.Types.{TransReq, ClientRequest}
use raft_2pl.Text.{Text}

pub data RpcKind : Type 0 where
  no_kind notify_port append_entries request_vote response_append_entries : RpcKind
  response_request_vote request_location response_request_location client_command : RpcKind
  commit_message client_exit bye_from_raft connect_notifier : RpcKind

unfoldable kind_code : RpcKind → Int32
kind_code no_kind = 0
kind_code notify_port = 1
kind_code append_entries = 10
kind_code request_vote = 11
kind_code response_append_entries = 12
kind_code response_request_vote = 13
kind_code request_location = 14
kind_code response_request_location = 15
kind_code client_command = 16
kind_code commit_message = 17
kind_code client_exit = 18
kind_code bye_from_raft = 19
kind_code connect_notifier = 20

-- The list holds the first `sz_log` requests of the array `log`.
pub record AppendEntriesRpc : Type 0 where
  pub rpc_kind : RpcKind
  pub term : Int32
  pub leader_id : Int32
  pub prev_log_index : Int32
  pub prev_log_term : Int32
  pub leader_commit : Int32
  pub lsn : Int32
  pub log : List TransReq
  pub sz_log : Int32
  pub worker_id : Int32
  pub r_node_id : Int32

pub record CommitMessage : Type 0 where
  pub rpc_kind : RpcKind
  pub command_id : Int32

pub record ResponseAppendEntries : Type 0 where
  pub rpc_kind : RpcKind
  pub term : Int32
  pub success : Bool
  pub lsn : Int32
  pub worker_id : Int32
  pub r_node_id : Int32

pub record ResponseRequestVote : Type 0 where
  pub rpc_kind : RpcKind
  pub term : Int32
  pub success : Bool

-- `memcpy` copies `szLog` requests.
unfoldable pub arpc_by_fields :
    Int32
    → Int32
    → Int32
    → Int32
    → Int32
    → List TransReq
    → Int32
    → Int32
    → Int32
    → Int32
    → AppendEntriesRpc
arpc_by_fields term leader_id prev_log_index prev_log_term leader_commit log sz_log lsn worker_id
      r_node_id =
    record {
      rpc_kind = append_entries;
      term = term;
      leader_id = leader_id;
      prev_log_index = prev_log_index;
      prev_log_term = prev_log_term;
      leader_commit = leader_commit;
      lsn = lsn;
      log = take sz_log log;
      sz_log = sz_log;
      worker_id = worker_id;
      r_node_id = r_node_id;
    }

unfoldable pub rae_by_fields : Int32 → Bool → Int32 → Int32 → Int32 → ResponseAppendEntries
rae_by_fields term success lsn worker_id r_node_id = record {
  rpc_kind = response_append_entries;
  term = term;
  success = success;
  lsn = lsn;
  worker_id = worker_id;
  r_node_id = r_node_id;
}

unfoldable rrv_by_fields : Int32 → Bool → ResponseRequestVote
rrv_by_fields term success = record {
  rpc_kind = response_request_vote;
  term = term;
  success = success;
}

abbrev pub cm_by_fields : Int32 → CommitMessage
cm_by_fields command_id = record { rpc_kind = commit_message; command_id = command_id }

-- `size` is the size of the payload, or a port in a notification of one.
pub record Header : Type 0 where
  pub kind : RpcKind
  pub size : Int32

-- The array `req` has `max_cli_req` requests.
pub record ClientCommand : Type 0 where
  pub rpc_kind : RpcKind
  pub client_id : Int32
  pub command_id : Int32
  pub reqs : List ClientRequest

pub record RequestVoteRpc : Type 0 where
  pub rpc_kind : RpcKind
  pub term : Int32
  pub candidate_id : Int32
  pub last_log_index : Int32
  pub last_log_term : Int32

pub record RequestLocation : Type 0 where
  pub rpc_kind : RpcKind

-- `hostname` is the text up to the first zero of the array.
pub record ResponseRequestLocation : Type 0 where
  pub rpc_kind : RpcKind
  pub hostname : Text
  pub port : Int32

-- Only the kind is set; the other fields are what the memory holds.
rrpc_by_fields : RequestVoteRpc → RequestVoteRpc
rrpc_by_fields memory = record memory { rpc_kind = request_vote }

rl_by_fields : RequestLocation
rl_by_fields = record { rpc_kind = request_location }

abbrev pub len_host : ℕ
len_host = 128

-- `strncpy` copies at most `len_host` characters.
pub rrl_by_fields : Text → Int32 → ResponseRequestLocation
rrl_by_fields hostname port = record {
  rpc_kind = response_request_location;
  hostname = take len_host hostname;
  port = port;
}

-- `printRPC` exits at a kind that it has no case for.
unfoldable pub print_rpc : RpcKind → Run (Unit {0})
print_rpc notify_port = ok tt
print_rpc append_entries = ok tt
print_rpc request_vote = ok tt
print_rpc response_append_entries = ok tt
print_rpc response_request_vote = ok tt
print_rpc request_location = ok tt
print_rpc response_request_location = ok tt
print_rpc client_command = ok tt
print_rpc commit_message = ok tt
print_rpc no_kind = fault exit_failure
print_rpc client_exit = fault exit_failure
print_rpc bye_from_raft = fault exit_failure
print_rpc connect_notifier = fault exit_failure
