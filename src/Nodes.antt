-- ===== src/Nodes.antt =====
-- The nodes that a server knows: src/server/node.cc, src/server/raftnode.cc,
-- src/server/clientnode.cc and their headers. The mutex of a client node is not modelled: each
-- operation runs under it as a whole.
pub mod Grants
use raft_2pl.Prelude.{
  ℕ, zero, suc, ◌+◌, Bool, true, false, Int32, minus_one, ltb, if◌then◌else◌, add32, is_negative,
  Run, ok, fault, undefined, exit_failure, List, [], ◌∷◌, ◌++◌, length, set,
}
use raft_2pl.Text.{Text}

-- The class `Node`.
pub record NodeBase : Type 0 where
  pub id : Int32
  pub hostname : Text
  pub listen_port : Int32

unfoldable pub get_hostname : NodeBase → Text
get_hostname n = n.hostname

unfoldable pub set_hostname : NodeBase → Text → NodeBase
set_hostname n hostname = record n { hostname = hostname }

unfoldable pub get_listen_port : NodeBase → Int32
get_listen_port n = n.listen_port

unfoldable pub set_listen_port : NodeBase → Int32 → NodeBase
set_listen_port n port = record n { listen_port = port }

unfoldable pub get_id : NodeBase → Int32
get_id n = n.id

unfoldable pub set_id : NodeBase → Int32 → NodeBase
set_id n id = record n { id = id }

-- `memory` holds the id until it is set.
unfoldable pub new_node : NodeBase → Text → Int32 → NodeBase
unfolding set_hostname set_listen_port
new_node memory hostname listen_port = set_listen_port (set_hostname memory hostname) listen_port

pub record RaftNode : Type 0 where
  pub node : NodeBase
  pub voted_for_me : Bool
  pub rvrpc_sent : Bool
  pub isme : Bool

unfoldable pub new_raft_node : NodeBase → Text → Int32 → RaftNode
unfolding new_node
new_raft_node memory hostname port = record {
  node = new_node memory hostname port;
  voted_for_me = false;
  rvrpc_sent = false;
  isme = false;
}

unfoldable pub is_me : RaftNode → Bool
is_me r = r.isme

unfoldable pub set_is_me : RaftNode → Bool → RaftNode
set_is_me r isme = record r { isme = isme }

unfoldable has_voted_for_me : RaftNode → Bool
has_voted_for_me r = r.voted_for_me

unfoldable set_voted_for_me : RaftNode → Bool → RaftNode
set_voted_for_me r voted = record r { voted_for_me = voted }

unfoldable i_have_sent_request_vote_rpc : RaftNode → Bool
i_have_sent_request_vote_rpc r = r.rvrpc_sent

unfoldable set_request_vote_rpc_sent : RaftNode → Bool → RaftNode
set_request_vote_rpc_sent r sent = record r { rvrpc_sent = sent }

pub record ClientNode : Type 0 where
  pub node : NodeBase
  pub last_log_index : Int32
  pub commit_index : Int32
  pub last_command_id : Int32
  pub committed_command_id : Int32
  pub need_read_request : Bool
  pub read_rpc_id : Int32
  pub read_grants : List Bool
  pub recv_sock : Int32
  pub send_sock : Int32

unfoldable pub new_client_node : NodeBase → Text → Int32 → ClientNode
unfolding new_node
new_client_node memory hostname port = record {
  node = new_node memory hostname port;
  last_log_index = minus_one;
  commit_index = minus_one;
  last_command_id = minus_one;
  committed_command_id = minus_one;
  need_read_request = false;
  read_rpc_id = minus_one;
  read_grants = [];
  recv_sock = minus_one;
  send_sock = minus_one;
}

unfoldable get_last_log_index : ClientNode → Int32
get_last_log_index c = c.last_log_index

unfoldable set_last_log_index : ClientNode → Int32 → ClientNode
set_last_log_index c index = record c { last_log_index = index }

unfoldable get_client_commit_index : ClientNode → Int32
get_client_commit_index c = c.commit_index

unfoldable set_client_commit_index : ClientNode → Int32 → ClientNode
set_client_commit_index c index = record c { commit_index = index }

unfoldable get_last_command_id : ClientNode → Int32
get_last_command_id c = c.last_command_id

unfoldable set_last_command_id : ClientNode → Int32 → ClientNode
set_last_command_id c id = record c { last_command_id = id }

unfoldable get_committed_command_id : ClientNode → Int32
get_committed_command_id c = c.committed_command_id

unfoldable set_committed_command_id : ClientNode → Int32 → ClientNode
set_committed_command_id c id = record c { committed_command_id = id }

unfoldable set_read_rpc_id : ClientNode → Int32 → ClientNode
set_read_rpc_id c rpcid = record c { read_rpc_id = rpcid }

unfoldable get_read_rpc_id : ClientNode → Int32
get_read_rpc_id c = c.read_rpc_id

unfoldable set_need_read_request : ClientNode → Bool → ClientNode
set_need_read_request c b = record c { need_read_request = b }

unfoldable get_need_read_request : ClientNode → Bool
get_need_read_request c = c.need_read_request

-- The loop, which adds 1 to `num` for each grant.
pub count_grants : Int32 → List Bool → Int32
count_grants num [] = num
count_grants num (granted ∷ grants) = count_grants (if granted then add32 num 1 else num) grants

-- The count starts at 1, for the node itself; `size` is not used.
pub get_read_grants_num : ClientNode → Int32 → Int32
unfolding count_grants
get_read_grants_num c size = count_grants 1 c.read_grants

-- `readGrants[raftNodeId] = true`, undefined out of range.
pub grant : ClientNode → Int32 → Run ClientNode
grant c id =
    if ltb id (length c.read_grants)
    then ok (record c { read_grants = set c.read_grants id true })
    else fault undefined

-- The loop: the first `size` grants are false, whether they were there or are new.
pub reset_grants : List Bool → ℕ → List Bool
reset_grants grants zero = grants
reset_grants [] (suc size) = false ∷ reset_grants [] size
reset_grants (granted ∷ grants) (suc size) = false ∷ reset_grants grants size

-- No round of the loop runs for a negative size.
pub reset_read_grants : ClientNode → Int32 → ClientNode
unfolding reset_grants
reset_read_grants c size = record c {
  read_grants = if is_negative size then c.read_grants else reset_grants c.read_grants size;
}

unfoldable get_recv_sock : ClientNode → Int32
get_recv_sock c = c.recv_sock

unfoldable pub set_recv_sock : ClientNode → Int32 → ClientNode
set_recv_sock c sock = record c { recv_sock = sock }

unfoldable pub get_send_sock : ClientNode → Int32
get_send_sock c = c.send_sock

unfoldable pub set_send_sock : ClientNode → Int32 → ClientNode
set_send_sock c sock = record c { send_sock = sock }

-- `close` is the operating system's: whether it succeeded.
module _ (close : Int32 → Bool) where
  unfoldable pub close_recv_sock : ClientNode → Run (Unit {0})
  close_recv_sock c = if close c.recv_sock then ok tt else fault exit_failure

  unfoldable close_send_sock : ClientNode → Run (Unit {0})
  close_send_sock c = if close c.send_sock then ok tt else fault exit_failure
