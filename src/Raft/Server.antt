-- ===== src/Raft/Server.antt =====
-- The members of class Raft that the receiver and the setup use: the constructor, the nodes of the
-- configuration and the functions that read and set a member (src/server/raft.cc, class Raft of
-- src/include/raft.h).
pub mod Me
use raft_2pl.Prelude.{
  ◌>>=◌, ◌>>◌, ℕ, zero, suc, true, ◌&&◌, not, Int32, slt, is_negative, minus_one, of_u64,
  if◌then◌else◌, Run, ok, fault, undefined, exit_failure, assert, List, [], ◌∷◌, ◌++◌, Option, none,
  some, get_elem?, length,
}
use raft_2pl.Text.{Text, same_text, myrand}
use raft_2pl.Config.{Config, NodeConf, get_nodes}
use raft_2pl.Kvs.{Kvs}
use raft_2pl.Nodes.{
  NodeBase, RaftNode, ClientNode, new_raft_node, set_is_me, set_id, get_id, get_hostname,
}
use raft_2pl.Status.{Status, follower, set_state, set_timeout_time, get_current_term, get_voted_for}
use raft_2pl.Worker.{WorkerInfo}
use raft_2pl.Rpc.{ResponseAppendEntries}

pub record Server : Type 0 where
  pub config : Config
  pub status : Status
  pub db : Kvs
  pub raft_nodes : List RaftNode
  pub client_nodes : List ClientNode
  pub worker_infos : List WorkerInfo
  pub me : Int32
  pub leader_term : Int32
  pub vote : Int32
  pub commit_count : Int32
  pub ack_q : List ResponseAppendEntries

unfoldable pub get_raft_nodes : Server → List RaftNode
get_raft_nodes r = r.raft_nodes

pub set_me : Server → Int32 → Server
set_me r me = record r { me = me }

unfoldable pub get_me : Server → Int32
get_me r = r.me

unfoldable get_vote_elect : Server → Int32
get_vote_elect r = r.vote

unfoldable set_vote_elect : Server → Int32 → Server
set_vote_elect r vote = record r { vote = vote }

unfoldable get_leader_term : Server → Int32
get_leader_term r = r.leader_term

unfoldable set_leader_term : Server → Int32 → Server
set_leader_term r term = record r { leader_term = term }

-- `(*raftNodes)[id]`, undefined out of range.
unfoldable pub get_raft_node_by_id : Server → Int32 → Run RaftNode
get_raft_node_by_id r id = elim (get_elem? r.raft_nodes id) [
  | none ↦ fault undefined
  | some n ↦ ok n
]

unfoldable get_leader_id : Server → Int32
get_leader_id r = get_voted_for r.status

unfoldable pub get_leader : Server → Run RaftNode
unfolding get_raft_node_by_id
get_leader r = do
  assert (not (is_negative (get_voted_for r.status)))
  get_raft_node_by_id r (get_voted_for r.status)

unfoldable ack_enqueue : Server → ResponseAppendEntries → Server
ack_enqueue r ack = record r { ack_q = r.ack_q ++ ack ∷ [] }

-- On an empty queue the result is local memory with the node id -1.
unfoldable ack_dequeue : Server → ResponseAppendEntries → ResponseAppendEntries × Server
ack_dequeue r memory = elim r.ack_q [
  | [] ↦ (record memory { r_node_id = minus_one }, r)
  | ack ∷ acks ↦ (ack, record r { ack_q = acks })
]

abbrev min_timeouttime_microseconds : Int32
min_timeouttime_microseconds = 1_000_000

abbrev max_timeouttime_microseconds : Int32
max_timeouttime_microseconds = 1_500_000

-- `rnd` is what the random device gives.
unfoldable reset_timeout_time : Server → Int32 → Run Server
reset_timeout_time r rnd = do
  tt' ← myrand rnd min_timeouttime_microseconds max_timeouttime_microseconds
  ok (record r { status = set_timeout_time r.status tt' })

-- The nodes of the configuration, numbered from `cnt` on.
pub nodes_from : NodeBase → ℕ → List NodeConf → List RaftNode
nodes_from memory cnt [] = []
nodes_from memory cnt (c ∷ cs) =
    let made = new_raft_node memory c.hostname c.port in
    record made { node = set_id made.node (of_u64 cnt) } ∷ nodes_from memory (suc cnt) cs

-- The node at a position is set to be this one.
pub set_me_at : List RaftNode → ℕ → List RaftNode
set_me_at [] i = []
set_me_at (n ∷ ns) zero = set_is_me n true ∷ ns
set_me_at (n ∷ ns) (suc i) = n ∷ set_me_at ns i

-- The first node with the address as its hostname: its id, and the nodes with it set.
pub mark_host : Text → List RaftNode → Option (Int32 × List RaftNode)
mark_host addr [] = none
mark_host addr (n ∷ ns) =
    let rest = mark_host addr ns in
    if same_text (get_hostname n.node) addr
    then some (get_id n.node, set_is_me n true ∷ ns)
    else elim rest [ none ↦ none | some (id, ns') ↦ some (id, n ∷ ns') ]

-- The loop over the addresses of the interfaces, up to the first that a node has.
pub search_me : Server → List Text → Server
search_me r [] = r
search_me r (addr ∷ addrs) = elim (mark_host addr r.raft_nodes) [
  | none ↦ search_me r addrs
  | some (id, nodes) ↦ set_me (record r { raft_nodes = nodes }) id
]

-- `addrs` are the IPv4 addresses that `getifaddrs` gives, if it succeeds.
pub set_raft_nodes_by_config : Server → NodeBase → Option (List Text) → Run Server
unfolding nodes_from
set_raft_nodes_by_config r memory addrs =
    let made = nodes_from memory 0 (get_nodes r.config) in
    let filled = record r { raft_nodes = r.raft_nodes ++ made } in
    if not (is_negative r.me) && slt r.me (of_u64 (length made))
    then ok (record filled { raft_nodes = set_me_at filled.raft_nodes r.me })
    else elim addrs [ none ↦ fault exit_failure | some list ↦ ok (search_me filled list) ]

-- `Raft::Raft`, after the configuration `config` is read; `new_status` and `make_db` are the
-- constructors of the status and of the store, `memory` holds the members until they are set.
unfoldable new_raft :
    Server
    → NodeBase
    → Config
    → Int32
    → Option (List Text)
    → Run Status
    → Run Kvs
    → Int32
    → Run Server
new_raft memory node_memory config me addrs new_status make_db rnd = do
  r ←
      set_raft_nodes_by_config
        (record memory {
          me = me;
          config = config;
          raft_nodes = [];
          client_nodes = [];
          worker_infos = [];
          ack_q = [];
        })
        node_memory addrs
  status ← new_status
  timed ← reset_timeout_time (record r { status = set_state status follower }) rnd
  db ← make_db
  ok (record timed {
    db = db;
    leader_term = get_current_term timed.status;
    vote = 0;
    commit_count = 0;
  })
