-- ===== src/Raft/Receiver.antt =====
-- The receiver's loop, the connections that a leader opens, and the end of a client's connection:
-- Raft::receiver, setupLeader, connect2raftnode and closeClient of src/server/raft.cc. A connection
-- is where it comes from and the headers that arrive on it.
pub mod Serving
pub mod Election
use raft_2pl.Prelude.{
  ◌>>=◌, ℕ, suc, ◌==◌, Bool, false, ◌&&◌, not, Int32, if◌then◌else◌, add32, Run, ok, fault,
  uncaught, exit_failure, ◌>>◌, assert, List, [], ◌∷◌, ◌++◌, Option, none, some, get_elem?, length,
}
use raft_2pl.Text.{Text, same_text}
use raft_2pl.Types.{worker_num}
use raft_2pl.Nodes.{
  NodeBase, RaftNode, ClientNode, is_me, get_id, get_hostname, get_listen_port, get_send_sock,
  close_recv_sock,
}
use raft_2pl.Status.{set_voted_for, become_leader}
use raft_2pl.Worker.{WorkerInfo, FollowerInfo}
use raft_2pl.Rpc.{
  RpcKind, Header, print_rpc, notify_port, request_location, client_command, request_vote,
  response_append_entries, append_entries, bye_from_raft,
}
use raft_2pl.Raft.Clients.{connected, accept_client, erase_client}
use raft_2pl.Raft.Server.{Server, get_raft_nodes, get_me}
use raft_2pl.Raft.Setup.{setup_workers}

pub record Connection : Type 0 where
  pub hostname : Text
  pub port : Int32
  pub sock : Int32
  pub headers : List Header

-- A thread that the receiver has started, with its arguments.
pub data Thread : Type 0 where
  producer_thread : Int32 → ClientNode → Int32 → Thread
  notifier_thread : Int32 → Int32 → Thread
  log_receiver_thread : Int32 → Thread

-- The server, the local variable `workerId`, and the threads in the order of their start.
pub record Receiver : Type 0 where
  pub server : Server
  pub worker_id : Int32
  pub threads : List Thread

-- The first header that notifies no port, and the port that was notified before it. A connection
-- that ends before that ends the process.
pub first_header : Int32 → List Header → Run (Int32 × Header)
first_header port [] = fault exit_failure
first_header port (h ∷ hs) =
    let retry = first_header h.size hs in
    print_rpc h.kind >> elim h.kind [ notify_port ↦ retry | _ ↦ ok (port, h) ]

-- The first other node with this address and port.
pub find_peer : List RaftNode → Text → Int32 → Option RaftNode
find_peer [] addr port = none
find_peer (n ∷ ns) addr port =
    let rest = find_peer ns addr port in
    if not (is_me n) && (same_text addr (get_hostname n.node) && port == get_listen_port n.node)
    then some n
    else rest

-- Round robin over the workers.
pub next_worker : Int32 → List WorkerInfo → Int32
next_worker worker_id workers = if suc worker_id == length workers then 0 else add32 worker_id 1

-- A client: it is entered, and its producer is started with the worker whose turn it is.
pub accept_location : NodeBase → Receiver → Connection → Receiver
unfolding next_worker
accept_location memory rc conn =
    let clients = rc.server.client_nodes in
    let c = connected memory (length clients) conn.hostname conn.port conn.sock in
    record {
      server = record rc.server {
        client_nodes = accept_client memory clients conn.hostname conn.port conn.sock;
      };
      worker_id = next_worker rc.worker_id rc.server.worker_infos;
      threads = rc.threads ++ producer_thread conn.sock c rc.worker_id ∷ [];
    }

abbrev pub start : Receiver → Thread → Receiver
start rc t = record rc { threads = rc.threads ++ t ∷ [] }

-- The branches on the kind of the header.
pub dispatch : NodeBase → Receiver → Connection → Int32 → RpcKind → Run Receiver
unfolding accept_location
dispatch memory rc conn port request_location = ok (accept_location memory rc conn)
dispatch memory rc conn port client_command = do assert false; ok (accept_location memory rc conn)
dispatch memory rc conn port request_vote =
    elim (find_peer (get_raft_nodes rc.server) conn.hostname port) [
      | none ↦ ok rc
      | some n ↦
          let status = set_voted_for rc.server.status (get_id n.node) in
          ok (record rc { server = record rc.server { status = status } })
    ]
dispatch memory rc conn port response_append_entries =
    elim (find_peer (get_raft_nodes rc.server) conn.hostname port) [
      | none ↦ ok rc
      | some n ↦ ok (start rc (notifier_thread conn.sock (get_id n.node)))
    ]
dispatch memory rc conn port append_entries =
    elim (find_peer (get_raft_nodes rc.server) conn.hostname port) [
      | none ↦ ok rc
      | some n ↦ ok (start rc (log_receiver_thread conn.sock))
    ]
dispatch memory rc conn port kind = ok rc

-- A round of the service loop.
pub receive : NodeBase → Receiver → Connection → Run Receiver
unfolding first_header dispatch
receive memory rc conn = do
  (port, header) ← first_header 0 conn.headers
  dispatch memory rc conn port header.kind

-- The rounds for the connections in the order of their arrival; `workerId` starts at 0.
unfoldable pub receiver : NodeBase → Receiver → List Connection → Run Receiver
unfolding receive
receiver memory rc [] = ok rc
receiver memory rc (conn ∷ conns) = do next ← receive memory rc conn; receiver memory next conns

-- A connection that this server has opened: to which node, and the headers sent on it.
pub record Opened : Type 0 where
  pub to : RaftNode
  pub sent : List Header

-- `connect2raftnode` notifies the port; `at` throws out of range.
pub connect_to_raft_node : Server → RaftNode → Run Opened
connect_to_raft_node r n = elim (get_elem? (get_raft_nodes r) (get_me r)) [
  | none ↦ fault uncaught
  | some own ↦ ok (record {
    to = n;
    sent = record { kind = notify_port; size = get_listen_port own.node } ∷ [];
  })
]

-- The size of a `request_vote_rpc`.
abbrev pub vote_size : Int32
vote_size = 20

-- The vote requests to all other nodes.
pub request_votes : Server → List RaftNode → Run (List Opened)
unfolding connect_to_raft_node
request_votes r [] = ok []
request_votes r (n ∷ ns) =
    let rest = request_votes r ns in
    if is_me n then rest else (do
      opened ← connect_to_raft_node r n
      let vote : Header = record { kind = request_vote; size = vote_size }
      more ← rest
      ok (record opened { sent = opened.sent ++ vote ∷ [] } ∷ more))

-- `Raft::setupLeader`: the server afterwards, and the connections that it opened.
pub setup_leader : (ℕ → WorkerInfo) → FollowerInfo → Server → Run (Server × List Opened)
unfolding request_votes
setup_leader blank memory r = do
  let voted = record r { status = set_voted_for r.status (get_me r) }
  opened ← request_votes voted (get_raft_nodes voted)
  let workers = setup_workers blank memory (get_raft_nodes voted) worker_num
  ok (
    record voted {
      status = become_leader voted.status;
      worker_infos = voted.worker_infos ++ workers;
    },
    opened,
  )

-- `closeClient`: the farewell, whose failure erases the client from the list, and the `close`.
-- The client is freed; its entry in the list stays.
unfoldable pub close_client :
    (send_ok close : Int32 → Bool)
    → List ClientNode
    → ClientNode
    → Run (List ClientNode × List (Int32 × Header))
close_client send_ok close clients c = do
  let sock = get_send_sock c
  let bye : Header = record { kind = bye_from_raft; size = 8 }
  let sent = if send_ok sock then (clients, (sock, bye) ∷ []) else (erase_client clients sock, [])
  close_recv_sock close c
  ok sent
