-- ===== src/Raft/Clients.antt =====
-- The clients of the leader: `addClientNode`, the id that `Raft::receiver` gives, `sendRPC` to a
-- client, and the part of `Raft::producer` that queues a command (src/server/raft.cc).
pub mod Ids
pub mod Found
use raft_2pl.Prelude.{ℕ, Bool, Int32, ◌==◌, if◌then◌else◌, of_u64, List, [], ◌∷◌, ◌++◌, length}
use raft_2pl.Text.{Text}
use raft_2pl.Nodes.{NodeBase, ClientNode, new_client_node, set_id, set_recv_sock, set_send_sock}
use raft_2pl.Types.{ClientRequest}
use raft_2pl.Rpc.{CommitMessage}
use raft_2pl.Worker.{WorkerInfo, xact_enqueue}

-- The client of a new connection; its id is the number of clients before it.
unfoldable pub connected : NodeBase → ℕ → Text → Int32 → Int32 → ClientNode
connected memory count hostname port sock =
    let fresh = set_send_sock (set_recv_sock (new_client_node memory hostname port) sock) sock in
    record fresh { node = set_id fresh.node (of_u64 count) }

-- `addClientNode`.
abbrev add_client_node : List ClientNode → ClientNode → List ClientNode
add_client_node clients c = clients ++ c ∷ []

-- A new connection from `hostname` and `port`.
unfoldable pub accept_client : NodeBase → List ClientNode → Text → Int32 → Int32 → List ClientNode
unfolding connected
accept_client memory clients hostname port sock =
    add_client_node clients (connected memory (length clients) hostname port sock)

-- The `erase` of `sendRPC`: the client whose socket failed. Clients are told apart by their
-- sockets, where the code compares pointers.
pub erase_client : List ClientNode → Int32 → List ClientNode
erase_client [] sock = []
erase_client (c ∷ cs) sock = if c.send_sock == sock then cs else c ∷ erase_client cs sock

pub find_client : List ClientNode → Int32 → List ClientNode
find_client [] id = []
find_client (c ∷ cs) id = if c.node.id == id then c ∷ [] else find_client cs id

-- The notifier's search for the client of a request, and the send: the clients after it, and what
-- was sent.
abbrev pub send_to_client :
    (Int32 → Bool)
    → List ClientNode
    → Int32
    → CommitMessage
    → List ClientNode × List (Int32 × CommitMessage)
unfolding find_client erase_client
send_to_client send_ok clients id cm = elim (find_client clients id) [
  | [] ↦ (clients, [])
  | c ∷ _ ↦
      if send_ok c.send_sock
      then (clients, (c.send_sock, cm) ∷ [])
      else (erase_client clients c.send_sock, [])
]

-- The producer's loop over the requests of a command.
unfoldable pub enqueue_command : WorkerInfo → Int32 → Int32 → List ClientRequest → WorkerInfo
enqueue_command wi client_id command_id [] = wi
enqueue_command wi client_id command_id (r ∷ rs) =
    enqueue_command
      (xact_enqueue wi (record { client_id = client_id; command_id = command_id; req = r }))
      client_id command_id rs
