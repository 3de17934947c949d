-- ===== src/Raft/Receiver/Election.antt =====
-- The dummy vote: a leader's setup and the followers' receivers agree on the leader.
use raft_2pl.Prelude.{ℕ, zero, suc, ◌≡◌, ◌==◌, ◌&&◌, false, Int32, Returns, List, [], ◌∷◌}
use raft_2pl.Text.{same_text}
use raft_2pl.Config.{NodeConf}
use raft_2pl.Nodes.{NodeBase, RaftNode, get_id}
use raft_2pl.Status.{set_voted_for}
use raft_2pl.Rpc.{Header, notify_port, request_vote}
use raft_2pl.Raft.Server.{Server, get_leader}
use raft_2pl.Raft.Receiver.{Connection, Receiver, receive, Opened, vote_size}

-- No node before position `i` has the address and port of `c`.
abbrev IsFirst : ℕ → List NodeConf → NodeConf → Type 0
IsFirst zero cs c = Unit
IsFirst (suc i) [] c = Unit
IsFirst (suc i) (d ∷ cs) c =
    ((same_text c.hostname d.hostname && c.port == d.port) ≡ false) × IsFirst i cs c

-- What a leader with the port `port` sends to a node that it opens a connection to.
abbrev vote_headers : Int32 → List Header
vote_headers port =
    record { kind = notify_port; size = port }
    ∷ (record { kind = request_vote; size = vote_size } ∷ [])

-- The server after its vote for the node `n`.
abbrev voted : Receiver → RaftNode → Receiver
voted rc n = record rc {
  server = record rc.server { status = set_voted_for rc.server.status (get_id n.node) };
}

-- An opened connection, as it arrives from the node `c`.
abbrev pub reached : NodeConf → Int32 → Int32 → Opened → Connection
reached c port sock o = record { hostname = c.hostname; port = port; sock = sock; headers = o.sent }

-- After the connection the server names the node with the number `i` as its leader.
abbrev pub NamesLeader : NodeBase → Receiver → ℕ → Connection → Type 0
NamesLeader memory rc i conn =
    Returns (receive memory rc conn) λ rc'. Returns (get_leader rc'.server) λ n. n.node.id ≡ i
