-- ===== src/Raft/Producer.antt =====
-- The producer of a client: Raft::producer of src/server/raft.cc.
use raft_2pl.Prelude.{◌>>=◌, Int32, Bool, true, false, Run, ok, fault, exit_failure, List, []}
use raft_2pl.Nodes.{ClientNode, get_id, get_hostname, get_listen_port}
use raft_2pl.Worker.{WorkerInfo}
use raft_2pl.Rpc.{
  Header, RpcKind, client_command, ClientCommand, ResponseRequestLocation, rrl_by_fields,
}
use raft_2pl.Raft.Clients.{enqueue_command}
use raft_2pl.Raft.Server.{Server, get_leader}
use raft_2pl.Raft.Receiver.{close_client}

-- The answer to the request of a location, before the loop.
unfoldable answer_location : Server → Run ResponseRequestLocation
answer_location r = do
  leader ← get_leader r
  ok (rrl_by_fields (get_hostname leader.node) (get_listen_port leader.node))

-- What comes from the client: an error, a header that is cut short, or a header with a command,
-- which is read for a command only.
data Received : Type 0 where
  failed cut_short : Received
  header : RpcKind → ClientCommand → Received

-- The worker's queue and the client list after a round, and whether the loop goes on.
record Produced : Type 0 where
  info : WorkerInfo
  clients : List ClientNode
  sent : List (Int32 × Header)
  goes_on : Bool

module _ (send_ok close : Int32 → Bool) where
  -- `closeClient`, and the end of the loop.
  unfoldable finish : WorkerInfo → List ClientNode → ClientNode → Run Produced
  finish info clients c = do
    (left, sent) ← close_client send_ok close clients c
    ok (record { info = info; clients = left; sent = sent; goes_on = false })

  unfoldable producer_step : WorkerInfo → List ClientNode → ClientNode → Received → Run Produced
  unfolding finish
  producer_step info clients c failed = fault exit_failure
  producer_step info clients c cut_short = finish info clients c
  producer_step info clients c (header client_command cmd) = ok (record {
    info = enqueue_command info (get_id c.node) cmd.command_id cmd.reqs;
    clients = clients;
    sent = [];
    goes_on = true;
  })
  producer_step info clients c (header kind cmd) = finish info clients c
