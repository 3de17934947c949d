-- ===== src/Examples/Servers.antt =====
-- The start of a cluster of two servers.
use raft_2pl.Prelude.{
  ◌≡◌, refl, Int32, Bool, true, false, Run, of_u64, ok, fault, undefined, Returns, some, [], ◌∷◌,
  arith, minus_one,
}
use raft_2pl.Text.{Text}
use raft_2pl.Config.{NodeConf, new_config, get_nodes}
use raft_2pl.Config.Parse.{blank, node, new_config_lem}
use raft_2pl.Nodes.{NodeBase, RaftNode}
use raft_2pl.Status.{Status, follower}
use raft_2pl.Rpc.{request_location, print_rpc}
use raft_2pl.Worker.{WorkerInfo, FollowerInfo}
use raft_2pl.Raft.Server.{Server, set_raft_nodes_by_config}
use raft_2pl.Raft.Server.Me.{KnowsItself, set_raft_nodes_by_config_lem}
use raft_2pl.Raft.Receiver.{Connection, Receiver, receiver}
use raft_2pl.Raft.Receiver.Serving.{IsServing, receiver-IsServing}
use raft_2pl.Examples.{even_store}

abbrev first_host : NodeConf
first_host = record { hostname = 97 ∷ []; port = 51 }

abbrev second_host : NodeConf
second_host = record { hostname = 98 ∷ []; port = 52 }

-- A library that reads and prints ports of one digit.
stoi : Text → Run Int32
stoi [] = fault undefined
stoi (c ∷ cs) = ok c

print_port : Int32 → Text
print_port p = p ∷ []

new_config_example :
    new_config stoi 2 []
      (some ([] ∷ (47 ∷ []) ∷ (97 ∷ 58 ∷ 51 ∷ []) ∷ [] ∷ (98 ∷ 58 ∷ 52 ∷ []) ∷ []))
    ≡ ok (record {
      config_file_name = [];
      storage_directory_name = 47 ∷ [];
      n_nodes = 2;
      nodes = first_host ∷ second_host ∷ [];
    })
unfolding stoi print_port of_u64
new_config_example =
    new_config_lem stoi print_port [] 1 0 47 [] (node first_host ∷ blank ∷ node second_host ∷ []) (
      ((omega arith, tt), (omega arith, tt), refl),
      (tt, (((omega arith, tt), (omega arith, tt), refl), tt)),
    )

abbrev some_status : Status
some_status = record {
  storage_directory_name = [];
  votes = [];
  state = follower;
  current_term = 0;
  voted_for = 0;
  timeout_time = 0;
}

abbrev no_base : NodeBase
no_base = record { id = 0; hostname = []; listen_port = 0 }

abbrev empty_server : Server
empty_server = record {
  config = record {
    config_file_name = [];
    storage_directory_name = [];
    n_nodes = 2;
    nodes = first_host ∷ second_host ∷ [];
  };
  status = some_status;
  db = even_store;
  raft_nodes = [];
  client_nodes = [];
  worker_infos = [];
  me = minus_one;
  leader_term = 0;
  vote = 0;
  commit_count = 0;
  ack_q = [];
}

-- The address of the second node is one of the interfaces'.
set_raft_nodes_by_config_example :
    Returns
      (set_raft_nodes_by_config empty_server no_base (some ((9 ∷ []) ∷ (98 ∷ []) ∷ [])))
      (KnowsItself (first_host ∷ second_host ∷ []))
unfolding get_nodes
set_raft_nodes_by_config_example =
    set_raft_nodes_by_config_lem empty_server no_base ((9 ∷ []) ∷ (98 ∷ []) ∷ []) refl (omega arith)

abbrev own_node : Int32 → NodeConf → Bool → RaftNode
own_node id conf me = record {
  node = record { id = id; hostname = conf.hostname; listen_port = conf.port };
  voted_for_me = false;
  rvrpc_sent = false;
  isme = me;
}

abbrev first_server : Server
first_server = record empty_server {
  raft_nodes = own_node 0 first_host true ∷ own_node 1 second_host false ∷ [];
  me = 0;
}

abbrev second_server : Server
second_server = record empty_server {
  raft_nodes = own_node 0 first_host false ∷ own_node 1 second_host true ∷ [];
  me = 1;
}

abbrev second_receiver : Receiver
second_receiver = record { server = second_server; worker_id = 0; threads = [] }

abbrev no_worker : WorkerInfo
no_worker = record {
  worker_id = 0;
  followers = [];
  commit_index = 0;
  xact_queue = [];
  task_list = [];
}

abbrev no_follower : FollowerInfo
no_follower = record { follower_node_id = 0; sockfd = 0; next_index = 0; sent_index = 0 }

abbrev ready_receiver : Receiver
ready_receiver = record {
  server = record first_server { worker_infos = no_worker ∷ no_worker ∷ [] };
  worker_id = 0;
  threads = [];
}

abbrev from_client : Connection
from_client = record {
  hostname = 99 ∷ [];
  port = 6_000;
  sock = 11;
  headers = record { kind = request_location; size = 4 } ∷ [];
}

-- The receiver after two clients.
two_clients :
    Returns (receiver no_base ready_receiver (from_client ∷ from_client ∷ [])) λ rc. Unit {0}
unfolding receiver print_rpc
two_clients = (_, refl, tt)

receiver-IsServing_example : IsServing 2 two_clients.0
receiver-IsServing_example =
    receiver-IsServing 2 no_base ready_receiver two_clients.0 (from_client ∷ from_client ∷ [])
      (omega arith) (omega arith) (omega arith)
      (record { workers = refl; turn = refl; served = tt }) two_clients.1
