-- ===== src/Lib.antt =====
-- A replicated bank: clients send transfers to the leader of a Raft cluster, whose workers run them
-- under two-phase locking, log them in groups, send the groups to the followers, and commit a group
-- when more than half of the cluster has acknowledged it.
--
-- The parts and their files, with the code that each one models:
--   Prelude    numbers, Boolean tests, lists, `int` as a pattern of 32 bits (`Int32`), and `Run`, the
--              result of code that can fail an assertion, exit, meet undefined behaviour or run out
--              of fuel.
--   Types      the structs of src/include/header.h and src/include/entry.h, and the constants of
--              src/include/constant.h. The sizes of the store are a record `Sizes`; `constant_h` has
--              the numbers of the source.
--   Text       src/server/functions.cc: split, mkdir_path and myrand, with StringSplit and discernRPC
--              of src/server/rpc.cc. A text is the list of its characters' codes.
--   Config     src/server/config.cc: the configuration that a file is read to.
--   Nodes      src/server/node.cc, raftnode.cc and clientnode.cc: the classes Node (`NodeBase`),
--              RaftNode and ClientNode.
--   Kvs        src/2pl/kvs.cc: class KVS. `hash` is the hash table that index_read and index_update
--              use, `key` and `value` the arrays that read and update use; `locked` says which
--              mutex is held; pthread_mutex_trylock and pthread_mutex_unlock are as POSIX documents
--              them, but for the thread that unlocks: the notifier unlocks what the worker locked,
--              which POSIX leaves undefined, and which is taken to release the mutex.
--   Twopl      src/2pl/twopl.cc: TxnExecutor::transferWork (`transfer_work`) and DB::commitWork
--              (`commit_work`). Twopl/Bank has the steps of a store that grants and commits, and
--              Twopl/Ledger the ledger that such a store stands for.
--   Status     src/server/status.cc: the constructor with its directory and its files, the votes for
--              the records, and the members that are read and set.
--   Log        src/server/log.cc: the records in memory and in the file.
--   Worker     src/server/worker.cc: the queue of requests and the list of tasks of a worker.
--   Rpc        src/server/rpc.cc, src/include/rpc.h and header.h: the messages, and printRPC.
--              Rpc/Frames has the bytes of an acknowledgement, sendRPC and the reads of the notifier.
--   Logging    src/server/logging.cc: loggingWork of the leader (`logging_work`) and of a follower
--              (`logging_work_arpc`).
--   Raft       src/server/raft.cc: Raft::worker (`worker_step`), Raft::notifier (`notifier_step`),
--              the loop of Raft::producer (`enqueue_command`), the clients of the leader, the
--              workers of Raft::setupLeader (`setup_workers`) and Raft::logReceiver (`log_receiver`).
--              Raft/Server has the members of class Raft and setRaftNodesByConfig, Raft/Receiver the
--              service loop of Raft::receiver (`receiver`), the vote requests of Raft::setupLeader
--              (`setup_leader`) and closeClient, Raft/Producer the rounds of Raft::producer. The
--              threads of the leader run in any order in Raft/Threads; Raft/Invariant, Raft/Rounds and
--              Raft/Acks are about each of them, Raft/Quorum about the number of acks, Raft/Answers
--              about what the clients are answered, and Raft/Progress about a leader that goes on.
--   Silo       src/silo/transaction.cc, with src/silo/include/tuple.hh and silo_op_element.hh: the
--              other engine. Silo/Phases has validationPhase, writePhase and transferWork, and
--              Silo/Epochs chkEpochLoaded and leaderWork of src/silo/silo_util.cc, and Silo/Database
--              makeDB of src/silo/db.cc. Silo/Procedures has the operations of its
--              benchmark, makeProcedure of src/silo/silo.cc, and Silo/Barrier the start and the end of
--              its threads, with src/silo/include/synchronizer.hh.
--   Client     src/client/client.cc: getHost, getCC, and the loops of main; createInput.cc.
--              Client/Service has the wait of the client for its commits, with the threads of the leader
--              behind it.
--   Examples   the theorems at concrete inputs.
--
-- How they interact: a server reads its configuration (`new_config`), finds out which of the nodes
-- it is (`set_raft_nodes_by_config`) and starts its receiver; the leader sends vote requests to the
-- others (`setup_leader`), whose receivers note it as the leader (`receive`). A client asks for the
-- leader (`locate`), and the leader's receiver starts a producer for it (`accept_location`). The
-- producer queues the requests of a command (`enqueue_command`); the worker takes one, tries to lock
-- its two keys (`transfer_work`), and puts it in its buffer if it got both; a due buffer is logged (`logging_work`), sent, and stored as a task. The notifier counts the
-- acks of a record (`add_vote_count`); with a quorum it loads the task (`task_load`), commits each
-- request (`commit_work`), which releases the locks, and tells the clients.
--
-- The threads are interleaved between the points where they touch shared state: a step of the
-- worker runs from the head of its loop to the sends, or stores the task; a step of the notifier
-- handles one ack. Inside a step no other thread runs. One worker is modelled; an ack for another
-- worker is undefined behaviour in the model, as is a search for a follower that does not exist.
--
-- The Silo engine reads both tuples, writes both new amounts, locks the write set in the order of
-- the keys, validates what it read and writes (`transfer_work` of Silo/Phases). Each of these is one
-- step on the table; a tuple's four bytes are a list, lowest byte first, and `string_view` is what
-- std::string_view makes of a char pointer.
--
-- Bounds and fuel: an `int` is a number below 2 ^ 32 and its arithmetic wraps around; the signed
-- overflow of C++ is not told apart from the wrap-around. A loop over the hash table runs on fuel;
-- one more than the number of times it looks is enough, which is one where the table is as the
-- constructor makes it, since each key then stands in its own bucket. The search for the directory in
-- a configuration needs a round for each empty line before it and one more; the search of a client
-- for the leader needs two, and its sends as many rounds as commands. The sequence number has 64
-- bits and is cut to an `int`. A local variable that the code reads without setting it is an
-- argument named `memory`.
--
-- Not modelled: the sockets themselves, threads that only sleep, what is printed, the
-- transactions and statistics of the Silo benchmark driver, and the generator of random numbers under
-- src/silo/include, which is another project's. What a system call returns is an argument: the time,
-- whether write and fsync succeed (a short write is not told apart from a whole one), whether a send or
-- a close succeeds, what connect2raftnode comes to, the lines of a file, the
-- addresses of the interfaces, and the numbers of rand. `stat`, `mkdir`, `stoi`, `atoi` and `sscanf`
-- are arguments too.
pub mod Prelude
pub mod Types
pub mod Text
pub mod Config
pub mod Nodes
pub mod Kvs
pub mod Twopl
pub mod Status
pub mod Log
pub mod Worker
pub mod Rpc
pub mod Logging
pub mod Raft
pub mod Client
pub mod Silo
mod Examples
