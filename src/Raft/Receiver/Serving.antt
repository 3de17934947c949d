-- ===== src/Raft/Receiver/Serving.antt =====
-- The clients that a receiver accepts: their ids, and the workers that serve them.
use native.Mathlib.Nat.{mod-lt}
use raft_2pl.Prelude.{
  ℕ, suc, ◌+◌, ◌%◌, ◌<◌, ◌≤◌, ◌≡◌, ◌∙◌, ap, sym, subst, refl, Int32, u32, sign_bit, of_u64, add32,
  ok, ok_injective, List, [], ◌∷◌, ◌++◌, length, length-append, Option, none, some, Run-cases,
  mod_step, inl, inr, arith,
}
use raft_2pl.Status.{set_voted_for}
use raft_2pl.Nodes.{NodeBase, RaftNode, ClientNode, set_id, get_id}
use raft_2pl.Rpc.{
  RpcKind, no_kind, notify_port, append_entries, request_vote, response_append_entries,
  response_request_vote, request_location, response_request_location, client_command,
  commit_message, client_exit, bye_from_raft, connect_notifier,
}
use raft_2pl.Worker.{WorkerInfo}
use raft_2pl.Raft.Server.{get_raft_nodes}
use raft_2pl.Raft.Clients.{connected, accept_client}
use raft_2pl.Raft.Receiver.{
  Connection, Thread, producer_thread, notifier_thread, log_receiver_thread, Receiver, first_header,
  find_peer, start, next_worker, accept_location, dispatch, receive, receiver,
}

-- The producers of the threads belong to the clients of the list, in its order; from `k` on they
-- are numbered, and are given the `n` workers in turn.
abbrev Served : (n k : ℕ) → List Thread → List ClientNode → Type 0
Served n k [] [] = Unit
Served n k [] (d ∷ ds) = ⊥
Served n k (producer_thread sock c w ∷ ts) [] = ⊥
Served n k (producer_thread sock c w ∷ ts) (d ∷ ds) =
    (c ≡ d) × (c.node.id ≡ k) × (w ≡ k % n) × Served n (suc k) ts ds
Served n k (notifier_thread sock id ∷ ts) ds = Served n k ts ds
Served n k (log_receiver_thread sock ∷ ts) ds = Served n k ts ds

-- All clients are served so, and the next one is given the worker whose turn it is.
pub record IsServing (n : ℕ) (rc : Receiver) : Type 0 where
  pub workers : length rc.server.worker_infos ≡ n
  pub turn : rc.worker_id ≡ length rc.server.client_nodes % n
  pub served : Served n 0 rc.threads rc.server.client_nodes

Served-snoc :
    (n k : ℕ) (ts : List Thread) (ds : List ClientNode) (sock : Int32) (c : ClientNode) (w : Int32)
    → Served n k ts ds
    → c.node.id ≡ k + length ds
    → w ≡ (k + length ds) % n
    → Served n k (ts ++ producer_thread sock c w ∷ []) (ds ++ c ∷ [])
Served-snoc n k [] [] sock c w h i e =
    (refl, omega arith, e ∙ ap (λ (x : ℕ). x % n) (omega arith), tt)
Served-snoc n k [] (d ∷ ds) sock c w h i e = absurd h
Served-snoc n k (producer_thread a b v ∷ ts) [] sock c w h i e = absurd h
Served-snoc n k (producer_thread a b v ∷ ts) (d ∷ ds) sock c w h i e = (
  h.0,
  h.1,
  h.2,
  Served-snoc n (suc k) ts ds sock c w h.3 (omega arith) (e ∙ ap (λ (x : ℕ). x % n) (omega arith)),
)
Served-snoc n k (notifier_thread a id ∷ ts) ds sock c w h i e = Served-snoc n k ts ds sock c w h i e
Served-snoc n k (log_receiver_thread a ∷ ts) ds sock c w h i e =
    Served-snoc n k ts ds sock c w h i e

Served-notifier :
    (n k : ℕ) (ts : List Thread) (ds : List ClientNode) (sock id : Int32)
    → Served n k ts ds
    → Served n k (ts ++ notifier_thread sock id ∷ []) ds
Served-notifier n k [] ds sock id h = h
Served-notifier n k (producer_thread a b v ∷ ts) [] sock id h = absurd h
Served-notifier n k (producer_thread a b v ∷ ts) (d ∷ ds) sock id h =
    (h.0, h.1, h.2, Served-notifier n (suc k) ts ds sock id h.3)
Served-notifier n k (notifier_thread a b ∷ ts) ds sock id h = Served-notifier n k ts ds sock id h
Served-notifier n k (log_receiver_thread a ∷ ts) ds sock id h = Served-notifier n k ts ds sock id h

Served-log_receiver :
    (n k : ℕ) (ts : List Thread) (ds : List ClientNode) (sock : Int32)
    → Served n k ts ds
    → Served n k (ts ++ log_receiver_thread sock ∷ []) ds
Served-log_receiver n k [] ds sock h = h
Served-log_receiver n k (producer_thread a b v ∷ ts) [] sock h = absurd h
Served-log_receiver n k (producer_thread a b v ∷ ts) (d ∷ ds) sock h =
    (h.0, h.1, h.2, Served-log_receiver n (suc k) ts ds sock h.3)
Served-log_receiver n k (notifier_thread a b ∷ ts) ds sock h = Served-log_receiver n k ts ds sock h
Served-log_receiver n k (log_receiver_thread a ∷ ts) ds sock h =
    Served-log_receiver n k ts ds sock h

-- The turn after the worker `k % n`.
next_worker_lem :
    (k : ℕ) (workers : List WorkerInfo)
    → 0 < length workers
    → length workers < sign_bit
    → next_worker (k % length workers) workers ≡ suc k % length workers
unfolding next_worker add32
next_worker_lem k workers h small =
    let n = length workers in
    let below = mod-lt k h in
    let exact : (k % n + 1) % u32 ≡ suc (k % n) = omega arith in rw exact (mod_step k n h)

accept_location-IsServing :
    (n : ℕ) (memory : NodeBase) (rc : Receiver) (conn : Connection)
    → 0 < n
    → n < sign_bit
    → length rc.server.client_nodes < u32
    → IsServing n rc
    → IsServing n (accept_location memory rc conn)
unfolding accept_location accept_client connected set_id of_u64
accept_location-IsServing n memory rc conn h small fits s =
    let ds = rc.server.client_nodes in
    let workers = rc.server.worker_infos in
    let c = connected memory (length ds) conn.hostname conn.port conn.sock in
    let size : length (ds ++ c ∷ []) ≡ suc (length ds) = omega (arith, length-append ds (c ∷ [])) in
    let id : c.node.id ≡ length ds = omega arith in
    record {
      workers = s.workers;
      turn =
          ap (λ (w : ℕ). next_worker w workers)
            (s.turn ∙ ap (λ (m : ℕ). length ds % m) (sym s.workers))
          ∙ next_worker_lem (length ds) workers (omega (arith, s.workers))
              (omega (arith, s.workers))
          ∙ ap (λ (m : ℕ). suc (length ds) % m) s.workers
          ∙ ap (λ (x : ℕ). x % n) (sym size);
      served =
          Served-snoc n 0 rc.threads ds conn.sock c rc.worker_id s.served (omega arith)
            (s.turn ∙ ap (λ (x : ℕ). x % n) (omega arith));
    }

-- What a round keeps: the clients are served, and at most one is new.
abbrev Kept : ℕ → Receiver → Receiver → Type 0
Kept n rc rc' =
    IsServing n rc' × (length rc'.server.client_nodes ≤ suc (length rc.server.client_nodes))

module _ (n : ℕ) (memory : NodeBase) (positive : 0 < n) (small : n < sign_bit) where
  same-Kept : (rc : Receiver) → IsServing n rc → Kept n rc rc
  same-Kept rc s = (s, omega arith)

  accept_location-Kept :
      (rc : Receiver) (conn : Connection)
      → length rc.server.client_nodes < u32
      → IsServing n rc
      → Kept n rc (accept_location memory rc conn)
  unfolding accept_location accept_client
  accept_location-Kept rc conn fits s =
      let ds = rc.server.client_nodes in
      let c = connected memory (length ds) conn.hostname conn.port conn.sock in
      (
        accept_location-IsServing n memory rc conn positive small fits s,
        omega (arith, length-append ds (c ∷ [])),
      )

  -- A branch that looks for a peer: nothing happens, or `found` for the peer.
  peer-Kept :
      (rc rc' : Receiver) (found : RaftNode → Receiver) (o : Option RaftNode)
      → IsServing n rc
      → ((p : RaftNode) → Kept n rc (found p))
      → elim o [ none ↦ ok rc | some p ↦ ok (found p) ] ≡ ok rc'
      → Kept n rc rc'
  peer-Kept rc rc' found none s k run = subst (Kept n rc) (ok_injective run) (same-Kept rc s)
  peer-Kept rc rc' found (some p) s k run = subst (Kept n rc) (ok_injective run) (k p)

  dispatch-Kept :
      (rc rc' : Receiver) (conn : Connection) (port : Int32) (kind : RpcKind)
      → length rc.server.client_nodes < u32
      → IsServing n rc
      → dispatch memory rc conn port kind ≡ ok rc'
      → Kept n rc rc'
  unfolding dispatch
  dispatch-Kept rc rc' conn port request_location fits s run =
      subst (Kept n rc) (ok_injective run) (accept_location-Kept rc conn fits s)
  dispatch-Kept rc rc' conn port client_command fits s run = absurd (cc)
  dispatch-Kept rc rc' conn port request_vote fits s run =
      let voted = λ (p : RaftNode). record rc {
        server = record rc.server { status = set_voted_for rc.server.status (get_id p.node) };
      } in
      peer-Kept rc rc' voted (find_peer (get_raft_nodes rc.server) conn.hostname port) s
        (λ p. (record { workers = s.workers; turn = s.turn; served = s.served }, omega arith)) run
  dispatch-Kept rc rc' conn port response_append_entries fits s run =
      peer-Kept rc rc' (λ (p : RaftNode). start rc (notifier_thread conn.sock (get_id p.node)))
        (find_peer (get_raft_nodes rc.server) conn.hostname port) s
        (λ p. (
          record {
            workers = s.workers;
            turn = s.turn;
            served = Served-notifier n 0 rc.threads _ conn.sock (get_id p.node) s.served;
          },
          omega arith,
        ))
        run
  dispatch-Kept rc rc' conn port append_entries fits s run =
      peer-Kept rc rc' (λ (p : RaftNode). start rc (log_receiver_thread conn.sock))
        (find_peer (get_raft_nodes rc.server) conn.hostname port) s
        (λ p. (
          record {
            workers = s.workers;
            turn = s.turn;
            served = Served-log_receiver n 0 rc.threads _ conn.sock s.served;
          },
          omega arith,
        ))
        run
  dispatch-Kept rc rc' conn port no_kind fits s run =
      subst (Kept n rc) (ok_injective run) (same-Kept rc s)
  dispatch-Kept rc rc' conn port notify_port fits s run =
      subst (Kept n rc) (ok_injective run) (same-Kept rc s)
  dispatch-Kept rc rc' conn port response_request_vote fits s run =
      subst (Kept n rc) (ok_injective run) (same-Kept rc s)
  dispatch-Kept rc rc' conn port response_request_location fits s run =
      subst (Kept n rc) (ok_injective run) (same-Kept rc s)
  dispatch-Kept rc rc' conn port commit_message fits s run =
      subst (Kept n rc) (ok_injective run) (same-Kept rc s)
  dispatch-Kept rc rc' conn port client_exit fits s run =
      subst (Kept n rc) (ok_injective run) (same-Kept rc s)
  dispatch-Kept rc rc' conn port bye_from_raft fits s run =
      subst (Kept n rc) (ok_injective run) (same-Kept rc s)
  dispatch-Kept rc rc' conn port connect_notifier fits s run =
      subst (Kept n rc) (ok_injective run) (same-Kept rc s)

  receive-Kept :
      (rc rc' : Receiver) (conn : Connection)
      → length rc.server.client_nodes < u32
      → IsServing n rc
      → receive memory rc conn ≡ ok rc'
      → Kept n rc rc'
  unfolding receive
  receive-Kept rc rc' conn fits s run = elim (Run-cases (first_header 0 conn.headers)) [
    | inl (why, e) ↦ let stuck = rw e at run in absurd (cc)
    | inr (h, e) ↦ dispatch-Kept rc rc' conn h.0 (h.1).kind fits s (rw e at run)
  ]

-- The receiver of a server with `n` workers, at least one and fewer than 2 ^ 31 (so the leader's),
-- from a state in which this holds, through connections that are, with the clients of the list, fewer
-- than 2 ^ 32 together, unless one of them stops the process: each client has its place in the list
-- as its id, each producer has the client of its turn, and the workers `0 … n - 1` are given out in
-- turn.
pub receiver-IsServing :
    (n : ℕ) (memory : NodeBase) (rc rc' : Receiver) (conns : List Connection)
    → 0 < n
    → n < sign_bit
    → length rc.server.client_nodes + length conns < u32
    → IsServing n rc
    → receiver memory rc conns ≡ ok rc'
    → IsServing n rc'
unfolding receiver
receiver-IsServing n memory rc rc' [] positive small fits s run =
    subst (IsServing n) (ok_injective run) s
receiver-IsServing n memory rc rc' (conn ∷ conns) positive small fits s run =
    elim (Run-cases (receive memory rc conn)) [
      | inl (why, e) ↦ let stuck = rw e at run in absurd (cc)
      | inr (next, e) ↦
          let (t, grown) = receive-Kept n memory positive small rc next conn (omega arith) s e in
          receiver-IsServing n memory next rc' conns positive small (omega (arith, grown)) t
            (rw e at run)
    ]
