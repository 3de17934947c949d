-- ===== src/Raft/Clients/Ids.antt =====
-- Client ids: fresh while no client has been erased, repeated after an erasure.
use raft_2pl.Prelude.{
  ℕ, suc, ◌+◌, ◌<◌, ◌≤◌, ◌≡◌, ◌≢◌, sym, Int32, u32, of_u64, List, [], ◌∷◌, ◌++◌, length, arith,
  length-append, ◌%◌,
}
use raft_2pl.Text.{Text}
use raft_2pl.Nodes.{NodeBase, ClientNode, set_id}
use raft_2pl.Raft.Clients.{connected, accept_client, erase_client, find_client}

-- The ids are `k`, `k + 1`, and so on.
abbrev IsNumbered : ℕ → List ClientNode → Type 0
IsNumbered k [] = Unit
IsNumbered k (c ∷ cs) = (c.node.id ≡ k) × IsNumbered (suc k) cs

abbrev NotAmong : Int32 → List ClientNode → Type 0
NotAmong sock [] = Unit
NotAmong sock (c ∷ cs) = (c.send_sock ≢ sock) × NotAmong sock cs

IsNumbered-snoc :
    (k : ℕ) (cs : List ClientNode) (c : ClientNode)
    → IsNumbered k cs
    → c.node.id ≡ k + length cs
    → IsNumbered k (cs ++ c ∷ [])
IsNumbered-snoc k [] c n e = (omega arith, tt)
IsNumbered-snoc k (x ∷ cs) c n e = (n.0, IsNumbered-snoc (suc k) cs c n.1 (omega arith))

find_client-snoc :
    (k : ℕ) (cs : List ClientNode) (c : ClientNode)
    → IsNumbered k cs
    → k + length cs ≤ c.node.id
    → find_client (cs ++ c ∷ []) c.node.id ≡ c ∷ []
unfolding find_client
find_client-snoc k [] c n h = ground arith
find_client-snoc k (x ∷ cs) c n h = ground (arith, find_client-snoc (suc k) cs c n.1)

-- While the ids are the positions, a new client gets the next position as its id, a request under
-- that id is answered to this client, and the ids are the positions again.
accept_client_lem :
    (memory : NodeBase) (cs : List ClientNode) (hostname : Text) (port sock : Int32)
    → IsNumbered 0 cs
    → length cs < u32
    → let after = accept_client memory cs hostname port sock in
      IsNumbered 0 after
      × (find_client after (of_u64 (length cs))
          ≡ connected memory (length cs) hostname port sock ∷ [])
unfolding accept_client connected set_id of_u64
accept_client_lem memory cs hostname port sock n h =
    let c = connected memory (length cs) hostname port sock in
    let e : length cs % u32 ≡ length cs = omega arith in
    (IsNumbered-snoc 0 cs c n (omega arith), find_client-snoc 0 cs c n (omega arith))

erase_client-middle :
    (before rest : List ClientNode) (c : ClientNode)
    → NotAmong c.send_sock before
    → erase_client (before ++ c ∷ rest) c.send_sock ≡ before ++ rest
unfolding erase_client
erase_client-middle [] rest c h = ground arith
erase_client-middle (x ∷ before) rest c h =
    ground (arith, erase_client-middle before rest c h.1, h.0)

-- The last client's id is the number of clients before it.
last_id :
    (k : ℕ) (before rest : List ClientNode) (c d : ClientNode)
    → IsNumbered k (before ++ c ∷ (rest ++ d ∷ []))
    → d.node.id ≡ k + length before + length rest + 1
last_id k [] [] c d n = omega arith
last_id k [] (x ∷ rest) c d n = omega (arith, last_id (suc k) [] rest x d n.1)
last_id k (x ∷ before) rest c d n = omega (arith, last_id (suc k) before rest c d n.1)

find_client-last :
    (k i : ℕ) (before rest : List ClientNode) (c d e : ClientNode)
    → IsNumbered k (before ++ c ∷ (rest ++ d ∷ []))
    → d.node.id ≡ i
    → find_client ((before ++ (rest ++ d ∷ [])) ++ e ∷ []) i ≡ d ∷ []
unfolding find_client
find_client-last k i [] [] c d e n h = ground arith
find_client-last k i [] (x ∷ rest) c d e n h =
    ground (arith, last_id (suc k) [] rest x d n.1, find_client-last (suc k) i [] rest x d e n.1 h)
find_client-last k i (x ∷ before) rest c d e n h =
    ground
      (arith, last_id k (x ∷ before) rest c d n, find_client-last (suc k) i before rest c d e n.1 h)

-- Fewer than 2 ^ 32 clients, whose ids are their places in the list (so none was erased before).
-- When a failed send erases a client that is not the last one, and whose socket no client before it
-- has, the next client to connect is given the id of the last one, and every answer under that id
-- goes to the last one's socket.
pub accept_client-erase_client :
    (memory : NodeBase) (before rest : List ClientNode) (c d : ClientNode) (hostname : Text)
    (port sock : Int32)
    → IsNumbered 0 (before ++ c ∷ (rest ++ d ∷ []))
    → NotAmong c.send_sock before
    → length before + length rest + 2 < u32
    → let left = erase_client (before ++ c ∷ (rest ++ d ∷ [])) c.send_sock in
      (of_u64 (length left) ≡ d.node.id)
      × (find_client (accept_client memory left hostname port sock) (of_u64 (length left)) ≡ d ∷ [])
unfolding accept_client connected set_id of_u64
accept_client-erase_client memory before rest c d hostname port sock n apart h =
    let left = before ++ (rest ++ d ∷ []) in
    let gone = erase_client-middle before (rest ++ d ∷ []) c apart in
    let size : length left ≡ length before + length rest + 1 =
      omega (arith, length-append before (rest ++ d ∷ []), length-append rest (d ∷ [])) in
    let same : length left % u32 ≡ d.node.id = omega (arith, last_id 0 before rest c d n) in
    (rw gone same, rw gone (find_client-last 0 (length left % u32) before rest c d _ n (sym same)))
