-- ===== src/Raft/Server/Me.antt =====
-- Which node a server takes itself for.
use raft_2pl.Prelude.{
  ℕ, zero, suc, ◌+◌, ◌%◌, ◌≤◌, ◌<◌, ◌≡◌, ◌∙◌, ap, subst, sym, refl, Bool, false, ◌==◌, not, ◌&&◌,
  slt, is_negative, Int32, u32, sign_bit, of_u64, Returns, List, [], ◌∷◌, length, Option, none,
  some, Option-cases, Bool-cases, inl, inr, arith,
}
use raft_2pl.Text.{Text, same_text}
use raft_2pl.Config.{NodeConf, get_nodes}
use raft_2pl.Nodes.{
  NodeBase, RaftNode, set_is_me, set_id, get_id, get_hostname, new_raft_node, new_node,
  set_hostname, set_listen_port,
}
use raft_2pl.Raft.Server.{
  Server, nodes_from, set_me_at, mark_host, search_me, set_me, set_raft_nodes_by_config,
}

-- The nodes are those of the configuration, from the one with the id `k` on; `mine` tells from the
-- id which one is taken for this server.
abbrev pub IsConfigured : (ℕ → Bool) → ℕ → List NodeConf → List RaftNode → Type 0
IsConfigured mine k [] [] = Unit
IsConfigured mine k [] (n ∷ ns) = ⊥
IsConfigured mine k (c ∷ cs) [] = ⊥
IsConfigured mine k (c ∷ cs) (n ∷ ns) =
    (n.node.id ≡ k)
    × (n.node.hostname ≡ c.hostname)
    × (n.node.listen_port ≡ c.port)
    × (n.isme ≡ mine k)
    × IsConfigured mine (suc k) cs ns

IsConfigured-change :
    (p q : ℕ → Bool) (k : ℕ) (cs : List NodeConf) (ns : List RaftNode)
    → ((j : ℕ) → k ≤ j → j < k + length cs → p j ≡ q j)
    → IsConfigured p k cs ns
    → IsConfigured q k cs ns
IsConfigured-change p q k [] [] e h = tt
IsConfigured-change p q k [] (n ∷ ns) e h = absurd h
IsConfigured-change p q k (c ∷ cs) [] e h = absurd h
IsConfigured-change p q k (c ∷ cs) (n ∷ ns) e h = (
  h.0,
  h.1,
  h.2,
  h.3 ∙ e k (omega arith) (omega arith),
  IsConfigured-change p q (suc k) cs ns (λ j low high. e j (omega arith) (omega arith)) h.4,
)

IsConfigured-length :
    (p : ℕ → Bool) (k : ℕ) (cs : List NodeConf) (ns : List RaftNode)
    → IsConfigured p k cs ns
    → length ns ≡ length cs
IsConfigured-length p k [] [] h = refl
IsConfigured-length p k [] (n ∷ ns) h = absurd h
IsConfigured-length p k (c ∷ cs) [] h = absurd h
IsConfigured-length p k (c ∷ cs) (n ∷ ns) h = ap suc (IsConfigured-length p (suc k) cs ns h.4)

nodes_from_lem :
    (memory : NodeBase) (k : ℕ) (cs : List NodeConf)
    → k + length cs < u32
    → IsConfigured (λ j. false) k cs (nodes_from memory k cs)
unfolding nodes_from new_raft_node new_node set_hostname set_listen_port set_id of_u64
nodes_from_lem memory k [] h = tt
nodes_from_lem memory k (c ∷ cs) h =
    let same : k % u32 ≡ k = omega arith in
    (same, refl, refl, refl, nodes_from_lem memory (suc k) cs (omega arith))

set_me_at_lem :
    (k i : ℕ) (cs : List NodeConf) (ns : List RaftNode)
    → IsConfigured (λ j. false) k cs ns
    → IsConfigured (λ j. j == k + i) k cs (set_me_at ns i)
unfolding set_me_at set_is_me
set_me_at_lem k i [] [] h = tt
set_me_at_lem k i [] (n ∷ ns) h = absurd h
set_me_at_lem k i (c ∷ cs) [] h = absurd h
set_me_at_lem k zero (c ∷ cs) (n ∷ ns) h = (
  h.0,
  h.1,
  h.2,
  ground arith,
  IsConfigured-change (λ j. false) (λ j. j == k + 0) (suc k) cs ns (λ j low high. ground arith) h.4,
)
set_me_at_lem k (suc i) (c ∷ cs) (n ∷ ns) h = (
  h.0,
  h.1,
  h.2,
  h.3 ∙ ground arith,
  IsConfigured-change (λ j. j == suc k + i) (λ j. j == k + suc i) (suc k) cs (set_me_at ns i)
      (λ j low high. ground arith) (set_me_at_lem (suc k) i cs ns h.4),
)

-- What a search for an address gives.
abbrev Marked : ℕ → List NodeConf → Option (Int32 × List RaftNode) → Type 0
Marked k cs none = Unit
Marked k cs (some r) = (k ≤ r.0) × IsConfigured (λ j. j == r.0) k cs r.1

mark_host_lem :
    (addr : Text) (k : ℕ) (cs : List NodeConf) (ns : List RaftNode)
    → IsConfigured (λ j. false) k cs ns
    → Marked k cs (mark_host addr ns)
unfolding mark_host set_is_me get_id
mark_host_lem addr k [] [] h = tt
mark_host_lem addr k [] (n ∷ ns) h = absurd h
mark_host_lem addr k (c ∷ cs) [] h = tt
mark_host_lem addr k (c ∷ cs) (n ∷ ns) h =
    elim (Bool-cases (same_text (get_hostname n.node) addr)) [
      | inl hit ↦ rw hit (
        omega (arith, h.0),
        (
          h.0,
          h.1,
          h.2,
          ground (arith, h.0),
          IsConfigured-change (λ j. false) (λ j. j == n.node.id) (suc k) cs ns
              (λ j low high. ground (arith, h.0)) h.4,
        ),
      )
      | inr miss ↦ elim (Option-cases (mark_host addr ns)) [
        | inl e ↦ rw (miss, e) tt
        | inr (r, e) ↦
            let found : Marked (suc k) cs (some r) =
              subst (Marked (suc k) cs) e (mark_host_lem addr (suc k) cs ns h.4) in
            rw (miss, e)
              (omega (arith, found.0), (h.0, h.1, h.2, h.3 ∙ ground (arith, found.0), found.1))
      ]
    ]

-- The nodes are those of the configuration, and the server takes the one with the number `me` for
-- itself, and no other.
abbrev pub KnowsItself : List NodeConf → Server → Type 0
KnowsItself cs r = IsConfigured (λ j. j == r.me) 0 cs r.raft_nodes

search_me_lem :
    (r : Server) (addrs : List Text) (cs : List NodeConf)
    → IsConfigured (λ j. false) 0 cs r.raft_nodes
    → ((j : ℕ) → j < length cs → (j == r.me) ≡ false)
    → KnowsItself cs (search_me r addrs)
unfolding search_me set_me
search_me_lem r [] cs h out =
    IsConfigured-change (λ j. false) (λ j. j == r.me) 0 cs r.raft_nodes
      (λ j low high. sym (out j (omega arith))) h
search_me_lem r (addr ∷ addrs) cs h out = elim (Option-cases (mark_host addr r.raft_nodes)) [
  | inl e ↦
      let same : search_me r (addr ∷ addrs) ≡ search_me r addrs = rw (search_me, e) refl in
      subst (KnowsItself cs) (sym same) (search_me_lem r addrs cs h out)
  | inr (m, e) ↦
      let found : Marked 0 cs (some m) =
        subst (Marked 0 cs) e (mark_host_lem addr 0 cs r.raft_nodes h) in
      let same : search_me r (addr ∷ addrs) ≡ record r { raft_nodes = m.1; me = m.0 } =
        rw (search_me, e) refl in
      subst (KnowsItself cs) (sym same) found.1
]

-- With the addresses of the interfaces known and fewer than 2 ^ 31 nodes, the nodes of a server are
-- those of its configuration in their order, numbered from 0; a node is taken for this server
-- exactly if its number is the server's `me`, so at most one is, whether `me` was given or was
-- found by an address.
pub set_raft_nodes_by_config_lem :
    (r : Server) (memory : NodeBase) (addrs : List Text)
    → r.raft_nodes ≡ []
    → length (get_nodes r.config) < sign_bit
    → Returns (set_raft_nodes_by_config r memory (some addrs)) (KnowsItself (get_nodes r.config))
unfolding set_raft_nodes_by_config of_u64
set_raft_nodes_by_config_lem r memory addrs fresh small =
    let cs = get_nodes r.config in
    let made = nodes_from memory 0 cs in
    let plain = nodes_from_lem memory 0 cs (omega arith) in
    let size : length made ≡ length cs = IsConfigured-length (λ j. false) 0 cs made plain in
    let count : of_u64 (length made) ≡ length cs = omega (arith, size) in
    elim (Bool-cases (not (is_negative r.me) && slt r.me (of_u64 (length made)))) [
      | inl given ↦ (
        record r { raft_nodes = set_me_at made r.me },
        rw (given, fresh) refl,
        IsConfigured-change (λ j. j == 0 + r.me) (λ j. j == r.me) 0 cs (set_me_at made r.me)
            (λ j low high. ground arith) (set_me_at_lem 0 r.me cs made plain),
      )
      | inr found ↦ (
        search_me (record r { raft_nodes = made }) addrs,
        rw (found, fresh) refl,
        search_me_lem (record r { raft_nodes = made }) addrs cs plain
            (λ j h. ground (arith, count)),
      )
    ]
