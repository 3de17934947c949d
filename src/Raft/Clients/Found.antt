-- ===== src/Raft/Clients/Found.antt =====
-- The notifier's search for the client of a request, and the answer (src/server/raft.cc, notifier).
use raft_2pl.Prelude.{
  ◌≡◌, refl, Int32, Bool, true, ◌==◌, List, [], ◌∷◌, inl, inr, ◌⊎◌, Bool-cases, ==_refl, arith,
}
use raft_2pl.Nodes.{ClientNode}
use raft_2pl.Rpc.{CommitMessage}
use raft_2pl.Raft.Clients.{find_client, erase_client, send_to_client}

pub find_client-cases :
    (clients : List ClientNode) (id : Int32)
    → (find_client clients id ≡ []) ⊎ ((d : ClientNode) × (find_client clients id ≡ d ∷ []))
unfolding find_client
find_client-cases [] id = inl refl
find_client-cases (c ∷ cs) id = elim (Bool-cases (c.node.id == id)) [
  | inl hit ↦ inr (c, rw hit refl)
  | inr other ↦ rw other (find_client-cases cs id)
]

module _ (send_ok : Int32 → Bool) (clients : List ClientNode) (id : Int32)
    (cm : CommitMessage) where
  pub send_to_client-missing :
      find_client clients id ≡ [] → send_to_client send_ok clients id cm ≡ (clients, [])
  unfolding find_client erase_client
  send_to_client-missing e = rw (e, send_to_client) refl

  pub send_to_client-found :
      (d : ClientNode)
      → find_client clients id ≡ d ∷ []
      → send_ok d.send_sock ≡ true
      → send_to_client send_ok clients id cm ≡ (clients, (d.send_sock, cm) ∷ [])
  unfolding find_client erase_client
  send_to_client-found d e sent = rw (e, sent, send_to_client) refl

-- Among one client only its own id finds anyone.
pub find_client-one : (c : ClientNode) → find_client (c ∷ []) c.node.id ≡ c ∷ []
unfolding find_client
find_client-one c = rw (==_refl c.node.id) refl

pub find_client-only :
    (c d : ClientNode) (id : Int32) → find_client (c ∷ []) id ≡ d ∷ [] → id ≡ c.node.id
unfolding find_client
find_client-only c d id h = ground arith
