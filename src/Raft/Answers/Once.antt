-- ===== src/Raft/Answers/Once.antt =====
-- Every request is answered once, where no send fails.
use raft_2pl.Prelude.{
  ℕ, ◌+◌, ◌≡◌, ◌∙◌, ap, sym, refl, Int32, Bool, true, ◌==◌, ◌&&◌, to_nat, List, [], ◌∷◌, ◌++◌,
  arith, inl, inr, Bool-cases, ==_refl,
}
use raft_2pl.Types.{Sizes, TransReq}
use raft_2pl.Kvs.Table.{IsSized}
use raft_2pl.Nodes.{ClientNode}
use raft_2pl.Rpc.{CommitMessage, cm_by_fields}
use raft_2pl.Twopl.Bank.{All}
use raft_2pl.Raft.{Node}
use raft_2pl.Raft.Clients.{find_client, send_to_client}
use raft_2pl.Raft.Clients.Found.{find_client-cases, send_to_client-missing, send_to_client-found}
use raft_2pl.Raft.Invariant.{IsSound}
use raft_2pl.Raft.Commits.{answer_all}
use raft_2pl.Raft.Outstanding.{count, outstanding, IsReal}
use raft_2pl.Raft.Threads.{Moves}
use raft_2pl.Raft.Answers.Steps.{produced, Moves-Served}

-- How many messages for the command went to the socket.
abbrev pub count_answers : (sock command : Int32) → List (Int32 × CommitMessage) → ℕ
count_answers sock command [] = 0
count_answers sock command (a ∷ rest) =
    to_nat (a.0 == sock && a.1.command_id == command) + count_answers sock command rest

pub count_answers-append :
    (sock k : Int32) (xs ys : List (Int32 × CommitMessage))
    → count_answers sock k (xs ++ ys) ≡ count_answers sock k xs + count_answers sock k ys
count_answers-append sock k [] ys = omega arith
count_answers-append sock k (x ∷ xs) ys = omega (arith, count_answers-append sock k xs ys)

-- The client is the one that the search by its id finds, and no search by another id finds a client
-- with its socket.
pub record IsSole (clients : List ClientNode) (c : ClientNode) : Type 0 where
  pub found : find_client clients c.node.id ≡ c ∷ []
  pub alone :
      (id : Int32) (d : ClientNode)
      → find_client clients id ≡ d ∷ []
      → d.send_sock ≡ c.send_sock
      → id ≡ c.node.id

module _ (send_ok : Int32 → Bool) (sends : (sock : Int32) → send_ok sock ≡ true)
    (clients : List ClientNode) (c : ClientNode) (sole : IsSole clients c) (k : Int32) where
  one_answer :
      (x : TransReq)
      → let sent = send_to_client send_ok clients x.client_id (cm_by_fields x.command_id) in
        (sent.0 ≡ clients) × (count_answers c.send_sock k sent.1 ≡ count c.node.id k (x ∷ []))
  one_answer x = elim (find_client-cases clients x.client_id) [
    | inl missing ↦
        let e =
          send_to_client-missing send_ok clients x.client_id (cm_by_fields x.command_id) missing in
        elim (Bool-cases (x.client_id == c.node.id)) [
          | inl own ↦
              let is : x.client_id ≡ c.node.id = ground arith in
              absurd (cc (sym missing ∙ ap (find_client clients) is ∙ sole.found))
          | inr other ↦ rw (e, other) (refl, refl)
        ]
    | inr (d, hit) ↦
        let e =
          send_to_client-found send_ok clients x.client_id (cm_by_fields x.command_id) d hit
            (sends d.send_sock) in
        elim (Bool-cases (x.client_id == c.node.id)) [
          | inl own ↦
              let is : x.client_id ≡ c.node.id = ground arith in
              let it : d ≡ c = cc (sym hit ∙ ap (find_client clients) is ∙ sole.found) in
              rw (e, it, own, ==_refl c.send_sock) (refl, refl)
          | inr other ↦ elim (Bool-cases (d.send_sock == c.send_sock)) [
            | inl same ↦
                let is = sole.alone x.client_id d hit (ground arith) in absurd (ground (arith, is))
            | inr apart ↦ rw (e, other, apart) (refl, refl)
          ]
        ]
  ]

  pub answer_all-once :
      (xs : List TransReq)
      → let r = answer_all send_ok clients xs in
        (r.0 ≡ clients) × (count_answers c.send_sock k r.1 ≡ count c.node.id k xs)
  answer_all-once [] = (refl, refl)
  answer_all-once (x ∷ xs) =
      let (stay, one) = one_answer x in
      let (left, more) = answer_all-once xs in
      rw stay (
        left,
        omega (
          arith,
          count_answers-append c.send_sock k
              (send_to_client send_ok clients x.client_id (cm_by_fields x.command_id)).1
              (answer_all send_ok clients xs).1,
          one,
          more,
        ),
      )

-- Where no send fails, and the client is the only one with its id and with its socket, from a sound
-- node, whatever the order of the worker's steps, the acks (of known followers, for this worker) and
-- the commands of clients with real ids, whose requests are between two different keys of the
-- database, while the log can be written, the nodes can be connected to and the records have
-- numbers below 2 ^ 31: the number of answers that went to the client for a command has grown by the number of its
-- requests of that command that were held or came in, less those that are still held.
pub Moves-Once :
    (s : Sizes) (fuel : ℕ) (send_ok : Int32 → Bool) {n m : Node} (c : ClientNode) (k : Int32)
    (moves : Moves s fuel send_ok n m)
    → IsSized s
    → IsSound s n
    → All IsReal n.info.xact_queue
    → All IsReal (produced s fuel send_ok moves)
    → ((sock : Int32) → send_ok sock ≡ true)
    → IsSole n.clients c
    → count_answers c.send_sock k m.messages + count c.node.id k (outstanding m)
      ≡ count_answers c.send_sock k n.messages
        + (count c.node.id k (outstanding n) + count c.node.id k (produced s fuel send_ok moves))
Moves-Once s fuel send_ok {n} {m} c k moves sized h real new sends sole =
    let served = Moves-Served s fuel send_ok sized moves h real new in
    let sent = (answer_all send_ok n.clients served.done).1 in
    omega (
      arith,
      ap (count_answers c.send_sock k) served.answered.1,
      count_answers-append c.send_sock k n.messages sent,
      (answer_all-once send_ok sends n.clients c sole k served.done).1,
      served.counts c.node.id k,
    )
