-- ===== src/Client/Service.antt =====
-- A command of a client at the leader: the loop of main of src/client/client.cc that waits for the
-- commit messages, with the threads of src/server/raft.cc.
use raft_2pl.Prelude.{
  ℕ, suc, ◌+◌, ◌<◌, ◌≡◌, ◌∙◌, sym, ap, subst, refl, Int32, minus_one, sign_bit, Bool, true, false,
  ◌==◌, ==_refl, to_nat, if◌then◌else◌, List, [], ◌∷◌, ◌++◌, length, length-append, arith, Returns,
  inl, inr, Bool-cases,
}
use raft_2pl.Types.{Sizes, ClientRequest, max_cli_req}
use raft_2pl.Kvs.Table.{IsSized}
use raft_2pl.Nodes.{ClientNode}
use raft_2pl.Rpc.{CommitMessage}
use raft_2pl.Worker.{WorkerInfo}
use raft_2pl.Twopl.Bank.{All}
use raft_2pl.Twopl.Transfer.{IsAccepted}
use raft_2pl.Raft.{Node}
use raft_2pl.Raft.Clients.{enqueue_command}
use raft_2pl.Raft.Invariant.{IsSound, All-append}
use raft_2pl.Raft.Outstanding.{count, count-append, outstanding, count-outstanding, IsReal}
use raft_2pl.Raft.Threads.{Moves, produces, here, next, Moves-IsSound}
use raft_2pl.Raft.Answers.{tagged, enqueue_command-tagged}
use raft_2pl.Raft.Commits.{answer_all}
use raft_2pl.Raft.Answers.Once.{count_answers, count_answers-append, IsSole, answer_all-once}
use raft_2pl.Raft.Progress.Turns.{waiting, IsReady}
use raft_2pl.Raft.Progress.Votes.{Moves-trans}
use raft_2pl.Raft.Progress.Votes.{heard, heard_trans}
use raft_2pl.Raft.Progress.Drain.{all_acks, Moves-drained}
use raft_2pl.Client.{wait_commits}
use raft_2pl.Client.Sends.{matching}

-- The messages that arrive on a socket.
abbrev pub received : Int32 → List (Int32 × CommitMessage) → List CommitMessage
received sock [] = []
received sock (a ∷ rest) = if a.0 == sock then a.1 ∷ received sock rest else received sock rest

matching-received :
    (sock k : Int32) (sent : List (Int32 × CommitMessage))
    → matching k (received sock sent) ≡ count_answers sock k sent
matching-received sock k [] = refl
matching-received sock k (a ∷ rest) = elim (Bool-cases (a.0 == sock)) [
  | inl own ↦ rw own (omega (arith, matching-received sock k rest))
  | inr other ↦ rw other (omega (arith, matching-received sock k rest))
]

-- The wait ends and leaves no message for the command.
abbrev EndsAtLast : Int32 → ℕ → List CommitMessage → Type 0
EndsAtLast k n ms = Returns (wait_commits k n ms) (λ rest. matching k rest ≡ 0)

wait_commits-step :
    (k : Int32) (n counted : ℕ) (x : CommitMessage) (ms : List CommitMessage)
    → (if x.command_id == k then suc n else n) ≡ counted
    → (counted == max_cli_req) ≡ false
    → EndsAtLast k counted ms
    → EndsAtLast k n (x ∷ ms)
unfolding wait_commits
wait_commits-step k n counted x ms e early (rest, run, none) = (rest, rw (e, early) run, none)

wait_commits-last :
    (k : Int32) (n : ℕ) (x : CommitMessage) (ms : List CommitMessage)
    → (x.command_id == k) ≡ true
    → (suc n == max_cli_req) ≡ true
    → matching k ms ≡ 0
    → EndsAtLast k n (x ∷ ms)
unfolding wait_commits
wait_commits-last k n x ms own last none = (ms, rw (own, last) refl, none)

-- With as many messages for the command as are missing, the wait ends at the last of them.
wait_commits-matching :
    (k : Int32) (n : ℕ) (ms : List CommitMessage)
    → n < max_cli_req
    → n + matching k ms ≡ max_cli_req
    → EndsAtLast k n ms
wait_commits-matching k n [] h all = absurd (omega arith)
wait_commits-matching k n (x ∷ ms) h all = elim (Bool-cases (x.command_id == k)) [
  | inl own ↦
      let total : n + (to_nat true + matching k ms) ≡ max_cli_req = rw own at all in
      elim (Bool-cases (suc n == max_cli_req)) [
        | inl last ↦ wait_commits-last k n x ms own last (ground arith)
        | inr more ↦
            wait_commits-step k n (suc n) x ms (rw own refl) more
              (wait_commits-matching k (suc n) ms (ground arith) (omega arith))
      ]
  | inr other ↦
      let total : n + (to_nat false + matching k ms) ≡ max_cli_req = rw other at all in
      wait_commits-step k n n x ms (rw other refl) (ground arith)
        (wait_commits-matching k n ms h (omega arith))
]

count-tagged : (c k : Int32) (reqs : List ClientRequest) → count c k (tagged c k reqs) ≡ length reqs
count-tagged c k [] = refl
count-tagged c k (r ∷ rs) = rw (==_refl c, ==_refl k) (omega (arith, count-tagged c k rs))

length-tagged : (c k : Int32) (reqs : List ClientRequest) → length (tagged c k reqs) ≡ length reqs
length-tagged c k [] = refl
length-tagged c k (r ∷ rs) = omega (arith, length-tagged c k rs)

tagged-IsReal :
    (c k : Int32) (reqs : List ClientRequest)
    → (c == minus_one) ≡ false
    → All IsReal (tagged c k reqs)
tagged-IsReal c k [] h = tt
tagged-IsReal c k (r ∷ rs) h = (h, tagged-IsReal c k rs h)

module _ (s : Sizes) (fuel : ℕ) (send_ok : Int32 → Bool) (sized : IsSized s) (c : ClientNode)
    (k : Int32) (reqs : List ClientRequest) (voters : List Int32) where
  -- The leader after the producer has queued the command.
  abbrev asked : Node → Node
  asked n = record n { info = enqueue_command n.info c.node.id k reqs }

  -- What the producer makes of a ready leader.
  record Asked (n m : Node) : Type 0 where
    ready : IsReady s voters m
    wait : waiting m ≡ waiting n + length reqs
    counts : count c.node.id k (outstanding m) ≡ count c.node.id k (outstanding n) + length reqs

  asked-Asked :
      (n : Node)
      → IsReady s voters n
      → All (IsAccepted s) reqs
      → (c.node.id == minus_one) ≡ false
      → Asked n (asked n)
  asked-Asked n h accepted real =
      let id = c.node.id in
      let more = tagged id k reqs in
      let e = enqueue_command-tagged n.info id k reqs in
      let m : Node = record n { info = record n.info { xact_queue = n.info.xact_queue ++ more } } in
      let sound =
        (Moves-IsSound s fuel send_ok sized (next here (produces n id k reqs accepted))
          h.sound).0 in
      subst (λ (wi : WorkerInfo). Asked n (record n { info = wi })) (sym e)
        (record {
          ready = record {
            sound = subst (λ (wi : WorkerInfo). IsSound s (record n { info = wi })) e sound;
            idle = record { head = h.idle.head; buffer = h.idle.buffer; tasks = h.idle.tasks };
            real = All-append IsReal n.info.xact_queue more h.real (tagged-IsReal id k reqs real);
            retried = h.retried;
            small = h.small;
            fresh = h.fresh;
            quorum = h.quorum;
            distinct = h.distinct;
            known = h.known;
          };
          wait = omega (arith, length-append n.info.xact_queue more, length-tagged id k reqs);
          counts = omega (
            arith,
            count-outstanding id k m,
            count-outstanding id k n,
            count-append id k n.info.xact_queue more,
            count-tagged id k reqs,
          );
        })

  -- A leader that is ready, with as many different followers as make a quorum without the leader,
  -- where no send fails, and a client that is the only one with its id and socket. The client sends
  -- a command that is new to the leader, of as many transfers as a command has, each between two
  -- different keys of the database, and there are numbers for the records. Then a run of the leader's
  -- threads, in which the log can be written, the nodes can be connected to, and the acks are one of
  -- each of those followers for each record, leads to a leader that is ready again, and by which the
  -- client's wait for its commit messages ends, exactly at the last message for the command.
  pub wait_commits-enqueue_command :
      (n : Node)
      → IsReady s voters n
      → All (IsAccepted s) reqs
      → length reqs ≡ max_cli_req
      → (c.node.id == minus_one) ≡ false
      → IsSole n.clients c
      → ((sock : Int32) → send_ok sock ≡ true)
      → count c.node.id k (outstanding n) ≡ 0
      → count_answers c.send_sock k n.messages ≡ 0
      → n.lsn_counter + (waiting n + length reqs) < sign_bit
      → (m : Node) × (moves : Moves s fuel send_ok n m) × IsReady s voters m
        × Returns (wait_commits k 0 (received c.send_sock m.messages)) (λ rest. matching k rest ≡ 0)
        × (heard s fuel send_ok moves ≡ all_acks voters n.lsn_counter (waiting n + length reqs))
  unfolding heard
  wait_commits-enqueue_command n h accepted full real sole sends new unanswered room =
      let a = asked-Asked n h accepted real in
      let (m, moves, ready, none, served, acks) =
        Moves-drained s fuel send_ok voters (asked n) sized a.ready (omega (arith, a.wait)) in
      let id = c.node.id in
      let asks : Moves s fuel send_ok n (asked n) = next here (produces n id k reqs accepted) in
      let sent = (answer_all send_ok n.clients served.done).1 in
      let got : count_answers c.send_sock k m.messages ≡ max_cli_req = omega (
        arith,
        full,
        new,
        a.counts,
        unanswered,
        ap (count_answers c.send_sock k) served.answered.1,
        count_answers-append c.send_sock k n.messages sent,
        (answer_all-once send_ok sends n.clients c sole k served.done).1,
        served.counts id k,
        ap (count id k) none,
      ) in
      (
        m,
        Moves-trans s fuel send_ok asks moves,
        ready,
        wait_commits-matching k 0 (received c.send_sock m.messages) (omega arith)
            (omega (arith, matching-received c.send_sock k m.messages, got)),
        heard_trans s fuel send_ok asks moves ∙ acks ∙ ap (all_acks voters n.lsn_counter) a.wait,
      )
