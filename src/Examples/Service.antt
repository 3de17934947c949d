-- ===== src/Examples/Service.antt =====
-- A client of the leader and its command.
use raft_2pl.Prelude.{
  ◌==◌, minus_one, false, ℕ, zero, suc, ◌≡◌, ap, refl, true, List, [], ◌∷◌, length, ◌+◌, arith,
  Returns, of_u64,
}
use raft_2pl.Types.{ClientRequest}
use raft_2pl.Nodes.{set_id, set_send_sock}
use raft_2pl.Twopl.Bank.{All}
use raft_2pl.Twopl.Transfer.{IsAccepted}
use raft_2pl.Raft.{Node}
use raft_2pl.Raft.Clients.{connected}
use raft_2pl.Raft.Outstanding.{count, outstanding}
use raft_2pl.Raft.Threads.{Moves}
use raft_2pl.Raft.Progress.Turns.{IsReady}
use raft_2pl.Raft.Progress.Votes.{heard}
use raft_2pl.Raft.Progress.Drain.{all_acks}
use raft_2pl.Client.{wait_commits}
use raft_2pl.Client.Sends.{matching}
use raft_2pl.Client.Service.{received, wait_commits-enqueue_command}
use raft_2pl.Examples.{small, small-IsSized, upward, upward-IsAccepted}
use raft_2pl.Examples.Nodes.{leader_node}
use raft_2pl.Examples.Answers.{only_client, only_client-IsSole, leader_node-IsReady}

-- The same transfer so many times.
upwards : ℕ → List ClientRequest
upwards zero = []
upwards (suc n) = upward ∷ upwards n

upwards-IsAccepted : (n : ℕ) → All (IsAccepted small) (upwards n)
unfolding upwards
upwards-IsAccepted zero = tt
upwards-IsAccepted (suc n) = (upward-IsAccepted, upwards-IsAccepted n)

length-upwards : (n : ℕ) → length (upwards n) ≡ n
unfolding upwards
length-upwards zero = refl
length-upwards (suc n) = ap (λ (k : ℕ). suc k) (length-upwards n)

no_ninth : count only_client.node.id 9 (outstanding leader_node) ≡ 0
unfolding connected set_send_sock set_id of_u64
no_ninth = refl

real_client : (only_client.node.id == minus_one) ≡ false
unfolding connected set_send_sock set_id of_u64
real_client = refl

wait_commits-enqueue_command_example :
    (m : Node) × (moves : Moves small 0 (λ sock. true) leader_node m) × IsReady small (1 ∷ 2 ∷ []) m
    × Returns
        (wait_commits 9 0 (received only_client.send_sock m.messages))
        (λ rest. matching 9 rest ≡ 0)
    × (heard small 0 (λ sock. true) moves ≡ all_acks (1 ∷ 2 ∷ []) 0 (1 + length (upwards 100)))
wait_commits-enqueue_command_example =
    wait_commits-enqueue_command small 0 (λ sock. true) small-IsSized only_client 9 (upwards 100)
      (1 ∷ 2 ∷ []) leader_node leader_node-IsReady (upwards-IsAccepted 100) (length-upwards 100)
      real_client only_client-IsSole (λ sock. refl) no_ninth refl
      (omega (arith, length-upwards 100))
