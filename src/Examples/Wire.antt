-- ===== src/Examples/Wire.antt =====
-- Acknowledgements as bytes.
use raft_2pl.Prelude.{ℕ, ◌≡◌, refl, false, List, [], ◌∷◌, ◌++◌, ok, arith}
use raft_2pl.Rpc.{ResponseAppendEntries}
use raft_2pl.Rpc.Frames.{IsWords, send_acks, read_acks}
use raft_2pl.Rpc.Frames.Acks.{read_acks-send_acks}
use raft_2pl.Examples.Nodes.{good_ack}

other_ack : ResponseAppendEntries
other_ack = record good_ack { lsn = 70_000; success = false }

good_ack-IsWords : IsWords good_ack
good_ack-IsWords = record {
  term = omega arith;
  lsn = omega arith;
  worker_id = omega arith;
  r_node_id = omega arith;
}

other_ack-IsWords : IsWords other_ack
unfolding other_ack
other_ack-IsWords = record {
  term = omega arith;
  lsn = omega arith;
  worker_id = omega arith;
  r_node_id = omega arith;
}

-- The buffer of the notifier before the first read.
abbrev fresh_buffer : List ℕ
fresh_buffer =
    7 ∷ 7 ∷ 7 ∷ 7 ∷ 7 ∷ 7 ∷ 7 ∷ 7 ∷ 7 ∷ 7 ∷ 7 ∷ 7 ∷ 7 ∷ 7 ∷ 7 ∷ 7 ∷ 7 ∷ 7 ∷ 7 ∷ 7 ∷ 7 ∷ 7 ∷ 7 ∷ 7
    ∷ []

read_acks-send_acks_example :
    (bytes : List ℕ) × (send_acks (1 ∷ 2 ∷ 3 ∷ []) (good_ack ∷ other_ack ∷ []) ≡ ok bytes)
    × (read_acks 2 fresh_buffer (bytes ++ 9 ∷ []) ≡ ok (good_ack ∷ other_ack ∷ [], 9 ∷ []))
read_acks-send_acks_example =
    read_acks-send_acks 1 2 3 (good_ack ∷ other_ack ∷ []) fresh_buffer (9 ∷ [])
      (good_ack-IsWords, (other_ack-IsWords, tt)) refl
