-- ===== src/Examples.antt =====
-- The theorems at concrete inputs, and runs of the definitions. The data that the modules share.
mod Stores
mod Transfers
mod Records
mod Nodes
mod Answers
mod Wire
mod Service
mod Engine
mod Bench
mod Cluster
mod Servers
mod Programs
use raft_2pl.Prelude.{ℕ, ◌<◌, ◌≡◌, refl, Int32, false, [], arith}
use raft_2pl.Types.{Sizes, ClientRequest, TransReq}
use raft_2pl.Kvs.{Kvs, HashObject}
use raft_2pl.Kvs.Table.{IsSized, IsIndexed}
use raft_2pl.Twopl.Transfer.{IsAccepted}

-- Eight keys in sixteen buckets.
abbrev small : Sizes
small = record { database = 8; bucket = 16; delta = 13 }

abbrev small-IsSized : IsSized small
small-IsSized = record { roomy = omega arith; small = omega arith }

-- Every key with the balance 100.
abbrev even_store : Kvs
even_store = record {
  hash = λ b. record { key = b; value = 100 };
  key = λ i. i;
  value = λ i. 100;
  locked = λ i. false;
  memo_index = [];
}

even_store-IsIndexed : IsIndexed small even_store
even_store-IsIndexed k h = refl

-- 30 from account 5 to account 2.
abbrev downward : ClientRequest
downward = record { from = 5; to = 2; diff = 30; tx_id = 0 }

-- 30 from account 1 to account 3.
abbrev upward : ClientRequest
upward = record { from = 1; to = 3; diff = 30; tx_id = 1 }

downward-IsAccepted : IsAccepted small downward
downward-IsAccepted = record {
  from_in = omega arith;
  to_in = omega arith;
  apart = omega arith;
  diff_in = omega arith;
}

upward-IsAccepted : IsAccepted small upward
upward-IsAccepted = record {
  from_in = omega arith;
  to_in = omega arith;
  apart = omega arith;
  diff_in = omega arith;
}

abbrev upward_tx : TransReq
upward_tx = record { client_id = 0; command_id = 7; req = upward }
