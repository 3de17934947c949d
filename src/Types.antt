-- ===== src/Types.antt =====
-- The structs that the programs exchange and the constants that size them:
-- src/include/header.h, src/include/entry.h, src/include/constant.h.
use raft_2pl.Prelude.{ℕ, ◌-◌, ◌^◌, Int32, List}

pub record ClientRequest : Type 0 where
  pub from : Int32
  pub to : Int32
  pub diff : Int32
  pub tx_id : Int32

pub record TransReq : Type 0 where
  pub client_id : Int32
  pub command_id : Int32
  pub req : ClientRequest

-- `xactSet` is an array of `max_group_entry` requests of which the first `nlog` are written: the
-- list holds those. `time` is what `gettimeofday` gave.
pub record Entry : Type 0 where
  pub lsn : Int32
  pub term : Int32
  pub nlog : Int32
  pub time : ℕ
  pub xact_set : List TransReq

abbrev pub max_group_entry : ℕ
max_group_entry = 100

abbrev pub max_cli_req : ℕ
max_cli_req = 100

abbrev pub worker_num : ℕ
worker_num = 9

abbrev pub log_timeout : ℕ
log_timeout = 100_000

-- INVALID, which is -100.
abbrev pub invalid : Int32
invalid = 2 ^ 32 - 100

-- SIZ_DATABASE, SIZ_HASH_BUCKET and HASH_DELTA: the key-value store is modelled at any sizes.
pub record Sizes : Type 0 where
  pub database : ℕ
  pub bucket : ℕ
  pub delta : ℕ

abbrev pub constant_h : Sizes
constant_h = record { database = 10_000_000; bucket = 100_000_000; delta = 13 }
