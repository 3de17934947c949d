-- ===== src/Log.antt =====
-- The log of a worker: src/server/log.cc, src/include/log.h. The file is the list of the entries
-- written to it; a read returns whole entries.
pub mod Terms
use raft_2pl.Prelude.{
  ◌>>=◌, ◌>>◌, ◌&&◌, Bool, true, Int32, is_negative, slt, minus_one, ◌==◌, if◌then◌else◌, sub32,
  of_u64, Run, ok, fault, undefined, exit_failure, List, [], ◌∷◌, ◌++◌, Option, none, some, length,
  get_elem?,
}
use raft_2pl.Types.{Entry}

pub record Log : Type 0 where
  pub entries : List Entry
  pub last_synced_index : Int32
  pub file : List Entry

unfoldable get_size_entry : Log → Int32
get_size_entry log = of_u64 (length log.entries)

unfoldable get_max_index_of_entry : Log → Int32
get_max_index_of_entry log = sub32 (of_u64 (length log.entries)) 1

-- `size() - 1`, cut to an `int`: -1 on the empty log.
pub last_log_index : Log → Int32
last_log_index log = sub32 (of_u64 (length log.entries)) 1

-- `Log::Log`: `none` is a file that cannot be opened.
pub new_log : Option (List Entry) → Run Log
unfolding last_log_index
new_log none = fault exit_failure
new_log (some file) =
    let log : Log = record { entries = file; last_synced_index = 0; file = file } in
    ok (record log { last_synced_index = last_log_index log })

-- `_entry[index]`, undefined out of bounds.
pub get_entry : Log → Int32 → Run Entry
get_entry log index = elim (get_elem? log.entries index) [ none ↦ fault undefined | some e ↦ ok e ]

pub get_term : Log → Int32 → Run Int32
unfolding last_log_index get_entry
get_term log index =
    if is_negative index
    then ok minus_one
    else if slt (last_log_index log) index
    then ok minus_one
    else (do e ← get_entry log index; ok e.term)

unfoldable last_log_term : Log → Run Int32
unfolding get_term
last_log_term log = get_term log (last_log_index log)

pub log_match : Log → Int32 → Int32 → Run Bool
unfolding get_term
log_match log prev_log_index prev_term =
    if is_negative prev_log_index
    then ok true
    else (do term ← get_term log prev_log_index; ok (prev_term == term))

unfoldable get_prev_term : Log → Int32 → Run Int32
unfolding get_entry
get_prev_term log prev_log_index =
    if prev_log_index == minus_one
    then ok minus_one
    else (do e ← get_entry log prev_log_index; ok e.term)

-- `write` and `fsync` are the system's: the flags say whether they return a number that is not
-- negative. A write that does is taken to write the whole entry; the code does not look for a short
-- one, after which it would go on with a part of the entry in the file.
unfoldable pub add_entry : Log → Entry → Bool → Bool → Run Log
add_entry log e wrote synced =
    if wrote && synced
    then ok (record log { entries = log.entries ++ e ∷ []; file = log.file ++ e ∷ [] })
    else fault exit_failure
