-- ===== src/Status.antt =====
-- The state of a Raft node: src/server/status.cc, src/include/status.h, src/include/state.h.
-- The first line of a file: it cannot be opened (`none`), it is empty (`some none`), or it has a
-- line.
pub mod Votes
use raft_2pl.Prelude.{
  ◌>>=◌, ◌>>◌, Bool, true, false, not, Int32, is_negative, minus_one, ◌==◌, if◌then◌else◌, add32,
  Run, ok, fault, undefined, assert, List, [], ◌∷◌, ◌++◌, Option, none, some,
}
use raft_2pl.Text.{Text, mkdir_path}

-- "currentTerm" and "votedFor".
abbrev pub current_term_name : Text
current_term_name = 99 ∷ 117 ∷ 114 ∷ 114 ∷ 101 ∷ 110 ∷ 116 ∷ 84 ∷ 101 ∷ 114 ∷ 109 ∷ []

abbrev voted_for_name : Text
voted_for_name = 118 ∷ 111 ∷ 116 ∷ 101 ∷ 100 ∷ 70 ∷ 111 ∷ 114 ∷ []

pub data State : Type 0 where
  follower candidate leader : State

-- `votes` is a `map<int, int>`.
pub record Status : Type 0 where
  pub storage_directory_name : Text
  pub votes : List (Int32 × Int32)
  pub state : State
  pub current_term : Int32
  pub voted_for : Int32
  pub timeout_time : Int32

pub find_vote : List (Int32 × Int32) → Int32 → Option Int32
find_vote [] index = none
find_vote ((i, n) ∷ votes) index = if i == index then some n else find_vote votes index

pub put_vote : List (Int32 × Int32) → Int32 → Int32 → List (Int32 × Int32)
put_vote [] index v = (index, v) ∷ []
put_vote ((i, n) ∷ votes) index v =
    if i == index then (i, v) ∷ votes else (i, n) ∷ put_vote votes index v

-- `this->votes[index]` on a key that is not there inserts a 0.
pub vote_at : List (Int32 × Int32) → Int32 → Int32
unfolding find_vote
vote_at votes index = elim (find_vote votes index) [ none ↦ 0 | some n ↦ n ]

unfoldable get_vote_count : Status → Int32 → Run (Int32 × Status)
unfolding vote_at put_vote
get_vote_count st index = do
  assert (not (is_negative index))
  let n = vote_at st.votes index
  ok (n, record st { votes = put_vote st.votes index n })

-- `votes[index] = 1` on a new key, `votes[index]++` on an old one.
counted : Option Int32 → Int32
counted none = 1
counted (some old) = add32 old 1

pub add_vote_count : Status → Int32 → Run (Int32 × Status)
unfolding counted vote_at put_vote
add_vote_count st index = do
  assert (not (is_negative index))
  let n = counted (find_vote st.votes index)
  let votes = put_vote st.votes index n
  ok (vote_at votes index, record st { votes = votes })

-- The file system is the C library's, as in `mkdir_path`; `first_line` is what `fopen` and `fgets`
-- give for a file name, and `atoi` is the C library's.
module _ {Files : Type 0} (stat : Files → Text → Option Bool) (mkdir : Files → Text → Option Files)
    (first_line : Files → Text → Option (Option Text)) (atoi : Text → Int32) where
  init_voted_for : Files → Text → Run Int32
  init_voted_for files filename = elim (first_line files filename) [
    | none ↦ fault undefined
    | some none ↦ ok minus_one
    | some (some line) ↦ ok (atoi line)
  ]

  pub init_current_term : Files → Text → Run Int32
  init_current_term files filename = elim (first_line files filename) [
    | none ↦ fault undefined
    | some none ↦ ok 0
    | some (some line) ↦ ok (atoi line)
  ]

  -- A failure is printed, and ignored.
  pub create_directory : Files → Text → Run Files
  create_directory files name = elim (stat files name) [
    | some is_dir ↦ ok files
    | none ↦ do r ← mkdir_path stat mkdir files name; ok r.0
  ]

  -- `Status::Status`; `state` and `timeouttime` keep what the memory held until `Raft::Raft` sets
  -- them.
  pub new_status : Status → Files → Text → Run (Status × Files)
  unfolding init_voted_for init_current_term create_directory
  new_status memory files name = do
    made ← create_directory files name
    term ← init_current_term made (name ++ current_term_name)
    vote ← init_voted_for made (name ++ voted_for_name)
    ok (
      record memory {
        storage_directory_name = name;
        votes = [];
        current_term = term;
        voted_for = vote;
      },
      made,
    )

unfoldable get_storage_directory_name : Status → Text
get_storage_directory_name st = st.storage_directory_name

unfoldable get_state : Status → State
get_state st = st.state

unfoldable is_follower : Status → Bool
is_follower st = elim st.state [ follower ↦ true | candidate ↦ false | leader ↦ false ]

unfoldable is_candidate : Status → Bool
is_candidate st = elim st.state [ follower ↦ false | candidate ↦ true | leader ↦ false ]

unfoldable pub is_leader : Status → Bool
is_leader st = elim st.state [ follower ↦ false | candidate ↦ false | leader ↦ true ]

unfoldable pub get_current_term : Status → Int32
get_current_term st = st.current_term

unfoldable pub get_voted_for : Status → Int32
get_voted_for st = st.voted_for

unfoldable get_timeout_time : Status → Int32
get_timeout_time st = st.timeout_time

unfoldable pub set_state : Status → State → Status
set_state st state = record st { state = state }

unfoldable become_follower : Status → Status
become_follower st = record st { state = follower }

unfoldable become_candidate : Status → Status
become_candidate st = record st { state = candidate }

unfoldable pub become_leader : Status → Status
become_leader st = record st { state = leader }

unfoldable increment_current_term : Status → Status
increment_current_term st = record st { current_term = add32 st.current_term 1 }

unfoldable pub set_voted_for : Status → Int32 → Status
set_voted_for st node_id = record st { voted_for = node_id }

unfoldable pub set_timeout_time : Status → Int32 → Status
set_timeout_time st time = record st { timeout_time = time }
