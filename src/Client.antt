-- ===== src/Client.antt =====
-- The client program src/client/client.cc, and the lines that src/client/createInput.cc makes for
-- it. What is received is a list of messages; times are not modelled. `stoi`, `sscanf` and `rand`
-- are the library's.
pub mod Batches
pub mod Sends
pub mod Service
pub mod Keys
use raft_2pl.Prelude.{
  ℕ, zero, suc, ◌==◌, ◌&&◌, ◌/◌, ◌%◌, Bool, Int32, leb, if◌then◌else◌, add32, Run, ok, fault,
  undefined, exit_failure, out_of_fuel, ◌>>=◌, List, [], ◌∷◌, Option, none, some, get_elem?, set,
  length,
}
use raft_2pl.Text.{Text, colon, split, same_text}
use raft_2pl.Config.{item_at}
use raft_2pl.Types.{ClientRequest, max_cli_req, Sizes}
use raft_2pl.Rpc.{ClientCommand, CommitMessage, ResponseRequestLocation, len_host}

pub record Host : Type 0 where
  pub hostname : Text
  pub port : Int32

module _ (stoi : Text → Run Int32) where
  -- `strcpy` of a text that is too long for the array is undefined.
  host_of : Text → Run Host
  host_of line = if leb len_host (length line) then fault undefined else (do
    let v = split line colon
    hostname ← item_at v 0
    port_str ← item_at v 1
    port ← stoi port_str
    ok (record { hostname = hostname; port = port }))

  -- The first line of the file; an empty file gives an empty line.
  unfoldable get_host : Option (List Text) → Run Host
  unfolding host_of
  get_host none = fault exit_failure
  get_host (some []) = host_of []
  get_host (some (line ∷ lines)) = host_of line

module _ (sscanf : Text → ClientRequest → ClientRequest) where
  -- `sscanf` writes to a request of the array.
  pub fill_request : ClientCommand → ℕ → Text → ClientCommand
  fill_request cmd counter line = elim (get_elem? cmd.reqs counter) [
    | none ↦ cmd
    | some old ↦ record cmd { reqs = set cmd.reqs counter (sscanf line old) }
  ]

  -- The loop: `cmd` is the command that is filled, `counter` the requests in it. The array keeps
  -- what the last command left in it.
  pub fill_commands : ClientCommand → ℕ → List Text → List ClientCommand
  unfolding fill_request
  fill_commands cmd counter [] = []
  fill_commands cmd counter (line ∷ lines) =
      let filled = fill_request cmd counter line in
      let full = fill_commands filled 0 lines in
      let more = fill_commands filled (suc counter) lines in
      if suc counter == max_cli_req then filled ∷ full else more

  -- `memory` is the local `cc`, its kind set.
  pub get_cc : ClientCommand → Option (List Text) → Run (List ClientCommand)
  unfolding fill_commands
  get_cc memory none = fault exit_failure
  get_cc memory (some lines) = ok (fill_commands memory 0 lines)

-- Connecting until the server that answers names itself; `answer` is what the server at an address
-- answers.
pub locate : ℕ → (Text → Int32 → ResponseRequestLocation) → Host → Run Host
locate zero answer host = fault out_of_fuel
locate (suc fuel) answer host =
    let rrl = answer host.hostname host.port in
    let next = locate fuel answer (record { hostname = rrl.hostname; port = rrl.port }) in
    if same_text host.hostname rrl.hostname && host.port == rrl.port then ok host else next

-- Reading commit messages until `max_cli_req` of them are for the command; the messages after
-- them. A message too few ends the process.
pub wait_commits : Int32 → ℕ → List CommitMessage → Run (List CommitMessage)
wait_commits command_id count [] = fault exit_failure
wait_commits command_id count (cm ∷ cms) =
    let counted = if cm.command_id == command_id then suc count else count in
    let more = wait_commits command_id counted cms in
    if counted == max_cli_req then ok cms else more

-- The loop over the commands from position `itr`: after the last one `itr` is set to the first,
-- and then moved on. What was sent, in order.
pub send_commands :
    ℕ → List ClientCommand → Int32 → ℕ → Int32 → List CommitMessage → Run (List ClientCommand)
unfolding wait_commits
send_commands zero vec tx_count itr command_id cms = fault out_of_fuel
send_commands (suc fuel) vec tx_count itr command_id cms =
    let last = if suc itr == length vec then 0 else itr in
    let next = add32 command_id 1 in
    let go_on = send_commands fuel vec tx_count (suc last) next in
    elim (get_elem? vec itr) [
      | none ↦ ok []
      | some cmd ↦ do
        left ← wait_commits command_id 0 cms
        rest ← if next == tx_count then ok [] else go_on left
        ok (record cmd { command_id = command_id } ∷ rest)
    ]

-- A line of the input that `createInput` makes: the keys are quotients, the amount a remainder.
-- `rand` gives a number below 2 ^ 31.
pub create_line : Sizes → (from_rand diff_rand to_rand tx_id : ℕ) → ClientRequest
create_line s from_rand diff_rand to_rand tx_id = record {
  from = from_rand / s.database;
  to = to_rand / s.database;
  diff = diff_rand % 1000;
  tx_id = tx_id;
}
