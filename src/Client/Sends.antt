-- ===== src/Client/Sends.antt =====
-- The order in which a client sends its commands, and what it waits for.
use native.Mathlib.Nat.{mod-lt, zero-mod}
use raft_2pl.Prelude.{
  mod_step, ==_refl, ◌&&◌, get_elem?-lt, ℕ, zero, suc, ◌+◌, ◌%◌, ◌<◌, ◌≡◌, ◌∙◌, ap, sym, refl, ◌==◌,
  true, false, Bool-cases, Int32, u32, if◌then◌else◌, add32, to_nat, ok, Returns, ◌>>=◌, List, [],
  ◌∷◌, ◌++◌, length, get_elem?, some, inl, inr, arith,
}
use raft_2pl.Types.{max_cli_req}
use raft_2pl.Rpc.{ClientCommand, CommitMessage, ResponseRequestLocation}
use raft_2pl.Text.{Text, same_text}
use raft_2pl.Text.Words.{same_text_refl}
use raft_2pl.Client.{Host, locate, wait_commits, send_commands}

-- How many messages are for the command.
abbrev pub matching : Int32 → List CommitMessage → ℕ
matching id [] = 0
matching id (m ∷ ms) = to_nat (m.command_id == id) + matching id ms

-- Once `count` messages are in, any messages of which the last one completes the number of
-- requests end the wait, and leave the ones after them.
wait_commits_lem :
    (id : Int32) (count : ℕ) (ms : List CommitMessage) (m : CommitMessage)
    (rest : List CommitMessage)
    → count + matching id ms + 1 ≡ max_cli_req
    → (m.command_id == id) ≡ true
    → wait_commits id count (ms ++ m ∷ rest) ≡ ok rest
unfolding wait_commits
wait_commits_lem id count [] m rest h e =
    let done : (suc count == max_cli_req) ≡ true = ground arith in rw (e, done) refl
wait_commits_lem id count (x ∷ ms) m rest h e = elim (Bool-cases (x.command_id == id)) [
  | inl own ↦
      let total : count + (to_nat true + matching id ms) + 1 ≡ max_cli_req = rw own at h in
      let early : (suc count == max_cli_req) ≡ false = ground arith in
      rw (own, early) (wait_commits_lem id (suc count) ms m rest (omega arith) e)
  | inr other ↦
      let total : count + (to_nat false + matching id ms) + 1 ≡ max_cli_req = rw other at h in
      let early : (count == max_cli_req) ≡ false = ground arith in
      rw (other, early) (wait_commits_lem id count ms m rest (omega arith) e)
]

-- The messages that come for one command: those before the last one that counts, and that one.
abbrev pub Answers : Type 0
Answers = List CommitMessage × CommitMessage

abbrev pub all_answers : List Answers → List CommitMessage → List CommitMessage
all_answers [] rest = rest
all_answers (a ∷ as') rest = a.0 ++ a.1 ∷ all_answers as' rest

-- For the commands from `k` on, as many messages of each as it has requests, among any others.
abbrev AreAnswers : ℕ → List Answers → Type 0
AreAnswers k [] = Unit
AreAnswers k (a ∷ as') =
    (matching k a.0 + 1 ≡ max_cli_req) × ((a.1.command_id == k) ≡ true) × AreAnswers (suc k) as'

-- Of `suc m` commands the one that is sent as the `k`-th: the first is sent only once.
abbrev turn : ℕ → ℕ → ℕ
turn m zero = 0
turn m (suc k) = suc (k % m)

-- The `k`-th command that is sent and those after it.
abbrev pub AreSent : List ClientCommand → ℕ → ℕ → List ClientCommand → Type 0
AreSent vec m k [] = Unit
AreSent vec m k (c ∷ cs) =
    ((d : ClientCommand) × (get_elem? vec (turn m k) ≡ some d) × (c ≡ record d { command_id = k }))
    × AreSent vec m (suc k) cs

turn-lt : (m k : ℕ) → 0 < m → turn m k < suc m
turn-lt m zero h = omega arith
turn-lt m (suc k) h = omega (arith, mod-lt k h)

turn-step :
    (m k : ℕ) → 0 < m → suc (if suc (turn m k) == suc m then 0 else turn m k) ≡ turn m (suc k)
turn-step m zero h =
    let e : (1 == suc m) ≡ false = ground arith in
    let r : 0 % m ≡ 0 = zero-mod m in rw e (sym (ap suc r))
turn-step m (suc k) h =
    let e = mod_step k m h in
    elim (Bool-cases (suc (k % m) == m)) [
      | inl last ↦
          let outer : (suc (suc (k % m)) == suc m) ≡ true = ground arith in
          rw outer (ap suc (sym (rw last refl) ∙ e))
      | inr more ↦
          let outer : (suc (suc (k % m)) == suc m) ≡ false = ground arith in
          rw outer (ap suc (sym (rw more refl) ∙ e))
    ]

module _ (vec : List ClientCommand) (m tx_count : ℕ) (several : 0 < m) (size : length vec ≡ suc m)
    (small : tx_count < u32) where
  send_step :
      (fuel k : ℕ) (a : Answers) (left : List CommitMessage) (d : ClientCommand)
      → matching k a.0 + 1 ≡ max_cli_req
      → (a.1.command_id == k) ≡ true
      → get_elem? vec (turn m k) ≡ some d
      → suc k < u32
      → send_commands (suc fuel) vec tx_count (turn m k) k (a.0 ++ a.1 ∷ left) ≡ (
          (if suc k == tx_count
            then ok []
            else send_commands fuel vec tx_count (turn m (suc k)) (suc k) left)
          >>= λ sent. ok (record d { command_id = k } ∷ sent))
  unfolding send_commands add32
  send_step fuel k a left d answers own at fits =
      let heard = wait_commits_lem k 0 a.0 a.1 left (omega (arith, answers)) own in
      let next : (k + 1) % u32 ≡ suc k = omega arith in
      let step : suc (if suc (turn m k) == length vec then 0 else turn m k) ≡ turn m (suc k) =
        rw size (turn-step m k several) in
      rw (send_commands, at, heard, ◌>>=◌, next, step) refl

  send_commands_from :
      (k : ℕ) (a : Answers) (more : List Answers) (rest : List CommitMessage)
      → AreAnswers k (a ∷ more)
      → suc (k + length more) ≡ tx_count
      → Returns
          (send_commands
            (suc (length more))
            vec
            tx_count
            (turn m k)
            k
            (all_answers (a ∷ more) rest))
          λ sent. (length sent ≡ suc (length more)) × AreSent vec m k sent
  send_commands_from k a [] rest answers left =
      let (d, at) = get_elem?-lt vec (turn m k) (omega (arith, turn-lt m k several, size)) in
      let step = send_step 0 k a rest d answers.0 answers.1 at (omega arith) in
      let last : (suc k == tx_count) ≡ true = ground arith in
      (record d { command_id = k } ∷ [], step ∙ rw last refl, (refl, ((d, at, refl), tt)))
  send_commands_from k a (b ∷ more) rest answers left =
      let (d, at) = get_elem?-lt vec (turn m k) (omega (arith, turn-lt m k several, size)) in
      let step =
        send_step (suc (length more)) k a (all_answers (b ∷ more) rest) d answers.0 answers.1 at
          (omega arith) in
      let early : (suc k == tx_count) ≡ false = ground arith in
      let (sent, run, (count, are)) =
        send_commands_from (suc k) b more rest answers.2 (omega arith) in
      (
        record d { command_id = k } ∷ sent,
        step ∙ rw (early, run) refl,
        (ap suc count, ((d, at, refl), are)),
      )

-- A client with at least two commands, that is to send `tx_count` of them, and whose commands are
-- answered as often as they have requests, among any other messages: it sends `tx_count` commands
-- numbered from 0, the first of the list, then the others in turn, and the first never again. The
-- loop needs no more rounds than commands sent.
pub send_commands_lem :
    (vec : List ClientCommand) (m : ℕ) (a : Answers) (more : List Answers)
    (rest : List CommitMessage)
    → 0 < m
    → length vec ≡ suc m
    → suc (length more) < u32
    → AreAnswers 0 (a ∷ more)
    → Returns
        (send_commands
          (suc (length more))
          vec
          (suc (length more))
          0
          0
          (all_answers (a ∷ more) rest))
        λ sent. (length sent ≡ suc (length more)) × AreSent vec m 0 sent
send_commands_lem vec m a more rest several size small answers =
    send_commands_from vec m (suc (length more)) several size small 0 a more rest answers
      (omega arith)

-- A client with one command sends it once, and no more, however many it is to send.
send_commands-single :
    (fuel : ℕ) (cmd : ClientCommand) (tx_count : Int32) (a : Answers) (rest : List CommitMessage)
    → AreAnswers 0 (a ∷ [])
    → send_commands (suc (suc fuel)) (cmd ∷ []) tx_count 0 0 (all_answers (a ∷ []) rest)
      ≡ ok (record cmd { command_id = 0 } ∷ [])
unfolding send_commands add32
send_commands-single fuel cmd tx_count a rest answers =
    let heard = wait_commits_lem 0 0 a.0 a.1 rest (omega (arith, answers.0)) answers.1 in
    elim (Bool-cases (1 == tx_count)) [
      | inl done ↦ rw (heard, ◌>>=◌, done) refl
      | inr more ↦ rw (heard, ◌>>=◌, more) refl
    ]

-- A client that starts at any address, where each server answers with one leader's address, and so
-- does the leader: it is at the leader after at most two rounds.
locate_lem :
    (fuel : ℕ) (answer : Text → Int32 → ResponseRequestLocation) (host leader : Host)
    → (answer host.hostname host.port).hostname ≡ leader.hostname
    → (answer host.hostname host.port).port ≡ leader.port
    → (answer leader.hostname leader.port).hostname ≡ leader.hostname
    → (answer leader.hostname leader.port).port ≡ leader.port
    → Returns
        (locate (suc (suc fuel)) answer host)
        λ h. (same_text h.hostname leader.hostname && h.port == leader.port) ≡ true
unfolding locate
locate_lem fuel answer host leader name port own_name own_port =
    let here = same_text_refl leader.hostname in
    let self = ==_refl leader.port in
    elim (Bool-cases (same_text host.hostname leader.hostname && host.port == leader.port)) [
      | inl same ↦ (host, rw (name, port, same) refl, same)
      | inr other ↦ (
        leader,
        rw (name, port, other, own_name, own_port, here, self) refl,
        rw (here, self) refl,
      )
    ]
