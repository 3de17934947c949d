-- ===== src/Examples/Programs.antt =====
-- The client program.
use raft_2pl.Prelude.{
  ℕ, zero, suc, ◌-◌, ◌≡◌, refl, Int32, Returns, some, List, [], ◌∷◌, map, arith, length,
}
use raft_2pl.Twopl.Bank.{All}
use raft_2pl.Text.{Text}
use raft_2pl.Types.{ClientRequest}
use raft_2pl.Rpc.{ClientCommand, client_command, cm_by_fields}
use raft_2pl.Client.{get_cc, send_commands}
use raft_2pl.Client.Sends.{Answers, all_answers, AreSent, send_commands_lem}
use raft_2pl.Client.Batches.{amounts_of, Amounts, all_lines, IsRead, get_cc_lem}
use raft_2pl.Examples.{upward}

repeat {ℓ} : {A : Type ℓ} → ℕ → A → List A
repeat zero x = []
repeat (suc n) x = x ∷ repeat n x

abbrev full_command : ClientCommand
full_command = record {
  rpc_kind = client_command;
  client_id = 0;
  command_id = 0;
  reqs = repeat 100 upward;
}

abbrev answers : Int32 → Answers
answers id = (cm_by_fields 77 ∷ repeat 99 (cm_by_fields id), cm_by_fields id)

-- Two commands of which four are to be sent: the second is sent three times.
send_commands_example :
    let four = answers 0 ∷ answers 1 ∷ answers 2 ∷ answers 3 ∷ [] in
    Returns
      (send_commands 4 (full_command ∷ full_command ∷ []) 4 0 0 (all_answers four []))
      λ sent. (length sent ≡ 4) × AreSent (full_command ∷ full_command ∷ []) 1 0 sent
unfolding repeat
send_commands_example =
    send_commands_lem (full_command ∷ full_command ∷ []) 1 (answers 0)
      (answers 1 ∷ answers 2 ∷ answers 3 ∷ []) [] (omega arith) refl (omega arith)
      ((refl, refl, (refl, refl, (refl, refl, (refl, refl, tt)))))

-- What `sscanf` makes of numbers of one digit: a number that is missing leaves its field alone.
abbrev scan : Text → ClientRequest → ClientRequest
scan [] r = r
scan (a ∷ []) r = record r { from = a - 48 }
scan (a ∷ s ∷ []) r = record r { from = a - 48 }
scan (a ∷ s ∷ b ∷ []) r = record r { from = a - 48; to = b - 48 }
scan (a ∷ s ∷ b ∷ t ∷ []) r = record r { from = a - 48; to = b - 48 }
scan (a ∷ s ∷ b ∷ t ∷ c ∷ more) r = record r { from = a - 48; to = b - 48; diff = c - 48 }

abbrev amounts_of_line : Text → Amounts
amounts_of_line line = let r = scan line upward in (r.from, r.to, r.diff)

-- `1 2 5`.
abbrev one_two_five : Text
one_two_five = 49 ∷ 32 ∷ 50 ∷ 32 ∷ 53 ∷ []

repeat-All {ℓ κ} : {A : Type ℓ} (P : A → Type κ) (n : ℕ) (x : A) → P x → All P (repeat n x)
unfolding repeat
repeat-All P zero x h = tt
repeat-All P (suc n) x h = (h, repeat-All P n x h)

-- A full batch, then an empty line and one with one number.
get_cc_example :
    let batches = repeat 100 one_two_five ∷ [] in
    Returns
      (get_cc scan full_command (some (all_lines batches ([] ∷ (54 ∷ []) ∷ []))))
      λ cmds. map (λ c. amounts_of c.reqs) cmds ≡ map (map amounts_of_line) batches
unfolding repeat
get_cc_example =
    get_cc_lem scan amounts_of_line full_command (repeat 100 one_two_five ∷ [])
      ([] ∷ (54 ∷ []) ∷ [])
      (repeat-All (IsRead scan amounts_of_line) 100 one_two_five (λ r. refl), tt) refl (refl, tt)
      (omega arith)
