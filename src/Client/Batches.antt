-- ===== src/Client/Batches.antt =====
-- The commands that a file of requests makes.
use mathlib.Core.List.{append_assoc, append-nil}
use raft_2pl.Prelude.{
  Returns, length-append, ℕ, suc, ◌+◌, ◌<◌, ◌≡◌, ◌∙◌, ap, sym, refl, ◌==◌, true, false, Int32, List,
  [], ◌∷◌, ◌++◌, map, length, get_elem?, set, some, arith,
}
use raft_2pl.Text.{Text}
use raft_2pl.Types.{ClientRequest, max_cli_req}
use raft_2pl.Rpc.{ClientCommand}
use raft_2pl.Client.{fill_request, fill_commands, get_cc}
use raft_2pl.Twopl.Bank.{All}

-- What a line says: payer, payee and amount.
abbrev pub Amounts : Type 0
Amounts = Int32 × Int32 × Int32

abbrev pub amounts_of : List ClientRequest → List Amounts
amounts_of = map λ r. (r.from, r.to, r.diff)

-- The lines of all batches, then a rest.
abbrev pub all_lines : List (List Text) → List Text → List Text
all_lines [] rest = rest
all_lines (b ∷ bs) rest = b ++ all_lines bs rest

module _ (sscanf : Text → ClientRequest → ClientRequest) (read : Text → Amounts) where
  -- From this line `sscanf` sets payer, payee and amount to what it says, and nothing else.
  abbrev pub IsRead : Text → Type 0
  IsRead line =
      (r : ClientRequest)
      → sscanf line r ≡ record r { from = (read line).0; to = (read line).1; diff = (read line).2 }

  get_elem?-middle :
      (pre : List ClientRequest) (x : ClientRequest) (post : List ClientRequest)
      → get_elem? (pre ++ x ∷ post) (length pre) ≡ some x
  get_elem?-middle [] x post = refl
  get_elem?-middle (y ∷ pre) x post = get_elem?-middle pre x post

  set-middle :
      (pre : List ClientRequest) (x v : ClientRequest) (post : List ClientRequest)
      → set (pre ++ x ∷ post) (length pre) v ≡ (pre ++ v ∷ []) ++ post
  set-middle [] x v post = refl
  set-middle (y ∷ pre) x v post = ap (◌∷◌ y) (set-middle pre x v post)

  -- A request of the array is written, after those of `pre`.
  fill_request_lem :
      (cmd : ClientCommand) (pre : List ClientRequest) (x : ClientRequest)
      (post : List ClientRequest) (line : Text)
      → cmd.reqs ≡ pre ++ x ∷ post
      → fill_request sscanf cmd (length pre) line
        ≡ record cmd { reqs = (pre ++ sscanf line x ∷ []) ++ post }
  unfolding fill_request
  fill_request_lem cmd pre x post line e =
      let at : get_elem? cmd.reqs (length pre) ≡ some x = rw e (get_elem?-middle pre x post) in
      let next : set cmd.reqs (length pre) (sscanf line x) ≡ (pre ++ sscanf line x ∷ []) ++ post =
        rw e (set-middle pre x (sscanf line x) post) in
      rw (fill_request, at) (ap (λ (rs : List ClientRequest). record cmd { reqs = rs }) next)

  rest_lem :
      (cmd : ClientCommand) (counter : ℕ) (lines : List Text)
      → counter + length lines < max_cli_req
      → fill_commands sscanf cmd counter lines ≡ []
  unfolding fill_commands
  rest_lem cmd counter [] h = refl
  rest_lem cmd counter (line ∷ lines) h =
      let early : (suc counter == max_cli_req) ≡ false = ground arith in
      rw early (rest_lem (fill_request sscanf cmd counter line) (suc counter) lines (omega arith))

  -- What the lines that complete a command make of it.
  record Filled (cmd : ClientCommand) (pre : List ClientRequest) (lines more : List Text)
      : Type 0 where
    filled : ClientCommand
    runs :
        fill_commands sscanf cmd (length pre) (lines ++ more)
        ≡ filled ∷ fill_commands sscanf filled 0 more
    added : List ClientRequest
    reqs : filled.reqs ≡ pre ++ added
    amounts : amounts_of added ≡ map read lines
    count : length added ≡ length lines

  fill_lem :
      (cmd : ClientCommand) (pre : List ClientRequest) (x : ClientRequest)
      (post : List ClientRequest) (line : Text) (lines more : List Text)
      → All IsRead (line ∷ lines)
      → cmd.reqs ≡ pre ++ x ∷ post
      → length post ≡ length lines
      → suc (length pre + length lines) ≡ max_cli_req
      → Filled cmd pre (line ∷ lines) more
  unfolding fill_commands
  fill_lem cmd pre x [] line [] more reads e same full =
      let v = sscanf line x in
      let next : ClientCommand = record cmd { reqs = pre ++ v ∷ [] } in
      let step =
        fill_request_lem cmd pre x [] line e
        ∙ ap (λ (rs : List ClientRequest). record cmd { reqs = rs }) (append-nil (pre ++ v ∷ [])) in
      let done : (suc (length pre) == max_cli_req) ≡ true = ground arith in
      record {
        filled = next;
        runs = rw (done, step) refl;
        added = v ∷ [];
        reqs = refl;
        amounts = rw (reads.0 x) refl;
        count = refl;
      }
  fill_lem cmd pre x [] line (l ∷ lines) more reads e same full = absurd (omega arith)
  fill_lem cmd pre x (y ∷ post) line [] more reads e same full = absurd (omega arith)
  fill_lem cmd pre x (y ∷ post) line (l ∷ lines) more reads e same full =
      let v = sscanf line x in
      let grown = pre ++ v ∷ [] in
      let next : ClientCommand = record cmd { reqs = grown ++ y ∷ post } in
      let size : length grown ≡ suc (length pre) = omega (arith, length-append pre (v ∷ [])) in
      let early : (suc (length pre) == max_cli_req) ≡ false = ground arith in
      let step = fill_request_lem cmd pre x (y ∷ post) line e in
      let rest = fill_lem next grown y post l lines more reads.1 refl (omega arith) (omega arith) in
      record {
        filled = rest.filled;
        runs =
            rw (early, step) refl
            ∙ ap (λ (i : ℕ). fill_commands sscanf next i (l ∷ (lines ++ more))) (sym size)
            ∙ rest.runs;
        added = v ∷ rest.added;
        reqs = rest.reqs ∙ append_assoc pre (v ∷ []) rest.added;
        amounts =
            ap (λ (r : ClientRequest). amounts_of (r ∷ rest.added)) (reads.0 x)
            ∙ ap (◌∷◌ (read line)) rest.amounts;
        count = ap suc rest.count;
      }

  split_reqs :
      (rs : List ClientRequest)
      → 0 < length rs
      → (x : ClientRequest) × (post : List ClientRequest) × (rs ≡ x ∷ post)
  split_reqs [] h = absurd (omega arith)
  split_reqs (x ∷ post) h = (x, post, refl)

  fill_batches :
      (cmd : ClientCommand) (batches : List (List Text)) (rest : List Text)
      → All (All IsRead) batches
      → length cmd.reqs ≡ max_cli_req
      → All (λ (b : List Text). length b ≡ max_cli_req) batches
      → length rest < max_cli_req
      → map (λ c. amounts_of c.reqs) (fill_commands sscanf cmd 0 (all_lines batches rest))
        ≡ map (map read) batches
  fill_batches cmd [] rest reads size full short =
      rw (rest_lem cmd 0 rest (omega (arith, short))) refl
  fill_batches cmd ([] ∷ bs) rest reads size full short = absurd (omega (arith, full.0))
  fill_batches cmd ((l ∷ ls) ∷ bs) rest reads size full short =
      let (x, post, e) = split_reqs cmd.reqs (omega (arith, size)) in
      let same : length post ≡ length ls =
        omega (arith, ap (λ (rs : List ClientRequest). length rs) e, size, full.0) in
      let f =
        fill_lem cmd [] x post l ls (all_lines bs rest) reads.0 e same (omega (arith, full.0)) in
      let again : length f.filled.reqs ≡ max_cli_req =
        ap (λ (rs : List ClientRequest). length rs) f.reqs ∙ f.count ∙ full.0 in
      let more = fill_batches f.filled bs rest reads.1 again full.1 short in
      let own : amounts_of f.filled.reqs ≡ map read (l ∷ ls) =
        ap (λ (rs : List ClientRequest). amounts_of rs) f.reqs ∙ f.amounts in
      ap (λ (cs : List ClientCommand). map (λ c. amounts_of c.reqs) cs) f.runs
      ∙ ap (◌∷◌ (amounts_of f.filled.reqs)) more
      ∙ ap (λ (b : List Amounts). b ∷ map (map read) bs) own

-- A file of batches of 100 lines and a shorter rest, where `sscanf` sets payer, payee and amount from
-- each line of the batches (the lines of the rest may be anything): the client has one command for each batch, with the amounts of its lines in their
-- order, and the rest is dropped.
pub get_cc_lem :
    (sscanf : Text → ClientRequest → ClientRequest) (read : Text → Amounts) (memory : ClientCommand)
    (batches : List (List Text)) (rest : List Text)
    → All (All (IsRead sscanf read)) batches
    → length memory.reqs ≡ max_cli_req
    → All (λ (b : List Text). length b ≡ max_cli_req) batches
    → length rest < max_cli_req
    → Returns
        (get_cc sscanf memory (some (all_lines batches rest)))
        λ cmds. map (λ c. amounts_of c.reqs) cmds ≡ map (map read) batches
unfolding get_cc
get_cc_lem sscanf read memory batches rest reads size full short =
    (_, refl, fill_batches sscanf read memory batches rest reads size full short)
