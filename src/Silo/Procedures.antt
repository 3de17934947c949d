-- ===== src/Silo/Procedures.antt =====
-- The operations of the benchmark of the Silo engine: src/silo/include/procedure.hh and
-- makeProcedure of src/silo/silo.cc. The random numbers of an operation, one for its key and one
-- for its kind, are arguments: whether the one for the key is of the Zipf distribution makes no other
-- difference. A key of a block is below 2 ^ 64, so that its arithmetic is written without a
-- wrap-around.
use native.Mathlib.Nat.{mod-lt}
use raft_2pl.Prelude.{
  ℕ, suc, ◌+◌, ◌*◌, ◌/◌, ◌%◌, ◌<◌, ◌≡◌, ◌∙◌, ap, sym, refl, Bool, true, false, not, ◌==◌, ◌&&◌,
  ◌||◌, ==_refl, ltb, if◌then◌else◌, Run, ok, fault, undefined, Returns, ◌>>=◌, List, [], ◌∷◌,
  length, arith,
}
use raft_2pl.Twopl.Bank.{All}

pub data Ope : Type 0 where
  read_ope write_ope read_modify_write : Ope

pub record Procedure : Type 0 where
  pub ope : Ope
  pub key : ℕ
  pub ronly : Bool
  pub wonly : Bool

-- `Procedure(ope, key)`.
unfoldable new_procedure : Ope → ℕ → Procedure
new_procedure ope key = record { ope = ope; key = key; ronly = false; wonly = false }

abbrev is_read : Ope → Bool
is_read read_ope = true
is_read write_ope = false
is_read read_modify_write = false

abbrev is_write : Ope → Bool
is_write read_ope = false
is_write write_ope = true
is_write read_modify_write = false

-- `operator<`.
unfoldable pub less : Procedure → Procedure → Bool
less a b =
    if a.key == b.key && (is_write a.ope && is_read b.ope)
    then true
    else (if a.key == b.key && (is_write a.ope && is_write b.ope) then true else ltb a.key b.key)

-- The arguments of `makeProcedure` that do not change.
pub record Mix : Type 0 where
  pub tuple_num : ℕ
  pub thread_num : ℕ
  pub rratio : ℕ
  pub rmw : Bool
  pub partition : Bool
  pub thread_id : ℕ

-- A division by 0 is undefined.
unfoldable access_key : Mix → ℕ → Run ℕ
access_key m r =
    let block = m.tuple_num / m.thread_num in
    if m.partition
    then (if m.thread_num == 0 || block == 0
        then fault undefined
        else ok (block * m.thread_id + r % block))
    else (if m.tuple_num == 0 then fault undefined else ok (r % m.tuple_num))

unfoldable operation : Mix → ℕ → Ope
operation m r =
    if ltb (r % 100) m.rratio then read_ope else (if m.rmw then read_modify_write else write_ope)

-- The loop, with the two flags.
unfoldable make_operations :
    Mix → List (ℕ × ℕ) → (ronly wonly : Bool) → Run (List Procedure × Bool × Bool)
unfolding access_key operation new_procedure
make_operations m [] ronly wonly = ok ([], ronly, wonly)
make_operations m (r ∷ rs) ronly wonly = do
  key ← access_key m r.0
  let ope = operation m r.1
  let still_ronly = if is_read ope then ronly else false
  let still_wonly = if is_read ope then false else wonly
  rest ← make_operations m rs still_ronly still_wonly
  ok (new_procedure ope key ∷ rest.0, rest.1, rest.2)

-- The flags are set in the first operation, which there has to be. KEY_SORT is 0 in the build files.
unfoldable pub make_procedure : Mix → List (ℕ × ℕ) → Run (List Procedure)
unfolding make_operations
make_procedure m rands = do
  (pro, ronly, wonly) ← make_operations m rands true true
  elim pro [ [] ↦ fault undefined | p ∷ ps ↦ ok (record p { ronly = ronly; wonly = wonly } ∷ ps) ]

not_less_self : (n : ℕ) → ltb n n ≡ false
not_less_self n = ground arith

-- The order puts a write before itself, and so is no strict order: it is irreflexive for the other
-- operations only.
pub less_self : (p : Procedure) → less p p ≡ is_write p.ope
unfolding less
less_self p = go p.ope
  where
    go :
        (o : Ope)
        → (if p.key == p.key && (is_write o && is_read o)
            then true
            else (if p.key == p.key && (is_write o && is_write o) then true else ltb p.key p.key))
          ≡ is_write o
    go read_ope = rw (==_refl p.key, not_less_self p.key) refl
    go write_ope = rw (==_refl p.key) refl
    go read_modify_write = rw (==_refl p.key, not_less_self p.key) refl

abbrev all_reads : List Procedure → Bool
all_reads [] = true
all_reads (p ∷ ps) = is_read p.ope && all_reads ps

abbrev no_reads : List Procedure → Bool
no_reads [] = true
no_reads (p ∷ ps) = not (is_read p.ope) && no_reads ps

access_key-lt :
    (m : Mix) (r : ℕ)
    → m.partition ≡ false
    → 0 < m.tuple_num
    → Returns (access_key m r) (λ k. k < m.tuple_num)
unfolding access_key
access_key-lt m r whole some =
    let there : (m.tuple_num == 0) ≡ false = ground arith in
    (r % m.tuple_num, rw (whole, there) refl, mod-lt r some)

-- What the loop has made of the pairs of numbers that were left.
record IsMade (m : Mix) (rands : List (ℕ × ℕ)) (ronly wonly : Bool)
    (r : List Procedure × Bool × Bool) : Type 0 where
  all_made : length r.0 ≡ length rands
  inside : All (λ (p : Procedure). p.key < m.tuple_num) r.0
  flag : r.1 ≡ (ronly && all_reads r.0)
  wonly_flag : r.2 ≡ (wonly && no_reads r.0)

and_false : (b : Bool) → (b && false) ≡ false
and_false true = refl
and_false false = refl

and_true : (b : Bool) → (b && true) ≡ b
and_true true = refl
and_true false = refl

still_wonly_flag :
    (o : Ope) (wonly rest : Bool)
    → ((if is_read o then false else wonly) && rest) ≡ (wonly && (not (is_read o) && rest))
still_wonly_flag read_ope wonly rest = sym (and_false wonly)
still_wonly_flag write_ope wonly rest = refl
still_wonly_flag read_modify_write wonly rest = refl

still_flag :
    (o : Ope) (ronly rest : Bool)
    → ((if is_read o then ronly else false) && rest) ≡ (ronly && (is_read o && rest))
still_flag read_ope ronly rest = refl
still_flag write_ope ronly rest = sym (and_false ronly)
still_flag read_modify_write ronly rest = sym (and_false ronly)

-- Where the keys are not partitioned, the loop on a table that is not empty makes one operation for
-- each pair of numbers, each with a key of the table, and the first flag stays exactly if all of
-- them are reads, the second exactly if none is.
make_operations-IsMade :
    (m : Mix) (rands : List (ℕ × ℕ)) (ronly wonly : Bool)
    → m.partition ≡ false
    → 0 < m.tuple_num
    → Returns (make_operations m rands ronly wonly) (IsMade m rands ronly wonly)
unfolding make_operations
make_operations-IsMade m [] ronly wonly whole some = (
  ([], ronly, wonly),
  refl,
  record {
    all_made = refl;
    inside = tt;
    flag = sym (and_true ronly);
    wonly_flag = sym (and_true wonly);
  },
)
make_operations-IsMade m (r ∷ rs) ronly wonly whole some =
    let o = operation m r.1 in
    let (key, found, lt) = access_key-lt m r.0 whole some in
    let (rest, ran, made) =
      make_operations-IsMade m rs (if is_read o then ronly else false)
        (if is_read o then false else wonly) whole some in
    (
      (new_procedure o key ∷ rest.0, rest.1, rest.2),
      rw (found, ◌>>=◌, ran) refl,
      record {
        all_made = ap suc made.all_made;
        inside = (lt, made.inside);
        flag = made.flag ∙ still_flag o ronly (all_reads rest.0);
        wonly_flag = made.wonly_flag ∙ still_wonly_flag o wonly (no_reads rest.0);
      },
    )

-- Where the keys are not partitioned, `make_procedure` on a table that is not empty, for a
-- transaction of at least one operation, returns one operation for each pair of numbers, each with a
-- key of the table, and the first one is flagged as only reading exactly if all of them are reads,
-- as only writing exactly if none is.
pub make_procedure_lem :
    (m : Mix) (r : ℕ × ℕ) (rs : List (ℕ × ℕ))
    → m.partition ≡ false
    → 0 < m.tuple_num
    → (p : Procedure) × (ps : List Procedure) × (make_procedure m (r ∷ rs) ≡ ok (p ∷ ps))
      × (length ps ≡ length rs)
      × All (λ (q : Procedure). q.key < m.tuple_num) (p ∷ ps)
      × (p.ronly ≡ all_reads (p ∷ ps))
      × (p.wonly ≡ no_reads (p ∷ ps))
unfolding make_procedure
make_procedure_lem m r rs whole some =
    let (made, ran, good) = make_operations-IsMade m (r ∷ rs) true true whole some in
    first made ran good
  where
    first :
        (made : List Procedure × Bool × Bool)
        → make_operations m (r ∷ rs) true true ≡ ok made
        → IsMade m (r ∷ rs) true true made
        → (p : Procedure) × (ps : List Procedure) × (make_procedure m (r ∷ rs) ≡ ok (p ∷ ps))
          × (length ps ≡ length rs)
          × All (λ (q : Procedure). q.key < m.tuple_num) (p ∷ ps)
          × (p.ronly ≡ all_reads (p ∷ ps))
          × (p.wonly ≡ no_reads (p ∷ ps))
    first ([], ronly, wonly) ran good = absurd (omega (arith, good.all_made))
    first (p ∷ ps, ronly, wonly) ran good = (
      record p { ronly = ronly; wonly = wonly },
      ps,
      rw (ran, ◌>>=◌) refl,
      omega (arith, good.all_made),
      good.inside,
      good.flag,
      good.wonly_flag,
    )
