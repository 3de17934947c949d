-- ===== src/Nodes/Grants.antt =====
-- The grants of reads: what is counted after a reset and a number of grants.
use raft_2pl.Prelude.{
  ℕ, zero, suc, ◌+◌, ◌≤◌, ◌<◌, ◌≡◌, ◌∙◌, ap, sym, subst, ◌%◌, refl, Bool, true, false, ◌==◌, ◌||◌,
  Int32, u32, sign_bit, is_negative, ltb, add32, Run, ok, ◌>>=◌, Returns, List, [], ◌∷◌, length,
  set, to_nat, arith,
}
use raft_2pl.Twopl.Bank.{All}
use raft_2pl.Nodes.{
  ClientNode, count_grants, get_read_grants_num, grant, reset_grants, reset_read_grants,
}

-- The grants that nodes give, one after the other.
grant_all : ClientNode → List Int32 → Run ClientNode
grant_all c [] = ok c
grant_all c (id ∷ ids) = grant c id >>= λ d. grant_all d ids

-- How many grants are true.
abbrev granted : List Bool → ℕ
granted [] = 0
granted (b ∷ bs) = to_nat b + granted bs

abbrev pub is_in : ℕ → List Int32 → Bool
is_in i [] = false
is_in i (id ∷ ids) = i == id || is_in i ids

-- How many of the `n` numbers from `k` on stand in the list; one that stands there twice counts once.
abbrev distinct : (k n : ℕ) → List Int32 → ℕ
distinct k zero ids = 0
distinct k (suc n) ids = to_nat (is_in k ids) + distinct (suc k) n ids

-- The grants from position `k` on, after those of the list are given.
mark : ℕ → List Bool → List Int32 → List Bool
mark k [] ids = []
mark k (b ∷ bs) ids = (b || is_in k ids) ∷ mark (suc k) bs ids

falses : ℕ → List Bool
falses zero = []
falses (suc n) = false ∷ falses n

mark-nil : (k : ℕ) (bs : List Bool) → mark k bs [] ≡ bs
unfolding mark
mark-nil k [] = refl
mark-nil k (true ∷ bs) = ap (◌∷◌ true) (mark-nil (suc k) bs)
mark-nil k (false ∷ bs) = ap (◌∷◌ false) (mark-nil (suc k) bs)

mark-past :
    (k id : ℕ) (bs : List Bool) (ids : List Int32) → id < k → mark k bs (id ∷ ids) ≡ mark k bs ids
unfolding mark
mark-past k id [] ids h = refl
mark-past k id (b ∷ bs) ids h =
    let other : (k == id) ≡ false = ground arith in
    rw other (ap (◌∷◌ (b || is_in k ids)) (mark-past (suc k) id bs ids (omega arith)))

mark-set :
    (k j id : ℕ) (bs : List Bool) (ids : List Int32)
    → id ≡ k + j
    → mark k (set bs j true) ids ≡ mark k bs (id ∷ ids)
unfolding mark
mark-set k j id [] ids e = refl
mark-set k zero id (true ∷ bs) ids e =
    let rest = mark-past (suc k) id bs ids (omega arith) in rw rest refl
mark-set k zero id (false ∷ bs) ids e =
    let same : (k == id) ≡ true = ground arith in
    let rest = mark-past (suc k) id bs ids (omega arith) in rw (same, rest) refl
mark-set k (suc j) id (b ∷ bs) ids e =
    let other : (k == id) ≡ false = ground arith in
    rw other (ap (◌∷◌ (b || is_in k ids)) (mark-set (suc k) j id bs ids (omega arith)))

set-length : (bs : List Bool) (j : ℕ) → length (set bs j true) ≡ length bs
set-length [] j = refl
set-length (b ∷ bs) zero = refl
set-length (b ∷ bs) (suc j) = ap suc (set-length bs j)

falses-length : (n : ℕ) → length (falses n) ≡ n
unfolding falses
falses-length zero = refl
falses-length (suc n) = ap suc (falses-length n)

reset_grants-falses : (bs : List Bool) (n : ℕ) → length bs ≤ n → reset_grants bs n ≡ falses n
unfolding reset_grants falses
reset_grants-falses [] zero h = refl
reset_grants-falses (b ∷ bs) zero h = absurd (omega arith)
reset_grants-falses [] (suc n) h = ap (◌∷◌ false) (reset_grants-falses [] n (omega arith))
reset_grants-falses (b ∷ bs) (suc n) h = ap (◌∷◌ false) (reset_grants-falses bs n (omega arith))

granted-mark : (k n : ℕ) (ids : List Int32) → granted (mark k (falses n) ids) ≡ distinct k n ids
unfolding mark falses
granted-mark k zero ids = refl
granted-mark k (suc n) ids = omega (arith, granted-mark (suc k) n ids)

mark-length : (k : ℕ) (bs : List Bool) (ids : List Int32) → length (mark k bs ids) ≡ length bs
unfolding mark
mark-length k [] ids = refl
mark-length k (b ∷ bs) ids = ap suc (mark-length (suc k) bs ids)

count_grants_lem :
    (num : Int32) (bs : List Bool) → num + length bs < u32 → count_grants num bs ≡ num + granted bs
unfolding count_grants add32
count_grants_lem num [] h = omega arith
count_grants_lem num (true ∷ bs) h =
    let next : (num + 1) % u32 ≡ num + 1 = omega arith in
    rw next (count_grants_lem (num + 1) bs (omega arith) ∙ omega arith)
count_grants_lem num (false ∷ bs) h = count_grants_lem num bs (omega arith) ∙ omega arith

grant_all_lem :
    (c : ClientNode) (ids : List Int32)
    → All (λ (id : Int32). id < length c.read_grants) ids
    → Returns (grant_all c ids) λ d. d.read_grants ≡ mark 0 c.read_grants ids
unfolding grant_all grant
grant_all_lem c [] h = (c, refl, sym (mark-nil 0 c.read_grants))
grant_all_lem c (id ∷ ids) h =
    let inside : ltb id (length c.read_grants) ≡ true = ground (arith, h.0) in
    let next : ClientNode = record c { read_grants = set c.read_grants id true } in
    let size = set-length c.read_grants id in
    let (d, run, e) =
      grant_all_lem next ids (subst (λ (n : ℕ). All (λ (i : Int32). i < n) ids) (sym size) h.1) in
    (d, rw (inside, ◌>>=◌) run, e ∙ mark-set 0 id id c.read_grants ids (omega arith))

-- After the grants are reset to the `size` of the cluster and any nodes of it have granted, in any
-- order and any number of times, the count is 1 more than the number of different nodes that have.
grant_all-reset_read_grants :
    (c : ClientNode) (size : ℕ) (ids : List Int32)
    → length c.read_grants ≤ size
    → size < sign_bit
    → All (λ (id : Int32). id < size) ids
    → Returns
        (grant_all (reset_read_grants c size) ids)
        λ d. get_read_grants_num d size ≡ suc (distinct 0 size ids)
unfolding reset_read_grants get_read_grants_num
grant_all-reset_read_grants c size ids fits small inside =
    let natural : is_negative size ≡ false = ground arith in
    let fresh : (reset_read_grants c size).read_grants ≡ falses size =
      rw natural (reset_grants-falses c.read_grants size fits) in
    let size_of : length ((reset_read_grants c size).read_grants) ≡ size =
      ap (λ (bs : List Bool). length bs) fresh ∙ falses-length size in
    let (d, run, e) =
      grant_all_lem (reset_read_grants c size) ids
        (subst (λ (n : ℕ). All (λ (i : Int32). i < n) ids) (sym size_of) inside) in
    let marked = e ∙ ap (λ (bs : List Bool). mark 0 bs ids) fresh in
    let bound : length d.read_grants ≡ size =
      ap (λ (bs : List Bool). length bs) marked
      ∙ mark-length 0 (falses size) ids
      ∙ falses-length size in
    (
      d,
      run,
      count_grants_lem 1 d.read_grants (omega arith)
          ∙ omega (arith, ap (λ (bs : List Bool). granted bs) marked, granted-mark 0 size ids),
    )
