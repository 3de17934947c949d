-- ===== src/Status/Votes.antt =====
-- The vote counter behind the quorum test.
use raft_2pl.Prelude.{
  ℕ, zero, suc, ◌+◌, ◌%◌, ◌≡◌, ◌∙◌, refl, Int32, u32, is_negative, ◌==◌, if◌then◌else◌, add32,
  arith, inl, inr, false, ok, ◌>>=◌, Returns, Run, List, [], ◌∷◌, Option-cases,
}
use raft_2pl.Status.{Status, find_vote, put_vote, vote_at, add_vote_count}

vote_at-put_vote :
    (votes : List (Int32 × Int32)) (i j v : Int32)
    → vote_at (put_vote votes i v) j ≡ (if j == i then v else vote_at votes j)
unfolding vote_at find_vote put_vote
vote_at-put_vote [] i j v = ground arith
vote_at-put_vote ((k, n) ∷ votes) i j v = ground (arith, vote_at-put_vote votes i j v)

-- A vote for `index`: the count goes up by one (from 0 where there was none) and is returned; the
-- counts of all other indices and the rest of the status stay.
pub record Voted (st : Status) (index : Int32) (res : Int32 × Status) : Type 0 where
  pub count : res.0 ≡ add32 (vote_at st.votes index) 1
  pub votes :
      (j : Int32)
      → vote_at res.1.votes j
        ≡ (if j == index then add32 (vote_at st.votes index) 1 else vote_at st.votes j)
  pub frame :
      (res.1.state ≡ st.state)
      × (res.1.current_term ≡ st.current_term)
      × (res.1.voted_for ≡ st.voted_for)

add_vote_count_run :
    (st : Status) (index : Int32)
    → is_negative index ≡ false
    → let n = add32 (vote_at st.votes index) 1 in
      add_vote_count st index ≡ ok (n, record st { votes = put_vote st.votes index n })
unfolding add_vote_count vote_at add32
add_vote_count_run st index h = elim (Option-cases (find_vote st.votes index)) [
  | inl e ↦ ground (arith, vote_at-put_vote st.votes index index 1)
  | inr (n, e) ↦ ground (arith, vote_at-put_vote st.votes index index (add32 n 1))
]

-- A vote for a non-negative index returns the count with this vote and changes no other count.
pub add_vote_count_lem :
    (st : Status) (index : Int32)
    → is_negative index ≡ false
    → Returns (add_vote_count st index) (Voted st index)
add_vote_count_lem st index h = (
  _,
  add_vote_count_run st index h,
  record {
    count = refl;
    votes = λ j. vote_at-put_vote st.votes index j (add32 (vote_at st.votes index) 1);
    frame = (refl, refl, refl);
  },
)

-- `suc n` votes for one index, one after the other.
pub add_votes : ℕ → Status → Int32 → Run (Int32 × Status)
add_votes zero st index = add_vote_count st index
add_votes (suc n) st index = add_votes n st index >>= λ r. add_vote_count r.1 index

-- The last of `n + 1` votes for a non-negative index returns the old count plus `n + 1`, modulo
-- 2 ^ 32, and that is the new count.
pub add_votes_lem :
    (n : ℕ) (st : Status) (index : Int32)
    → is_negative index ≡ false
    → Returns (add_votes n st index) λ res.
      (res.0 ≡ (vote_at st.votes index + n + 1) % u32) × (vote_at res.1.votes index ≡ res.0)
unfolding add_votes add32
add_votes_lem zero st index h =
    let (res, run, v) = add_vote_count_lem st index h in
    (res, run, (v.count ∙ omega arith, v.votes index ∙ ground (arith, v.count)))
add_votes_lem (suc n) st index h =
    let (first, ran, (count, stored)) = add_votes_lem n st index h in
    let (res, run, v) = add_vote_count_lem first.1 index h in
    (res, rw (ran, ◌>>=◌) run, (omega (arith, v.count), v.votes index ∙ ground (arith, v.count)))

pub vote_at-nil : (j : Int32) → vote_at [] j ≡ 0
unfolding vote_at find_vote
vote_at-nil j = refl
