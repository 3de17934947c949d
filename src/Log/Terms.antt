-- ===== src/Log/Terms.antt =====
-- Look-ups in the log never read out of bounds, and agree with each other.
use raft_2pl.Prelude.{
  ◌>>=◌, ℕ, zero, suc, ◌<◌, ◌≤◌, ◌≡◌, refl, Int32, u32, sign_bit, is_negative, minus_one, slt, ◌==◌,
  if◌then◌else◌, sub32, of_u64, arith, inl, inr, Bool-cases, ◌||◌, ok, List, [], ◌∷◌, some, length,
  get_elem?,
}
use raft_2pl.Types.{Entry}
use raft_2pl.Log.{Log, last_log_index, get_term, get_entry, log_match}

-- The term at a number, -1 past the end.
abbrev term_at : List Entry → ℕ → Int32
term_at [] i = minus_one
term_at (e ∷ es) zero = e.term
term_at (e ∷ es) (suc i) = term_at es i

get_elem?-term_at :
    (es : List Entry) (i : ℕ)
    → i < length es
    → (e : Entry) × (get_elem? es i ≡ some e) × (e.term ≡ term_at es i)
get_elem?-term_at [] i h = absurd (omega arith)
get_elem?-term_at (e ∷ es) zero h = (e, refl, refl)
get_elem?-term_at (e ∷ es) (suc i) h = get_elem?-term_at es i (omega arith)

term_at_past : (es : List Entry) (i : ℕ) → length es ≤ i → term_at es i ≡ minus_one
term_at_past [] i h = refl
term_at_past (e ∷ es) zero h = absurd (omega arith)
term_at_past (e ∷ es) (suc i) h = term_at_past es i (omega arith)

-- On a log of fewer than 2 ^ 31 entries `getTerm` never reads out of bounds: it returns -1 for a
-- negative index and past the end, and otherwise the term of the entry. `match` is true exactly
-- for a negative index and for the term that `getTerm` returns.
pub get_term_lem :
    (log : Log) (index : Int32) (term : Int32)
    → length log.entries < sign_bit
    → index < u32
    → (get_term log index ≡ ok (if is_negative index then minus_one else term_at log.entries index))
      × (log_match log index term ≡ ok (is_negative index || (term == term_at log.entries index)))
unfolding get_term get_entry log_match sub32 of_u64
get_term_lem log index term small word = elim (Bool-cases (is_negative index)) [
  | inl e ↦ (rw e, rw e)
  | inr e ↦ elim (Bool-cases (slt (last_log_index log) index)) [
    | inl past ↦
        let gone = term_at_past log.entries index (unfold last_log_index in ground arith) in
        (rw (e, past, gone), rw (e, past, gone))
    | inr inside ↦
        let (x, got, term_of) =
          get_elem?-term_at log.entries index (unfold last_log_index in ground arith) in
        let reads : get_entry log index ≡ ok x = ground (arith, got) in
        (rw (e, inside, reads, ◌>>=◌, term_of), rw (e, inside, reads, ◌>>=◌, term_of))
  ]
]
