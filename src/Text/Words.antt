-- ===== src/Text/Words.antt =====
-- `split` takes apart what was joined with the delimiter (src/server/functions.cc, src/server/rpc.cc).
use raft_2pl.Prelude.{ℕ, ◌≡◌, ◌≢◌, ap, refl, ◌==◌, ==_refl, false, true, arith, List, [], ◌∷◌, ◌++◌}
use raft_2pl.Text.{Text, string_split, split, non_empty, same_text}
use raft_2pl.Twopl.Bank.{All}

pub same_text_refl : (t : Text) → same_text t t ≡ true
unfolding same_text
same_text_refl [] = refl
same_text_refl (c ∷ cs) = rw (==_refl c) (same_text_refl cs)

abbrev AllOther : ℕ → Text → Type 0
AllOther delim s = All (λ (x : ℕ). x ≢ delim) s

-- A word: at least one character, and none of them the delimiter.
abbrev pub IsWord : ℕ → Text → Type 0
IsWord delim [] = ⊥
IsWord delim (c ∷ cs) = AllOther delim (c ∷ cs)

-- The words in their order, each followed by the delimiter, and a last text.
abbrev joined : ℕ → List Text → Text → Text
joined delim [] last = last
joined delim (w ∷ ws) last = w ++ delim ∷ joined delim ws last

string_split-word :
    (delim : ℕ) (w rest : Text)
    → AllOther delim w
    → string_split (w ++ delim ∷ rest) delim ≡ w ∷ string_split rest delim
unfolding string_split
string_split-word delim [] rest h = ground arith
string_split-word delim (c ∷ cs) rest h =
    let other : (c == delim) ≡ false = ground (arith, h.0) in
    rw (other, string_split-word delim cs rest h.1) refl

string_split-last :
    (delim c : ℕ) (cs : Text)
    → AllOther delim (c ∷ cs)
    → string_split (c ∷ cs) delim ≡ (c ∷ cs) ∷ []
unfolding string_split
string_split-last delim c [] h =
    let other : (c == delim) ≡ false = ground (arith, h.0) in rw other refl
string_split-last delim c (d ∷ cs) h =
    let other : (c == delim) ≡ false = ground (arith, h.0) in
    rw (other, string_split-last delim d cs h.1) refl

-- The words of a joined text, whatever empty items stand between them.
pub split-joined :
    (delim : ℕ) (ws : List Text) (w : Text)
    → All (AllOther delim) ws
    → IsWord delim w
    → (string_split (joined delim ws w) delim ≡ ws ++ w ∷ [])
      × (split (joined delim ws w) delim ≡ non_empty ws ++ w ∷ [])
unfolding split
split-joined delim [] [] h k = absurd k
split-joined delim [] (c ∷ cs) h k = let e = string_split-last delim c cs k in (e, rw e refl)
split-joined delim ([] ∷ ws) w h k =
    let e = string_split-word delim [] (joined delim ws w) h.0 in
    let r = split-joined delim ws w h.1 k in (rw (e, r.0) refl, rw e r.1)
split-joined delim ((c ∷ cs) ∷ ws) w h k =
    let e = string_split-word delim (c ∷ cs) (joined delim ws w) h.0 in
    let r = split-joined delim ws w h.1 k in (rw (e, r.0) refl, rw e (ap (◌∷◌ (c ∷ cs)) r.1))
