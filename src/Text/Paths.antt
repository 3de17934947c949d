-- ===== src/Text/Paths.antt =====
-- `mkdir_path` makes the directories of a path.
use raft_2pl.Prelude.{
  ℕ, ◌≡◌, ◌∙◌, refl, Bool, true, ◌==◌, ok, Option, some, List, [], ◌∷◌, ◌++◌, inl, inr, Bool-cases,
  Option-cases, if◌then◌else◌, sym, ap, subst, ok_injective,
}
use raft_2pl.Text.{Text, slash, stat_mkdir, mkdir_at, mkdir_path}
use raft_2pl.Twopl.Bank.{All}

-- The paths that end before a slash, after the first character.
abbrev parents : (before rest : Text) → List Text
parents before [] = []
parents before (c ∷ cs) =
    let more = parents (before ++ c ∷ []) cs in if c == slash then before ∷ more else more

module _ {Files : Type 0} (stat : Files → Text → Option Bool)
    (mkdir : Files → Text → Option Files) where
  abbrev IsDirectory : Files → Text → Type 0
  IsDirectory files path = stat files path ≡ some true

  -- What `mkdir` does: the path is a directory afterwards, and what was one still is.
  pub record Makes : Type 1 where
    pub made :
        (files after : Files) (path : Text) → mkdir files path ≡ some after → IsDirectory after path
    pub kept :
        (files after : Files) (path other : Text)
        → mkdir files path ≡ some after
        → IsDirectory files other
        → IsDirectory after other

  -- A property of the files that a successful `mkdir` keeps.
  abbrev pub IsKept : (Files → Type 0) → Type 0
  IsKept P = (files after : Files) (path : Text) → mkdir files path ≡ some after → P files → P after

  stat_mkdir-kept :
      (P : Files → Type 0) (files : Files) (path : Text)
      → IsKept P
      → P files
      → P (stat_mkdir stat mkdir files path).0
  unfolding stat_mkdir
  stat_mkdir-kept P files path m h = elim (Option-cases (stat files path)) [
    | inr (d, e) ↦ rw (stat_mkdir, e) h
    | inl e ↦ elim (Option-cases (mkdir files path)) [
      | inl f ↦ rw (stat_mkdir, e, f) h
      | inr (after, f) ↦ rw (stat_mkdir, e, f) (m files after path f h)
    ]
  ]

  stat_mkdir_lem :
      (files : Files) (path : Text)
      → Makes
      → (stat_mkdir stat mkdir files path).1 ≡ true
      → IsDirectory (stat_mkdir stat mkdir files path).0 path
  unfolding stat_mkdir
  stat_mkdir_lem files path m h = elim (Option-cases (stat files path)) [
    | inr (d, e) ↦ rw (stat_mkdir, e) (e ∙ ap (λ (b : Bool). some b) (rw (stat_mkdir, e) at h))
    | inl e ↦ elim (Option-cases (mkdir files path)) [
      | inl f ↦ absurd (cc)
      | inr (after, f) ↦ rw (stat_mkdir, e, f) (m.made files after path f)
    ]
  ]

  pub mkdir_at-kept :
      (P : Files → Type 0) (files : Files) (before rest : Text)
      → IsKept P
      → P files
      → P (mkdir_at stat mkdir files before rest).0
  unfolding mkdir_at
  mkdir_at-kept P files before [] m h = h
  mkdir_at-kept P files before (c ∷ cs) m h = elim (Bool-cases (c == slash)) [
    | inr plain ↦ rw plain (mkdir_at-kept P files (before ++ c ∷ []) cs m h)
    | inl cut ↦
        let made = stat_mkdir stat mkdir files before in
        let still = stat_mkdir-kept P files before m h in
        elim (Bool-cases made.1) [
          | inr failed ↦ rw (cut, failed) still
          | inl good ↦ rw (cut, good) (mkdir_at-kept P made.0 (before ++ c ∷ []) cs m still)
        ]
  ]

  moved :
      {r r' : Files × Bool} {ps ps' : List Text}
      → r ≡ r'
      → ps ≡ ps'
      → All (IsDirectory r'.0) ps'
      → All (IsDirectory r.0) ps
  moved {r} {r'} {ps} {ps'} e f h =
      subst (λ (x : Files × Bool). All (IsDirectory x.0) ps) (sym e)
        (subst (All (IsDirectory r'.0)) (sym f) h)

  mkdir_at_lem :
      (files : Files) (before rest : Text)
      → Makes
      → (mkdir_at stat mkdir files before rest).1 ≡ true
      → All (IsDirectory (mkdir_at stat mkdir files before rest).0) (parents before rest)
  unfolding mkdir_at
  mkdir_at_lem files before [] m h = tt
  mkdir_at_lem files before (c ∷ cs) m h = elim (Bool-cases (c == slash)) [
    | inr plain ↦
        let same : mkdir_at stat mkdir files before (c ∷ cs)
            ≡ mkdir_at stat mkdir files (before ++ c ∷ []) cs =
          rw plain refl in
        let same_parents : parents before (c ∷ cs) ≡ parents (before ++ c ∷ []) cs =
          rw plain refl in
        moved same same_parents (mkdir_at_lem files (before ++ c ∷ []) cs m (rw same at h))
    | inl cut ↦
        let made = stat_mkdir stat mkdir files before in
        elim (Bool-cases made.1) [
          | inr failed ↦ absurd (cc)
          | inl good ↦
              let same : mkdir_at stat mkdir files before (c ∷ cs)
                  ≡ mkdir_at stat mkdir made.0 (before ++ c ∷ []) cs =
                rw (cut, good) refl in
              let here = stat_mkdir_lem files before m good in
              let same_parents : parents before (c ∷ cs) ≡ before ∷ parents (before ++ c ∷ []) cs =
                rw cut refl in
              moved same same_parents (
                mkdir_at-kept (λ (f : Files). IsDirectory f before) made.0 (before ++ c ∷ []) cs
                    (λ f after path made still. m.kept f after path before made still) here,
                mkdir_at_lem made.0 (before ++ c ∷ []) cs m (rw same at h),
              )
        ]
  ]

-- With a `mkdir` that makes a directory and leaves the others, a call of `mkdir_path` that reports
-- success leaves a directory at every path that ends before a slash, from the second character on.
mkdir_path_lem :
    {Files : Type 0} (stat : Files → Text → Option Bool) (mkdir : Files → Text → Option Files)
    (files after : Files) (c : ℕ) (path : Text)
    → Makes stat mkdir
    → mkdir_path stat mkdir files (c ∷ path) ≡ ok (after, true)
    → All (IsDirectory stat mkdir after) (parents (c ∷ []) path)
unfolding mkdir_path
mkdir_path_lem {Files} stat mkdir files after c path m h =
    let e : mkdir_at stat mkdir files (c ∷ []) path ≡ (after, true) = ok_injective h in
    subst (λ (f : Files). All (IsDirectory stat mkdir f) (parents (c ∷ []) path))
      (ap (λ (r : Files × Bool). r.0) e)
      (mkdir_at_lem stat mkdir files (c ∷ []) path m (ap (λ (r : Files × Bool). r.1) e))
