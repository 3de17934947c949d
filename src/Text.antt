-- ===== src/Text.antt =====
-- Text: `split`, `stat_mkdir`, `mkdir_path`, `mymkdir` and `myrand` of src/server/functions.cc, and
-- `discernRPC` and `StringSplit` of src/server/rpc.cc. A text is the list of its characters' codes.
pub mod Words
pub mod Paths
use raft_2pl.Prelude.{
  ℕ, ◌%◌, Bool, true, false, ◌&&◌, Int32, leb, ◌==◌, if◌then◌else◌, sub32, add32, minus_one, Run,
  ok, fault, undefined, List, [], ◌∷◌, ◌++◌, Option, none, some, of_u64,
}

abbrev pub Text : Type 0
Text = List ℕ

abbrev pub colon : ℕ
colon = 58

abbrev pub slash : ℕ
slash = 47

-- `==` of strings, and `strcmp` of C strings.
pub same_text : Text → Text → Bool
same_text [] [] = true
same_text [] (d ∷ ds) = false
same_text (c ∷ cs) [] = false
same_text (c ∷ cs) (d ∷ ds) = c == d && same_text cs ds

-- A character in front of the first of the items that are still to be read.
abbrev onto_first : ℕ → List Text → List Text
onto_first c [] = (c ∷ []) ∷ []
onto_first c (item ∷ items) = (c ∷ item) ∷ items

-- What `getline` with `delim` gives until it fails: nothing after a delimiter that ends the text.
pub string_split : Text → ℕ → List Text
string_split [] sep = []
string_split (c ∷ cs) sep =
    let rest = string_split cs sep in if c == sep then [] ∷ rest else onto_first c rest

abbrev pub non_empty : List Text → List Text
non_empty [] = []
non_empty ([] ∷ items) = non_empty items
non_empty ((c ∷ cs) ∷ items) = (c ∷ cs) ∷ non_empty items

pub split : Text → ℕ → List Text
unfolding string_split
split s delim = non_empty (string_split s delim)

-- `discernRPC`: -1 for what is no digit; `str[0]` of an empty text is its final zero.
unfoldable discern_rpc : Text → Int32
discern_rpc [] = minus_one
discern_rpc (c ∷ cs) = if leb 48 c && leb c 57 then sub32 c 48 else minus_one

-- The sum is `unsigned`: `rnd() % (max - min) + min`; a remainder by 0 is undefined.
unfoldable pub myrand : (rnd low high : Int32) → Run Int32
myrand rnd low high =
    let width = sub32 high low in
    if width == 0 then fault undefined else ok (add32 (rnd % width) low)

-- The file system is the C library's: `stat` tells whether a path is a directory, if it is there,
-- and `mkdir` is the file system afterwards, or nothing if it failed.
module _ {Files : Type 0} (stat : Files → Text → Option Bool)
    (mkdir : Files → Text → Option Files) where
  -- The files afterwards, and whether the result is 0; otherwise it is -1.
  pub stat_mkdir : Files → Text → Files × Bool
  stat_mkdir files path = elim (stat files path) [
    | some is_dir ↦ (files, is_dir)
    | none ↦ elim (mkdir files path) [ some made ↦ (made, true) | none ↦ (files, false) ]
  ]

  -- The loop over the slashes of the rest, `before` being the path up to there.
  pub mkdir_at : Files → (before rest : Text) → Files × Bool
  unfolding stat_mkdir
  mkdir_at files before [] = (files, true)
  mkdir_at files before (c ∷ cs) =
      let made = stat_mkdir files before in
      let next = mkdir_at (if c == slash then made.0 else files) (before ++ c ∷ []) cs in
      if c == slash then (if made.1 then next else (made.0, false)) else next

  -- `mkdir_path`, and `mymkdir` with the mode 0755: the search for a slash starts at the second
  -- character, which an empty path does not have.
  unfoldable pub mkdir_path : Files → Text → Run (Files × Bool)
  unfolding mkdir_at
  mkdir_path files [] = fault undefined
  mkdir_path files (c ∷ cs) = ok (mkdir_at files (c ∷ []) cs)
