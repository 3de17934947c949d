-- ===== src/Silo/Epochs.antt =====
-- The epochs of the Silo engine: the start values of chkArg, chkEpochLoaded and leaderWork of
-- src/silo/silo_util.cc, and the load of the epoch in validationPhase of src/silo/transaction.cc.
use raft_2pl.Prelude.{
  ℕ, zero, suc, ◌+◌, ◌-◌, ◌%◌, ◌^◌, ◌≡◌, ap, refl, Bool, true, false, ◌==◌, ◌&&◌, ltb,
  if◌then◌else◌, List, [], ◌∷◌, Option, none, some, ◌⊎◌, inl, inr, Bool-cases, arith,
}
use raft_2pl.Twopl.Bank.{All}

abbrev pub u64 : ℕ
u64 = 2 ^ 64

-- A thread: its `ThLocalEpoch`, and the epoch that it has loaded and not stored yet.
pub record LocalEpoch : Type 0 where
  pub epoch : ℕ
  pub loaded : Option ℕ

-- `GlobalEpoch`, the thread 0 and the others.
pub record Epochs : Type 0 where
  pub global : ℕ
  pub first : LocalEpoch
  pub others : List LocalEpoch

abbrev idle : LocalEpoch
idle = record { epoch = 0; loaded = none }

zeros : ℕ → List LocalEpoch
zeros zero = []
zeros (suc n) = idle ∷ zeros n

-- The epochs of `suc n` threads at the start.
pub new_epochs : ℕ → Epochs
unfolding zeros
new_epochs n = record { global = 1; first = idle; others = zeros n }

-- The loop starts at the thread 1.
chk_epoch_loaded : ℕ → List LocalEpoch → Bool
chk_epoch_loaded now [] = true
chk_epoch_loaded now (t ∷ ts) =
    let rest = chk_epoch_loaded now ts in if t.epoch == now then rest else false

-- `leaderWork` of the thread 0: the epochs and the timer. `now` is what `rdtscp` gives, `interval`
-- the length of an epoch.
pub leader_work : ℕ → ℕ → Epochs → ℕ → Epochs × ℕ
unfolding chk_epoch_loaded
leader_work interval now e timer =
    if ltb interval ((now + u64 - timer) % u64) && chk_epoch_loaded e.global e.others
    then (record e { global = (e.global + 1) % u64 }, now)
    else (e, timer)

-- The two steps of `ThLocalEpoch[thid_].store(GlobalEpoch.load(..), ..)`.
pub load_global : ℕ → LocalEpoch → LocalEpoch
load_global global t = record t { loaded = some global }

store_loaded : LocalEpoch → Option ℕ → LocalEpoch
store_loaded t none = t
store_loaded t (some v) = record { epoch = v; loaded = none }

pub store_local : LocalEpoch → LocalEpoch
unfolding store_loaded
store_local t = store_loaded t t.loaded

change : (LocalEpoch → LocalEpoch) → ℕ → List LocalEpoch → List LocalEpoch
change f i [] = []
change f zero (t ∷ ts) = f t ∷ ts
change f (suc i) (t ∷ ts) = t ∷ change f i ts

at_thread : (LocalEpoch → LocalEpoch) → Epochs → ℕ → Epochs
at_thread f e zero = record e { first = f e.first }
at_thread f e (suc i) = record e { others = change f i e.others }

pub load_epoch : Epochs → ℕ → Epochs
load_epoch e i = at_thread (load_global e.global) e i

pub store_epoch : Epochs → ℕ → Epochs
store_epoch e i = at_thread store_local e i

-- The threads in any order: one loads the epoch, one stores what it has loaded, or the thread 0
-- works on the epoch, which is one step.
pub data EpochStep : Epochs → Epochs → Type 0 where
  loads : (e : Epochs) (thread : ℕ) → EpochStep e (load_epoch e thread)
  stores : (e : Epochs) (thread : ℕ) → EpochStep e (store_epoch e thread)
  leads : (interval now timer : ℕ) (e : Epochs) → EpochStep e (leader_work interval now e timer).0

pub data EpochSteps (e : Epochs) : Epochs → Type 0 where
  here : EpochSteps e e
  next : {d f : Epochs} → EpochSteps e d → EpochStep d f → EpochSteps e f

-- The epoch of a thread is the global one or the one before it.
abbrev pub IsNear : ℕ → ℕ → Type 0
IsNear global l = (l ≡ global) ⊎ ((l + 1) % u64 ≡ global)

-- What a thread has loaded is near too, and where it is behind, so is what the thread has stored.
abbrev Pending : ℕ → ℕ → Option ℕ → Type 0
Pending global l none = Unit
Pending global l (some v) = (v ≡ global) ⊎ (((v + 1) % u64 ≡ global) × ¬ (l ≡ global))

abbrev IsSafe : ℕ → LocalEpoch → Type 0
IsSafe global t = IsNear global t.epoch × Pending global t.epoch t.loaded

change-All :
    (P : LocalEpoch → Type 0) (f : LocalEpoch → LocalEpoch) (ts : List LocalEpoch) (i : ℕ)
    → ((t : LocalEpoch) → P t → P (f t))
    → All P ts
    → All P (change f i ts)
unfolding change
change-All P f [] i k h = tt
change-All P f (t ∷ ts) zero k h = (k t h.0, h.1)
change-All P f (t ∷ ts) (suc i) k h = (h.0, change-All P f ts i k h.1)

store_loaded-IsSafe :
    (global : ℕ) (t : LocalEpoch) (v : Option ℕ)
    → IsSafe global t
    → Pending global t.epoch v
    → IsSafe global (store_loaded t v)
unfolding store_loaded
store_loaded-IsSafe global t none safe h = safe
store_loaded-IsSafe global t (some v) safe (inl same) = (inl same, tt)
store_loaded-IsSafe global t (some v) safe (inr behind) = (inr behind.0, tt)

not_next : (g l : ℕ) → l ≡ g → ¬ (l ≡ (g + 1) % u64)
not_next g l same e = omega arith

Pending-next : (g l : ℕ) (v : Option ℕ) → l ≡ g → Pending g l v → Pending ((g + 1) % u64) l v
Pending-next g l none same h = tt
Pending-next g l (some v) same (inl is) = inr (ap (λ (x : ℕ). (x + 1) % u64) is, not_next g l same)
Pending-next g l (some v) same (inr behind) = absurd (behind.1 same)

chk_epoch_loaded-IsSafe :
    (now : ℕ) (ts : List LocalEpoch)
    → chk_epoch_loaded now ts ≡ true
    → All (IsSafe now) ts
    → All (IsSafe ((now + 1) % u64)) ts
unfolding chk_epoch_loaded
chk_epoch_loaded-IsSafe now [] h safe = tt
chk_epoch_loaded-IsSafe now (t ∷ ts) h safe = elim (Bool-cases (t.epoch == now)) [
  | inr other ↦ absurd (cc)
  | inl same ↦
      let e : t.epoch ≡ now = ground arith in
      (
        (inr (ap (λ (x : ℕ). (x + 1) % u64) e), Pending-next now t.epoch t.loaded e safe.0.1),
        chk_epoch_loaded-IsSafe now ts (rw same at h) safe.1,
      )
]

and_right : (a b : Bool) → a && b ≡ true → b ≡ true
and_right true b h = h
and_right false b h = absurd (cc)

EpochStep-IsSafe :
    {e f : Epochs} → EpochStep e f → All (IsSafe e.global) e.others → All (IsSafe f.global) f.others
unfolding load_epoch store_epoch load_global store_local at_thread leader_work
EpochStep-IsSafe (loads e zero) h = h
EpochStep-IsSafe (loads e (suc i)) h =
    change-All (IsSafe e.global) _ e.others i (λ t safe. (safe.0, inl refl)) h
EpochStep-IsSafe (stores e zero) h = h
EpochStep-IsSafe (stores e (suc i)) h =
    change-All (IsSafe e.global) _ e.others i
      (λ t safe. store_loaded-IsSafe e.global t t.loaded safe safe.1) h
EpochStep-IsSafe (leads interval now timer e) h =
    let late = ltb interval ((now + u64 - timer) % u64) in
    elim (Bool-cases (late && chk_epoch_loaded e.global e.others)) [
      | inr stays ↦ rw stays h
      | inl moves ↦ rw moves (chk_epoch_loaded-IsSafe e.global e.others (and_right late _ moves) h)
    ]

zeros-IsSafe : (n : ℕ) → All (IsSafe 1) (zeros n)
unfolding zeros
zeros-IsSafe zero = tt
zeros-IsSafe (suc n) = ((inr refl, tt), zeros-IsSafe n)

EpochSteps-IsSafe :
    (n : ℕ) (e : Epochs) → EpochSteps (new_epochs n) e → All (IsSafe e.global) e.others
unfolding new_epochs
EpochSteps-IsSafe n e here = zeros-IsSafe n
EpochSteps-IsSafe n e (next steps step) = EpochStep-IsSafe step (EpochSteps-IsSafe n _ steps)

All-IsNear :
    (global : ℕ) (ts : List LocalEpoch)
    → All (IsSafe global) ts
    → All (λ (t : LocalEpoch). IsNear global t.epoch) ts
All-IsNear global [] h = tt
All-IsNear global (t ∷ ts) h = (h.0.0, All-IsNear global ts h.1)

-- Whatever the threads do, from the start on, each load of the epoch and its store being two steps:
-- the epoch of each thread but the thread 0 is the global epoch or the one before it.
pub EpochSteps-IsNear :
    (n : ℕ) (e : Epochs)
    → EpochSteps (new_epochs n) e
    → All (λ (t : LocalEpoch). IsNear e.global t.epoch) e.others
EpochSteps-IsNear n e steps = All-IsNear e.global e.others (EpochSteps-IsSafe n e steps)
