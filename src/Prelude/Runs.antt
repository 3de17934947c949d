-- ===== src/Prelude/Runs.antt =====
-- The outcome of a call: a value, or one of the ways in which the process or thread stops.
use mathlib.Core.Path.{◌≡◌, refl, ap}
use mathlib.Core.Logic.{◌⊎◌, inl, inr}
use mathlib.Core.Bool.{Bool, true, false}

-- `assert` fails; the macro ERR calls `exit(1)`; an exception that nothing catches; behaviour that the language leaves undefined; a
-- `while (true)` that did not end within the rounds given to it.
pub data Fault : Type 0 where
  assertion exit_failure uncaught undefined out_of_fuel : Fault

pub data Run {ℓ} (A : Type ℓ) : Type ℓ where
  fault : Fault → Run A
  ok : A → Run A

-- The call ends normally, in a value that satisfies `Post`.
abbrev pub Returns {ℓ κ} : {A : Type ℓ} → Run A → (A → Type κ) → Type (ℓ ⊔ κ)
Returns {A} run Post = (res : A) × (run ≡ ok res) × Post res

infixl 5 ◌>>=◌ ◌>>◌
abbrev pub ◌>>=◌ {ℓ κ} : {A : Type ℓ} {B : Type κ} → Run A → (A → Run B) → Run B
fault why >>= next = fault why
ok res >>= next = next res

abbrev pub ◌>>◌ {ℓ} : {B : Type ℓ} → Run (Unit {0}) → Run B → Run B
m >> k = m >>= λ _. k

-- `assert(b)`.
abbrev pub assert : Bool → Run (Unit {0})
assert true = ok tt
assert false = fault assertion

ok_or {ℓ} : {A : Type ℓ} → A → Run A → A
ok_or d (ok a) = a
ok_or d (fault e) = d

pub ok_injective {ℓ} : {A : Type ℓ} {a b : A} → ◌≡◌ {A = Run A} (ok a) (ok b) → a ≡ b
unfolding ok_or
ok_injective {A} {a} {b} e = ap (ok_or a) e

pub Run-cases {ℓ} :
    {A : Type ℓ} (run : Run A) → ((why : Fault) × (run ≡ fault why)) ⊎ ((a : A) × (run ≡ ok a))
Run-cases (fault why) = inl (why, refl)
Run-cases (ok a) = inr (a, refl)
