-- ===== src/Prelude/Ints.antt =====
-- `int` and `uint32_t`: a value is its 32-bit pattern, a number below 2 ^ 32. Sums wrap, as the
-- two's complement machine computes them; the order of `int` is that of the patterns with the sign
-- bit flipped.
use Prim.Native.Nat.{ℕ, ◌+◌, ◌-◌, ◌%◌, ◌^◌, ◌<◌}
use mathlib.Core.Bool.{Bool}
use native.Mathlib.Omega.{arith}
use raft_2pl.Prelude.Tests.{ltb, leb}

abbrev pub Int32 : Type 0
Int32 = ℕ

abbrev pub u32 : ℕ
u32 = 2 ^ 32

abbrev pub sign_bit : ℕ
sign_bit = 2 ^ 31

-- The pattern of -1.
abbrev pub minus_one : Int32
minus_one = 2 ^ 32 - 1

-- `a < b` on `int`.
abbrev pub slt : Int32 → Int32 → Bool
slt a b = ltb ((a + sign_bit) % u32) ((b + sign_bit) % u32)

abbrev pub is_negative : Int32 → Bool
is_negative a = leb sign_bit a

unfoldable pub add32 : Int32 → Int32 → Int32
add32 a b = (a + b) % u32

unfoldable pub sub32 : Int32 → Int32 → Int32
sub32 a b = (a + u32 - b) % u32

unfoldable pub neg32 : Int32 → Int32
neg32 a = (u32 - a) % u32

-- The conversion of a `uint64_t` to `int` keeps the low 32 bits.
unfoldable pub of_u64 : ℕ → Int32
of_u64 n = n % u32

pub add32-lt : (a b : Int32) → add32 a b < u32
unfolding add32
add32-lt a b = omega arith

pub sub32-lt : (a b : Int32) → sub32 a b < u32
unfolding sub32
sub32-lt a b = omega arith
