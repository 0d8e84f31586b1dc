-- ===== src/Common/Words.antt =====
-- Machine words: a value is a plain number, and every wrap-around is written out.
use Prim.Native.Nat.{ℕ, ◌+◌, ◌-◌, ◌%◌, ◌^◌, bit_and}
use mathlib.Core.Bool.{Bool, not}
use unitrans.Common.Tests.{◌==◌, ltb, if◌then◌else◌}

abbrev pub u8 : ℕ → ℕ
u8 n = n % 2 ^ 8

abbrev pub u16 : ℕ → ℕ
u16 n = n % 2 ^ 16

abbrev pub u32 : ℕ → ℕ
u32 n = n % 2 ^ 32

abbrev pub u64 : ℕ → ℕ
u64 n = n % 2 ^ 64

-- `a - b` on `uint32_t`, for `b` below 2 ^ 32.
abbrev pub sub32 : ℕ → ℕ → ℕ
sub32 a b = (a + (2 ^ 32 - b)) % 2 ^ 32

-- `x & m` as a condition.
abbrev pub has : ℕ → ℕ → Bool
has x m = not (bit_and x m == 0)

-- The cast of a byte through `signed char` to a 32-bit word.
abbrev pub sext8 : ℕ → ℕ
sext8 b = if ltb b 128 then b else b + (2 ^ 32 - 256)
