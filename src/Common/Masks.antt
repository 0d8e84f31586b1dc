-- ===== src/Common/Masks.antt =====
-- `x & m` at a variable `x`, for the masks that select low bits.
use Prim.Native.Nat.{ℕ, zero, suc, ◌+◌, ◌*◌, ◌/◌, ◌%◌, ◌≤◌, min, bit_and, digits, bit_and-bitwise}
use mathlib.Core.Path.{◌≡◌, refl, ap}
use native.Mathlib.Omega.{arith}

-- The recursion that `bit_and` stands for, on fuel.
abbrev both : ℕ → ℕ → ℕ → ℕ
both fuel x y = digits (λ rest. zero) min fuel x y

both-enough : (f x y g : ℕ) → x ≤ g → x ≤ f → both f x y ≡ both g x y
both-enough zero zero y zero le le' = refl
both-enough zero zero y (suc g) le le' = refl
both-enough (suc f) zero y zero le le' = refl
both-enough (suc f) zero y (suc g) le le' = refl
both-enough zero (suc x) y g le le' = absurd (omega (arith, le'))
both-enough (suc f) (suc x) y zero le le' = absurd (omega (arith, le))
both-enough (suc f) (suc x) y (suc g) le le' =
    omega (arith, both-enough f (suc x / 2) (y / 2) g (omega (arith, le)) (omega (arith, le')))

bit_and-zero_left : (y : ℕ) → bit_and 0 y ≡ 0
bit_and-zero_left y = bit_and-bitwise 0 y

-- The lowest bit of a conjunction, and the others.
bit_and-halves : (x y : ℕ) → bit_and x y ≡ min (x % 2) (y % 2) + 2 * bit_and (x / 2) (y / 2)
bit_and-halves zero y = omega (arith, bit_and-zero_left (y / 2), bit_and-zero_left y)
bit_and-halves (suc x) y =
    let half = suc x / 2 in
    let enough = both-enough x half (y / 2) half (omega arith) (omega arith) in
    omega (arith, enough, bit_and-bitwise half (y / 2), bit_and-bitwise (suc x) y)

bit_and-none : (fuel x : ℕ) → x ≤ fuel → bit_and x 0 ≡ 0
bit_and-none fuel zero le = bit_and-zero_left 0
bit_and-none zero (suc x) le = absurd (omega (arith, le))
bit_and-none (suc fuel) (suc x) le =
    omega (arith, bit_and-none fuel (suc x / 2) (omega (arith, le)), bit_and-halves (suc x) 0)

mask4 : (x : ℕ) → bit_and x 15 ≡ x % 16
mask4 x = omega (
  arith,
  bit_and-halves x 15,
  bit_and-halves (x / 2) 7,
  bit_and-halves (x / 2 / 2) 3,
  bit_and-halves (x / 2 / 2 / 2) 1,
  bit_and-none (x / 2 / 2 / 2 / 2) (x / 2 / 2 / 2 / 2) (omega arith),
)

mask8 : (x : ℕ) → bit_and x 255 ≡ x % 256
mask8 x = omega (
  arith,
  bit_and-halves x 255,
  bit_and-halves (x / 2) 127,
  bit_and-halves (x / 2 / 2) 63,
  bit_and-halves (x / 2 / 2 / 2) 31,
  mask4 (x / 2 / 2 / 2 / 2),
)

mask12 : (x : ℕ) → bit_and x 4095 ≡ x % 4096
mask12 x = omega (
  arith,
  bit_and-halves x 4095,
  bit_and-halves (x / 2) 2047,
  bit_and-halves (x / 2 / 2) 1023,
  bit_and-halves (x / 2 / 2 / 2) 511,
  mask8 (x / 2 / 2 / 2 / 2),
)

mask16 : (x : ℕ) → bit_and x 65535 ≡ x % 65536
mask16 x = omega (
  arith,
  bit_and-halves x 65535,
  bit_and-halves (x / 2) 32767,
  bit_and-halves (x / 2 / 2) 16383,
  bit_and-halves (x / 2 / 2 / 2) 8191,
  mask12 (x / 2 / 2 / 2 / 2),
)

-- Sixteen bits from the fourth on.
pub bit_and-slot : (x : ℕ) → bit_and x 524280 ≡ x / 8 % 65536 * 8
bit_and-slot x = omega (
  arith,
  bit_and-halves x 524280,
  bit_and-halves (x / 2) 262140,
  bit_and-halves (x / 2 / 2) 131070,
  mask16 (x / 2 / 2 / 2),
)

-- The pages of a word, and the two indices of a page.
pub bit_and-ten : (x : ℕ) → bit_and x 1023 ≡ x % 1024
bit_and-ten x = omega (arith, bit_and-halves x 1023, bit_and-halves (x / 2) 511, mask8 (x / 2 / 2))

mask20 : (x : ℕ) → bit_and x 1048575 ≡ x % 1048576
mask20 x = omega (
  arith,
  bit_and-halves x 1048575,
  bit_and-halves (x / 2) 524287,
  bit_and-halves (x / 2 / 2) 262143,
  bit_and-halves (x / 2 / 2 / 2) 131071,
  mask16 (x / 2 / 2 / 2 / 2),
)

-- A mask whose lowest bit is clear.
unmask : (x m : ℕ) → bit_and x (2 * m) ≡ 2 * bit_and (x / 2) m
unmask x m =
    let half : 2 * m / 2 ≡ m = omega arith in
    omega (arith, ap (bit_and (x / 2)) half, bit_and-halves x (2 * m))

unmask4 : (x m : ℕ) → bit_and x (16 * m) ≡ 16 * bit_and (x / 2 / 2 / 2 / 2) m
unmask4 x m =
    let sixteen : 16 * m ≡ 2 * (2 * (2 * (2 * m))) = omega arith in
    omega (
      arith,
      unmask x (2 * (2 * (2 * m))),
      unmask (x / 2) (2 * (2 * m)),
      unmask (x / 2 / 2) (2 * m),
      unmask (x / 2 / 2 / 2) m,
      ap (bit_and x) sixteen,
    )

-- The page of an address.
pub bit_and-page : (x : ℕ) → bit_and x 4294963200 ≡ x / 4096 % 1048576 * 4096
bit_and-page x =
    let y = x / 2 / 2 / 2 / 2 in
    let z = y / 2 / 2 / 2 / 2 in
    let w = z / 2 / 2 / 2 / 2 in
    let pages : w ≡ x / 4096 = omega arith in
    omega (arith, unmask4 x 268435200, unmask4 y 16777200, unmask4 z 1048575, mask20 w, pages)
