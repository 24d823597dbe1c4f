-- ===== src/Prelude/Bits.antt =====
-- Bit operations of C on unsigned words, as arithmetic: `|` of disjoint fields and the test of a
-- single bit, at every width.
use Prim.Native.Nat.{ℕ, zero, suc, ◌+◌, ◌*◌, ◌/◌, ◌%◌, ◌^◌, ◌≤◌, ◌<◌, min, max}
use Prim.Native.Nat.{
  bit_and, bit_or, bit_xor, bitwise, digits, bit_and-bitwise, bit_or-bitwise, bit_xor-bitwise,
  differ,
}
use mathlib.Core.Path.{◌≡◌, refl, ap, sym, ◌∙◌}
use native.Mathlib.Nat.{pow-suc}
use native.Mathlib.Omega.{arith}

infixl 75 ◌<<<◌ ◌>>>◌
abbrev pub ◌<<<◌ : ℕ → ℕ → ℕ
x <<< k = x * 2 ^ k

abbrev pub ◌>>>◌ : ℕ → ℕ → ℕ
x >>> k = x / 2 ^ k

digits_of_zero : (z : ℕ → ℕ) (f : ℕ → ℕ → ℕ) (fuel y : ℕ) → digits z f fuel zero y ≡ z y
digits_of_zero z f zero y = refl
digits_of_zero z f (suc fuel) y = refl

-- Fuel beyond the first operand changes nothing in the recursion on binary digits.
more_digits :
    (z : ℕ → ℕ) (f : ℕ → ℕ → ℕ) (x y fuel more : ℕ)
    → x ≤ fuel
    → fuel ≤ more
    → digits z f more x y ≡ digits z f fuel x y
more_digits z f zero y fuel more h k = digits_of_zero z f more y ∙ sym (digits_of_zero z f fuel y)
more_digits z f (suc x) y zero more h k = absurd (omega arith)
more_digits z f (suc x) y fuel zero h k = absurd (omega arith)
more_digits z f (suc x) y (suc fuel) (suc more) h k =
    let low = f (suc x % 2) (y % 2) in
    ap (λ (high : ℕ). high * 2 + low)
      (more_digits z f (suc x / 2) (y / 2) fuel more (omega arith) (omega arith))

-- So the digits above the lowest are those of the halves.
bitwise_halves :
    (z : ℕ → ℕ) (f : ℕ → ℕ → ℕ) (x y : ℕ)
    → bitwise z f (suc x) y ≡ f (suc x % 2) (y % 2) + 2 * bitwise z f (suc x / 2) (y / 2)
bitwise_halves z f x y =
    let half = suc x / 2 in
    omega (arith, more_digits z f half (y / 2) half x (omega arith) (omega arith))

pub bit_or_step : (x y : ℕ) → bit_or x y ≡ max (x % 2) (y % 2) + 2 * bit_or (x / 2) (y / 2)
bit_or_step zero y = simp bit_or-bitwise (omega arith)
bit_or_step (suc x) y = simp bit_or-bitwise (bitwise_halves (λ t. t) max x y)

pub bit_and_step : (x y : ℕ) → bit_and x y ≡ min (x % 2) (y % 2) + 2 * bit_and (x / 2) (y / 2)
bit_and_step zero y = simp bit_and-bitwise (omega arith)
bit_and_step (suc x) y = simp bit_and-bitwise (bitwise_halves (λ t. 0) min x y)

pub zero-bit_or : (y : ℕ) → bit_or 0 y ≡ y
zero-bit_or y = bit_or-bitwise 0 y

bit_and-zero_below : (bound x : ℕ) → x < bound → bit_and x 0 ≡ 0
bit_and-zero_below zero x h = absurd (omega arith)
bit_and-zero_below (suc bound) zero h = refl
bit_and-zero_below (suc bound) (suc x) h =
    let ih = bit_and-zero_below bound (suc x / 2) (omega arith) in
    omega (arith, ih, bit_and_step (suc x) 0)

pub bit_and-zero : (x : ℕ) → bit_and x 0 ≡ 0
bit_and-zero x = bit_and-zero_below (suc x) x (omega arith)

field-suc : (high k : ℕ) → high <<< suc k ≡ (high <<< k) + (high <<< k)
field-suc high k = omega (arith, ap (λ (t : ℕ). high * t) (pow-suc 2 k))

-- A field of `k` bits and the bits above it: their `|` is their sum.
pub bit_or_fields : (k high low : ℕ) → low < 2 ^ k → bit_or low (high <<< k) ≡ low + high * 2 ^ k
bit_or_fields zero high low fits =
    let empty : low ≡ 0 = omega arith in rw empty (omega (arith, zero-bit_or (high <<< 0)))
bit_or_fields (suc k) high low fits =
    let ih = bit_or_fields k high (low / 2) (omega (arith, pow-suc 2 k)) in
    ground (arith, ih, field-suc high k, bit_or_step low (high <<< suc k))

-- The sum of two binary digits without the carry, as `bit_xor` takes it.
pub bit_xor_step : (x y : ℕ) → bit_xor x y ≡ differ (x % 2) (y % 2) + 2 * bit_xor (x / 2) (y / 2)
bit_xor_step zero y = simp bit_xor-bitwise (omega arith)
bit_xor_step (suc x) y = simp bit_xor-bitwise (bitwise_halves (λ t. t) differ x y)

differ-le-max : (x y : ℕ) → differ x y ≤ max x y
differ-le-max zero y = omega arith
differ-le-max (suc x) zero = omega arith
differ-le-max (suc x) (suc y) = omega (arith, differ-le-max x y)

-- Both operands in `k` bits: so is the result.
pub bit_xor-lt : (k x y : ℕ) → x < 2 ^ k → y < 2 ^ k → bit_xor x y < 2 ^ k
bit_xor-lt zero x y h h' =
    let e : x ≡ 0 = omega arith in let e' : y ≡ 0 = omega arith in rw (e, e') (omega arith)
bit_xor-lt (suc k) x y h h' =
    let ih =
      bit_xor-lt k (x / 2) (y / 2) (omega (arith, pow-suc 2 k)) (omega (arith, pow-suc 2 k)) in
    omega (arith, ih, bit_xor_step x y, differ-le-max (x % 2) (y % 2), pow-suc 2 k)

pub bit_and-le-left : (bound x y : ℕ) → x < bound → bit_and x y ≤ x
bit_and-le-left zero x y h = absurd (omega arith)
bit_and-le-left (suc bound) zero y h = omega (arith, bit_and-bitwise 0 y)
bit_and-le-left (suc bound) (suc x) y h =
    omega (arith, bit_and-le-left bound (suc x / 2) (y / 2) (omega arith), bit_and_step (suc x) y)
