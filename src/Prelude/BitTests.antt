-- ===== src/Prelude/BitTests.antt =====
-- Single bits of words: what `|`, `<<`, truncation and the test `x & (1 << k)` do to them.
use Prim.Native.Nat.{ℕ, zero, suc, ◌-◌, ◌*◌, ◌/◌, ◌%◌, ◌^◌, ◌≤◌, ◌<◌, max, bit_and, bit_or}
use mathlib.Core.Path.{◌≡◌, refl, ap, ◌∙◌}
use native.Mathlib.Nat.{pow-suc, div-div-eq-div-mul, div-add-mod}
use native.Mathlib.Omega.{arith}
use steelseries_apex_pro_min.Prelude.Bits.{◌<<<◌, bit_or_step, bit_and_step, bit_and-zero}
use steelseries_apex_pro_min.Prelude.Tests.{◌==◌, if◌then◌else◌, ltb}

-- Bit `k` of `x`, 0 or 1.
pub bit : ℕ → ℕ → ℕ
bit x zero = x % 2
bit x (suc k) = bit (x / 2) k

pub bit-le-one : (x k : ℕ) → bit x k ≤ 1
unfolding bit
bit-le-one x zero = omega arith
bit-le-one x (suc k) = bit-le-one (x / 2) k

pub bit-zero : (k : ℕ) → bit 0 k ≡ 0
unfolding bit
bit-zero zero = refl
bit-zero (suc k) = bit-zero k

pub bit-bit_or : (a b k : ℕ) → bit (bit_or a b) k ≡ max (bit a k) (bit b k)
unfolding bit
bit-bit_or a b zero = omega (arith, bit_or_step a b)
bit-bit_or a b (suc k) =
    ap (λ x. bit x k) (omega (arith, bit_or_step a b)) ∙ bit-bit_or (a / 2) (b / 2) k

pub bit_and_power : (x k : ℕ) → bit_and x (2 ^ k) ≡ bit x k * 2 ^ k
unfolding bit
bit_and_power x zero = omega (arith, bit_and_step x 1, bit_and-zero (x / 2))
bit_and_power x (suc k) =
    let half : 2 ^ suc k / 2 ≡ 2 ^ k = omega (arith, pow-suc 2 k) in
    let step = rw half at (bit_and_step x (2 ^ suc k)) in
    let ih = ap (λ (t : ℕ). t * 2) (bit_and_power (x / 2) k) in
    let b = bit (x / 2) k in
    let m : b * 2 ^ suc k ≡ b * 2 ^ k * 2 = omega (arith, ap (λ (t : ℕ). b * t) (pow-suc 2 k)) in
    omega (arith, step, ih, m, pow-suc 2 k)

shift-suc : (x g : ℕ) → x * 2 ^ suc g ≡ x * 2 ^ g * 2
shift-suc x g = omega (arith, ap (λ (t : ℕ). x * t) (pow-suc 2 g))

pub bit-shift : (x g k : ℕ) → bit (x <<< g) k ≡ (if ltb k g then 0 else bit x (k - g))
unfolding bit
bit-shift x zero k =
    let e : x * 2 ^ zero ≡ x = omega arith in
    let e' : k - zero ≡ k = omega arith in rw (e, e') (ground arith)
bit-shift x (suc g) zero = ground (arith, shift-suc x g)
bit-shift x (suc g) (suc k) =
    let e : x * 2 ^ suc g / 2 ≡ x * 2 ^ g = omega (arith, shift-suc x g) in
    let e' : suc k - suc g ≡ k - g = omega arith in rw (e, e') (bit-shift x g k ∙ ground arith)

-- Truncation one bit wider, by the lowest bit and the rest.
mod-double : (x m : ℕ) → (x % (m * 2) % 2 ≡ x % 2) × (x % (m * 2) / 2 ≡ x / 2 % m)
mod-double x m =
    let e : x / 2 / m ≡ x / (2 * m) = div-div-eq-div-mul x 2 m in
    let e' : 2 * m ≡ m * 2 = omega arith in
    let q = rw (rw e' at e) at (div-add-mod (x / 2) m) in omega (arith, q, div-add-mod x (m * 2))

pub bit-mod : (x w k : ℕ) → k < w → bit (x % 2 ^ w) k ≡ bit x k
unfolding bit
bit-mod x zero k h = absurd (omega arith)
bit-mod x (suc w) zero h = rw (pow-suc 2 w) ((mod-double x (2 ^ w)).0)
bit-mod x (suc w) (suc k) h =
    rw (pow-suc 2 w) (rw ((mod-double x (2 ^ w)).1) (bit-mod (x / 2) w k (omega arith)))

pub one_bit : (k : ℕ) → bit 1 k ≡ (if k == 0 then 1 else 0)
unfolding bit
one_bit zero = refl
one_bit (suc k) = bit-zero k ∙ ground arith
