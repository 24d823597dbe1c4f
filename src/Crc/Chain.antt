-- ===== src/Crc/Chain.antt =====
-- Both CRC routines are one function, and a CRC taken in pieces is the CRC of the whole.
use steelseries_apex_pro_min.Prelude.{
  ℕ, ◌+◌, ◌-◌, ◌^◌, ◌<◌, ◌≡◌, List, [], ◌∷◌, ◌++◌, bit_and, bit_xor, ◌>>>◌, u32, arith, refl, ap,
  sym, IsBytes, bit_xor-lt, bit_and-le-left,
}
use steelseries_apex_pro_min.Crc.{
  polynomial, crc_bit, crc_byte, crc_loop, complement, crc, crc32_step,
}

crc_bit-lt : (c : ℕ) → c < 2 ^ 32 → crc_bit c < 2 ^ 32
unfolding crc_bit
crc_bit-lt c h =
    let mask = u32 (2 ^ 32 - bit_and c 1) in
    bit_xor-lt 32 (c >>> 1) (bit_and polynomial mask) (omega arith)
      (omega (arith, bit_and-le-left (polynomial + 1) polynomial mask (omega arith)))

crc_byte-lt : (c b : ℕ) → c < 2 ^ 32 → b < 256 → crc_byte c b < 2 ^ 32
unfolding crc_byte
crc_byte-lt c b h k =
    let step = λ (x : ℕ) (below : x < 2 ^ 32). crc_bit-lt x below in
    step _ (
      step _ (
        step _ (
          step _
            (step _ (step _ (step _ (step (bit_xor c b) (bit_xor-lt 32 c b h (omega arith)))))))))

crc_loop-lt : (c : ℕ) (bs : List ℕ) → c < 2 ^ 32 → IsBytes bs → crc_loop c bs < 2 ^ 32
unfolding crc_loop
crc_loop-lt c [] h k = h
crc_loop-lt c (b ∷ bs) h k = crc_loop-lt (crc_byte c b) bs (crc_byte-lt c b h k.0) k.1

crc_loop-append : (c : ℕ) (xs ys : List ℕ) → crc_loop c (xs ++ ys) ≡ crc_loop (crc_loop c xs) ys
unfolding crc_loop
crc_loop-append c [] ys = refl
crc_loop-append c (x ∷ xs) ys = crc_loop-append (crc_byte c x) xs ys

-- From the seed 0, `crc32_step` is `apx_update_crc`, and passing its result on as the next seed gives
-- the CRC of all bytes: the chunks in which an image is read do not matter.
pub crc32_step-append :
    (seed : ℕ) (xs ys : List ℕ)
    → seed < 2 ^ 32
    → IsBytes xs
    → (crc32_step 0 xs ≡ crc xs) × (crc32_step (crc32_step seed xs) ys ≡ crc32_step seed (xs ++ ys))
unfolding crc32_step crc
crc32_step-append seed xs ys h k =
    let inner = crc_loop (complement seed) xs in
    let below = crc_loop-lt (complement seed) xs (omega arith) k in
    let back : complement (complement inner) ≡ inner = omega arith in
    (refl, rw back (ap complement (sym (crc_loop-append (complement seed) xs ys))))

-- The check value of this CRC: the digits 1 to 9.
check_value : crc (b'1' ∷ b'2' ∷ b'3' ∷ b'4' ∷ b'5' ∷ b'6' ∷ b'7' ∷ b'8' ∷ b'9' ∷ []) ≡ 0xcbf43926
unfolding crc
check_value = refl
