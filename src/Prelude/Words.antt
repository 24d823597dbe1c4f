-- ===== src/Prelude/Words.antt =====
-- Bytes and little-endian words, as the radio code's `read32`, `write32`, `get16` and `put16` lay
-- them out. A `uint8_t` buffer is a list of numbers; `IsBytes` says that they are bytes.
use Prim.Native.Nat.{ℕ, ◌+◌, ◌*◌, ◌%◌, ◌^◌, ◌<◌, bit_or}
use mathlib.Core.Path.{◌≡◌, refl}
use mathlib.Core.Bool.{Bool, true, false, ◌&&◌}
use mathlib.Core.Logic.{◌↔◌}
use mathlib.Core.List.{List, [], ◌∷◌, ◌++◌}
use native.Mathlib.Omega.{arith}
use steelseries_apex_pro_min.Prelude.Bits.{◌<<<◌, ◌>>>◌, bit_or_fields}
use steelseries_apex_pro_min.Prelude.Tests.{◌==◌}
use steelseries_apex_pro_min.Prelude.Lists.{get_or}

abbrev pub u8 : ℕ → ℕ
u8 n = n % 2 ^ 8

abbrev pub u16 : ℕ → ℕ
u16 n = n % 2 ^ 16

abbrev pub u32 : ℕ → ℕ
u32 n = n % 2 ^ 32

abbrev pub u64 : ℕ → ℕ
u64 n = n % 2 ^ 64

abbrev pub uint16_max : ℕ
uint16_max = 65535

abbrev pub uint32_max : ℕ
uint32_max = 4294967295

-- `p[i]`
abbrev pub byte_at : List ℕ → ℕ → ℕ
byte_at p i = get_or p i 0

abbrev pub IsBytes : List ℕ → Type 0
IsBytes [] = Unit
IsBytes (b ∷ bs) = (b < 256) × IsBytes bs

pub IsBytes-append : (xs ys : List ℕ) → IsBytes xs → IsBytes ys → IsBytes (xs ++ ys)
IsBytes-append [] ys h k = k
IsBytes-append (x ∷ xs) ys h k = (h.0, IsBytes-append xs ys h.1 k)

pub IsBytes-parts : (xs ys : List ℕ) → IsBytes (xs ++ ys) → IsBytes xs × IsBytes ys
IsBytes-parts [] ys h = (tt, h)
IsBytes-parts (x ∷ xs) ys h = let r = IsBytes-parts xs ys h.1 in ((h.0, r.0), r.1)

-- `memcmp(a, b, n) == 0` of two regions of the same size
unfoldable pub same_bytes : List ℕ → List ℕ → Bool
same_bytes [] [] = true
same_bytes [] (b ∷ bs) = false
same_bytes (a ∷ as') [] = false
same_bytes (a ∷ as') (b ∷ bs) = a == b && same_bytes as' bs

pub same_bytes_iff : (a b : List ℕ) → (same_bytes a b ≡ true) ↔ (a ≡ b)
unfolding same_bytes
same_bytes_iff [] [] = ((λ h. refl), λ h. refl)
same_bytes_iff [] (b ∷ bs) = ((λ h. cc), λ h. cc)
same_bytes_iff (a ∷ as') [] = ((λ h. cc), λ h. cc)
same_bytes_iff (a ∷ as') (b ∷ bs) = ground (arith, same_bytes_iff as' bs)

-- `write32(p, n)`: the four bytes written at `p`
abbrev pub write32 : ℕ → List ℕ
write32 n = u8 n ∷ u8 (n >>> 8) ∷ u8 (n >>> 16) ∷ u8 (n >>> 24) ∷ []

-- `read32(p)`
unfoldable pub read32 : List ℕ → ℕ
read32 p =
    bit_or (bit_or (bit_or (byte_at p 0) (byte_at p 1 <<< 8)) (byte_at p 2 <<< 16))
      (byte_at p 3 <<< 24)

abbrev pub write16 : ℕ → List ℕ
write16 n = u8 n ∷ u8 (n >>> 8) ∷ []

unfoldable pub read16 : List ℕ → ℕ
read16 p = bit_or (byte_at p 0) (byte_at p 1 <<< 8)

module _ (a b : ℕ) (ha : a < 256) (hb : b < 256) where
  pub read16_bytes : (rest : List ℕ) → read16 (a ∷ b ∷ rest) ≡ a + b * 2 ^ 8
  unfolding read16
  read16_bytes rest = bit_or_fields 8 b a ha

  pub read32_bytes :
      (c d : ℕ)
      → c < 256
      → d < 256
      → (rest : List ℕ) → read32 (a ∷ b ∷ c ∷ d ∷ rest) ≡ a + b * 2 ^ 8 + c * 2 ^ 16 + d * 2 ^ 24
  unfolding read32
  read32_bytes c d hc hd rest =
      rw
        (
          bit_or_fields 8 b a ha,
          bit_or_fields 16 c (a + b * 2 ^ 8) (omega arith),
          bit_or_fields 24 d (a + b * 2 ^ 8 + c * 2 ^ 16) (omega arith),
        )
        refl

pub read32-write32 : (n : ℕ) (rest : List ℕ) → n < 2 ^ 32 → read32 (write32 n ++ rest) ≡ n
read32-write32 n rest h = omega (
  arith,
  read32_bytes (u8 n) (u8 (n >>> 8)) (omega arith) (omega arith) (u8 (n >>> 16)) (u8 (n >>> 24))
      (omega arith) (omega arith) rest,
)

pub read16-write16 : (n : ℕ) (rest : List ℕ) → n < 2 ^ 16 → read16 (write16 n ++ rest) ≡ n
read16-write16 n rest h =
    omega (arith, read16_bytes (u8 n) (u8 (n >>> 8)) (omega arith) (omega arith) rest)

-- Four bytes are what `write32` makes of the word that `read32` reads there.
pub write32-read32 :
    (a b c d : ℕ) (rest : List ℕ)
    → IsBytes (a ∷ b ∷ c ∷ d ∷ [])
    → (read32 (a ∷ b ∷ c ∷ d ∷ rest) < 2 ^ 32)
      × (write32 (read32 (a ∷ b ∷ c ∷ d ∷ rest)) ≡ a ∷ b ∷ c ∷ d ∷ [])
write32-read32 a b c d rest h =
    let e = read32_bytes a b h.0 h.1.0 c d h.1.1.0 h.1.1.1.0 rest in (omega arith, ground arith)
