-- ===== src/Flash/Bench.antt =====
-- Memories that are functions, for the tests.
use steelseries_apex_pro_min.Prelude.{
  ℕ, ◌+◌, ◌-◌, ◌≤◌, ◌<◌, ◌≡◌, ◌⊎◌, ◌&&◌, ltb, leb, if◌then◌else◌, List, length, byte_at, arith,
}

-- A memory with bytes written at an address
abbrev pub patch : (ℕ → ℕ) → ℕ → List ℕ → ℕ → ℕ
patch f a bs b = if leb a b && ltb b (a + length bs) then byte_at bs (b - a) else f b

-- A memory with a range erased
abbrev pub erased : (ℕ → ℕ) → ℕ → ℕ → ℕ → ℕ
erased f a n b = if leb a b && ltb b (a + n) then 0xff else f b

pub patch_else :
    (f : ℕ → ℕ) (a : ℕ) (bs : List ℕ) (b : ℕ) → (b < a) ⊎ (a + length bs ≤ b) → patch f a bs b ≡ f b
patch_else f a bs b out = ground arith

pub erased_else : (f : ℕ → ℕ) (a n b : ℕ) → (b < a) ⊎ (a + n ≤ b) → erased f a n b ≡ f b
erased_else f a n b out = ground arith

pub erased_at : (f : ℕ → ℕ) (a n b : ℕ) → a ≤ b → b < a + n → erased f a n b ≡ 0xff
erased_at f a n b le lt = ground arith

pub patch_at :
    (f : ℕ → ℕ) (a : ℕ) (bs : List ℕ) (i : ℕ) → i < length bs → patch f a bs (a + i) ≡ byte_at bs i
patch_at f a bs i lt = let e : a + i - a ≡ i = omega arith in ground (arith, e)
