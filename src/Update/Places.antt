-- ===== src/Update/Places.antt =====
-- Where the bytes of an image lie in the NOR flash.
use steelseries_apex_pro_min.Prelude.{
  ℕ, ◌+◌, ◌-◌, ◌%◌, ◌≤◌, ◌<◌, ◌≡◌, ◌≢◌, ◌⊎◌, inl, inr, arith, ap, sym,
}
use native.Mathlib.Decide.{dec_lt, dec_le}
use steelseries_apex_pro_min.Flash.Laws.{region, region_ext}
use steelseries_apex_pro_min.Update.{address, capacity, sector}

-- A sector of the image is a sector of the flash, and different bytes of the image have different
-- places.
pub address-sector :
    (offset i : ℕ)
    → offset % sector + i < sector
    → offset + i < capacity
    → address (offset + i) ≡ address offset + i
unfolding address
address-sector offset i lt below = ground arith

pub address-inj : (i j : ℕ) → i < capacity → j < capacity → address i ≡ address j → i ≡ j
unfolding address
address-inj i j hi hj e = ground arith

-- All bytes are as before but those of the image from an offset on.
abbrev pub IsKept : ℕ → (ℕ → ℕ) → (ℕ → ℕ) → Type 0
IsKept offset nor nor' =
    (b : ℕ) → ((i : ℕ) → offset ≤ i → i < capacity → b ≢ address i) → nor' b ≡ nor b

-- A byte with no place in a chunk lies outside of it.
pub away :
    (offset n b : ℕ)
    → offset % sector + n ≤ sector
    → offset + n ≤ capacity
    → ((i : ℕ) → offset ≤ i → i < capacity → b ≢ address i)
    → (b < address offset) ⊎ (address offset + n ≤ b)
away offset n b inside below other = elim (dec_lt b (address offset)) [
  | yes lt ↦ inl lt
  | no ge ↦ elim (dec_le (address offset + n) b) [
    | yes le ↦ inr le
    | no lt ↦
        let k = b - address offset in
        absurd (
          other (offset + k) (omega arith) (omega arith)
            (omega (arith, address-sector offset k (omega arith) (omega arith))))
  ]
]

-- So the bytes of the image before the offset are as before.
pub IsKept-region :
    (offset : ℕ) (nor nor' : ℕ → ℕ)
    → offset ≤ capacity
    → IsKept offset nor nor'
    → region (λ i. nor' (address i)) 0 offset ≡ region (λ i. nor (address i)) 0 offset
IsKept-region offset nor nor' below kept =
    region_ext (λ i. nor' (address i)) (λ i. nor (address i)) 0 0 offset
      (λ i lt.
        kept (address (0 + i))
          (λ j le lt' e. let same = address-inj (0 + i) j (omega arith) lt' e in omega arith))

-- A chunk read at the place of an offset is that chunk of the image.
pub region-address :
    (nor : ℕ → ℕ) (offset n : ℕ)
    → offset % sector + n ≤ sector
    → offset + n ≤ capacity
    → region nor (address offset) n ≡ region (λ i. nor (address i)) offset n
region-address nor offset n inside below =
    region_ext nor (λ i. nor (address i)) (address offset) offset n
      (λ i lt. ap nor (sym (address-sector offset i (omega arith) (omega arith))))
