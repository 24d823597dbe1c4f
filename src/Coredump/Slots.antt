-- ===== src/Coredump/Slots.antt =====
-- One step of the scan on a ring of records.
use steelseries_apex_pro_min.Prelude.{
  ℕ, ◌+◌, ◌-◌, ◌*◌, ◌%◌, ◌^◌, ◌<◌, ◌≡◌, ◌⊎◌, inl, inr, ltb, ◌||◌, not, true, false, List, u16,
  arith, refl, Bool-cases,
}
use steelseries_apex_pro_min.Flash.Laws.{region}
use steelseries_apex_pro_min.Coredump.{
  ring_base, slot_size, record_size, record_valid, seq_of, Scan, take_slot,
}

abbrev pub slot_of : (ℕ → ℕ) → ℕ → List ℕ
slot_of nor s = region nor (ring_base + s * slot_size) record_size

-- How many records before the newest, in slot `j`, slot `s` was written
abbrev pub age : ℕ → ℕ → ℕ
age j s = (j + 4 - s) % 4

-- The newest record has the number `q` and stands in slot `j`; the valid ones in the other slots were
-- written before it, in the order of the ring.
pub record IsRing (q j : ℕ) (nor : ℕ → ℕ) : Type 0 where
  pub slot_lt : j < 4
  pub seq_lt : q < 2 ^ 16
  pub newest_valid : record_valid (slot_of nor j) ≡ true
  pub numbered :
      (s : ℕ)
      → s < 4
      → record_valid (slot_of nor s) ≡ true
      → seq_of (slot_of nor s) ≡ u16 (q + 2 ^ 16 - age j s)

-- The state of the scan up to the newest record, and after it.
abbrev pub IsBefore : ℕ → Scan → Type 0
IsBefore q scan =
    (scan.any ≡ false) ⊎ ((i : ℕ) × (0 < i) × (i < 4) × (scan.best_seq ≡ u16 (q + 2 ^ 16 - i)))

abbrev pub IsFound : ℕ → ℕ → List ℕ → Scan → Type 0
IsFound q j tmp scan =
    (scan.any ≡ true)
    × (scan.best_seq ≡ q)
    × (scan.best_slot ≡ j)
    × (scan.last ≡ tmp)
    × (scan.have_last ≡ true)

module _ (s : ℕ) (tmp : List ℕ) (scan : Scan) (q : ℕ) where
  pub take_slot-IsBefore :
      (i : ℕ)
      → 0 < i
      → i < 4
      → IsBefore q scan
      → (record_valid tmp ≡ true → seq_of tmp ≡ u16 (q + 2 ^ 16 - i))
      → IsBefore q (take_slot s tmp scan)
  unfolding take_slot
  take_slot-IsBefore i pos small h numbered = elim (Bool-cases (record_valid tmp)) [
    | inr bad ↦ rw bad h
    | inl good ↦
        rw good
          (elim (Bool-cases
            (not scan.any || ltb (u16 (seq_of tmp + 2 ^ 32 - scan.best_seq)) 0x8000)) [
              | inl newer ↦ rw newer (inr (i, pos, small, numbered good))
              | inr older ↦ rw older (stays older h)
            ])
  ]
    where
      stays :
          not scan.any || ltb (u16 (seq_of tmp + 2 ^ 32 - scan.best_seq)) 0x8000 ≡ false
          → IsBefore q scan
          → IsBefore q (record scan { any = true })
      stays older (inl none_) = absurd (ground arith)
      stays older (inr h) = inr h

  pub take_slot-IsFound :
      q < 2 ^ 16
      → IsBefore q scan
      → record_valid tmp ≡ true
      → seq_of tmp ≡ q
      → IsFound q s tmp (take_slot s tmp scan)
  unfolding take_slot
  take_slot-IsFound small h good number = rw (good, newer h) (refl, number, refl, refl, refl)
    where
      newer :
          IsBefore q scan
          → not scan.any || ltb (u16 (seq_of tmp + 2 ^ 32 - scan.best_seq)) 0x8000 ≡ true
      newer (inl none_) = ground arith
      newer (inr (i, pos, below, e)) =
          let whole : u16 (q + 2 ^ 16 - 0) ≡ q = omega arith in
          let diff : u16 (seq_of tmp + 2 ^ 32 - scan.best_seq) ≡ i = omega (arith, number, e) in
          ground (arith, diff)

  pub take_slot-IsFound_after :
      (j k : ℕ) (newest : List ℕ)
      → q < 2 ^ 16
      → 0 < k
      → k < 4
      → IsFound q j newest scan
      → (record_valid tmp ≡ true → seq_of tmp ≡ u16 (q + 2 ^ 16 - k))
      → IsFound q j newest (take_slot s tmp scan)
  unfolding take_slot
  take_slot-IsFound_after j k newest small pos below h numbered =
      elim (Bool-cases (record_valid tmp)) [
        | inr bad ↦ rw bad h
        | inl good ↦ rw (good, older good) (refl, h.1, h.2, h.3, h.4)
      ]
    where
      older :
          record_valid tmp ≡ true
          → not scan.any || ltb (u16 (seq_of tmp + 2 ^ 32 - scan.best_seq)) 0x8000 ≡ false
      older good =
          let diff : u16 (seq_of tmp + 2 ^ 32 - scan.best_seq) ≡ 2 ^ 16 - k =
            omega (arith, numbered good, h.1) in
          ground (arith, diff, h.0)
