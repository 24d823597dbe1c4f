-- ===== src/Coredump/Next.antt =====
-- A record that is written after the newest one makes a ring again.
use steelseries_apex_pro_min.Prelude.{
  ℕ, ◌+◌, ◌-◌, ◌*◌, ◌%◌, ◌^◌, ◌==◌, ◌<◌, ◌≡◌, ◌≢◌, ◌⊎◌, inl, inr, true, false, length, IsBytes, u16,
  arith, ap, sym, ◌∙◌, Bool-cases,
}
use steelseries_apex_pro_min.Flash.Laws.{region}
use steelseries_apex_pro_min.Flash.Stores.{region_all, region-length_cong}
use steelseries_apex_pro_min.Spinor.{Spim, fault_write}
use steelseries_apex_pro_min.Spinor.Chip.{IsChip}
use steelseries_apex_pro_min.Spinor.Writes.{IsKept}
use steelseries_apex_pro_min.Coredump.{
  Fault, ring_base, slot_size, record_size, fault_record, record_valid, seq_of,
}
use steelseries_apex_pro_min.Coredump.Wire.{
  IsReadable, length-fault_record, fault_record-IsBytes, seq-record, record_valid-record,
}
use steelseries_apex_pro_min.Coredump.Slots.{slot_of, age, IsRing}
use steelseries_apex_pro_min.Coredump.Write.{fault_write-Writes}

-- The ring in slot `j'` after it held one in slot `j`, or none.
abbrev pub Follows : ℕ → ℕ → (ℕ → ℕ) → Type 0
Follows q' j' nor =
    (s : ℕ)
    → s < 4
    → s ≢ j'
    → record_valid (slot_of nor s) ≡ true
    → seq_of (slot_of nor s) ≡ u16 (q' + 2 ^ 16 - age j' s)

pub IsRing-Follows :
    (q j : ℕ) (nor : ℕ → ℕ) → IsRing q j nor → Follows (u16 (q + 1)) ((j + 1) % 4) nor
IsRing-Follows q j nor ring = λ s lt other valid.
    let older : age ((j + 1) % 4) s ≡ age j s + 1 = omega (arith, ring.slot_lt) in
    ring.numbered s lt valid ∙ omega (arith, older, ring.seq_lt)

module _ {D : Type 0} (spim : Spim D) (nor_at app_at : D → ℕ → ℕ) (chip : IsChip spim nor_at app_at)
    (f : Fault) (ok : IsReadable f) where
  -- A record with the number `q'` that is written to slot `j'`.
  pub fault-IsRing :
      (q' j' : ℕ) (d : D)
      → j' < 4
      → q' < 2 ^ 16
      → Follows q' j' (nor_at d)
      → let p = fault_write spim (ring_base + j' * slot_size) (fault_record f q') d in
        p.1 ≡ true
        → (IsRing q' j' (nor_at p.0) × (slot_of (nor_at p.0) j' ≡ fault_record f q'))
          × (chip.busy p.0 ≡ false)
  fault-IsRing q' j' d slot small follows good = (
    (
      record {
        slot_lt = slot;
        seq_lt = small;
        newest_valid = ap record_valid here ∙ record_valid-record f q' ok;
        numbered = λ s lt valid. numbered s lt valid (Bool-cases (s == j'));
      },
      here,
    ),
    (writes.1 good).1,
  )
    where
      a : ℕ
      a = ring_base + j' * slot_size

      size : length (fault_record f q') ≡ 248
      size = length-fault_record f q' ok

      d' : D
      d' = (fault_write spim a (fault_record f q') d).0

      writes :
          IsKept nor_at app_at a (a + 0x1000) d d'
          × ((fault_write spim a (fault_record f q') d).1 ≡ true
              → (IsBytes (fault_record f q')
                  → region (nor_at d') a (length (fault_record f q')) ≡ fault_record f q')
                × (chip.busy d' ≡ false))
      writes =
          fault_write-Writes spim nor_at app_at chip a (fault_record f q') d (omega arith)
            (omega arith) (omega (arith, size)) (omega (arith, size))

      here : slot_of (nor_at d') j' ≡ fault_record f q'
      here =
          region-length_cong (nor_at d') a (fault_record f q') 248 size
            ((writes.1 good).0 (fault_record-IsBytes f q' ok))

      elsewhere : (s : ℕ) → s < 4 → s ≢ j' → slot_of (nor_at d') s ≡ slot_of (nor_at d) s
      elsewhere s lt other =
          region_all (nor_at d') (nor_at d) (ring_base + s * slot_size) record_size
            (λ b le below. writes.0.1 b (omega arith))

      numbered :
          (s : ℕ)
          → s < 4
          → record_valid (slot_of (nor_at d') s) ≡ true
          → ((s == j') ≡ true) ⊎ ((s == j') ≡ false)
          → seq_of (slot_of (nor_at d') s) ≡ u16 (q' + 2 ^ 16 - age j' s)
      numbered s lt valid (inl same) =
          let e : s ≡ j' = ground arith in
          let own : u16 (q' + 2 ^ 16 - age j' s) ≡ q' = omega (arith, e, small) in
          ap (λ n. seq_of (slot_of (nor_at d') n)) e
          ∙ ap seq_of here
          ∙ seq-record f q' ok small
          ∙ sym own
      numbered s lt valid (inr other) =
          let ne : s ≢ j' = ground arith in
          ap seq_of (elsewhere s lt ne)
          ∙ follows s lt ne (ap record_valid (sym (elsewhere s lt ne)) ∙ valid)
