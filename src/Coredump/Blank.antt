-- ===== src/Coredump/Blank.antt =====
-- The scan of a ring that holds no record.
use steelseries_apex_pro_min.Prelude.{
  ℕ, zero, suc, ◌+◌, ◌*◌, ◌<◌, ◌≡◌, false, Option, none, some, List, arith, refl, ap, ◌∙◌,
}
use steelseries_apex_pro_min.Flash.Laws.{region}
use steelseries_apex_pro_min.Spinor.{Spim, coredump_read}
use steelseries_apex_pro_min.Spinor.Chip.{IsChip}
use steelseries_apex_pro_min.Coredump.{
  ring_base, slot_size, record_size, record_valid, Scan, taken, take_slot, scan_loop, at_boot,
  coredump_scan, scan_end,
}
use steelseries_apex_pro_min.Coredump.Slots.{slot_of}
use steelseries_apex_pro_min.Coredump.Newest.{IsIdleAt, coredump_read-Reads}

-- No slot holds a valid record, as on a chip that is erased.
abbrev pub IsBlank : (ℕ → ℕ) → Type 0
IsBlank nor = (s : ℕ) → s < 4 → record_valid (slot_of nor s) ≡ false

take_slot-invalid :
    (s : ℕ) (tmp : List ℕ) (scan : Scan) → record_valid tmp ≡ false → take_slot s tmp scan ≡ scan
unfolding take_slot
take_slot-invalid s tmp scan bad = rw bad refl

module _ {D : Type 0} (spim : Spim D) (nor_at app_at : D → ℕ → ℕ)
    (chip : IsChip spim nor_at app_at) where
  scan_loop-blank :
      (nor app : ℕ → ℕ) (left s : ℕ) (scan : Scan) (d : D)
      → IsBlank nor
      → s + left ≡ 4
      → IsIdleAt spim nor_at app_at chip nor app d
      → (scan_loop spim left s scan d).1 ≡ scan
  unfolding scan_loop
  scan_loop-blank nor app zero s scan d blank e at = refl
  scan_loop-blank nor app (suc left) s scan d blank e at =
      scan_loop-blank nor app left (s + 1) _ d1 blank (omega arith) at1
      ∙ same (coredump_read spim place record_size d).1
          (λ bs e'. (coredump_read-Reads spim nor_at app_at chip place record_size d).1 bs e' at.1)
    where
      place : ℕ
      place = ring_base + s * slot_size

      d1 : D
      d1 = (coredump_read spim place record_size d).0

      at1 : IsIdleAt spim nor_at app_at chip nor app d1
      at1 =
          let r = coredump_read-Reads spim nor_at app_at chip place record_size d in
          ((r.0.0.0 ∙ at.0.0, r.0.0.1 ∙ at.0.1), r.0.1 at.1)

      same :
          (r : Option (List ℕ))
          → ((bs : List ℕ) → r ≡ some bs → bs ≡ region (nor_at d) place record_size)
          → taken spim s r scan ≡ scan
      same none gives = refl
      same (some bs) gives =
          let is : bs ≡ slot_of nor s =
            gives bs refl ∙ ap (λ f. region f place record_size) at.0.0 in
          take_slot-invalid s bs scan (ap record_valid is ∙ blank s (omega arith))

  -- The next fault writes the first slot, with the number one, and there is no record to show,
  -- for a chip that is not busy.
  pub coredump_scan-blank :
      (d : D)
      → chip.busy d ≡ false
      → IsBlank (nor_at d)
      → let r = (coredump_scan spim d).1 in
        (r.next_slot ≡ 0) × (r.next_seq ≡ 1) × (r.have_last ≡ false)
  unfolding coredump_scan
  coredump_scan-blank d idle blank =
      let e =
        scan_loop-blank (nor_at d) (app_at d) 4 0 (at_boot spim) d blank refl
          ((refl, refl), idle) in
      (
        ap (λ s. (scan_end s).next_slot) e,
        ap (λ s. (scan_end s).next_seq) e,
        ap (λ s. (scan_end s).have_last) e,
      )
