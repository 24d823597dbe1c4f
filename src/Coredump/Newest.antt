-- ===== src/Coredump/Newest.antt =====
-- The scan of a ring finds its newest record: `g4b_coredump_scan`.
use steelseries_apex_pro_min.Prelude.{
  ℕ, zero, suc, ◌+◌, ◌-◌, ◌*◌, ◌%◌, ◌^◌, ◌==◌, ◌≤◌, ◌<◌, ◌≡◌, ◌≢◌, inl, inr, true, false, Option,
  none, some, List, u16, arith, refl, ap, sym, ◌∙◌, Bool-cases,
}
use steelseries_apex_pro_min.Flash.Laws.{region, At}
use steelseries_apex_pro_min.Spinor.{Spim, coredump_read, dev_read}
use steelseries_apex_pro_min.Spinor.Chip.{IsChip}
use steelseries_apex_pro_min.Spinor.Device.{Reads, dev_read-Reads}
use steelseries_apex_pro_min.Coredump.{
  ring_base, slot_size, record_size, seq_of, Scan, taken, take_slot, scan_loop, at_boot,
  coredump_scan, scan_end,
}
use steelseries_apex_pro_min.Coredump.Slots.{
  slot_of, age, IsRing, IsBefore, IsFound, take_slot-IsBefore, take_slot-IsFound,
  take_slot-IsFound_after,
}

-- Every read of a slot succeeds.
abbrev pub IsAnswered : {D : Type 0} → Spim D → Type 0
IsAnswered {D} spim =
    (s : ℕ) (d : D)
    → s < 4
    → (coredump_read spim (ring_base + s * slot_size) record_size d).1 ≢ none

module _ (nor : ℕ → ℕ) (q j : ℕ) (ring : IsRing q j nor) where
  -- What the scan knows before slot `s`.
  abbrev pub Knows : ℕ → Scan → Type 0
  Knows s scan = (s ≤ j → IsBefore q scan) × (j < s → IsFound q j (slot_of nor j) scan)

  Knows-step :
      (s : ℕ) (scan : Scan)
      → s < 4
      → Knows s scan
      → Knows (s + 1) (take_slot s (slot_of nor s) scan)
  Knows-step s scan lt h = (
    (λ le.
        take_slot-IsBefore s (slot_of nor s) scan q (age j s) (omega (arith, ring.slot_lt))
          (omega arith) (h.0 (omega arith)) (ring.numbered s lt)),
    λ after. elim (Bool-cases (s == j)) [
      | inl here ↦
          let e : s ≡ j = ground arith in
          let back = sym e in
          coe 0 1 (i. IsFound q j (slot_of nor j) (take_slot (back i) (slot_of nor (back i)) scan))
            (take_slot-IsFound j (slot_of nor j) scan q ring.seq_lt (h.0 (omega (arith, e)))
              ring.newest_valid own)
      | inr there ↦
          let later : j < s = ground arith in
          take_slot-IsFound_after s (slot_of nor s) scan q j (age j s) (slot_of nor j) ring.seq_lt
            (omega (arith, ring.slot_lt)) (omega arith) (h.1 later) (ring.numbered s lt)
    ],
  )
    where
      same : u16 (q + 2 ^ 16 - age j j) ≡ q
      same = omega (arith, ring.slot_lt, ring.seq_lt)

      own : seq_of (slot_of nor j) ≡ q
      own = ring.numbered j ring.slot_lt ring.newest_valid ∙ same

module _ {D : Type 0} (spim : Spim D) (nor_at app_at : D → ℕ → ℕ)
    (chip : IsChip spim nor_at app_at) where
  pub coredump_read-Reads :
      (a n : ℕ) (d : D) → Reads spim nor_at app_at chip a n d (coredump_read spim a n d)
  unfolding coredump_read dev_read
  coredump_read-Reads a n d = dev_read-Reads spim nor_at app_at chip a n d

  -- Both flashes are as given, and the chip is not busy.
  abbrev pub IsIdleAt : (ℕ → ℕ) → (ℕ → ℕ) → D → Type 0
  IsIdleAt nor app d = At nor_at app_at nor app d × (chip.busy d ≡ false)

  scan_loop-Knows :
      (answered : IsAnswered spim) (nor app : ℕ → ℕ) (q j : ℕ) (ring : IsRing q j nor) (left s : ℕ)
      (scan : Scan) (d : D)
      → s + left ≡ 4
      → IsIdleAt nor app d
      → Knows nor q j ring s scan
      → IsIdleAt nor app (scan_loop spim left s scan d).0
        × Knows nor q j ring 4 (scan_loop spim left s scan d).1
  unfolding scan_loop
  scan_loop-Knows answered nor app q j ring zero s scan d e at h =
      let e' : s ≡ 4 = omega arith in (at, coe 0 1 (i. Knows nor q j ring (e' i) scan) h)
  scan_loop-Knows answered nor app q j ring (suc left) s scan d e at h =
      go (coredump_read spim place record_size d).1 (answered s d (omega arith))
        (λ bs e'. (coredump_read-Reads place record_size d).1 bs e' at.1)
        (λ scan' k.
          scan_loop-Knows answered nor app q j ring left (s + 1) scan' d1 (omega arith) at1 k)
    where
      place : ℕ
      place = ring_base + s * slot_size

      d1 : D
      d1 = (coredump_read spim place record_size d).0

      at1 : IsIdleAt nor app d1
      at1 =
          let r = coredump_read-Reads place record_size d in
          ((r.0.0.0 ∙ at.0.0, r.0.0.1 ∙ at.0.1), r.0.1 at.1)

      go :
          (r : Option (List ℕ))
          → r ≢ none
          → ((bs : List ℕ) → r ≡ some bs → bs ≡ region (nor_at d) place record_size)
          → ((scan' : Scan)
              → Knows nor q j ring (s + 1) scan'
              → IsIdleAt nor app (scan_loop spim left (s + 1) scan' d1).0
                × Knows nor q j ring 4 (scan_loop spim left (s + 1) scan' d1).1)
          → IsIdleAt nor app (scan_loop spim left (s + 1) (taken spim s r scan) d1).0
            × Knows nor q j ring 4 (scan_loop spim left (s + 1) (taken spim s r scan) d1).1
      go none present gives ih = absurd (present refl)
      go (some bs) present gives ih =
          let is : slot_of nor s ≡ bs =
            sym (gives bs refl ∙ ap (λ f. region f place record_size) at.0.0) in
          ih (take_slot s bs scan) (
            coe 0 1 (i. Knows nor q j ring (s + 1) (take_slot s (is i) scan))
              (Knows-step nor q j ring s scan (omega arith) h))

  -- When the slots can be read and the chip is not busy, the scan of a ring retains its newest record, and the next fault will
  -- write the slot after it, with the next number; the flashes stay as they are.
  pub coredump_scan-newest :
      (q j : ℕ) (d : D)
      → IsAnswered spim
      → chip.busy d ≡ false
      → IsRing q j (nor_at d)
      → let p = coredump_scan spim d in
        At nor_at app_at (nor_at d) (app_at d) p.0
        × (p.1.have_last ≡ true)
        × (p.1.last ≡ slot_of (nor_at d) j)
        × (p.1.next_slot ≡ (j + 1) % 4)
        × (p.1.next_seq ≡ u16 (q + 1))
  unfolding coredump_scan
  coredump_scan-newest q j d answered idle ring =
      let r =
        scan_loop-Knows answered (nor_at d) (app_at d) q j ring 4 0 (at_boot spim) d refl
          ((refl, refl), idle) ((λ le. inl refl), λ lt. absurd (omega arith)) in
      let found = r.1.1 ring.slot_lt in ended (scan_loop spim 4 0 (at_boot spim) d).1 r.0.0 found
    where
      ended :
          (scan : Scan)
          → At nor_at app_at (nor_at d) (app_at d) (scan_loop spim 4 0 (at_boot spim) d).0
          → IsFound q j (slot_of (nor_at d) j) scan
          → At nor_at app_at (nor_at d) (app_at d) (scan_loop spim 4 0 (at_boot spim) d).0
            × ((scan_end scan).have_last ≡ true)
            × ((scan_end scan).last ≡ slot_of (nor_at d) j)
            × ((scan_end scan).next_slot ≡ (j + 1) % 4)
            × ((scan_end scan).next_seq ≡ u16 (q + 1))
      ended scan at f = rw f.0 (at, f.4, f.3, ap (λ n. (n + 1) % 4) f.2, ap (λ n. u16 (n + 1)) f.1)
