-- ===== src/Coredump/Crashes.antt =====
-- Any number of crashes, each with the boot before it: the scan and the handler together.
use steelseries_apex_pro_min.Prelude.{
  ℕ, zero, suc, ◌+◌, ◌*◌, ◌%◌, ◌<◌, ◌≡◌, true, false, some, u16, arith, ap, sym, ◌∙◌,
}
use steelseries_apex_pro_min.Promote.Records.{dump_valid}
use steelseries_apex_pro_min.Spinor.{Spim, fault_write}
use steelseries_apex_pro_min.Spinor.Chip.{IsChip}
use steelseries_apex_pro_min.Coredump.{
  Fault, Ring, ring_base, ring_slots, slot_size, fault_record, record_valid, seq_of,
  fatal_error_handler, coredump_scan, read_last,
}
use steelseries_apex_pro_min.Coredump.Wire.{IsReadable, dump_valid-record}
use steelseries_apex_pro_min.Coredump.Slots.{slot_of, IsRing}
use steelseries_apex_pro_min.Coredump.Newest.{IsAnswered, coredump_scan-newest}
use steelseries_apex_pro_min.Coredump.Blank.{IsBlank, coredump_scan-blank}
use steelseries_apex_pro_min.Coredump.Next.{Follows, IsRing-Follows, fault-IsRing}

abbrev pub SameSlots : (ℕ → ℕ) → (ℕ → ℕ) → Type 0
SameSlots nor nor' = (s : ℕ) → s < 4 → slot_of nor' s ≡ slot_of nor s

-- Crashes one after the other. At each boot the ring is scanned; up to the fault, in state `e`, the ring
-- stays as it is; and the handler's write succeeds.
pub data Crashes {D : Type 0} (spim : Spim D) (nor_at : D → ℕ → ℕ) (d : D) : ℕ → D → Type 0 where
  none_yet : Crashes spim nor_at d zero d
  crash :
      {k : ℕ} {d1 : D} (f : Fault) (e d2 : D)
      → Crashes spim nor_at d k d1
      → IsReadable f
      → SameSlots (nor_at d1) (nor_at e)
      → (fatal_error_handler spim (coredump_scan spim d1).1 f e).1 ≡ true
      → d2 ≡ (fatal_error_handler spim (coredump_scan spim d1).1 f e).0
      → Crashes spim nor_at d (suc k) d2

-- The ring after a number of crashes
abbrev pub Holds : ℕ → (ℕ → ℕ) → Type 0
Holds zero nor = IsBlank nor
Holds (suc k) nor = IsRing (u16 (suc k)) (k % 4) nor

Holds-Follows : (k : ℕ) (nor : ℕ → ℕ) → Holds k nor → Follows (u16 (suc k)) (k % 4) nor
Holds-Follows zero nor blank = λ s lt other valid. absurd (let bad = blank s lt in cc)
Holds-Follows (suc k) nor ring =
    let e : u16 (u16 (suc k) + 1) ≡ u16 (suc (suc k)) = omega arith in
    let e' : (k % 4 + 1) % 4 ≡ suc k % 4 = omega arith in
    coe 0 1 (i. Follows (e i) (e' i) nor) (IsRing-Follows (u16 (suc k)) (k % 4) nor ring)

Holds-cong : (k : ℕ) (nor nor' : ℕ → ℕ) → SameSlots nor nor' → Holds k nor → Holds k nor'
Holds-cong zero nor nor' same blank = λ s lt. ap record_valid (same s lt) ∙ blank s lt
Holds-cong (suc k) nor nor' same ring = record {
  slot_lt = ring.slot_lt;
  seq_lt = ring.seq_lt;
  newest_valid = ap record_valid (same (k % 4) ring.slot_lt) ∙ ring.newest_valid;
  numbered = λ s lt valid.
      ap seq_of (same s lt) ∙ ring.numbered s lt (ap record_valid (sym (same s lt)) ∙ valid);
}

module _ {D : Type 0} (spim : Spim D) (nor_at app_at : D → ℕ → ℕ) (chip : IsChip spim nor_at app_at)
    (answered : IsAnswered spim) where
  -- Where the next fault writes, and with which number.
  cursor :
      (k : ℕ) (d : D)
      → chip.busy d ≡ false
      → Holds k (nor_at d)
      → let r = (coredump_scan spim d).1 in
        (r.next_slot % ring_slots ≡ k % 4) × (r.next_seq ≡ u16 (suc k))
  cursor zero d idle blank =
      let r = coredump_scan-blank spim nor_at app_at chip d idle blank in (ap (λ n. n % 4) r.0, r.1)
  cursor (suc k) d idle ring =
      let r =
        coredump_scan-newest spim nor_at app_at chip (u16 (suc k)) (k % 4) d answered idle ring in
      (omega (arith, r.3), omega (arith, r.4))

  fault-Holds :
      (k : ℕ) (f : Fault) (d e : D)
      → IsReadable f
      → chip.busy d ≡ false
      → Holds k (nor_at d)
      → SameSlots (nor_at d) (nor_at e)
      → let p = fatal_error_handler spim (coredump_scan spim d).1 f e in
        p.1 ≡ true
        → (Holds (suc k) (nor_at p.0)
            × (slot_of (nor_at p.0) (k % 4) ≡ fault_record f (u16 (suc k))))
          × (chip.busy p.0 ≡ false)
  unfolding fatal_error_handler
  fault-Holds k f d e ok idle holds same good =
      let at = cursor k d idle holds in
      let slot = sym at.0 in
      let number = sym at.1 in
      coe 0 1
        (i.
          let p = fault_write spim (ring_base + slot i * slot_size) (fault_record f (number i)) e in
          p.1 ≡ true
          → (Holds (suc k) (nor_at p.0)
              × (slot_of (nor_at p.0) (k % 4) ≡ fault_record f (u16 (suc k))))
            × (chip.busy p.0 ≡ false))
        (fault-IsRing spim nor_at app_at chip f ok (u16 (suc k)) (k % 4) e (omega arith)
          (omega arith)
          (Holds-Follows k (nor_at e) (Holds-cong k (nor_at d) (nor_at e) same holds)))
        good

  Crashes-Holds :
      {d : D} {k : ℕ} {d' : D}
      → chip.busy d ≡ false
      → IsBlank (nor_at d)
      → Crashes spim nor_at d k d'
      → Holds k (nor_at d') × (chip.busy d' ≡ false)
  Crashes-Holds idle blank none_yet = (blank, idle)
  Crashes-Holds idle blank (crash {k} {d1} f e d2 before ok same good is) =
      let h = Crashes-Holds idle blank before in
      let next = fault-Holds k f d1 e ok h.1 h.0 same good in
      coe 0 1 (i. Holds (suc k) (nor_at (sym is i)) × (chip.busy (sym is i) ≡ false))
        (next.0.0, next.1)

  -- For slots that can be read, from a ring that holds no record on a chip that is not busy: after `k`
  -- crashes, each with the scan of a boot before it, a stack that can be copied and a record that was
  -- written, and one more fault, with a stack that can be copied, on the ring as the last boot found it and
  -- on a chip that may be busy, if its record is written, the next boot's scan shows exactly this record,
  -- with the number `k + 1` at a width of 16 bits, and its bytes pass the tests of the bootloader.
  pub crash-newest :
      (k : ℕ) (f : Fault) (d d1 e : D)
      → chip.busy d ≡ false
      → IsBlank (nor_at d)
      → Crashes spim nor_at d k d1
      → IsReadable f
      → SameSlots (nor_at d1) (nor_at e)
      → let p = fatal_error_handler spim (coredump_scan spim d1).1 f e in
        let written = fault_record f (u16 (suc k)) in
        p.1 ≡ true
        → (read_last (coredump_scan spim p.0).1 ≡ some written) × (dump_valid written ≡ true)
  crash-newest k f d d1 e idle blank crashes ok same good =
      let h = Crashes-Holds idle blank crashes in
      let next = fault-Holds k f d1 e ok h.1 h.0 same good in
      let found =
        coredump_scan-newest spim nor_at app_at chip (u16 (suc k)) (k % 4) after answered next.1
          next.0.0 in
      (
        last_is (coredump_scan spim after).1 found.1 (found.2 ∙ next.0.1),
        dump_valid-record f (u16 (suc k)) ok,
      )
    where
      after : D
      after = (fatal_error_handler spim (coredump_scan spim d1).1 f e).0

      last_is :
          (r : Ring)
          → r.have_last ≡ true
          → r.last ≡ fault_record f (u16 (suc k))
          → read_last r ≡ some (fault_record f (u16 (suc k)))
      last_is r have e' = rw have (ap some e')
