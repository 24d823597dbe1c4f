-- ===== src/Coredump/Write.antt =====
-- The writing of a record in a fault: `g4b_spinor_fault_write`.
use steelseries_apex_pro_min.Prelude.{
  ℕ, ◌+◌, ◌%◌, ◌==◌, ◌≤◌, ◌<◌, ◌≡◌, ◌||◌, ltb, true, false, List, length, IsBytes, arith, refl, ap,
  ◌∙◌,
}
use steelseries_apex_pro_min.Flash.{◌>>◌}
use steelseries_apex_pro_min.Flash.Laws.{region, At, Ends, Ends-after, Ends_mono}
use steelseries_apex_pro_min.Spinor.{
  Spim, nor_size, erase_cyc, nor_wait_wip, nor_sector_erase, nor_page_program, fault_write,
}
use steelseries_apex_pro_min.Spinor.Chip.{IsChip}
use steelseries_apex_pro_min.Spinor.Reads.{nor_wait_wip-Same}
use steelseries_apex_pro_min.Spinor.Writes.{IsKept, nor_sector_erase-Ends, nor_page_program-Ends}
use steelseries_apex_pro_min.Spinor.Device.{succeeded-Ends}

module _ {D : Type 0} (spim : Spim D) (nor_at app_at : D → ℕ → ℕ) (chip : IsChip spim nor_at app_at)
    (a : ℕ) (bs : List ℕ) where
  abbrev E : D → D → Type 0
  E d = IsKept nor_at app_at a (a + 0x1000) d

  abbrev Q : D → D → Unit {0} → Type 0
  Q d d' _ =
      (E d d' × (IsBytes bs → region (nor_at d') a (length bs) ≡ bs)) × (chip.busy d' ≡ false)

  page-Ends :
      (d d2 : D)
      → a % 0x1000 ≡ 0
      → a + 0x1000 ≤ nor_size
      → length bs ≤ 256
      → E d d2
      → ((b : ℕ) → a ≤ b → b < a + 0x1000 → nor_at d2 b ≡ 0xff)
      → chip.busy d2 ≡ false
      → Ends (nor_page_program spim a bs d2) (Q d) (E d)
  page-Ends d d2 aligned inside short kept clear idle =
      Ends_mono _ (IsKept nor_at app_at a (a + length bs) d2) (Q d) (E d) _
        (nor_page_program-Ends spim nor_at app_at chip a bs d2 (omega arith) (omega arith))
        (λ d3 _ k. (
          (
            since d3 k.0.0,
            λ bytes. k.0.1 idle bytes (λ i lt. clear (a + i) (omega arith) (omega arith)),
          ),
          k.1,
        ))
        since
    where
      since : (d3 : D) → IsKept nor_at app_at a (a + length bs) d2 d3 → E d d3
      since d3 k = (k.0 ∙ kept.0, λ b out. k.1 b (omega arith) ∙ kept.1 b out)

  -- After the erase of the sector
  abbrev Erased : D → D → Unit {0} → Type 0
  Erased d d2 _ =
      E d d2 × ((b : ℕ) → a ≤ b → b < a + 0x1000 → nor_at d2 b ≡ 0xff) × (chip.busy d2 ≡ false)

  fault-Ends :
      (d d0 : D)
      → a % 0x1000 ≡ 0
      → a + 0x1000 ≤ nor_size
      → length bs ≤ 256
      → At nor_at app_at (nor_at d) (app_at d) d0
      → Ends
          ((nor_wait_wip spim erase_cyc >> nor_sector_erase spim a >> nor_page_program spim a bs)
            d0)
          (Q d)
          (E d)
  fault-Ends d d0 aligned inside short at =
      Ends-after (Erased d) (E d) (Q d) (E d) _ _
        (Ends-after (λ d1 _. At nor_at app_at (nor_at d) (app_at d) d1 × (chip.busy d1 ≡ false))
          (At nor_at app_at (nor_at d) (app_at d)) (Erased d) (E d) _ _
          (nor_wait_wip-Same spim nor_at app_at chip (nor_at d) (app_at d) erase_cyc d0 at)
          (λ d1 _ same.
            Ends_mono _ (IsKept nor_at app_at a (a + 0x1000) d1) (Erased d) (E d) _
              (nor_sector_erase-Ends spim nor_at app_at chip a d1 aligned inside)
              (λ d2 _ k. (from d1 same.0 d2 k.0.0, k.0.1 same.1, k.1)) (from d1 same.0))
          (λ d1 same. (same.1, λ b out. ap (λ f. f b) same.0)))
        (λ d2 _ h. page-Ends d d2 aligned inside short h.0 h.1 h.2) (λ d2 k. k)
    where
      from :
          (d1 : D)
          → At nor_at app_at (nor_at d) (app_at d) d1
          → (d2 : D) → IsKept nor_at app_at a (a + 0x1000) d1 d2
          → E d d2
      from d1 same d2 k = (k.0 ∙ same.1, λ b out. k.1 b out ∙ ap (λ f. f b) same.0)

  -- Nothing but the sector changes, and if the write succeeds the record stands at its start and the chip
  -- is not busy, whether or not it was busy before.
  pub fault_write-Writes :
      (d : D)
      → a % 0x1000 ≡ 0
      → a + 0x1000 ≤ nor_size
      → 0 < length bs
      → length bs ≤ 256
      → E d (fault_write spim a bs d).0
        × ((fault_write spim a bs d).1 ≡ true
            → (IsBytes bs → region (nor_at (fault_write spim a bs d).0) a (length bs) ≡ bs)
              × (chip.busy (fault_write spim a bs d).0 ≡ false))
  unfolding fault_write
  fault_write-Writes d aligned inside some_ short =
      let fits : length bs == 0 || ltb 256 (length bs) ≡ false = ground arith in
      let opened = spim.nor_enable d in
      let r =
        succeeded-Ends (E d) (Q d) _
          (fault-Ends d opened aligned inside short
            (chip.enable_At (nor_at d) (app_at d) d (refl, refl)))
          (λ d' h. h.0.0) in
      rw fits (
        closed _ r.0,
        λ good. (
          λ bytes. ap (λ f. region f a (length bs)) (kept _).0 ∙ (r.1 good).0.1 bytes,
          chip.disable_idle _ (r.1 good).1,
        ),
      )
    where
      kept : (d' : D) → At nor_at app_at (nor_at d') (app_at d') (spim.nor_disable d')
      kept d' = chip.disable_At (nor_at d') (app_at d') d' (refl, refl)

      closed : (d' : D) → E d d' → E d (spim.nor_disable d')
      closed d' h = ((kept d').1 ∙ h.0, λ b out. ap (λ f. f b) (kept d').0 ∙ h.1 b out)
