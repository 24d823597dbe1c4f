-- ===== src/Spinor/Writes.antt =====
-- One page program and one sector erase.
use steelseries_apex_pro_min.Prelude.{
  ℕ, ◌+◌, ◌%◌, ◌≤◌, ◌<◌, ◌≡◌, ◌⊎◌, ltb, true, false, List, [], ◌∷◌, ◌++◌, length, IsBytes, refl, ap,
  ◌∙◌,
}
use steelseries_apex_pro_min.Flash.Laws.{region, At, Ends, Ends-after, Ends_mono, Ends-if}
use steelseries_apex_pro_min.Flash.Stores.{Ends-run_good}
use steelseries_apex_pro_min.Promote.{address_bytes}
use steelseries_apex_pro_min.Spinor.{
  Spim, nor_size, erase_cyc, prog_cyc, nor_wren, nor_sector_erase, nor_page_program,
}
use steelseries_apex_pro_min.Spinor.Chip.{IsChip}
use steelseries_apex_pro_min.Spinor.Reads.{nor_wait_wip-Same}

-- Both flashes are as before, but for the bytes from `a` to `z`.
abbrev pub IsKept : {D : Type 0} → (D → ℕ → ℕ) → (D → ℕ → ℕ) → ℕ → ℕ → D → D → Type 0
IsKept nor_at app_at a z d d' =
    (app_at d' ≡ app_at d) × ((b : ℕ) → (b < a) ⊎ (z ≤ b) → nor_at d' b ≡ nor_at d b)

module _ {D : Type 0} (spim : Spim D) (nor_at app_at : D → ℕ → ℕ)
    (chip : IsChip spim nor_at app_at) where
  abbrev pub Programmed : ℕ → List ℕ → D → D → Unit {0} → Type 0
  Programmed a bs d d' _ =
      (IsKept nor_at app_at a (a + length bs) d d'
        × (chip.busy d ≡ false
            → IsBytes bs
            → ((i : ℕ) → i < length bs → nor_at d (a + i) ≡ 0xff)
            → region (nor_at d') a (length bs) ≡ bs))
      × (chip.busy d ≡ false → chip.busy d' ≡ false)

  -- What is so once a page program was sent
  abbrev pub Sent : ℕ → List ℕ → D → D → Unit {0} → Type 0
  Sent a bs d d' _ =
      IsKept nor_at app_at a (a + length bs) d d'
      × (chip.busy d ≡ false
          → IsBytes bs
          → ((i : ℕ) → i < length bs → nor_at d (a + i) ≡ 0xff)
          → region (nor_at d') a (length bs) ≡ bs)

  -- The latch is set when the command after the write enable completes.
  latches :
      (cmd : List ℕ) (d : D)
      → chip.busy d ≡ false
      → (spim.tx cmd (nor_wren spim d)).1 ≡ true
      → chip.latched (nor_wren spim d) ≡ true
  latches cmd d idle good = chip.wren_latches d idle (chip.wren_completes cmd d good)

  pub nor_page_program-Ends :
      (a : ℕ) (bs : List ℕ) (d : D)
      → a % 256 + length bs ≤ 256
      → a + length bs ≤ nor_size
      → Ends
          (nor_page_program spim a bs d)
          (λ d' _. Sent a bs d d' tt × (chip.busy d' ≡ false))
          (IsKept nor_at app_at a (a + length bs) d)
  unfolding nor_page_program
  nor_page_program-Ends a bs d page inside =
      Ends-if Q E (ltb 256 (length bs)) _ _ d (λ long. (refl, λ b out. refl))
        (λ short.
          Ends-after (Sent a bs d) E Q E _ _
            (Ends-run_good E (Sent a bs d) (spim.tx cmd) (nor_wren spim d)
              (λ good. (
                kept,
                λ idle bytes blank.
                    chip.program_stores a bs (nor_wren spim d) (chip.wren_idle d idle)
                      (latches cmd d idle good) page inside bytes
                      (λ i lt. ap (λ f. f (a + i)) (chip.wren_nor d) ∙ blank i lt) good,
              ))
              kept)
            (λ d2 _ h.
              Ends_mono _ (At nor_at app_at (nor_at d2) (app_at d2)) Q E _
                (nor_wait_wip-Same spim nor_at app_at chip (nor_at d2) (app_at d2) prog_cyc d2
                  (refl, refl))
                (λ d3 _ k. (
                  (
                    stays d2 d3 h.0 k.0,
                    λ idle bytes blank.
                        ap (λ f. region f a (length bs)) k.0.0 ∙ h.1 idle bytes blank,
                  ),
                  k.1,
                ))
                (λ d3 k. stays d2 d3 h.0 k))
            (λ d2 k. k))
    where
      E : D → Type 0
      E = IsKept nor_at app_at a (a + length bs) d

      Q : D → Unit {0} → Type 0
      Q d' _ = Sent a bs d d' tt × (chip.busy d' ≡ false)

      cmd : List ℕ
      cmd = 2 ∷ (address_bytes a ++ bs)

      kept : E (spim.tx cmd (nor_wren spim d)).0
      kept = (
        chip.tx_app cmd (nor_wren spim d) ∙ chip.tx_app (6 ∷ []) d,
        λ b out.
            chip.program_else a bs (nor_wren spim d) b page inside out
            ∙ ap (λ f. f b) (chip.wren_nor d),
      )

      stays : (d2 d3 : D) → E d2 → At nor_at app_at (nor_at d2) (app_at d2) d3 → E d3
      stays d2 d3 h k = (k.1 ∙ h.0, λ b out. ap (λ f. f b) k.0 ∙ h.1 b out)

  abbrev pub Cleared : ℕ → ℕ → D → D → Unit {0} → Type 0
  Cleared a z d d' _ =
      (IsKept nor_at app_at a z d d'
        × (chip.busy d ≡ false → (b : ℕ) → a ≤ b → b < z → nor_at d' b ≡ 0xff))
      × (chip.busy d ≡ false → chip.busy d' ≡ false)

  abbrev pub SentErase : ℕ → ℕ → D → D → Unit {0} → Type 0
  SentErase a z d d' _ =
      IsKept nor_at app_at a z d d'
      × (chip.busy d ≡ false → (b : ℕ) → a ≤ b → b < z → nor_at d' b ≡ 0xff)

  pub nor_sector_erase-Ends :
      (a : ℕ) (d : D)
      → a % 0x1000 ≡ 0
      → a + 0x1000 ≤ nor_size
      → Ends
          (nor_sector_erase spim a d)
          (λ d' _. SentErase a (a + 0x1000) d d' tt × (chip.busy d' ≡ false))
          (IsKept nor_at app_at a (a + 0x1000) d)
  unfolding nor_sector_erase
  nor_sector_erase-Ends a d aligned inside =
      Ends-after S E Q E _ _
        (Ends-run_good E S (spim.tx cmd) (nor_wren spim d)
          (λ good. (
            kept,
            λ idle b le lt.
                chip.erase_clears a (nor_wren spim d) b (chip.wren_idle d idle)
                  (latches cmd d idle good) aligned inside good le lt,
          ))
          kept)
        (λ d2 _ h.
          Ends_mono _ (At nor_at app_at (nor_at d2) (app_at d2)) Q E _
            (nor_wait_wip-Same spim nor_at app_at chip (nor_at d2) (app_at d2) erase_cyc d2
              (refl, refl))
            (λ d3 _ k.
              ((stays d2 d3 h.0 k.0, λ idle b le lt. ap (λ f. f b) k.0.0 ∙ h.1 idle b le lt), k.1))
            (λ d3 k. stays d2 d3 h.0 k))
        (λ d2 k. k)
    where
      E : D → Type 0
      E = IsKept nor_at app_at a (a + 0x1000) d

      Q : D → Unit {0} → Type 0
      Q d' _ = SentErase a (a + 0x1000) d d' tt × (chip.busy d' ≡ false)

      S : D → Unit {0} → Type 0
      S = SentErase a (a + 0x1000) d

      cmd : List ℕ
      cmd = 0x20 ∷ address_bytes a

      kept : E (spim.tx cmd (nor_wren spim d)).0
      kept = (
        chip.tx_app cmd (nor_wren spim d) ∙ chip.tx_app (6 ∷ []) d,
        λ b out.
            chip.erase_else a (nor_wren spim d) b aligned inside out
            ∙ ap (λ f. f b) (chip.wren_nor d),
      )

      stays : (d2 d3 : D) → E d2 → At nor_at app_at (nor_at d2) (app_at d2) d3 → E d3
      stays d2 d3 h k = (k.1 ∙ h.0, λ b out. ap (λ f. f b) k.0 ∙ h.1 b out)
