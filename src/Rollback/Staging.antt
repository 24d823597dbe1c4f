-- ===== src/Rollback/Staging.antt =====
-- The staging of a copy of the running application: the erase and the copy.
use steelseries_apex_pro_min.Prelude.{
  ℕ, zero, suc, ◌+◌, ◌*◌, ◌/◌, ◌≤◌, ◌<◌, ◌≡◌, ◌⊎◌, inl, inr, ltb, true, List, arith, refl, ap, sym,
  ◌∙◌, Bool-cases,
}
use steelseries_apex_pro_min.Flash.{Io, run}
use steelseries_apex_pro_min.Flash.Laws.{region, IsFaithful, IsLocal, Ends, Ends-after}
use steelseries_apex_pro_min.Flash.Stores.{IsStoring, Ends-run_good}
use steelseries_apex_pro_min.Update.{capacity}
use steelseries_apex_pro_min.Promote.{ab_sector, bimg_addr}
use steelseries_apex_pro_min.Rollback.{erase_loop, stage_erase}

-- Two regions with the same bytes agree byte by byte.
pub region_at :
    (f g : ℕ → ℕ) (n a b i : ℕ) → region f a n ≡ region g b n → i < n → f (a + i) ≡ g (b + i)
unfolding region
region_at f g zero a b i e lt = absurd (omega arith)
region_at f g (suc n) a b zero e lt =
    let e1 : a + 0 ≡ a = omega arith in
    let e2 : b + 0 ≡ b = omega arith in
    let first : f a ≡ g b = cc in ap f e1 ∙ first ∙ ap g (sym e2)
region_at f g (suc n) a b (suc i) e lt =
    let e1 : a + suc i ≡ a + 1 + i = omega arith in
    let e2 : b + 1 + i ≡ b + suc i = omega arith in
    let rest : region f (a + 1) n ≡ region g (b + 1) n = cc in
    ap f e1 ∙ region_at f g n (a + 1) (b + 1) i rest (omega arith) ∙ ap g e2

-- The application is mapped to memory, in bytes.
pub record IsMapped {D : Type 0} (app_bytes : ℕ → ℕ → D → List ℕ) (app_at : D → ℕ → ℕ)
    : Type 0 where
  pub app_gives : (a n : ℕ) (d : D) → app_bytes a n d ≡ region (app_at d) a n
  pub app_byte : (d : D) (i : ℕ) → app_at d i < 256

module _ {D : Type 0} (io : Io D) (nor_at app_at : D → ℕ → ℕ) (ok_io : IsFaithful io nor_at app_at)
    (local_io : IsLocal io nor_at app_at) (ok_flash : IsStoring io nor_at) where
  -- Both flashes are as before, but for the slot of the staged image.
  abbrev pub IsSlot : D → D → Type 0
  IsSlot d d' =
      (app_at d' ≡ app_at d)
      × ((b : ℕ) → (b < bimg_addr) ⊎ (bimg_addr + capacity ≤ b) → nor_at d' b ≡ nor_at d b)

  abbrev pub Erased : ℕ → D → D → Unit {0} → Type 0
  Erased n d d' _ = IsSlot d d' × ((i : ℕ) → i < n → nor_at d' (bimg_addr + i) ≡ 0xff)

  erase_sector-Ends :
      (a : ℕ) (d d1 : D)
      → a + ab_sector ≤ capacity
      → Erased a d d1 tt
      → Ends (run (io.nor_erase (bimg_addr + a) ab_sector) d1) (Erased (a + ab_sector) d) (IsSlot d)
  erase_sector-Ends a d d1 fits h =
      Ends-run_good (IsSlot d) (Erased (a + ab_sector) d) (io.nor_erase (bimg_addr + a) ab_sector)
        d1 (λ good. (slot, λ i lt. clear good i lt)) slot
    where
      d2 : D
      d2 = (io.nor_erase (bimg_addr + a) ab_sector d1).0

      else_ :
          (b : ℕ)
          → (b < bimg_addr + a) ⊎ (bimg_addr + a + ab_sector ≤ b)
          → nor_at d2 b ≡ nor_at d1 b
      else_ b out = local_io.nor_erase_else (bimg_addr + a) ab_sector d1 b out

      slot : IsSlot d d2
      slot = (
        local_io.nor_erase_app (bimg_addr + a) ab_sector d1 ∙ h.0.0,
        λ b out. else_ b (omega arith) ∙ h.0.1 b out,
      )

      clear :
          (io.nor_erase (bimg_addr + a) ab_sector d1).1 ≡ true
          → (i : ℕ) → i < a + ab_sector
          → nor_at d2 (bimg_addr + i) ≡ 0xff
      clear good i lt = elim (Bool-cases (ltb i a)) [
        | inl before ↦ else_ (bimg_addr + i) (inl (ground arith)) ∙ h.1 i (ground arith)
        | inr here ↦
            ok_flash.nor_erase_clears (bimg_addr + a) ab_sector d1 (bimg_addr + i) good
              (ground arith) (omega arith)
      ]

  erase_loop-Ends :
      (left a : ℕ) (d d1 : D)
      → a + left * ab_sector ≡ capacity
      → Erased a d d1 tt
      → Ends (erase_loop io left a d1) (Erased capacity d) (IsSlot d)
  unfolding erase_loop
  erase_loop-Ends zero a d d1 e h =
      let e' : a ≡ capacity = omega arith in (h.0, λ i lt. h.1 i (omega arith))
  erase_loop-Ends (suc left) a d d1 e h =
      Ends-after (Erased (a + ab_sector) d) (IsSlot d) (Erased capacity d) (IsSlot d) _ _
        (erase_sector-Ends a d d1 (omega arith) h)
        (λ d2 _ h2. erase_loop-Ends left (a + ab_sector) d d2 (omega arith) h2) (λ d2 k. k)

  -- The erase of the slot leaves ones in all of it, if it succeeds, and touches nothing else.
  pub stage_erase-Ends : (d : D) → Ends (stage_erase io d) (Erased capacity d) (IsSlot d)
  unfolding stage_erase
  stage_erase-Ends d =
      erase_loop-Ends (capacity / ab_sector) 0 d d (omega arith)
        ((refl, λ b out. refl), λ i lt. absurd (omega arith))
