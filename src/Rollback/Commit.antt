-- ===== src/Rollback/Commit.antt =====
-- A commit arms what the bootloader reads: `g4b_ab_commit`.
use steelseries_apex_pro_min.Prelude.{
  ℕ, ◌+◌, ◌^◌, ◌≤◌, ◌<◌, ◌≡◌, ◌⊎◌, inl, inr, false, List, length, arith, refl, ap, sym, ◌∙◌,
  Bool-cases,
}
use steelseries_apex_pro_min.Crc.{crc32_step}
use steelseries_apex_pro_min.Flash.{Io, run}
use steelseries_apex_pro_min.Flash.Laws.{
  region, IsFaithful, IsLocal, At, Ends, Ends-after, Ends_mono,
}
use steelseries_apex_pro_min.Flash.Stores.{
  IsStoring, Ends-run_good, crc32_step-lt, region-length_cong, region_all,
}
use steelseries_apex_pro_min.Update.{capacity}
use steelseries_apex_pro_min.Promote.{Build, hdr_addr, tally_addr, ab_sector, bimg_addr}
use steelseries_apex_pro_min.Promote.Records.{header_of, header_valid}
use steelseries_apex_pro_min.Promote.Settle.{IsArmed, staged_header}
use steelseries_apex_pro_min.Rollback.{
  descriptor, implausible, default_thresh, arm, commit, read_back, chunks,
}
use steelseries_apex_pro_min.Rollback.Boots.{IsErased}
use steelseries_apex_pro_min.Rollback.ReadBack.{read_back-whole}
use steelseries_apex_pro_min.Rollback.Descriptor.{
  length-descriptor, IsBytes-descriptor, header_valid-descriptor, b_len-descriptor,
  b_crc32-descriptor, fail_thresh-descriptor,
}

-- What the firmware has committed: the descriptor of the staged image, and an empty tally.
abbrev pub HoldsImage : ℕ → (ℕ → ℕ) → Type 0
HoldsImage b_len nor =
    (region nor hdr_addr 36 ≡ descriptor b_len (crc32_step 0 (region nor bimg_addr b_len)))
    × IsErased nor

-- For a bootloader that is built for the whole application area, and a plausible length: a flash that
-- holds what a commit leaves is armed for it, with this length and the default threshold.
pub HoldsImage-IsArmed :
    (build : Build) (b_len : ℕ) (nor : ℕ → ℕ)
    → build.app_maxlen ≡ capacity
    → implausible b_len ≡ false
    → HoldsImage b_len nor
    → IsArmed build nor
      × ((staged_header nor).b_len ≡ b_len)
      × ((staged_header nor).fail_thresh ≡ default_thresh)
HoldsImage-IsArmed build b_len nor whole good h =
    let crc = crc32_step 0 (region nor bimg_addr b_len) in
    let word : crc < 2 ^ 32 = crc32_step-lt 0 (region nor bimg_addr b_len) in
    let short : b_len < 2 ^ 32 = ground arith in
    let len : (staged_header nor).b_len ≡ b_len =
      ap (λ bs. (header_of bs).b_len) h.0 ∙ b_len-descriptor b_len crc short word in
    let sum : (staged_header nor).b_crc32 ≡ crc =
      ap (λ bs. (header_of bs).b_crc32) h.0 ∙ b_crc32-descriptor b_len crc short word in
    (
      (
        ap (header_valid build) h.0 ∙ header_valid-descriptor build b_len crc whole good word,
        ap (λ n. crc32_step 0 (region nor bimg_addr n)) len ∙ sym sum,
      ),
      len,
      ap (λ bs. (header_of bs).fail_thresh) h.0 ∙ fail_thresh-descriptor b_len crc short word,
    )

module _ {D : Type 0} (io : Io D) (nor_at app_at : D → ℕ → ℕ) (ok_io : IsFaithful io nor_at app_at)
    (local_io : IsLocal io nor_at app_at) (ok_flash : IsStoring io nor_at) where
  -- Both flashes are as before, but for the descriptor and the tally.
  abbrev pub IsBeside : D → D → Type 0
  IsBeside d d' =
      (app_at d' ≡ app_at d)
      × ((b : ℕ) → (b < hdr_addr) ⊎ (tally_addr + ab_sector ≤ b) → nor_at d' b ≡ nor_at d b)

  abbrev WithTally : D → D → Unit {0} → Type 0
  WithTally d d' _ = IsBeside d d' × IsErased (nor_at d')

  abbrev WithHeader : D → D → Unit {0} → Type 0
  WithHeader d d' _ =
      IsBeside d d' × IsErased (nor_at d') × ((i : ℕ) → i < 36 → nor_at d' (hdr_addr + i) ≡ 0xff)

  abbrev pub Committed : ℕ → D → D → Unit {0} → Type 0
  Committed b_len d d' _ = IsBeside d d' × HoldsImage b_len (nor_at d')

  erase_tally-Ends :
      (d d1 : D)
      → IsBeside d d1
      → Ends (run (io.nor_erase tally_addr ab_sector) d1) (WithTally d) (IsBeside d)
  erase_tally-Ends d d1 h =
      let d2 = (io.nor_erase tally_addr ab_sector d1).0 in
      let beside : IsBeside d d2 = (
        local_io.nor_erase_app tally_addr ab_sector d1 ∙ h.0,
        λ b out. local_io.nor_erase_else tally_addr ab_sector d1 b (omega arith) ∙ h.1 b out,
      ) in
      Ends-run_good (IsBeside d) (WithTally d) (io.nor_erase tally_addr ab_sector) d1
        (λ good. (
          beside,
          λ i lt.
              ok_flash.nor_erase_clears tally_addr ab_sector d1 (tally_addr + i) good (omega arith)
                (omega arith),
        ))
        beside

  erase_header-Ends :
      (d d2 : D)
      → WithTally d d2 tt
      → Ends (run (io.nor_erase hdr_addr ab_sector) d2) (WithHeader d) (IsBeside d)
  erase_header-Ends d d2 h =
      let d3 = (io.nor_erase hdr_addr ab_sector d2).0 in
      let beside : IsBeside d d3 = (
        local_io.nor_erase_app hdr_addr ab_sector d2 ∙ h.0.0,
        λ b out. local_io.nor_erase_else hdr_addr ab_sector d2 b (omega arith) ∙ h.0.1 b out,
      ) in
      Ends-run_good (IsBeside d) (WithHeader d) (io.nor_erase hdr_addr ab_sector) d2
        (λ good. (
          beside,
          (λ i lt.
              local_io.nor_erase_else hdr_addr ab_sector d2 (tally_addr + i) (omega arith)
              ∙ h.1 i lt),
          λ i lt.
              ok_flash.nor_erase_clears hdr_addr ab_sector d2 (hdr_addr + i) good (omega arith)
                (omega arith),
        ))
        beside

  write_header-Ends :
      (d d3 : D) (b_len : ℕ)
      → b_len ≤ capacity
      → WithHeader d d3 tt
      → let crc = crc32_step 0 (region (nor_at d) bimg_addr b_len) in
        Ends
          (run (io.nor_write hdr_addr (descriptor b_len crc)) d3)
          (Committed b_len d)
          (IsBeside d)
  write_header-Ends d d3 b_len fits h =
      Ends-run_good (IsBeside d) (Committed b_len d) (io.nor_write hdr_addr bytes) d3
        (λ good. (
          beside,
          (
            region-length_cong (nor_at d4) hdr_addr bytes 36 size (
                  ok_flash.nor_write_stores hdr_addr bytes d3 (IsBytes-descriptor b_len crc)
                    (λ i lt. h.2 i (omega (arith, size))) good)
                ∙ ap (λ (l : List ℕ). descriptor b_len (crc32_step 0 l)) (sym same_image),
            λ i lt. else_ (tally_addr + i) (inr (omega (arith, size))) ∙ h.1 i lt,
          ),
        ))
        beside
    where
      crc : ℕ
      crc = crc32_step 0 (region (nor_at d) bimg_addr b_len)

      bytes : List ℕ
      bytes = descriptor b_len crc

      size : length bytes ≡ 36
      size = length-descriptor b_len crc

      d4 : D
      d4 = (io.nor_write hdr_addr bytes d3).0

      else_ : (b : ℕ) → (b < hdr_addr) ⊎ (hdr_addr + length bytes ≤ b) → nor_at d4 b ≡ nor_at d3 b
      else_ b out = local_io.nor_write_else hdr_addr bytes d3 b out

      beside : IsBeside d d4
      beside = (
        ok_io.nor_write_app hdr_addr bytes d3 ∙ h.0.0,
        λ b out. else_ b (omega (arith, size)) ∙ h.0.1 b out,
      )

      same_image : region (nor_at d4) bimg_addr b_len ≡ region (nor_at d) bimg_addr b_len
      same_image =
          region_all (nor_at d4) (nor_at d) bimg_addr b_len
            (λ b le lt. beside.1 b (inr (omega arith)))

  arm-Ends :
      (d d1 : D) (b_len : ℕ)
      → b_len ≤ capacity
      → IsBeside d d1
      → Ends
          (arm io b_len (crc32_step 0 (region (nor_at d) bimg_addr b_len)) d1)
          (Committed b_len d)
          (IsBeside d)
  unfolding arm
  arm-Ends d d1 b_len fits h =
      Ends-after (WithHeader d) (IsBeside d) (Committed b_len d) (IsBeside d) _ _
        (Ends-after (WithTally d) (IsBeside d) (WithHeader d) (IsBeside d) _ _
          (erase_tally-Ends d d1 h) (λ d2 _ h2. erase_header-Ends d d2 h2) (λ d2 k. k))
        (λ d3 _ h3. write_header-Ends d d3 b_len fits h3) (λ d3 k. k)

  -- However a commit ends, only the descriptor and the tally may have changed. If it succeeds, the length
  -- is plausible, the descriptor is that of the staged image with the CRC that it has on the flash, and
  -- the tally is erased.
  pub commit-Ends :
      (d : D) (b_len : ℕ)
      → Ends
          (commit io b_len d)
          (λ d' r. (implausible b_len ≡ false) × Committed b_len d d' r)
          (IsBeside d)
  unfolding commit
  commit-Ends d b_len = elim (Bool-cases (implausible b_len)) [
    | inl bad ↦ rw bad (refl, λ b out. refl)
    | inr good ↦ rw good (
        Ends_mono (Committed b_len d) (IsBeside d)
          (λ d' r. (false ≡ false) × Committed b_len d d' r) (IsBeside d) _
          (Ends-after Crc (At nor_at app_at (nor_at d) (app_at d)) (Committed b_len d) (IsBeside d)
            (read_back io (chunks b_len) b_len 0 0 d) (arm io b_len)
            (read_back-whole io nor_at app_at ok_io (nor_at d) (app_at d) (ok_flash.nor_byte d)
              b_len (ground arith) d (refl, refl))
            (λ d1 c h. rw h.1 (arm-Ends d d1 b_len (ground arith) (stays d1 h.0)))
            (λ d1 h. stays d1 h))
          (λ d' r h. (refl, h)) (λ d' h. h))
  ]
    where
      Crc : D → ℕ → Type 0
      Crc d' c =
          At nor_at app_at (nor_at d) (app_at d) d'
          × (c ≡ crc32_step 0 (region (nor_at d) bimg_addr b_len))

      stays : (d1 : D) → At nor_at app_at (nor_at d) (app_at d) d1 → IsBeside d d1
      stays d1 h = (h.1, λ b out. ap (λ f. f b) h.0)
