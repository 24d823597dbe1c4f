-- ===== src/Rollback/Autostage.antt =====
-- The automatic staging: `ab_autostage_thread`, after the check of an update on trial.
use steelseries_apex_pro_min.Prelude.{
  ℕ, ◌+◌, ◌^◌, ◌==◌, ◌≤◌, ◌<◌, ◌≡◌, ◌⊎◌, inr, true, false, List, arith, ap, sym, ◌∙◌,
}
use steelseries_apex_pro_min.Crc.{crc32_step}
use steelseries_apex_pro_min.Flash.{Io, err, failed, read, check}
use steelseries_apex_pro_min.Flash.Laws.{
  region, IsFaithful, IsLocal, At, Ends, Ends-after, Ends-read, Ends-check, Ends_mono,
}
use steelseries_apex_pro_min.Flash.Stores.{IsStoring, crc32_step-lt, region_all}
use steelseries_apex_pro_min.Update.{capacity}
use steelseries_apex_pro_min.Promote.{hdr_addr, tally_addr, ab_sector, bimg_addr, app_base}
use steelseries_apex_pro_min.Rollback.{
  descriptor, describes, implausible, chunks, read_back, already_b, stage_unless,
}
use steelseries_apex_pro_min.Rollback.ReadBack.{read_back-whole}
use steelseries_apex_pro_min.Rollback.Descriptor.{
  constants-descriptor, b_len-descriptor, b_crc32-descriptor, hdr_crc32-descriptor,
}
use steelseries_apex_pro_min.Rollback.Commit.{IsBeside, Committed, commit-Ends}
use steelseries_apex_pro_min.Rollback.Staging.{IsMapped, IsSlot, Erased, stage_erase-Ends}
use steelseries_apex_pro_min.Rollback.Copy.{copy_app-whole}

-- The descriptor is that of the application, and the staged image has its CRC.
abbrev pub IsMirror : ℕ → (ℕ → ℕ) → (ℕ → ℕ) → Type 0
IsMirror len app nor =
    (describes len (crc32_step 0 (region app app_base len)) (region nor hdr_addr 36) ≡ true)
    × (crc32_step 0 (region nor bimg_addr len) ≡ crc32_step 0 (region app app_base len))

describes-descriptor :
    (len crc : ℕ) → len < 2 ^ 32 → crc < 2 ^ 32 → describes len crc (descriptor len crc) ≡ true
unfolding describes
describes-descriptor len crc word word' = ground (
  arith,
  constants-descriptor len crc,
  b_len-descriptor len crc word word',
  b_crc32-descriptor len crc word word',
  hdr_crc32-descriptor len crc word word',
)

module _ {D : Type 0} (io : Io D) (nor_at app_at : D → ℕ → ℕ) (ok_io : IsFaithful io nor_at app_at)
    (local_io : IsLocal io nor_at app_at) (ok_flash : IsStoring io nor_at)
    (app_bytes : ℕ → ℕ → D → List ℕ) (mapped : IsMapped app_bytes app_at) where
  -- The application is as it was, and so is the NOR flash but for the descriptor, the tally and the
  -- slot of the staged image.
  abbrev pub IsStaging : D → D → Type 0
  IsStaging d d' =
      (app_at d' ≡ app_at d)
      × ((b : ℕ)
          → (b < hdr_addr) ⊎ (tally_addr + ab_sector ≤ b)
          → (b < bimg_addr) ⊎ (bimg_addr + capacity ≤ b)
          → nor_at d' b ≡ nor_at d b)

  abbrev pub Mirrors : ℕ → D → D → Unit {0} → Type 0
  Mirrors len d d' _ = IsStaging d d' × IsMirror len (app_at d) (nor_at d')

  pub already_b-Ends :
      (len : ℕ) (d : D)
      → len ≤ capacity
      → let crc = crc32_step 0 (region (app_at d) app_base len) in
        Ends
          (already_b io app_bytes len crc d)
          (λ d' _. At nor_at app_at (nor_at d) (app_at d) d' × IsMirror len (app_at d) (nor_at d))
          (At nor_at app_at (nor_at d) (app_at d))
  unfolding already_b
  already_b-Ends len d fits =
      Ends-after Buf E Q E (read (io.nor_read hdr_addr 36) d) _
        (Ends-read E Buf (io.nor_read hdr_addr 36) d
          (λ bs e. (at1, ok_io.nor_read_gives hdr_addr 36 d bs (omega arith) e)) at1)
        (λ d2 bs h.
          Ends-after Crc E Q E _ _
            (Ends-after Passed E Crc E (check (describes len crc bs) failed d2) _
              (Ends-check E Passed (describes len crc bs) failed d2
                (λ good. (h.0, ap (describes len crc) (sym h.1) ∙ good)) h.0)
              (λ d3 _ g. read_back-Crc d3 g) (λ d3 k. k))
            (λ d3 c g.
              Ends-check E Q (c == crc) failed d3
                (λ good. let e : c ≡ crc = ground arith in (g.0, (g.2, sym g.1 ∙ e))) g.0)
            (λ d3 k. k))
        (λ d2 k. k)
    where
      crc : ℕ
      crc = crc32_step 0 (region (app_at d) app_base len)

      E : D → Type 0
      E = At nor_at app_at (nor_at d) (app_at d)

      Buf : D → List ℕ → Type 0
      Buf d' bs = E d' × (bs ≡ region (nor_at d) hdr_addr 36)

      Passed : D → Unit {0} → Type 0
      Passed d' _ = E d' × (describes len crc (region (nor_at d) hdr_addr 36) ≡ true)

      Crc : D → ℕ → Type 0
      Crc d' c =
          E d'
          × (c ≡ crc32_step 0 (region (nor_at d) bimg_addr len))
          × (describes len crc (region (nor_at d) hdr_addr 36) ≡ true)

      Q : D → Unit {0} → Type 0
      Q d' _ = E d' × IsMirror len (app_at d) (nor_at d)

      at1 : E (io.nor_read hdr_addr 36 d).0
      at1 = (ok_io.nor_read_nor hdr_addr 36 d, ok_io.nor_read_app hdr_addr 36 d)

      read_back-Crc : (d3 : D) → Passed d3 tt → Ends (read_back io (chunks len) len 0 0 d3) Crc E
      read_back-Crc d3 h =
          Ends_mono _ E Crc E _
            (read_back-whole io nor_at app_at ok_io (nor_at d) (app_at d) (ok_flash.nor_byte d) len
              fits d3 h.0)
            (λ d4 c g. (g.0, g.1, h.1)) (λ d4 k. k)

  slot-IsStaging :
      (d d' : D) → IsSlot io nor_at app_at ok_io local_io ok_flash d d' → IsStaging d d'
  slot-IsStaging d d' h = (h.0, λ b _ out. h.1 b out)

  -- The staging of a fresh copy.
  pub stage-Ends :
      (len : ℕ) (d d1 : D)
      → implausible len ≡ false
      → At nor_at app_at (nor_at d) (app_at d) d1
      → Ends (stage_unless io app_bytes len (d1, err failed)) (Mirrors len d) (IsStaging d)
  stage-Ends len d d1 good at =
      Ends_mono Done (IsStaging d1) (Mirrors len d) (IsStaging d) _
        (Ends-after Copied (IsStaging d1) Done (IsStaging d1) _ _
          (Ends-after (Erased io nor_at app_at ok_io local_io ok_flash capacity d1)
            (IsSlot io nor_at app_at ok_io local_io ok_flash d1) Copied (IsStaging d1) _ _
            (stage_erase-Ends io nor_at app_at ok_io local_io ok_flash d1)
            (λ d2 _ h.
              Ends_mono Copied (IsSlot io nor_at app_at ok_io local_io ok_flash d1) Copied
                (IsStaging d1) _
                (copy_app-whole io nor_at app_at ok_io local_io ok_flash app_bytes mapped len d1 d2
                  (ground arith) h)
                (λ d3 _ k. k) (slot-IsStaging d1))
            (slot-IsStaging d1))
          (λ d3 _ h.
            Ends_mono
              (λ d4 r.
                (implausible len ≡ false)
                × Committed io nor_at app_at ok_io local_io ok_flash len d3 d4 r)
              (IsBeside io nor_at app_at ok_io local_io ok_flash d3) Done (IsStaging d1) _
              (commit-Ends io nor_at app_at ok_io local_io ok_flash d3 len)
              (λ d4 _ k. done d3 d4 h k.1) (λ d4 k. beside d3 d4 h.0 k))
          (λ d3 k. k))
        (λ d4 _ h. (back d4 h.0, coe 0 1 (i. IsMirror len (at.1 i) (nor_at d4)) h.1)) back
    where
      Copied : D → Unit {0} → Type 0
      Copied d' _ =
          IsSlot io nor_at app_at ok_io local_io ok_flash d1 d'
          × (region (nor_at d') bimg_addr len ≡ region (app_at d1) app_base len)

      Done : D → Unit {0} → Type 0
      Done d' _ = IsStaging d1 d' × IsMirror len (app_at d1) (nor_at d')

      beside :
          (d3 d4 : D)
          → IsSlot io nor_at app_at ok_io local_io ok_flash d1 d3
          → IsBeside io nor_at app_at ok_io local_io ok_flash d3 d4
          → IsStaging d1 d4
      beside d3 d4 h k = (k.0 ∙ h.0, λ b out out'. k.1 b out ∙ h.1 b out')

      done :
          (d3 d4 : D)
          → Copied d3 tt
          → Committed io nor_at app_at ok_io local_io ok_flash len d3 d4 tt
          → Done d4 tt
      done d3 d4 h k = (
        beside d3 d4 h.0 k.0,
        (
          ap (λ l. describes len (crc32_step 0 l) (region (nor_at d4) hdr_addr 36)) (sym same)
              ∙ ap (describes len (crc32_step 0 (region (nor_at d4) bimg_addr len))) k.1.0
              ∙ describes-descriptor len _ (ground arith)
                  (crc32_step-lt 0 (region (nor_at d4) bimg_addr len)),
          ap (crc32_step 0) same,
        ),
      )
        where
          kept : region (nor_at d4) bimg_addr len ≡ region (nor_at d3) bimg_addr len
          kept =
              region_all (nor_at d4) (nor_at d3) bimg_addr len
                (λ b le lt. k.0.1 b (inr (omega arith)))

          same : region (nor_at d4) bimg_addr len ≡ region (app_at d1) app_base len
          same = kept ∙ h.1

      back : (d' : D) → IsStaging d1 d' → IsStaging d d'
      back d' h = (h.0 ∙ at.1, λ b out out'. h.1 b out out' ∙ ap (λ f. f b) at.0)
