-- ===== src/Rollback/Copy.antt =====
-- The copy of the running application to the erased slot.
use steelseries_apex_pro_min.Prelude.{
  ℕ, zero, suc, ◌+◌, ◌-◌, ◌*◌, ◌≤◌, ◌<◌, ◌≡◌, ◌⊎◌, inl, inr, ltb, leb, min, true, false, List,
  length, arith, refl, ap, sym, ◌∙◌, Bool-cases,
}
use steelseries_apex_pro_min.Flash.{Io, run}
use steelseries_apex_pro_min.Flash.Laws.{
  region, region_ext, length-region, IsFaithful, IsLocal, Ends, Ends-after, Ends-if, Ends_mono,
}
use steelseries_apex_pro_min.Flash.Stores.{IsStoring, Ends-run_good, IsBytes-region}
use steelseries_apex_pro_min.Update.{capacity}
use steelseries_apex_pro_min.Promote.{bimg_addr, app_base}
use steelseries_apex_pro_min.Rollback.{stage_write, copy_app, chunks}
use steelseries_apex_pro_min.Rollback.Staging.{region_at, IsMapped, IsSlot, Erased}

module _ {D : Type 0} (io : Io D) (nor_at app_at : D → ℕ → ℕ) (ok_io : IsFaithful io nor_at app_at)
    (local_io : IsLocal io nor_at app_at) (ok_flash : IsStoring io nor_at) where
  -- A chunk that reaches past the slot is refused, and another changes only the bytes that it names.
  pub stage_write-IsSlot :
      (off : ℕ) (bs : List ℕ) (d : D)
      → IsSlot io nor_at app_at ok_io local_io ok_flash d (stage_write io off bs d).0
  unfolding stage_write
  stage_write-IsSlot off bs d = elim (Bool-cases (ltb capacity (off + length bs))) [
    | inl past ↦ rw past (refl, λ b out. refl)
    | inr inside ↦ rw inside (
      ok_io.nor_write_app (bimg_addr + off) bs d,
      λ b out.
          let fits : off + length bs ≤ capacity = ground arith in
          local_io.nor_write_else (bimg_addr + off) bs d b (apart b fits out),
    )
  ]
    where
      apart :
          (b : ℕ)
          → off + length bs ≤ capacity
          → (b < bimg_addr) ⊎ (bimg_addr + capacity ≤ b)
          → (b < bimg_addr + off) ⊎ (bimg_addr + off + length bs ≤ b)
      apart b fits (inl lt) = inl (omega arith)
      apart b fits (inr le) = inr (omega arith)

  stage_write_inside :
      (off : ℕ) (bs : List ℕ) (d : D)
      → off + length bs ≤ capacity
      → stage_write io off bs d ≡ io.nor_write (bimg_addr + off) bs d
  unfolding stage_write
  stage_write_inside off bs d fits =
      let inside : ltb capacity (off + length bs) ≡ false = ground arith in rw inside refl

  module _ (app_bytes : ℕ → ℕ → D → List ℕ) (mapped : IsMapped app_bytes app_at) where
    -- The first `off` bytes are copied, and the rest of the slot is erased.
    abbrev pub Copied : ℕ → D → D → Unit {0} → Type 0
    Copied off d d' _ =
        IsSlot io nor_at app_at ok_io local_io ok_flash d d'
        × ((i : ℕ) → i < off → nor_at d' (bimg_addr + i) ≡ app_at d (app_base + i))
        × ((i : ℕ) → off ≤ i → i < capacity → nor_at d' (bimg_addr + i) ≡ 0xff)

    chunk-Ends :
        (off n : ℕ) (d d1 : D)
        → off + n ≤ capacity
        → Copied off d d1 tt
        → Ends
            (run (λ e. stage_write io off (app_bytes (app_base + off) n e) e) d1)
            (Copied (off + n) d)
            (IsSlot io nor_at app_at ok_io local_io ok_flash d)
    chunk-Ends off n d d1 fits h =
        Ends-run_good (IsSlot io nor_at app_at ok_io local_io ok_flash d) (Copied (off + n) d)
          (λ e. stage_write io off (app_bytes (app_base + off) n e) e) d1
          (λ good. (slot, copied good, rest)) slot
      where
        bs : List ℕ
        bs = app_bytes (app_base + off) n d1

        same : bs ≡ region (app_at d) (app_base + off) n
        same = mapped.app_gives (app_base + off) n d1 ∙ ap (λ f. region f (app_base + off) n) h.0.0

        size : length bs ≡ n
        size = ap length same ∙ length-region (app_at d) (app_base + off) n

        d2 : D
        d2 = (stage_write io off bs d1).0

        now : IsSlot io nor_at app_at ok_io local_io ok_flash d1 d2
        now = stage_write-IsSlot off bs d1

        slot : IsSlot io nor_at app_at ok_io local_io ok_flash d d2
        slot = (now.0 ∙ h.0.0, λ b out. now.1 b out ∙ h.0.1 b out)

        written : stage_write io off bs d1 ≡ io.nor_write (bimg_addr + off) bs d1
        written = stage_write_inside off bs d1 (omega (arith, size))

        else_ :
            (b : ℕ) → (b < bimg_addr + off) ⊎ (bimg_addr + off + n ≤ b) → nor_at d2 b ≡ nor_at d1 b
        else_ b out =
            ap (λ p. nor_at p.0 b) written
            ∙ local_io.nor_write_else (bimg_addr + off) bs d1 b (omega (arith, size))

        stored :
            (stage_write io off bs d1).1 ≡ true
            → region (nor_at d2) (bimg_addr + off) n ≡ region (app_at d) (app_base + off) n
        stored good =
            ap (λ p. region (nor_at p.0) (bimg_addr + off) n) written
            ∙ ap (region (nor_at (io.nor_write (bimg_addr + off) bs d1).0) (bimg_addr + off))
                (sym size)
            ∙ ok_flash.nor_write_stores (bimg_addr + off) bs d1
                (rw same (IsBytes-region (app_at d) (app_base + off) n (mapped.app_byte d)))
                (λ i lt.
                  let e : bimg_addr + off + i ≡ bimg_addr + (off + i) = omega arith in
                  ap (nor_at d1) e ∙ h.2 (off + i) (omega arith) (omega (arith, size)))
                (sym (ap (λ p. p.1) written) ∙ good)
            ∙ same

        copied :
            (stage_write io off bs d1).1 ≡ true
            → (i : ℕ) → i < off + n
            → nor_at d2 (bimg_addr + i) ≡ app_at d (app_base + i)
        copied good i lt = elim (Bool-cases (ltb i off)) [
          | inl before ↦ else_ (bimg_addr + i) (inl (ground arith)) ∙ h.1 i (ground arith)
          | inr here ↦
              let e : bimg_addr + i ≡ bimg_addr + off + (i - off) = ground arith in
              let e' : app_base + off + (i - off) ≡ app_base + i = ground arith in
              ap (nor_at d2) e
              ∙ region_at (nor_at d2) (app_at d) n (bimg_addr + off) (app_base + off) (i - off)
                  (stored good) (ground arith)
              ∙ ap (app_at d) e'
        ]

        rest : (i : ℕ) → off + n ≤ i → i < capacity → nor_at d2 (bimg_addr + i) ≡ 0xff
        rest i le lt = else_ (bimg_addr + i) (inr (omega arith)) ∙ h.2 i (omega arith) lt

    copy_app-Ends :
        (left off len : ℕ) (d d1 : D)
        → off ≤ len
        → len ≤ capacity
        → len ≤ off + 256 * left
        → Copied off d d1 tt
        → Ends
            (copy_app io app_bytes left len off d1)
            (Copied len d)
            (IsSlot io nor_at app_at ok_io local_io ok_flash d)
    unfolding copy_app
    copy_app-Ends zero off len d d1 le fits enough h = let e : off ≡ len = omega arith in rw (← e) h
    copy_app-Ends (suc left) off len d d1 le fits enough h =
        let E = IsSlot io nor_at app_at ok_io local_io ok_flash d in
        let n = min 256 (len - off) in
        Ends-if (Copied len d) E (leb len off) _ _ d1
          (λ past. let e : off ≡ len = ground arith in rw (← e) h)
          (λ more.
            Ends-after (Copied (off + n) d) E (Copied len d) E _ _
              (chunk-Ends off n d d1 (omega arith) h)
              (λ d2 _ h2.
                copy_app-Ends left (off + n) len d d2 (ground arith) fits (ground arith) h2)
              (λ d2 k. k))

    -- From an erased slot the copy ends with the application's bytes, if it succeeds.
    pub copy_app-whole :
        (len : ℕ) (d d1 : D)
        → len ≤ capacity
        → Erased io nor_at app_at ok_io local_io ok_flash capacity d d1 tt
        → Ends
            (copy_app io app_bytes (chunks len) len 0 d1)
            (λ d' _.
              IsSlot io nor_at app_at ok_io local_io ok_flash d d'
              × (region (nor_at d') bimg_addr len ≡ region (app_at d) app_base len))
            (IsSlot io nor_at app_at ok_io local_io ok_flash d)
    copy_app-whole len d d1 fits h =
        let E = IsSlot io nor_at app_at ok_io local_io ok_flash d in
        Ends_mono (Copied len d) E _ E _
          (copy_app-Ends (chunks len) 0 len d d1 (omega arith) fits (omega arith)
            (h.0, (λ i lt. absurd (omega arith)), λ i le lt. h.1 i lt))
          (λ d' _ c.
            (c.0, region_ext (nor_at d') (app_at d) bimg_addr app_base len (λ i lt. c.1 i lt)))
          (λ d' k. k)
