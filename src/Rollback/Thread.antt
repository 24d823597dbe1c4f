-- ===== src/Rollback/Thread.antt =====
-- The whole of `ab_autostage_thread`.
use steelseries_apex_pro_min.Prelude.{ℕ, ◌≡◌, not, false, Option, List, arith, refl, ap, sym, ◌∙◌}
use steelseries_apex_pro_min.Crc.{crc32_step}
use steelseries_apex_pro_min.Flash.{Io, Result, ok, err, failed, invalid, pending}
use steelseries_apex_pro_min.Flash.Laws.{
  IsFaithful, IsLocal, At, Ends, Ends-after, Ends-check, Ends_mono,
}
use steelseries_apex_pro_min.Flash.Stores.{IsStoring}
use steelseries_apex_pro_min.Update.Install.{health}
use steelseries_apex_pro_min.Update.Trial.{IsJudged, health-Ends}
use steelseries_apex_pro_min.Promote.{app_base}
use steelseries_apex_pro_min.Rollback.{implausible, already_b, stage_unless, autostage_thread}
use steelseries_apex_pro_min.Rollback.Staging.{IsMapped}
use steelseries_apex_pro_min.Rollback.Autostage.{
  IsMirror, IsStaging, Mirrors, already_b-Ends, stage-Ends,
}

module _ {D : Type 0} (io : Io D) (nor_at app_at : D → ℕ → ℕ) (ok_io : IsFaithful io nor_at app_at)
    (local_io : IsLocal io nor_at app_at) (ok_flash : IsStoring io nor_at)
    (app_bytes : ℕ → ℕ → D → List ℕ) (mapped : IsMapped app_bytes app_at) where
  abbrev pub Framed : D → D → Type 0
  Framed = IsStaging io nor_at app_at ok_io local_io ok_flash app_bytes mapped

  stage_unless-Ends :
      (len : ℕ) (d : D) (p : D × Result (Unit {0}))
      → implausible len ≡ false
      → Ends p
          (λ d' _. At nor_at app_at (nor_at d) (app_at d) d' × IsMirror len (app_at d) (nor_at d))
          (At nor_at app_at (nor_at d) (app_at d))
      → Ends
          (stage_unless io app_bytes len p)
          (Mirrors io nor_at app_at ok_io local_io ok_flash app_bytes mapped len d)
          (Framed d)
  stage_unless-Ends len d (d1, ok _) good h = (
    (h.0.1, λ b _ _. ap (λ f. f b) h.0.0),
    (let e = sym h.0.0 in coe 0 1 (i. IsMirror len (app_at d) (e i)) h.1),
  )
  stage_unless-Ends len d (d1, err failed) good h =
      stage-Ends io nor_at app_at ok_io local_io ok_flash app_bytes mapped len d d1 good h
  stage_unless-Ends len d (d1, err invalid) good h =
      stage-Ends io nor_at app_at ok_io local_io ok_flash app_bytes mapped len d d1 good h
  stage_unless-Ends len d (d1, err pending) good h =
      stage-Ends io nor_at app_at ok_io local_io ok_flash app_bytes mapped len d d1 good h

  -- However the thread ends, the application is as it was, and since the check of an update on trial
  -- the NOR flash has changed only in the descriptor, the tally and the slot. If it reports an update
  -- as possible, the descriptor is that of the application and the staged image has its CRC.
  pub autostage_thread-Ends :
      (digest : List ℕ → Option (List ℕ)) (flash_used : ℕ) (d : D)
      → let d1 = (health io digest d).0 in
        Ends
          (autostage_thread io app_bytes digest flash_used d)
          (λ d' _.
            (app_at d' ≡ app_at d) × Framed d1 d' × IsMirror flash_used (app_at d) (nor_at d'))
          (λ d'. (app_at d' ≡ app_at d) × Framed d1 d')
  unfolding autostage_thread
  autostage_thread-Ends digest flash_used d =
      Ends-after Plausible E Q E _ _
        (Ends-after Start E Plausible E (health io digest d) _ started
          (λ d2 _ h.
            Ends-check E Plausible (not (implausible flash_used)) failed d2
              (λ good. (h, ground arith)) (framed d2 h))
          (λ d2 k. k))
        (λ d2 _ h. staged d2 h) (λ d2 k. k)
    where
      d1 : D
      d1 = (health io digest d).0

      Start : D → Unit {0} → Type 0
      Start d2 _ = (d2 ≡ d1) × (app_at d1 ≡ app_at d)

      E : D → Type 0
      E d' = (app_at d' ≡ app_at d) × Framed d1 d'

      Plausible : D → Unit {0} → Type 0
      Plausible d2 _ = Start d2 tt × (implausible flash_used ≡ false)

      Q : D → Unit {0} → Type 0
      Q d' _ = (app_at d' ≡ app_at d) × Framed d1 d' × IsMirror flash_used (app_at d) (nor_at d')

      framed : (d2 : D) → Start d2 tt → E d2
      framed d2 h = (ap app_at h.0 ∙ h.1, (ap app_at h.0, λ b _ _. ap (λ e. nor_at e b) h.0))

      started : Ends (health io digest d) Start E
      started = begin (health io digest d) (health-Ends io nor_at app_at ok_io digest d) refl
        where
          begin :
              (p : D × Result (Unit {0}))
              → Ends p
                  (IsJudged io nor_at app_at ok_io digest (nor_at d) (app_at d))
                  (λ d'. app_at d' ≡ app_at d)
              → p.0 ≡ d1
              → Ends p Start E
          begin (d2, ok _) h e = (e, ap app_at (sym e) ∙ h.0)
          begin (d2, err x) h e = (h, (ap app_at e, λ b _ _. ap (λ e'. nor_at e' b) e))

      staged :
          (d2 : D)
          → Plausible d2 tt
          → Ends
              (stage_unless io app_bytes flash_used (
                already_b io app_bytes flash_used
                  (crc32_step 0 (app_bytes app_base flash_used d2))
                  d2))
              Q
              E
      staged d2 h =
          Ends_mono
            (Mirrors io nor_at app_at ok_io local_io ok_flash app_bytes mapped flash_used d2)
            (Framed d2) Q E _
            (stage_unless-Ends flash_used d2 _ h.1 (
              rw (mapped.app_gives app_base flash_used d2) (
                already_b-Ends io nor_at app_at ok_io local_io ok_flash app_bytes mapped flash_used
                  d2 (ground arith))))
            (λ d' _ k. (app_same d' k.0, frame d' k.0, mirror d' k.1))
            (λ d' k. (app_same d' k, frame d' k))
        where
          app_same : (d' : D) → Framed d2 d' → app_at d' ≡ app_at d
          app_same d' k = k.0 ∙ ap app_at h.0.0 ∙ h.0.1

          frame : (d' : D) → Framed d2 d' → Framed d1 d'
          frame d' k =
              (k.0 ∙ ap app_at h.0.0, λ b out out'. k.1 b out out' ∙ ap (λ e. nor_at e b) h.0.0)

          mirror :
              (d' : D)
              → IsMirror flash_used (app_at d2) (nor_at d')
              → IsMirror flash_used (app_at d) (nor_at d')
          mirror d' m =
              let e : app_at d2 ≡ app_at d = ap app_at h.0.0 ∙ h.0.1 in
              coe 0 1 (i. IsMirror flash_used (e i) (nor_at d')) m
