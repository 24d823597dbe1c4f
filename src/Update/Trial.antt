-- ===== src/Update/Trial.antt =====
-- How a trial ends: `apx_update_health`.
use steelseries_apex_pro_min.Prelude.{
  ℕ, ◌==◌, ◌≡◌, ◌⊎◌, inl, inr, not, ◌||◌, Bool, true, Option, List, arith, ◌∙◌,
}
use steelseries_apex_pro_min.Flash.{Io, Result, ok, err, failed, invalid, pending}
use steelseries_apex_pro_min.Flash.Laws.{IsFaithful, At, Ends, Ends-after, Ends_mono, Ends-if}
use steelseries_apex_pro_min.Update.{Manifest, trial, healthy, rejected, manifest_valid}
use steelseries_apex_pro_min.Update.Journal.{status, set_state}
use steelseries_apex_pro_min.Update.Image.{verify_image}
use steelseries_apex_pro_min.Update.Install.{judge_health, health_manifest, health}
use steelseries_apex_pro_min.Update.Candidate.{IsInstalled, verify_image-Ends}
use steelseries_apex_pro_min.Update.Safety.{
  journal_manifest, journal_state, valid-length, set_state-Ends, status-Ends,
}

module _ {D : Type 0} (io : Io D) (nor_at app_at : D → ℕ → ℕ) (ok_io : IsFaithful io nor_at app_at)
    (digest : List ℕ → Option (List ℕ)) where
  -- How the check of a running trial may end.
  abbrev pub IsJudged : (ℕ → ℕ) → (ℕ → ℕ) → D → Unit {0} → Type 0
  IsJudged nor app d _ =
      (app_at d ≡ app)
      × (manifest_valid (journal_manifest nor) ≡ true
          → (journal_manifest nor).state ≡ trial
          → ((journal_state (nor_at d) ≡ healthy) × IsInstalled digest (journal_manifest nor) app)
            ⊎ (journal_state (nor_at d) ≡ rejected))

  reject :
      (nor app : ℕ → ℕ) (d : D)
      → At nor_at app_at nor app d
      → Ends (set_state io rejected d) (IsJudged nor app) (λ d'. app_at d' ≡ app)
  reject nor app d at =
      Ends_mono (λ d' _. (app_at d' ≡ app_at d) × (journal_state (nor_at d') ≡ rejected))
        (λ d'. app_at d' ≡ app_at d) (IsJudged nor app) (λ d'. app_at d' ≡ app) _
        (set_state-Ends io nor_at app_at ok_io rejected d) (λ _ _ q. (q.0 ∙ at.1, λ _ _. inr q.1))
        (λ _ k. k ∙ at.1)

  judge_health-Ends :
      (nor app : ℕ → ℕ) (p : D × Result (Unit {0}))
      → Ends p
          (λ d' _. At nor_at app_at nor app d' × IsInstalled digest (journal_manifest nor) app)
          (At nor_at app_at nor app)
      → Ends (judge_health io digest p) (IsJudged nor app) (λ d'. app_at d' ≡ app)
  judge_health-Ends nor app (d, ok _) h =
      Ends_mono (λ d' _. (app_at d' ≡ app_at d) × (journal_state (nor_at d') ≡ healthy))
        (λ d'. app_at d' ≡ app_at d) (IsJudged nor app) (λ d'. app_at d' ≡ app) _
        (set_state-Ends io nor_at app_at ok_io healthy d)
        (λ _ _ q. (q.0 ∙ h.0.1, λ _ _. inl (q.1, h.1))) (λ _ k. k ∙ h.0.1)
  judge_health-Ends nor app (d, err failed) at = at.1
  judge_health-Ends nor app (d, err invalid) at = reject nor app d at
  judge_health-Ends nor app (d, err pending) at = reject nor app d at

  health_manifest-Ends :
      (nor app : ℕ → ℕ) (d : D)
      → At nor_at app_at nor app d
      → Ends
          (health_manifest io digest
            (journal_manifest nor, manifest_valid (journal_manifest nor))
            d)
          (IsJudged nor app)
          (λ d'. app_at d' ≡ app)
  unfolding health_manifest
  health_manifest-Ends nor app d at =
      let h = journal_manifest nor in
      let Q = IsJudged nor app in
      let F = λ (d' : D). app_at d' ≡ app in
      Ends-if Q F (not (manifest_valid h) || not (h.state == trial)) _ _ d
        (λ off. (at.1, λ valid on_trial. ground arith))
        (λ on.
          let valid : manifest_valid h ≡ true = ground arith in
          let fits = valid-length h valid in
          judge_health-Ends nor app (verify_image io digest h true d)
            (verify_image-Ends io nor_at app_at ok_io digest h fits.1 nor app true d at fits.0))

  -- The check of a trial never changes the application. If it succeeds on a trial, the journal reads
  -- HEALTHY, and the application is the image of the manifest, or it reads REJECTED.
  pub health-Ends :
      (d : D)
      → Ends (health io digest d) (IsJudged (nor_at d) (app_at d)) (λ d'. app_at d' ≡ app_at d)
  unfolding health
  health-Ends d =
      let nor = nor_at d in
      let app = app_at d in
      let S = λ (d' : D) (r : Manifest × Bool).
        At nor_at app_at nor app d'
        × (r ≡ (journal_manifest nor, manifest_valid (journal_manifest nor))) in
      Ends-after S (At nor_at app_at nor app) (IsJudged nor app) (λ d'. app_at d' ≡ app)
        (status io d) _ (status-Ends io nor_at app_at ok_io d)
        (λ d1 r q. rw q.1 (health_manifest-Ends nor app d1 q.0)) (λ d1 at. at.1)
