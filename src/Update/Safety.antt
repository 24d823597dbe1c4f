-- ===== src/Update/Safety.antt =====
-- What may happen to the installed application: `apx_update_install`.
use steelseries_apex_pro_min.Prelude.{
  ℕ, ◌+◌, ◌/◌, ◌==◌, ◌≤◌, ◌≡◌, ◌⊎◌, inl, inr, not, ◌&&◌, Bool, true, false, Option, List, arith,
  refl, ap, sym, ◌∙◌, read32, write32,
}
use steelseries_apex_pro_min.Flash.{Io, Result, ok, err, failed, read, run}
use steelseries_apex_pro_min.Flash.Laws.{
  region, IsFaithful, At, Ends, Ends-after, Ends_mono, Ends_state, Ends-read, Ends-run, Ends-check,
  Ends-if,
}
use steelseries_apex_pro_min.Update.{
  Manifest, Installed, installed, nothing, capacity, magic, downloading, requested, copying, trial,
  rejected, manifest_valid, manifest_of, manifest_size, journal, sector,
}
use steelseries_apex_pro_min.Update.Journal.{status, set_state}
use steelseries_apex_pro_min.Update.Image.{verify_image}
use steelseries_apex_pro_min.Update.Install.{
  copy_pages, as_failed, copy_image, copy_verified, install_manifest, install,
}
use steelseries_apex_pro_min.Update.Candidate.{IsStaged, IsInstalled, verify_image-Ends}

-- What an action whose outcome does not matter leaves open.
Ends_any : {D A : Type 0} (p : D × Result A) → Ends p (λ _ _. Unit {0}) (λ _. Unit {0})
Ends_any (d, ok a) = tt
Ends_any (d, err e) = tt

-- The manifest in the journal, and the state word in it.
abbrev pub journal_manifest : (ℕ → ℕ) → Manifest
journal_manifest nor = manifest_of (region nor journal manifest_size)

abbrev pub journal_state : (ℕ → ℕ) → ℕ
journal_state nor = read32 (region nor (journal + 52) 4)

-- An installation is asked for, or was interrupted.
abbrev pub IsAsked : Manifest → Type 0
IsAsked h = (manifest_valid h ≡ true) × ((h.state ≡ requested) ⊎ (h.state ≡ copying))

pub valid-length :
    (h : Manifest) → manifest_valid h ≡ true → (8 ≤ h.image_length) × (h.image_length ≤ capacity)
unfolding manifest_valid
valid-length h e = ground arith

module _ {D : Type 0} (io : Io D) (nor_at app_at : D → ℕ → ℕ)
    (ok_io : IsFaithful io nor_at app_at) where
  -- The journal's state word is what was asked for when `set_state` succeeds.
  pub set_state-Ends :
      (state : ℕ) (d : D)
      → Ends
          (set_state io state d)
          (λ d' _. (app_at d' ≡ app_at d) × (journal_state (nor_at d') ≡ state))
          (λ d'. app_at d' ≡ app_at d)
  unfolding set_state
  set_state-Ends state d =
      let E = λ (d' : D). app_at d' ≡ app_at d in
      let Q =
        λ (d' : D) (_ : Unit {0}). (app_at d' ≡ app_at d) × (journal_state (nor_at d') ≡ state) in
      let kept = ok_io.nor_write_app (journal + 52) (write32 state) d in
      Ends-after (λ d1 _. E d1) E Q E (run (io.nor_write (journal + 52) (write32 state)) d) _
        (Ends-run E (λ d1 _. E d1) (io.nor_write (journal + 52) (write32 state)) d kept kept)
        (λ d1 _ k1.
          let m = io.nor_read (journal + 52) 4 in
          let R = λ (d2 : D) (bs : List ℕ). E d2 × (bs ≡ region (nor_at d2) (journal + 52) 4) in
          let k2 : E (m d1).0 = ok_io.nor_read_app (journal + 52) 4 d1 ∙ k1 in
          Ends-after R E Q E (read m d1) _
            (Ends-read E R m d1
              (λ bs e. (
                k2,
                ok_io.nor_read_gives (journal + 52) 4 d1 bs (omega arith) e
                    ∙ ap (λ g. region g (journal + 52) 4)
                        (sym (ok_io.nor_read_nor (journal + 52) 4 d1)),
              ))
              k2)
            (λ d2 actual r.
              Ends-check E Q (read32 actual == state) failed d2
                (λ e. (r.0, ap read32 (sym r.1) ∙ ground arith)) r.0)
            (λ _ k. k))
        (λ _ k. k)

  set_state-app : (state : ℕ) (d : D) → app_at (set_state io state d).0 ≡ app_at d
  set_state-app state d =
      let E = λ (d' : D). app_at d' ≡ app_at d in
      Ends_state E (set_state io state d) (
        Ends_mono (λ d' _. (app_at d' ≡ app_at d) × (journal_state (nor_at d') ≡ state)) E
          (λ d' _. E d') E _ (set_state-Ends state d) (λ _ _ q. q.0) (λ _ k. k))

  pub status-Ends :
      (d : D)
      → Ends
          (status io d)
          (λ d' r.
            At nor_at app_at (nor_at d) (app_at d) d'
            × (r ≡ (journal_manifest (nor_at d), manifest_valid (journal_manifest (nor_at d)))))
          (At nor_at app_at (nor_at d) (app_at d))
  unfolding status
  status-Ends d =
      let E = At nor_at app_at (nor_at d) (app_at d) in
      let m = io.nor_read journal manifest_size in
      let R = λ (d1 : D) (bs : List ℕ). E d1 × (bs ≡ region (nor_at d) journal manifest_size) in
      let k : E (m d).0 =
        (ok_io.nor_read_nor journal manifest_size d, ok_io.nor_read_app journal manifest_size d) in
      Ends-after R E
        (λ d1 r.
          E d1 × (r ≡ (journal_manifest (nor_at d), manifest_valid (journal_manifest (nor_at d)))))
        E (read m d) _
        (Ends-read E R m d
          (λ bs e. (k, ok_io.nor_read_gives journal manifest_size d bs (omega arith) e)) k)
        (λ d1 bs q. (q.0, ap (λ l. (manifest_of l, manifest_valid (manifest_of l))) q.1)) (λ _ k. k)

  module _ (digest : List ℕ → Option (List ℕ)) where
    Ends-as_failed :
        (Q : D → Unit {0} → Type 0) (F : D → Type 0) (p : D × Result (Unit {0}))
        → Ends p Q F
        → Ends (as_failed io digest p) Q F
    Ends-as_failed Q F (d, ok _) h = h
    Ends-as_failed Q F (d, err e) h = h

    copy_image-Ends :
        (h : Manifest) (d : D)
        → manifest_valid h ≡ true
        → Ends
            (copy_image io digest h d)
            (λ d' r.
              (r ≡ installed)
              × IsInstalled digest h (app_at d')
              × (journal_state (nor_at d') ≡ trial))
            (λ _. Unit {0})
    unfolding copy_image
    copy_image-Ends h d valid =
        let F = λ (_ : D). Unit {0} in
        let Q = λ (d' : D) (r : Installed).
          (r ≡ installed)
          × IsInstalled digest h (app_at d')
          × (journal_state (nor_at d') ≡ trial) in
        let any = λ (_ : D) (_ : Unit {0}). Unit {0} in
        let here = λ (d' : D) (_ : Unit {0}). IsInstalled digest h (app_at d') in
        let fits = valid-length h valid in
        Ends-after any F Q F (set_state io copying d) _ (Ends_any _)
          (λ d1 _ _.
            Ends-after any F Q F
              (copy_pages io digest h.image_length (h.image_length / sector + 2) 0 d1) _
              (Ends_any _)
              (λ d2 _ _.
                Ends-after here F Q F (as_failed io digest (verify_image io digest h true d2)) _
                  (Ends-as_failed here F _ (
                    Ends_mono
                      (λ d3 _.
                        At nor_at app_at (nor_at d2) (app_at d2) d3
                        × IsInstalled digest h (app_at d2))
                      (At nor_at app_at (nor_at d2) (app_at d2)) here F _
                      (verify_image-Ends io nor_at app_at ok_io digest h fits.1 (nor_at d2)
                        (app_at d2) true d2 (refl, refl) fits.0)
                      (λ d3 _ q. rw q.0.1 q.1) (λ _ _. tt)))
                  (λ d3 _ q3.
                    Ends-after here F Q F (run io.app_finish d3) _
                      (Ends-run F here io.app_finish d3 (rw (ok_io.app_finish_app d3) q3) tt)
                      (λ d4 _ q4.
                        Ends-after
                          (λ d5 _.
                            IsInstalled digest h (app_at d5) × (journal_state (nor_at d5) ≡ trial))
                          F Q F (set_state io trial d4) _
                          (Ends_mono
                            (λ d5 _. (app_at d5 ≡ app_at d4) × (journal_state (nor_at d5) ≡ trial))
                            (λ d5. app_at d5 ≡ app_at d4) _ F _ (set_state-Ends trial d4)
                            (λ d5 _ t. (rw t.0 q4, t.1)) (λ _ _. tt))
                          (λ d5 _ q5. (refl, q5.0, q5.1)) (λ _ _. tt))
                      (λ _ _. tt))
                  (λ _ _. tt))
              (λ _ _. tt))
          (λ _ _. tt)

    -- How an installation may end: with the image, in a trial; untouched, as none was asked for;
    abbrev pub IsOutcome : (ℕ → ℕ) → (ℕ → ℕ) → D → Installed → Type 0
    IsOutcome nor app d installed =
        IsAsked (journal_manifest nor)
        × IsStaged digest (journal_manifest nor) nor
        × IsInstalled digest (journal_manifest nor) (app_at d)
        × (journal_state (nor_at d) ≡ trial)
    IsOutcome nor app d nothing = (app_at d ≡ app) × (IsAsked (journal_manifest nor) → ⊥)

    -- or in an error, with the application changed only for a candidate that is whole.
    abbrev pub IsFailure : (ℕ → ℕ) → (ℕ → ℕ) → D → Type 0
    IsFailure nor app d =
        (app_at d ≡ app)
        ⊎ (IsAsked (journal_manifest nor) × IsStaged digest (journal_manifest nor) nor)

    copy_verified-Ends :
        (nor app : ℕ → ℕ) (p : D × Result (Unit {0}))
        → IsAsked (journal_manifest nor)
        → Ends p
            (λ d' _. At nor_at app_at nor app d' × IsStaged digest (journal_manifest nor) nor)
            (At nor_at app_at nor app)
        → Ends
            (copy_verified io digest (journal_manifest nor) p)
            (IsOutcome nor app)
            (IsFailure nor app)
    copy_verified-Ends nor app (d, ok _) asked staged =
        let h = journal_manifest nor in
        Ends_mono
          (λ d' r.
            (r ≡ installed)
            × IsInstalled digest h (app_at d')
            × (journal_state (nor_at d') ≡ trial))
          (λ _. Unit {0}) (IsOutcome nor app) (IsFailure nor app) _ (copy_image-Ends h d asked.0)
          (λ d' r q. rw q.0 (asked, staged.1, q.1, q.2)) (λ _ _. inr (asked, staged.1))
    copy_verified-Ends nor app (d, err e) asked at = inl (set_state-app rejected d ∙ at.1)

    install_manifest-Ends :
        (nor app : ℕ → ℕ) (d : D)
        → At nor_at app_at nor app d
        → Ends
            (install_manifest io digest
              (journal_manifest nor, manifest_valid (journal_manifest nor))
              d)
            (IsOutcome nor app)
            (IsFailure nor app)
    unfolding install_manifest
    install_manifest-Ends nor app d at =
        let h = journal_manifest nor in
        let Q = IsOutcome nor app in
        let F = IsFailure nor app in
        Ends-if Q F (not (manifest_valid h)) _ _ d
          (λ bad.
            Ends-if Q F (h.magic_word == magic && not (h.state == downloading)) _ _ d
              (λ _. inl at.1) (λ _. (at.1, λ asked. ground arith)))
          (λ good.
            Ends-if Q F (not (h.state == requested) && not (h.state == copying)) _ _ d
              (λ off. (at.1, λ asked. ground arith))
              (λ wanted.
                let asked : IsAsked h = (ground arith, ground arith) in
                let fits = valid-length h asked.0 in
                copy_verified-Ends nor app (verify_image io digest h false d) asked (
                  verify_image-Ends io nor_at app_at ok_io digest h fits.1 nor app false d at
                    fits.0)))

    -- However an installation ends, the application is unchanged, or the journal's valid manifest asked
    -- for an installation (or for one that was interrupted) and the candidate is the image that it
    -- describes. If the result is `installed`, the application is such an image too and the journal
    -- reads TRIAL; if it is `nothing`, no installation was asked for.
    pub install-Ends :
        (d : D)
        → Ends
            (install io digest d)
            (IsOutcome (nor_at d) (app_at d))
            (IsFailure (nor_at d) (app_at d))
    unfolding install
    install-Ends d =
        let nor = nor_at d in
        let app = app_at d in
        let S = λ (d' : D) (r : Manifest × Bool).
          At nor_at app_at nor app d'
          × (r ≡ (journal_manifest nor, manifest_valid (journal_manifest nor))) in
        Ends-after S (At nor_at app_at nor app) (IsOutcome nor app) (IsFailure nor app)
          (status io d) _ (status-Ends d) (λ d1 r q. rw q.1 (install_manifest-Ends nor app d1 q.0))
          (λ d1 at. inl at.1)
