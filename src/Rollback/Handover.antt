-- ===== src/Rollback/Handover.antt =====
-- What the bootloader makes of the tally and the descriptor that the firmware has written.
use steelseries_apex_pro_min.Prelude.{
  ℕ, ◌+◌, ◌==◌, ◌≤◌, ◌<◌, ◌≡◌, ◌≢◌, ◌⊎◌, inl, inr, ltb, Bool, true, false, Option, none, some,
  if◌then◌else◌, arith, refl, ◌∙◌, Bool-cases,
}
use steelseries_apex_pro_min.Flash.Laws.{At}
use steelseries_apex_pro_min.Update.{capacity}
use steelseries_apex_pro_min.Promote.{Build, Board, app_base}
use steelseries_apex_pro_min.Promote.Records.{
  Action, unarmed, waiting, bad_image, current, copy_failed, restored, Status, Header,
}
use steelseries_apex_pro_min.Promote.Restore.{
  ab_read_header, app_crc, set_action, settle, restore, compare_crc, judge_tally, with_header,
  fallback,
}
use steelseries_apex_pro_min.Promote.Hardware.{IsBoard}
use steelseries_apex_pro_min.Promote.Settle.{staged_header, Verdict, IsDue}
use steelseries_apex_pro_min.Promote.Fallback.{fallback-Verdict, read_header-gives}
use steelseries_apex_pro_min.Rollback.Tally.{failures}
use steelseries_apex_pro_min.Rollback.Counted.{ab_tally_fails-failures}

-- The failures are kept, and the boot does not go on waiting.
abbrev IsSettled : Status → Status → Type 0
IsSettled s s' = (s'.boot.failures ≡ s.boot.failures) × (s'.boot.action ≢ waiting)

module _ {D : Type 0} (build : Build) (board : Board D) where
  settle-IsSettled :
      (failed : Bool) (h : Header) (d : D) (s : Status)
      → s.boot.action ≢ waiting
      → IsSettled s (settle build board failed h d s).1
  unfolding settle
  settle-IsSettled failed h d s other =
      elim (Bool-cases (app_crc build board h.b_len d == h.b_crc32)) [
        | inl e ↦ rw e (refl, λ k. cc)
        | inr e ↦ rw e (refl, other)
      ]

  restore-IsSettled :
      (failed : Bool) (h : Header) (d : D) (s : Status)
      → s.boot.action ≢ waiting
      → IsSettled s (restore build board failed h d s).1
  unfolding restore
  restore-IsSettled failed h d s other = go _ _
    where
      go :
          (d' : D) (b : Bool)
          → IsSettled s
              (settle build board failed h d'
                (if b then s else set_action build board copy_failed s)).1
      go d' true = settle-IsSettled failed h d' s other
      go d' false = settle-IsSettled failed h d' (set_action build board copy_failed s) (λ k. cc)

  compare_crc-IsSettled :
      (failed : Bool) (h : Header) (p : D × Option ℕ) (s : Status)
      → s.boot.action ≢ waiting
      → IsSettled s (compare_crc build board failed h p s).1
  unfolding compare_crc
  compare_crc-IsSettled failed h (d, none) s other = (refl, other)
  compare_crc-IsSettled failed h (d, some crc) s other = elim (Bool-cases (crc == h.b_crc32)) [
    | inr bad ↦ rw bad (refl, λ k. cc)
    | inl good ↦ rw good (elim (Bool-cases (app_crc build board h.b_len d == h.b_crc32)) [
      | inl same ↦ rw same (refl, λ k. cc)
      | inr other' ↦ rw other' (restore-IsSettled failed h d s other)
    ])
  ]

  -- The failures of the status are those of the tally, if it was read, and waiting is for too few.
  abbrev IsJudged : (ℕ → ℕ) → Status → Status → Type 0
  IsJudged nor s s' =
      ((s'.boot.failures ≡ s.boot.failures) ⊎ (s'.boot.failures ≡ failures nor))
      × (s'.boot.action ≡ waiting → failures nor < (staged_header nor).fail_thresh)

  judge_tally-IsJudged :
      (nor : ℕ → ℕ) (p : D × Option ℕ) (s : Status)
      → s.boot.action ≢ waiting
      → ((c : ℕ) → p.1 ≡ some c → c ≡ failures nor)
      → IsJudged nor s (judge_tally build board false (staged_header nor) p s).1
  unfolding judge_tally
  judge_tally-IsJudged nor (d, none) s other gives = (inl refl, λ k. absurd (other k))
  judge_tally-IsJudged nor (d, some c) s other gives =
      elim (Bool-cases (ltb c (staged_header nor).fail_thresh)) [
        | inl few ↦ rw few (inr (gives c refl), λ _. let e = gives c refl in ground arith)
        | inr many ↦ rw many (
            let settled =
              compare_crc-IsSettled false (staged_header nor) _
                (record s { boot = record s.boot { tally_readable = true; failures = c } }) other in
            (inr (settled.0 ∙ gives c refl), λ k. absurd (settled.1 k)))
      ]

module _ {D : Type 0} (build : Build) (board : Board D) (nor_at app_at : D → ℕ → ℕ)
    (ok_board : IsBoard board nor_at app_at) where
  with_header-IsJudged :
      (nor app : ℕ → ℕ) (p : D × Option Header) (s : Status)
      → s.boot.action ≢ waiting
      → At nor_at app_at nor app p.0
      → ((g : Header) → p.1 ≡ some g → g ≡ staged_header nor)
      → IsJudged build board nor s (with_header build board false p s).1
  unfolding with_header
  with_header-IsJudged nor app (d, none) s other at gives = (inl refl, λ k. absurd (other k))
  with_header-IsJudged nor app (d, some g) s other at gives = rw (gives g refl) (
      judge_tally-IsJudged build board nor _
        (record s {
          boot = record s.boot {
            threshold = (staged_header nor).fail_thresh;
            image_len = (staged_header nor).b_len;
          };
        })
        other (λ c e. ab_tally_fails-failures build board nor_at app_at ok_board nor app d c at e))

  fallback-IsJudged :
      build.app_maxlen ≤ capacity
      → app_base + build.app_maxlen ≤ board.settings_address
      → (d : D) (s : Status) → s.boot.action ≢ waiting
      → IsJudged build board (nor_at d) s (fallback build board false d s).1
  unfolding fallback
  fallback-IsJudged fits apart d s other =
      let read =
        read_header-gives build board nor_at app_at ok_board fits apart false (nor_at d) (app_at d)
          (ok_board.nor_byte d) d (refl, refl) in
      with_header-IsJudged (nor_at d) (app_at d) (ab_read_header build board d) s other read.0
        (λ g e. (read.1 g e).0)

  not_due-app :
      (nor app : ℕ → ℕ) (d : D) (s : Status) (a : Action)
      → ¬ IsDue false nor s
      → Verdict build board nor_at app_at false nor app d s a
      → app_at d ≡ app
  not_due-app nor app d s unarmed early (inl same) = same
  not_due-app nor app d s unarmed early (inr v) = absurd (early v.1)
  not_due-app nor app d s waiting early v = v
  not_due-app nor app d s bad_image early v = v
  not_due-app nor app d s current early v = v.0
  not_due-app nor app d s copy_failed early v = absurd (early v.1)
  not_due-app nor app d s restored early v = absurd (early v.1)

  -- For a status that starts as `unarmed` with no failures counted: below the threshold of the
  -- descriptor the bootloader leaves the application as it is, and from it on it does not go on waiting.
  pub fallback-counted :
      build.app_maxlen ≤ capacity
      → app_base + build.app_maxlen ≤ board.settings_address
      → (d : D) (s : Status) → s.boot.action ≡ unarmed
      → s.boot.failures ≡ 0
      → let p = fallback build board false d s in
        let t = (staged_header (nor_at d)).fail_thresh in
        (failures (nor_at d) < t → app_at p.0 ≡ app_at d)
        × (t ≤ failures (nor_at d) → p.1.boot.action ≢ waiting)
  fallback-counted fits apart d s start none_yet = (
    (λ few.
        not_due-app (nor_at d) (app_at d) _ (fallback build board false d s).1 _
          (early few judged.0)
          (fallback-Verdict build board nor_at app_at ok_board fits apart false d s start)),
    λ many k. absurd (omega (arith, judged.1 k)),
  )
    where
      judged : IsJudged build board (nor_at d) s (fallback build board false d s).1
      judged = fallback-IsJudged fits apart d s (λ k. cc)

      early :
          failures (nor_at d) < (staged_header (nor_at d)).fail_thresh
          → ((fallback build board false d s).1.boot.failures ≡ s.boot.failures)
            ⊎ ((fallback build board false d s).1.boot.failures ≡ failures (nor_at d))
          → ¬ IsDue false (nor_at d) (fallback build board false d s).1
      early few (inl e) (inl due) = absurd cc
      early few (inl e) (inr due) = omega (arith, e, none_yet, due)
      early few (inr e) (inl due) = absurd cc
      early few (inr e) (inr due) = omega (arith, e, due, few)
