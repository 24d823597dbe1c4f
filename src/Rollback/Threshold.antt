-- ===== src/Rollback/Threshold.antt =====
-- The firmware and the bootloader together: when the staged image is restored.
use steelseries_apex_pro_min.Prelude.{ℕ, ◌+◌, ◌≤◌, ◌<◌, ◌≡◌, ◌≢◌, false, arith, ap, ◌∙◌}
use steelseries_apex_pro_min.Flash.{Io}
use steelseries_apex_pro_min.Flash.Laws.{region, IsFaithful, IsLocal}
use steelseries_apex_pro_min.Flash.Stores.{IsStoring}
use steelseries_apex_pro_min.Update.{capacity}
use steelseries_apex_pro_min.Promote.{Build, Board, hdr_addr, ab_sector, app_base}
use steelseries_apex_pro_min.Promote.Records.{Status, header_of, unarmed, waiting}
use steelseries_apex_pro_min.Promote.Restore.{fallback}
use steelseries_apex_pro_min.Promote.Hardware.{IsBoard}
use steelseries_apex_pro_min.Promote.Settle.{staged_header}
use steelseries_apex_pro_min.Rollback.{implausible, default_thresh}
use steelseries_apex_pro_min.Rollback.Tally.{failures}
use steelseries_apex_pro_min.Rollback.Boots.{Boots, Boots-failures}
use steelseries_apex_pro_min.Rollback.Commit.{HoldsImage, HoldsImage-IsArmed}
use steelseries_apex_pro_min.Rollback.Handover.{fallback-counted}

module _ {D : Type 0} (io : Io D) (nor_at app_at : D → ℕ → ℕ) (ok_io : IsFaithful io nor_at app_at)
    (local_io : IsLocal io nor_at app_at) (ok_flash : IsStoring io nor_at) {E : Type 0}
    (build : Build) (board : Board E) (boot_nor boot_app : E → ℕ → ℕ)
    (ok_board : IsBoard board boot_nor boot_app) where
  -- For a bootloader that is built for the whole application area, which lies below the settings, a
  -- firmware whose flash holds what a commit of a plausible length leaves, `k` boots since that were each
  -- marked with success, at most as many as the tally has bytes, a descriptor that is as it was then, and
  -- a status that starts as `unarmed` with no failures counted: in the fallback after an update that did
  -- not fail, the bootloader leaves the application, with the writes that
  -- its driver's cache holds, as it is if `k` is less than three, and does not go on
  -- waiting if `k` is three or more.
  pub boots-threshold :
      build.app_maxlen ≡ capacity
      → app_base + capacity ≤ board.settings_address
      → (b_len k : ℕ) (d d' : D) (e : E) (s : Status) → implausible b_len ≡ false
      → HoldsImage b_len (nor_at d)
      → Boots io nor_at d k d'
      → k ≤ ab_sector
      → region (nor_at d') hdr_addr 36 ≡ region (nor_at d) hdr_addr 36
      → boot_nor e ≡ nor_at d'
      → s.boot.action ≡ unarmed
      → s.boot.failures ≡ 0
      → let p = fallback build board false e s in
        (k < default_thresh → boot_app p.0 ≡ boot_app e)
        × (default_thresh ≤ k → p.1.boot.action ≢ waiting)
  boots-threshold whole apart b_len k d d' e s good holds boots below kept handed start none_yet = (
    λ few. counted.0 (omega (arith, count, threshold, few)),
    λ many. counted.1 (omega (arith, count, threshold, many)),
  )
    where
      counted :
          (failures (boot_nor e) < (staged_header (boot_nor e)).fail_thresh
            → boot_app (fallback build board false e s).0 ≡ boot_app e)
          × ((staged_header (boot_nor e)).fail_thresh ≤ failures (boot_nor e)
              → (fallback build board false e s).1.boot.action ≢ waiting)
      counted =
          fallback-counted build board boot_nor boot_app ok_board (omega (arith, whole))
            (omega (arith, whole, apart)) e s start none_yet

      count : failures (boot_nor e) ≡ k
      count =
          ap failures handed
          ∙ Boots-failures io nor_at app_at ok_io local_io ok_flash k d d' holds.1 boots below

      threshold : (staged_header (boot_nor e)).fail_thresh ≡ default_thresh
      threshold =
          ap (λ f. (staged_header f).fail_thresh) handed
          ∙ ap (λ l. (header_of l).fail_thresh) kept
          ∙ (HoldsImage-IsArmed build b_len (nor_at d) whole good holds).2
