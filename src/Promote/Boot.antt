-- ===== src/Promote/Boot.antt =====
-- A whole boot: the update and then the fallback, over one access to the flashes.
use steelseries_apex_pro_min.Prelude.{
  ℕ, zero, suc, ◌+◌, ◌*◌, ◌≤◌, ◌==◌, ◌≡◌, ◌⊎◌, inl, inr, ◌&&◌, Bool, Option, none, some, List, refl,
  ◌∙◌, Bool-cases, read16, drop,
}
use steelseries_apex_pro_min.Flash.{Result, ok, err}
use steelseries_apex_pro_min.Flash.Laws.{Ends, IsFaithful}
use steelseries_apex_pro_min.Update.{Installed, installed, nothing, capacity}
use steelseries_apex_pro_min.Update.Install.{install}
use steelseries_apex_pro_min.Update.Candidate.{IsStaged}
use steelseries_apex_pro_min.Update.Safety.{
  journal_manifest, IsAsked, IsOutcome, IsFailure, install-Ends,
}
use steelseries_apex_pro_min.Promote.{Build, Board, app_base, nor_read, update_nor_wait, update_io}
use steelseries_apex_pro_min.Promote.Records.{
  Action, unarmed, waiting, bad_image, current, copy_failed, restored, Status, dump_valid, newer,
  take_dump, coredump_base, coredump_slot_size, coredump_size,
}
use steelseries_apex_pro_min.Promote.Restore.{
  scan_slots, fallback, is_err, update_result, fresh_status, ab_promote_check,
}
use steelseries_apex_pro_min.Promote.Hardware.{IsBoard, nor_read-At}
use steelseries_apex_pro_min.Promote.Access.{area, area-cong, wait-app, update_io-IsFaithful}
use steelseries_apex_pro_min.Promote.Settle.{IsArmed, Verdict}
use steelseries_apex_pro_min.Promote.Fallback.{fallback-Verdict}

take_dump-action : (bytes : List ℕ) (s : Status) → (take_dump bytes s).boot.action ≡ s.boot.action
unfolding take_dump
take_dump-action bytes s =
    elim (Bool-cases
      (dump_valid bytes && newer s.boot.crash_present (read16 (drop 6 bytes)) s.boot.crash_seq)) [
        | inl good ↦ rw good refl
        | inr bad ↦ rw bad refl
      ]

module _ {D : Type 0} (build : Build) (board : Board D) (nor_at app_at : D → ℕ → ℕ)
    (ok_board : IsBoard board nor_at app_at) where
  -- The scan of the crash records reads only.
  scan_slots-app :
      (left slot : ℕ) (d : D) (s : Status)
      → (app_at (scan_slots build board left slot d s).0 ≡ app_at d)
        × ((scan_slots build board left slot d s).1.boot.action ≡ s.boot.action)
  unfolding scan_slots
  scan_slots-app zero slot d s = (refl, refl)
  scan_slots-app (suc left) slot d s =
      go (nor_read build board place coredump_size d).1 (λ s'. scan_slots-app left (slot + 1) d1 s')
    where
      place : ℕ
      place = coredump_base + slot * coredump_slot_size

      d1 : D
      d1 = (nor_read build board place coredump_size d).0

      same : app_at d1 ≡ app_at d
      same =
          (nor_read-At board nor_at app_at build ok_board (nor_at d) (app_at d) place coredump_size
            d (refl, refl)).1

      go :
          (r : Option (List ℕ))
          → ((s' : Status)
              → (app_at (scan_slots build board left (slot + 1) d1 s').0 ≡ app_at d1)
                × ((scan_slots build board left (slot + 1) d1 s').1.boot.action ≡ s'.boot.action))
          → (let p : D × Status = elim r as (λ _. D × Status) [
            | none ↦ scan_slots build board left (slot + 1) d1 s
            | some bytes ↦ scan_slots build board left (slot + 1) d1 (take_dump bytes s)
          ] in
              (app_at p.0 ≡ app_at d) × (p.1.boot.action ≡ s.boot.action))
      go none ih = ((ih s).0 ∙ same, (ih s).1)
      go (some bytes) ih =
          ((ih (take_dump bytes s)).0 ∙ same, (ih (take_dump bytes s)).1 ∙ take_dump-action bytes s)

  Verdict-change :
      (failed : Bool) (nor app : ℕ → ℕ) (d : D) (s : Status) (a : Action)
      → Verdict build board nor_at app_at failed nor app d s a
      → (app_at d ≡ app) ⊎ IsArmed build nor
  Verdict-change failed nor app d s unarmed (inl same) = inl same
  Verdict-change failed nor app d s unarmed (inr v) = inr v.0
  Verdict-change failed nor app d s waiting v = inl v
  Verdict-change failed nor app d s bad_image v = inl v
  Verdict-change failed nor app d s current v = inl v.0
  Verdict-change failed nor app d s copy_failed v = inr v.0
  Verdict-change failed nor app d s restored v = inr v.0

  module _ (digest : List ℕ → Option (List ℕ)) (fits : build.app_maxlen ≤ capacity)
      (apart : app_base + build.app_maxlen ≤ board.settings_address) where
    faithful : IsFaithful (update_io build board) nor_at (area build board nor_at app_at ok_board)
    faithful = update_io-IsFaithful build board nor_at app_at ok_board apart

    -- The manifest asks for an installation, and the candidate is the image that it describes.
    abbrev pub IsWanted : (ℕ → ℕ) → Type 0
    IsWanted nor = IsAsked (journal_manifest nor) × IsStaged digest (journal_manifest nor) nor

    outcome-change :
        (nor app : ℕ → ℕ) (p : D × Result Installed)
        → Ends p
            (IsOutcome
              (update_io build board)
              nor_at
              (area build board nor_at app_at ok_board)
              faithful
              digest
              nor
              app)
            (IsFailure
              (update_io build board)
              nor_at
              (area build board nor_at app_at ok_board)
              faithful
              digest
              nor
              app)
        → (area build board nor_at app_at ok_board p.0 ≡ app) ⊎ IsWanted nor
    outcome-change nor app (d, ok installed) h = inr (h.0, h.1)
    outcome-change nor app (d, ok nothing) h = inl h.0
    outcome-change nor app (d, err e) h = h

    update-change :
        (d : D)
        → (area build board nor_at app_at ok_board (update_result build board digest d).0
            ≡ area build board nor_at app_at ok_board d)
          ⊎ IsWanted (nor_at d)
    update-change d = elim (Bool-cases (build.app_maxlen == capacity)) [
      | inl whole ↦ rw whole (
          outcome-change (nor_at d) (area build board nor_at app_at ok_board d)
            (install (update_io build board) digest d)
            (install-Ends (update_io build board) nor_at (area build board nor_at app_at ok_board)
              faithful digest d))
      | inr part ↦ rw part (inl refl)
    ]

    -- The device when the update begins, and when it has ended.
    abbrev pub before_update : D → Status → D
    before_update d s =
        (scan_slots build board 4 0 (update_nor_wait build board d).0
          (fresh_status build board d s)).0

    abbrev pub after_update : D → Status → D
    after_update d s = (update_result build board digest (before_update d s)).0

    -- For an application area of at most the update's capacity that lies below the settings, and the
    -- internal flash as it is with the writes that the driver's cache holds: a boot leaves it unchanged
    -- below the settings, or the update began with a journal that
    -- asks for an installation and a candidate that is its image, or the fallback began with a valid
    -- descriptor and a staged image that has its CRC.
    pub boot-safe :
        (d : D) (s : Status)
        → (area build board nor_at app_at ok_board (ab_promote_check build board digest d s).0
            ≡ area build board nor_at app_at ok_board d)
          ⊎ IsWanted (nor_at (before_update d s))
          ⊎ IsArmed build (nor_at (after_update d s))
    unfolding ab_promote_check
    boot-safe d s = elim (Bool-cases (update_nor_wait build board d).1) [
      | inr stuck ↦ rw stuck (
          inl (
            area-cong build board nor_at app_at ok_board d (board.set_gpregret 0x57 d1)
              (ok_board.gpregret_app 0x57 d1 ∙ waited)))
      | inl idle ↦ rw idle (
          changed
            (Verdict-change failed (nor_at d3) (app_at d3) last.0 last.1 last.1.boot.action (
              fallback-Verdict build board nor_at app_at ok_board fits apart failed d3 s2
                scanned.1))
            (update-change d2))
    ]
      where
        d1 : D
        d1 = (update_nor_wait build board d).0

        waited : app_at d1 ≡ app_at d
        waited = wait-app build board nor_at app_at ok_board 100000 d

        d2 : D
        d2 = before_update d s

        s2 : Status
        s2 = (scan_slots build board 4 0 d1 (fresh_status build board d s)).1

        scanned : (app_at d2 ≡ app_at d1) × (s2.boot.action ≡ unarmed)
        scanned = scan_slots-app 4 0 d1 (fresh_status build board d s)

        d3 : D
        d3 = after_update d s

        failed : Bool
        failed = is_err build board (update_result build board digest d2).1

        last : D × Status
        last = fallback build board failed d3 s2

        changed :
            (app_at last.0 ≡ app_at d3) ⊎ IsArmed build (nor_at d3)
            → (area build board nor_at app_at ok_board d3
                ≡ area build board nor_at app_at ok_board d2)
              ⊎ IsWanted (nor_at d2)
            → (area build board nor_at app_at ok_board last.0
                ≡ area build board nor_at app_at ok_board d)
              ⊎ IsWanted (nor_at d2)
              ⊎ IsArmed build (nor_at d3)
        changed (inr armed) u = inr (inr armed)
        changed (inl same) (inr wanted) = inr (inl wanted)
        changed (inl same) (inl kept) = inl (
            area-cong build board nor_at app_at ok_board d3 last.0 same
            ∙ kept
            ∙ area-cong build board nor_at app_at ok_board d d2 (scanned.0 ∙ waited))
