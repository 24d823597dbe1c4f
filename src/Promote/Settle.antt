-- ===== src/Promote/Settle.antt =====
-- What each action of the fallback says of the application, and that it is so after a restore.
use steelseries_apex_pro_min.Prelude.{
  ℕ, ◌+◌, ◌-◌, ◌*◌, ◌/◌, ◌==◌, ◌≤◌, ◌<◌, ◌≡◌, ◌⊎◌, inl, inr, Bool, true, false, Option, none, some,
  arith, refl, ap, sym, ◌∙◌, Bool-cases,
}
use steelseries_apex_pro_min.Crc.{crc32_step}
use steelseries_apex_pro_min.Flash.Laws.{region, region_ext, At}
use steelseries_apex_pro_min.Update.{capacity}
use steelseries_apex_pro_min.Promote.{Build, Board, hdr_addr, bimg_addr, app_base, ab_sector}
use steelseries_apex_pro_min.Promote.Records.{
  Action, unarmed, waiting, bad_image, current, copy_failed, restored, Status, Header, header_of,
  header_valid,
}
use steelseries_apex_pro_min.Promote.Restore.{
  copy_staged, rounds, app_crc, set_action, clear_failed, mark_restored, settle, restore,
}
use steelseries_apex_pro_min.Promote.Hardware.{IsBoard, IsShown}
use steelseries_apex_pro_min.Promote.Staged.{IsBeside, copy_staged-IsBeside}

abbrev pub staged_header : (ℕ → ℕ) → Header
staged_header nor = header_of (region nor hdr_addr 36)

-- The descriptor is valid, and the staged image is the one that it describes.
abbrev pub IsArmed : Build → (ℕ → ℕ) → Type 0
IsArmed build nor =
    (header_valid build (region nor hdr_addr 36) ≡ true)
    × (crc32_step 0 (region nor bimg_addr (staged_header nor).b_len) ≡ (staged_header nor).b_crc32)

-- The update has failed or there were enough failed boots.
abbrev pub IsDue : Bool → (ℕ → ℕ) → Status → Type 0
IsDue failed nor s = (failed ≡ true) ⊎ ((staged_header nor).fail_thresh ≤ s.boot.failures)

-- The pages that the image takes.
abbrev pub span : (ℕ → ℕ) → ℕ
span nor = ((staged_header nor).b_len + (ab_sector - 1)) / ab_sector * ab_sector

module _ {D : Type 0} (build : Build) (board : Board D) (nor_at app_at : D → ℕ → ℕ) where
  -- Up to the settings, only the pages of the image have changed.
  abbrev pub IsAround : (ℕ → ℕ) → (ℕ → ℕ) → D → Type 0
  IsAround nor app d =
      (b : ℕ)
      → b < board.settings_address
      → (b < app_base) ⊎ (app_base + span nor ≤ b)
      → app_at d b ≡ app b

  abbrev pub IsCopy : (ℕ → ℕ) → (ℕ → ℕ) → Type 0
  IsCopy nor app =
      crc32_step 0 (region app app_base (staged_header nor).b_len) ≡ (staged_header nor).b_crc32

  -- The image as memory shows it has its CRC.
  abbrev pub IsSeen : (ℕ → ℕ) → D → Type 0
  IsSeen nor d =
      crc32_step 0 (board.flash_bytes app_base (staged_header nor).b_len d)
      ≡ (staged_header nor).b_crc32

  abbrev pub Verdict : Bool → (ℕ → ℕ) → (ℕ → ℕ) → D → Status → Action → Type 0
  Verdict failed nor app d s unarmed =
      (app_at d ≡ app)
      ⊎ (IsArmed build nor × IsDue failed nor s × IsAround nor app d × IsShown board app_at d)
  Verdict failed nor app d s waiting = app_at d ≡ app
  Verdict failed nor app d s bad_image = app_at d ≡ app
  Verdict failed nor app d s current =
      (app_at d ≡ app) × IsArmed build nor × IsDue failed nor s × IsSeen nor d
  Verdict failed nor app d s copy_failed =
      IsArmed build nor × IsDue failed nor s × IsAround nor app d × IsShown board app_at d
  Verdict failed nor app d s restored =
      IsArmed build nor
      × IsDue failed nor s
      × IsAround nor app d
      × IsCopy nor (app_at d)
      × IsShown board app_at d

  abbrev pub IsVerdict : Bool → (ℕ → ℕ) → (ℕ → ℕ) → D × Status → Type 0
  IsVerdict failed nor app (d, s) = Verdict failed nor app d s s.boot.action

  module _ (ok_board : IsBoard board nor_at app_at) (fits : build.app_maxlen ≤ capacity)
      (apart : app_base + build.app_maxlen ≤ board.settings_address) (failed : Bool)
      (nor app : ℕ → ℕ) (bytes : (i : ℕ) → nor i < 256) where
    abbrev pub h : Header
    h = staged_header nor

    pub clear_failed-app : (d : D) → app_at (clear_failed build board failed d) ≡ app_at d
    clear_failed-app d = go failed
      where
        go : (b : Bool) → app_at (clear_failed build board b d) ≡ app_at d
        go true = ok_board.gpregret_app 0 d
        go false = refl

    pub valid-length :
        header_valid build (region nor hdr_addr 36) ≡ true
        → (0 < h.b_len) × (h.b_len ≤ build.app_maxlen)
    unfolding header_valid
    valid-length e = ground arith

    -- Whatever was reported before, the copy is judged by its CRC.
    pub settle-Verdict :
        (d : D) (s : Status)
        → IsArmed build nor
        → IsDue failed nor s
        → IsAround nor app d
        → IsShown board app_at d
        → Verdict failed nor app d s s.boot.action
        → IsVerdict failed nor app (settle build board failed h d s)
    unfolding settle
    settle-Verdict d s armed due around shown before =
        elim (Bool-cases (app_crc build board h.b_len d == h.b_crc32)) [
          | inl good ↦ rw good (armed, due, around', copied (ground arith), shown')
          | inr bad ↦ rw bad before
        ]
      where
        d1 : D
        d1 = board.flash_erase board.settings_address board.code_page_size d

        marked : (m : Option ℕ) → app_at (mark_restored build board m failed d1) ≡ app_at d1
        marked none = clear_failed-app d1
        marked (some v) = ok_board.gpregret_app v d1

        erased : IsShown board app_at d1
        erased = ok_board.erase_shows board.settings_address board.code_page_size d shown

        written : (v : ℕ) → IsShown board app_at (board.set_gpregret v d1)
        written v a n =
            ok_board.gpregret_bytes v a n d1
            ∙ erased a n
            ∙ ap (λ f. region f a n) (sym (ok_board.gpregret_app v d1))

        below :
            (b : ℕ)
            → b < board.settings_address
            → app_at (mark_restored build board build.restored_magic failed d1) b ≡ app_at d b
        below b lt =
            ap (λ f. f b) (marked build.restored_magic)
            ∙ ok_board.erase_else board.settings_address board.code_page_size d b (inl lt)

        around' : IsAround nor app (mark_restored build board build.restored_magic failed d1)
        around' b lt out = below b lt ∙ around b lt out

        shows : (m : Option ℕ) → IsShown board app_at (mark_restored build board m failed d1)
        shows none = go failed
          where
            go : (b : Bool) → IsShown board app_at (clear_failed build board b d1)
            go true = written 0
            go false = erased
        shows (some v) = written v

        shown' : IsShown board app_at (mark_restored build board build.restored_magic failed d1)
        shown' = shows build.restored_magic

        copied :
            crc32_step 0 (board.flash_bytes app_base h.b_len d) ≡ h.b_crc32
            → IsCopy nor (app_at (mark_restored build board build.restored_magic failed d1))
        copied e =
            ap (crc32_step 0) (
              region_ext (app_at (mark_restored build board build.restored_magic failed d1))
                (app_at d) app_base app_base h.b_len
                (λ i lt. below (app_base + i) (omega (arith, (valid-length armed.0).1)))
              ∙ sym (shown app_base h.b_len))
            ∙ e

    pub restore-Verdict :
        (d : D) (s : Status)
        → At nor_at app_at nor app d
        → IsArmed build nor
        → IsDue failed nor s
        → s.boot.action ≡ unarmed
        → IsVerdict failed nor app (restore build board failed h d s)
    unfolding restore IsBeside
    restore-Verdict d s at armed due start =
        let d2 =
          board.flash_flush
            (copy_staged build board (rounds build board h.b_len) h.b_len 0
              (board.flash_erase app_base (span nor) d)).0 in
        elim (Bool-cases (
          (copy_staged build board (rounds build board h.b_len) h.b_len 0
            (board.flash_erase app_base (span nor) d)).1
          == h.b_len)) [
            | inl all ↦ rw all (
                settle-Verdict d2 s armed due around shown
                  (rw start (inr (armed, due, around, shown))))
            | inr part ↦ rw part (
                settle-Verdict d2 (set_action build board copy_failed s) armed due around shown
                  (armed, due, around, shown))
          ]
      where
        shown : IsShown board app_at (
            board.flash_flush
              (copy_staged build board
                (rounds build board h.b_len)
                h.b_len
                0
                (board.flash_erase app_base (span nor) d)).0)
        shown = ok_board.flush_shows _

        beside :
            IsBeside build board nor_at app_at ok_board nor app
              (span nor)
              (copy_staged build board
                (rounds build board h.b_len)
                h.b_len
                0
                (board.flash_erase app_base (span nor) d)).0
        beside =
            copy_staged-IsBeside build board nor_at app_at ok_board nor app (span nor) h.b_len
              (omega arith) (omega (arith, (valid-length armed.0).1)) (rounds build board h.b_len) 0
              (board.flash_erase app_base (span nor) d)
              (
                ok_board.erase_nor app_base (span nor) d ∙ at.0,
                λ b out. ok_board.erase_else app_base (span nor) d b out ∙ ap (λ f. f b) at.1,
              )

        around : IsAround nor app (
            board.flash_flush
              (copy_staged build board
                (rounds build board h.b_len)
                h.b_len
                0
                (board.flash_erase app_base (span nor) d)).0)
        around b lt out =
            ap (λ f. f b)
              (ok_board.flush_app
                (copy_staged build board (rounds build board h.b_len) h.b_len 0
                  (board.flash_erase app_base (span nor) d)).0)
            ∙ beside.1 b out
