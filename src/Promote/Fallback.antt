-- ===== src/Promote/Fallback.antt =====
-- What the fallback may do to the installed application, by the action that it reports.
use steelseries_apex_pro_min.Prelude.{
  ℕ, zero, suc, ◌+◌, ◌==◌, ◌≤◌, ◌<◌, ◌≡◌, inl, inr, ltb, not, ◌&&◌, if◌then◌else◌, Bool, true,
  false, Option, none, some, List, arith, refl, ap, ap₂, sym, ◌∙◌, Bool-cases,
}
use mathlib.Core.Option.{some_inj}
use steelseries_apex_pro_min.Crc.{crc32_step}
use steelseries_apex_pro_min.Flash.Laws.{region, At}
use steelseries_apex_pro_min.Update.{capacity}
use steelseries_apex_pro_min.Promote.{
  Build, Board, hdr_addr, tally_addr, bimg_addr, app_base, nor_read,
}
use steelseries_apex_pro_min.Promote.Records.{
  unarmed, Status, Header, header_of, header_valid, count_zeros,
}
use steelseries_apex_pro_min.Promote.Restore.{
  clear_failed, ab_read_header, tally_loop, rounds, app_crc, compare_crc, judge_tally, with_header,
  fallback,
}
use steelseries_apex_pro_min.Promote.Hardware.{IsBoard, nor_read-At, nor_read-region}
use steelseries_apex_pro_min.Promote.Staged.{GivesCrc, staged_crc-GivesCrc}
use steelseries_apex_pro_min.Promote.Settle.{
  staged_header, IsArmed, IsDue, IsSeen, IsVerdict, clear_failed-app, valid-length, restore-Verdict,
}

module _ {D : Type 0} (build : Build) (board : Board D) (nor_at app_at : D → ℕ → ℕ) where
  module _ (ok_board : IsBoard board nor_at app_at) (fits : build.app_maxlen ≤ capacity)
      (apart : app_base + build.app_maxlen ≤ board.settings_address) (failed : Bool)
      (nor app : ℕ → ℕ) (bytes : (i : ℕ) → nor i < 256) where
    abbrev pub h : Header
    h = staged_header nor

    compare_crc-Verdict :
        (p : D × Option ℕ) (s : Status)
        → header_valid build (region nor hdr_addr 36) ≡ true
        → IsDue failed nor s
        → s.boot.action ≡ unarmed
        → At nor_at app_at nor app p.0
        → ((c : ℕ) → p.1 ≡ some c → c ≡ crc32_step 0 (region nor bimg_addr h.b_len))
        → IsVerdict build board nor_at app_at failed nor app (compare_crc build board failed h p s)
    unfolding compare_crc
    compare_crc-Verdict (d, none) s valid due start at gives = rw start (inl at.1)
    compare_crc-Verdict (d, some crc) s valid due start at gives =
        elim (Bool-cases (crc == h.b_crc32)) [
          | inr bad ↦ rw bad at.1
          | inl good ↦ rw good (
              let armed : IsArmed build nor = (valid, sym (gives crc refl) ∙ ground arith) in
              elim (Bool-cases (app_crc build board h.b_len d == h.b_crc32)) [
                | inl same ↦ rw same (
                  clear_failed-app build board nor_at app_at ok_board fits apart failed nor app
                        bytes d
                      ∙ at.1,
                  armed,
                  due,
                  current_copy d (ground arith),
                )
                | inr other ↦ rw other (
                    restore-Verdict build board nor_at app_at ok_board fits apart failed nor app
                      bytes d s at armed due start)
              ])
        ]
      where
        current_copy :
            (d : D)
            → app_crc build board h.b_len d ≡ h.b_crc32
            → IsSeen build board nor_at app_at nor (clear_failed build board failed d)
        current_copy d e = go failed
          where
            go : (b : Bool) → IsSeen build board nor_at app_at nor (clear_failed build board b d)
            go true = ap (crc32_step 0) (ok_board.gpregret_bytes 0 app_base h.b_len d) ∙ e
            go false = e

    judge_tally-Verdict :
        (p : D × Option ℕ) (s : Status)
        → header_valid build (region nor hdr_addr 36) ≡ true
        → s.boot.action ≡ unarmed
        → At nor_at app_at nor app p.0
        → IsVerdict build board nor_at app_at failed nor app (judge_tally build board failed h p s)
    unfolding judge_tally GivesCrc
    judge_tally-Verdict (d, none) s valid start at = rw start (inl at.1)
    judge_tally-Verdict (d, some fails) s valid start at =
        elim (Bool-cases (not failed && ltb fails h.fail_thresh)) [
          | inl wait ↦ rw wait at.1
          | inr due ↦ rw due (
              let long =
                valid-length build board nor_at app_at ok_board fits apart failed nor app bytes
                  valid in
              let crc =
                staged_crc-GivesCrc build board nor_at app_at ok_board nor app bytes h.b_len
                  (omega (arith, long.1)) (rounds build board h.b_len) 0 0 d (omega arith)
                  (omega arith) at in
              compare_crc-Verdict _
                (record s { boot = record s.boot { tally_readable = true; failures = fails } })
                valid (elim (Bool-cases failed) [ inl y ↦ inl y | inr n ↦ inr (ground arith) ])
                start crc.0
                (λ c e.
                  crc.1 c e
                  ∙ ap (crc32_step 0) (ap₂ (λ a k. region nor a k) (omega arith) (omega arith))))
        ]

    tally_loop-At :
        (left off fails : ℕ) (d : D)
        → At nor_at app_at nor app d
        → At nor_at app_at nor app (tally_loop build board left off fails d).0
    unfolding tally_loop
    tally_loop-At zero off fails d at = at
    tally_loop-At (suc left) off fails d at =
        go (nor_read build board (tally_addr + off) 256 d).1
          (λ fails'. tally_loop-At left (off + 256) fails' d1 at1)
      where
        d1 : D
        d1 = (nor_read build board (tally_addr + off) 256 d).0

        at1 : At nor_at app_at nor app d1
        at1 = nor_read-At board nor_at app_at build ok_board nor app (tally_addr + off) 256 d at

        go :
            (r : Option (List ℕ))
            → ((fails' : ℕ)
                → At nor_at app_at nor app (tally_loop build board left (off + 256) fails' d1).0)
            → At nor_at app_at nor app
                (elim r as (λ _. D × Option ℕ) [
                  | none ↦ (d1, none)
                  | some buf ↦ tally_loop build board left (off + 256) (count_zeros buf fails) d1
                ]).0
        go none ih = at1
        go (some buf) ih = ih (count_zeros buf fails)

    with_header-Verdict :
        (p : D × Option Header) (s : Status)
        → s.boot.action ≡ unarmed
        → At nor_at app_at nor app p.0
        → ((g : Header)
            → p.1 ≡ some g
            → (g ≡ h) × (header_valid build (region nor hdr_addr 36) ≡ true))
        → IsVerdict build board nor_at app_at failed nor app (with_header build board failed p s)
    unfolding with_header
    with_header-Verdict (d, none) s start at gives = rw start (inl at.1)
    with_header-Verdict (d, some g) s start at gives = rw (gives g refl).0 (
        judge_tally-Verdict (tally_loop build board 16 0 0 d)
          (record s { boot = record s.boot { threshold = h.fail_thresh; image_len = h.b_len } })
          (gives g refl).1 start (tally_loop-At 16 0 0 d at))

    pub read_header-gives :
        (d : D)
        → At nor_at app_at nor app d
        → At nor_at app_at nor app (ab_read_header build board d).0
          × ((g : Header)
              → (ab_read_header build board d).1 ≡ some g
              → (g ≡ h) × (header_valid build (region nor hdr_addr 36) ≡ true))
    unfolding ab_read_header
    read_header-gives d at = go (nor_read build board hdr_addr 36 d).1 (λ bs e.
        nor_read-region board nor_at app_at build ok_board nor hdr_addr 36 d bs at.0 (omega arith)
          e)
      where
        d1 : D
        d1 = (nor_read build board hdr_addr 36 d).0

        at1 : At nor_at app_at nor app d1
        at1 = nor_read-At board nor_at app_at build ok_board nor app hdr_addr 36 d at

        go :
            (r : Option (List ℕ))
            → ((bs : List ℕ) → r ≡ some bs → bs ≡ region nor hdr_addr 36)
            → (let p : D × Option Header = elim r as (λ _. D × Option Header) [
              | none ↦ (d1, none)
              | some bs ↦ (d1, if header_valid build bs then some (header_of bs) else none)
            ] in
                At nor_at app_at nor app p.0
                × ((g : Header)
                    → p.1 ≡ some g
                    → (g ≡ h) × (header_valid build (region nor hdr_addr 36) ≡ true)))
        go none gives = (at1, λ g e. absurd cc)
        go (some bs) gives = elim (Bool-cases (header_valid build bs)) [
          | inl good ↦ rw good (
            at1,
            λ g e. (
              sym (some_inj.0 e) ∙ ap header_of (gives bs refl),
              ap (header_valid build) (sym (gives bs refl)) ∙ good,
            ),
          )
          | inr bad ↦ rw bad (at1, λ g e. absurd cc)
        ]

  -- For an application area of at most the update's capacity that lies below the settings, the internal
  -- flash as it is with the writes that the driver's cache holds, and a status that starts as `unarmed`:
  -- where the fallback reports `waiting`, `bad_image` or `current`, the
  -- internal flash is unchanged. Where it is changed, the descriptor is valid, the staged image has its
  -- CRC, the update failed or enough boots did, below the settings only the pages of the image are
  -- changed, and memory shows all that was written, so no write is left in the driver's cache. For
  -- `restored` the application has that CRC, and for `current` the application as memory shows it.
  pub fallback-Verdict :
      (ok_board : IsBoard board nor_at app_at)
      → build.app_maxlen ≤ capacity
      → app_base + build.app_maxlen ≤ board.settings_address
      → (failed : Bool) (d : D) (s : Status) → s.boot.action ≡ unarmed
      → IsVerdict build board nor_at app_at failed
          (nor_at d)
          (app_at d)
          (fallback build board failed d s)
  unfolding fallback
  fallback-Verdict ok_board fits apart failed d s start =
      let read =
        read_header-gives ok_board fits apart failed (nor_at d) (app_at d) (ok_board.nor_byte d) _
          (flagged failed) in
      with_header-Verdict ok_board fits apart failed (nor_at d) (app_at d) (ok_board.nor_byte d)
        (ab_read_header build board _) s start read.0 read.1
    where
      flagged :
          (b : Bool)
          → At nor_at app_at (nor_at d) (app_at d) (if b then board.set_gpregret 0x57 d else d)
      flagged true = (ok_board.gpregret_nor 0x57 d, ok_board.gpregret_app 0x57 d)
      flagged false = (refl, refl)
