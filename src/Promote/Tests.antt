-- ===== src/Promote/Tests.antt =====
-- The fallback and the report on hardware that is made of functions.
use steelseries_apex_pro_min.Prelude.{
  ℕ, ◌<◌, ◌≡◌, true, false, some, List, [], ◌∷◌, ◌++◌, length, take, write32, read32, arith, refl,
}
use steelseries_apex_pro_min.Crc.{crc32_step}
use steelseries_apex_pro_min.Flash.Bench.{patch}
use steelseries_apex_pro_min.Flash.Laws.{region}
use steelseries_apex_pro_min.Promote.Records.{unarmed, restored, Status, header_valid}
use steelseries_apex_pro_min.Promote.Restore.{
  ab_read_header, settle, restore, compare_crc, judge_tally, with_header, fallback,
}
use steelseries_apex_pro_min.Promote.Report.{info_append}
use steelseries_apex_pro_min.Promote.Text.{report, info_append-fit}
use steelseries_apex_pro_min.Promote.Access.{area}
use steelseries_apex_pro_min.Promote.Settle.{IsArmed}
use steelseries_apex_pro_min.Promote.Boot.{IsWanted, before_update, after_update, boot-safe}
use steelseries_apex_pro_min.Update.Install.{install}
use steelseries_apex_pro_min.Promote.Records.{waiting}
use steelseries_apex_pro_min.Promote.Restore.{ab_promote_check, scan_slots, tally_loop}
use steelseries_apex_pro_min.Prelude.{◌⊎◌, replicate, Option}
use steelseries_apex_pro_min.Promote.{wait_loop, update_nor_read}
use steelseries_apex_pro_min.Promote.Settle.{IsVerdict}
use steelseries_apex_pro_min.Promote.Fallback.{fallback-Verdict}
use steelseries_apex_pro_min.Promote.Bench.{
  Cached, cached, seen_nor, seen_app, bench, bench-IsBoard, plain,
}

-- A staged image of eight bytes, with its descriptor.
abbrev staged : List ℕ
staged = 1 ∷ 2 ∷ 3 ∷ 4 ∷ 5 ∷ 6 ∷ 7 ∷ 8 ∷ []

abbrev descriptor : List ℕ
descriptor =
    write32 0x41423447
    ++ write32 2
    ++ write32 0x1000
    ++ write32 8
    ++ write32 (crc32_step 0 staged)
    ++ write32 0x8b000
    ++ write32 3
    ++ write32 1

abbrev armed : Cached
armed = cached (
  patch (patch (λ _. 0xff) 0x69000 (descriptor ++ write32 (crc32_step 0 descriptor))) 0x8b000
      staged,
  λ _. 0,
)

abbrev fresh : Status
fresh = record {
  boot = record {
    action = unarmed;
    resetreas = 0;
    failures = 0;
    threshold = 0;
    image_len = 0;
    tally_readable = false;
    crash_present = false;
    crash_seq = 0;
    crash_reason = 0;
    crash_pc = 0;
  };
  newest_crash = [];
}

fallback_test : (fallback plain bench true armed fresh).1.boot.action ≡ restored
unfolding fallback with_header judge_tally compare_crc restore settle ab_read_header header_valid
    region crc32_step read32
fallback_test = refl

-- A flash that takes no write: the application is erased, and the action is still `unarmed`.
broken_test :
    (fallback plain (record bench { flash_write = λ a bs d. d }) true armed fresh).1.boot.action
    ≡ unarmed
unfolding fallback with_header judge_tally compare_crc restore settle ab_read_header header_valid
    region crc32_step read32
broken_test = refl

fallback-Verdict_example :
    IsVerdict plain bench seen_nor seen_app true
      (seen_nor armed)
      (seen_app armed)
      (fallback plain bench true armed fresh)
fallback-Verdict_example =
    fallback-Verdict plain bench seen_nor seen_app bench-IsBoard (omega arith) (omega arith) true
      armed fresh refl

abbrev toy_digest : List ℕ → Option (List ℕ)
toy_digest bs = some (take 32 (bs ++ replicate 32 0))

-- No update is asked for and no boot has failed: the fallback waits.
boot_test : (ab_promote_check plain bench toy_digest armed fresh).1.boot.action ≡ waiting
unfolding ab_promote_check scan_slots install fallback with_header judge_tally tally_loop
    ab_read_header header_valid region crc32_step read32 wait_loop update_nor_read
boot_test = refl

boot-safe_example :
    (area plain bench seen_nor seen_app bench-IsBoard
        (ab_promote_check plain bench toy_digest armed fresh).0
      ≡ area plain bench seen_nor seen_app bench-IsBoard armed)
    ⊎ IsWanted plain bench seen_nor seen_app bench-IsBoard toy_digest (omega arith) (omega arith) (
        seen_nor (
          before_update plain bench seen_nor seen_app bench-IsBoard toy_digest
            (omega arith)
            (omega arith)
            armed
            fresh))
    ⊎ IsArmed plain (
        seen_nor (
          after_update plain bench seen_nor seen_app bench-IsBoard toy_digest
            (omega arith)
            (omega arith)
            armed
            fresh))
boot-safe_example =
    boot-safe plain bench seen_nor seen_app bench-IsBoard toy_digest (omega arith) (omega arith)
      armed fresh

info_append-fit_example :
    (info_append 64 fresh.boot plain (b'U' ∷ b'F' ∷ b'2' ∷ [])
      ≡ (b'U' ∷ b'F' ∷ b'2' ∷ []) ++ take 60 (report plain fresh.boot))
    × (length (info_append 64 fresh.boot plain (b'U' ∷ b'F' ∷ b'2' ∷ [])) < 64)
info_append-fit_example =
    info_append-fit 64 (omega arith) plain fresh.boot (b'U' ∷ b'F' ∷ b'2' ∷ []) (omega arith)
