-- ===== src/Rollback/Tests.antt =====
-- The staging and the tally on flashes that are functions.
use steelseries_apex_pro_min.Prelude.{
  ℕ, ◌%◌, ◌≤◌, ◌<◌, ◌≡◌, ◌≢◌, true, false, none, some, List, [], read32, arith, refl, sym, ap, ◌∙◌,
}
use mathlib.Core.Option.{some_inj}
use steelseries_apex_pro_min.Crc.{crc32_step}
use steelseries_apex_pro_min.Flash.Bench.{
  patch, erased, patch_else, erased_else, erased_at, patch_at,
}
use steelseries_apex_pro_min.Flash.{Io, ok}
use steelseries_apex_pro_min.Flash.Laws.{region, IsFaithful, IsLocal, Ends, Ends_ok}
use steelseries_apex_pro_min.Flash.Stores.{IsStoring, region-bytes, byte_at-mod}
use steelseries_apex_pro_min.Update.Install.{health, health_manifest}
use steelseries_apex_pro_min.Update.Journal.{status}
use steelseries_apex_pro_min.Promote.{hdr_addr}
use steelseries_apex_pro_min.Promote.Records.{Status, unarmed, waiting}
use steelseries_apex_pro_min.Promote.Restore.{fallback}
use steelseries_apex_pro_min.Promote.Settle.{IsArmed, staged_header}
use steelseries_apex_pro_min.Promote.Bench.{
  Flashes, nor_of, cached, seen_nor, seen_app, bench, bench-IsBoard, plain,
}
use steelseries_apex_pro_min.Rollback.{
  fields, descriptor, find_free, scan_tally, boot_pending, read_back, arm, commit, autostage_thread,
  implausible, default_thresh,
}
use steelseries_apex_pro_min.Rollback.Pending.{IsCounted, IsTallyOnly, boot_pending-Ends}
use steelseries_apex_pro_min.Rollback.Boots.{Boots, start, boot}
use steelseries_apex_pro_min.Rollback.Commit.{
  HoldsImage, HoldsImage-IsArmed, Committed, IsBeside, commit-Ends,
}
use steelseries_apex_pro_min.Rollback.Staging.{IsMapped}
use steelseries_apex_pro_min.Rollback.Autostage.{IsMirror}
use steelseries_apex_pro_min.Rollback.Thread.{Framed, autostage_thread-Ends}
use steelseries_apex_pro_min.Rollback.Threshold.{boots-threshold}

abbrev app_byte_of : Flashes → ℕ → ℕ
app_byte_of d i = d.1 i % 256

abbrev app_bytes : ℕ → ℕ → Flashes → List ℕ
app_bytes a n d = region (app_byte_of d) a n

abbrev ideal : Io Flashes
ideal = record {
  nor_read = λ a n d. (d, some (region (nor_of d) a n));
  nor_write = λ a bs d. ((patch d.0 a bs, d.1), true);
  nor_erase = λ a n d. ((erased d.0 a n, d.1), true);
  app_read = λ a n d. (d, some (region (app_byte_of d) a n));
  app_write = λ a bs d. ((d.0, patch d.1 a bs), true);
  app_erase = λ a n d. ((d.0, erased d.1 a n), true);
  app_finish = λ d. (d, true);
}

ideal-IsFaithful : IsFaithful ideal nor_of app_byte_of
ideal-IsFaithful = record {
  nor_read_gives = λ a n d bs below e. sym (some_inj.0 e);
  app_read_gives = λ a n d bs e. sym (some_inj.0 e);
  nor_read_nor = λ a n d. refl;
  nor_read_app = λ a n d. refl;
  app_read_nor = λ a n d. refl;
  app_read_app = λ a n d. refl;
  nor_write_app = λ a bs d. refl;
  app_finish_app = λ d. refl;
}

ideal-IsLocal : IsLocal ideal nor_of app_byte_of
ideal-IsLocal = record {
  nor_write_else = λ a bs d b out. ap (λ v. v % 256) (patch_else d.0 a bs b out);
  nor_erase_else = λ a n d b out. ap (λ v. v % 256) (erased_else d.0 a n b out);
  nor_erase_app = λ a n d. refl;
}

ideal-IsStoring : IsStoring ideal nor_of
ideal-IsStoring = record {
  nor_byte = λ d i. omega arith;
  nor_write_stores = λ a bs d good blank e.
      region-bytes (λ b. patch d.0 a bs b % 256) bs a
        (λ i lt. ap (λ v. v % 256) (patch_at d.0 a bs i lt) ∙ byte_at-mod bs i good);
  nor_erase_clears = λ a n d b e le lt. ap (λ v. v % 256) (erased_at d.0 a n b le lt);
}

ideal-IsMapped : IsMapped app_bytes app_byte_of
ideal-IsMapped = record { app_gives = λ a n d. refl; app_byte = λ d i. omega arith }

-- An erased slot, and an application that counts.
abbrev device : Flashes
device = (λ _. 0xff, λ i. i)

abbrev committed : Flashes
committed = (commit ideal 8 device).0

commit_test : (commit ideal 8 device).1 ≡ ok tt
unfolding commit read_back arm
commit_test = refl

commit-Ends_example :
    Ends
      (commit ideal 8 device)
      (λ d' r.
        (implausible 8 ≡ false)
        × Committed ideal nor_of app_byte_of ideal-IsFaithful ideal-IsLocal ideal-IsStoring 8 device
            d' r)
      (IsBeside ideal nor_of app_byte_of ideal-IsFaithful ideal-IsLocal ideal-IsStoring device)
commit-Ends_example =
    commit-Ends ideal nor_of app_byte_of ideal-IsFaithful ideal-IsLocal ideal-IsStoring device 8

committed-HoldsImage : HoldsImage 8 (nor_of committed)
committed-HoldsImage = (Ends_ok _ _ (commit ideal 8 device) tt commit-Ends_example commit_test).1.1

HoldsImage-IsArmed_example :
    IsArmed plain (nor_of committed)
    × ((staged_header (nor_of committed)).b_len ≡ 8)
    × ((staged_header (nor_of committed)).fail_thresh ≡ default_thresh)
HoldsImage-IsArmed_example =
    HoldsImage-IsArmed plain 8 (nor_of committed) refl refl committed-HoldsImage

abbrev once : Flashes
once = (boot_pending ideal device).0

abbrev twice : Flashes
twice = (boot_pending ideal once).0

abbrev thrice : Flashes
thrice = (boot_pending ideal twice).0

pending_test : (boot_pending ideal twice).1 ≡ ok tt
unfolding boot_pending scan_tally find_free region
pending_test = refl

boot_pending-Ends_example :
    Ends
      (boot_pending ideal device)
      (IsCounted ideal nor_of app_byte_of ideal-IsFaithful ideal-IsLocal ideal-IsStoring device)
      (IsTallyOnly nor_of app_byte_of device)
boot_pending-Ends_example =
    boot_pending-Ends ideal nor_of app_byte_of ideal-IsFaithful ideal-IsLocal ideal-IsStoring device

-- Three boots after the commit.
abbrev first : Flashes
first = (boot_pending ideal committed).0

abbrev second : Flashes
second = (boot_pending ideal first).0

abbrev third : Flashes
third = (boot_pending ideal second).0

first_test : (boot_pending ideal committed).1 ≡ ok tt
unfolding boot_pending scan_tally find_free region commit read_back arm descriptor fields crc32_step
first_test = refl

second_test : (boot_pending ideal first).1 ≡ ok tt
unfolding boot_pending scan_tally find_free region commit read_back arm descriptor fields crc32_step
second_test = refl

third_test : (boot_pending ideal second).1 ≡ ok tt
unfolding boot_pending scan_tally find_free region commit read_back arm descriptor fields crc32_step
third_test = refl

three_boots : Boots ideal nor_of committed 3 third
three_boots =
    boot third (boot second (boot first start first_test (λ i lt. refl)) second_test (λ i lt. refl))
      third_test (λ i lt. refl)

kept_test : region (nor_of third) hdr_addr 36 ≡ region (nor_of committed) hdr_addr 36
unfolding boot_pending scan_tally find_free region commit read_back arm descriptor fields crc32_step
kept_test = refl

abbrev fresh : Status
fresh = record {
  boot = record {
    action = unarmed;
    resetreas = 0;
    failures = 0;
    threshold = 0;
    image_len = 0;
    tally_readable = false;
    crash_present = false;
    crash_seq = 0;
    crash_reason = 0;
    crash_pc = 0;
  };
  newest_crash = [];
}

boots-threshold_example :
    let p = fallback plain bench false (cached third) fresh in
    (3 < default_thresh → seen_app p.0 ≡ seen_app (cached third))
    × (default_thresh ≤ 3 → p.1.boot.action ≢ waiting)
boots-threshold_example =
    boots-threshold ideal nor_of app_byte_of ideal-IsFaithful ideal-IsLocal ideal-IsStoring plain
      bench seen_nor seen_app bench-IsBoard refl (omega arith) 8 3 committed third (cached third)
      fresh refl committed-HoldsImage three_boots (omega arith) kept_test refl refl refl

-- An erased journal: no update is on trial.
autostage_test : (autostage_thread ideal app_bytes (λ bs. none) 8 device).1 ≡ ok tt
unfolding autostage_thread health health_manifest status read32 region
autostage_test = refl

autostage_thread-Ends_example :
    let d1 = (health ideal (λ bs. none) device).0 in
    Ends
      (autostage_thread ideal app_bytes (λ bs. none) 8 device)
      (λ d' _.
        (app_byte_of d' ≡ app_byte_of device)
        × Framed ideal nor_of app_byte_of ideal-IsFaithful ideal-IsLocal ideal-IsStoring app_bytes
            ideal-IsMapped d1 d'
        × IsMirror 8 (app_byte_of device) (nor_of d'))
      (λ d'.
        (app_byte_of d' ≡ app_byte_of device)
        × Framed ideal nor_of app_byte_of ideal-IsFaithful ideal-IsLocal ideal-IsStoring app_bytes
            ideal-IsMapped d1 d')
autostage_thread-Ends_example =
    autostage_thread-Ends ideal nor_of app_byte_of ideal-IsFaithful ideal-IsLocal ideal-IsStoring
      app_bytes ideal-IsMapped (λ bs. none) 8 device
