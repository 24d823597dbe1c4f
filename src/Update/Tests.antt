-- ===== src/Update/Tests.antt =====
-- The download and the installation of a small image on flashes that are functions.
use steelseries_apex_pro_min.Prelude.{
  ℕ, ◌≡◌, true, false, Option, some, List, [], ◌∷◌, ◌++◌, take, drop, replicate, write32, arith,
  refl, sym, read32, same_bytes,
}
use mathlib.Core.Option.{some_inj}
use steelseries_apex_pro_min.Crc.{crc}
use steelseries_apex_pro_min.Flash.Bench.{patch, erased, patch_else, erased_else}
use steelseries_apex_pro_min.Flash.{Io, ok}
use steelseries_apex_pro_min.Flash.Laws.{region, IsFaithful, IsLocal, Ends}
use steelseries_apex_pro_min.Update.{
  Manifest, Download, installed, journal, requested, trial, address, manifest_bytes, manifest_valid,
  app_marker, vectors_valid, scan,
}
use steelseries_apex_pro_min.Update.Journal.{
  status, set_state, new_manifest, write, rewrite_at, append_at,
}
use steelseries_apex_pro_min.Update.Image.{verify_loop, verify_image}
use steelseries_apex_pro_min.Update.Install.{
  compare_page, copy_page, copy_pages, copy_image, install_manifest, install, health_manifest,
  health,
}
use steelseries_apex_pro_min.Update.Safety.{IsOutcome, IsFailure, install-Ends}
use steelseries_apex_pro_min.Update.Trial.{IsJudged, health-Ends}
use steelseries_apex_pro_min.Update.Transfer.{IsWritten, stored, write-stored}

-- The bytes of a flash.
abbrev Bytes : Type 0
Bytes = ℕ → ℕ

abbrev ideal : Io (Bytes × Bytes)
ideal = record {
  nor_read = λ a n d. (d, some (region d.0 a n));
  nor_write = λ a bs d. ((patch d.0 a bs, d.1), true);
  nor_erase = λ a n d. ((erased d.0 a n, d.1), true);
  app_read = λ a n d. (d, some (region d.1 a n));
  app_write = λ a bs d. ((d.0, patch d.1 a bs), true);
  app_erase = λ a n d. ((d.0, erased d.1 a n), true);
  app_finish = λ d. (d, true);
}

abbrev nor_of : Bytes × Bytes → Bytes
nor_of d = d.0

abbrev app_of : Bytes × Bytes → Bytes
app_of d = d.1

ideal-IsFaithful : IsFaithful ideal nor_of app_of
ideal-IsFaithful = record {
  nor_read_gives = λ a n d bs below e. sym (some_inj.0 e);
  app_read_gives = λ a n d bs e. sym (some_inj.0 e);
  nor_read_nor = λ a n d. refl;
  nor_read_app = λ a n d. refl;
  app_read_nor = λ a n d. refl;
  app_read_app = λ a n d. refl;
  nor_write_app = λ a bs d. refl;
  app_finish_app = λ d. refl;
}

ideal-IsLocal : IsLocal ideal nor_of app_of
ideal-IsLocal = record {
  nor_write_else = λ a bs d b out. patch_else d.0 a bs b out;
  nor_erase_else = λ a n d b out. erased_else d.0 a n b out;
  nor_erase_app = λ a n d. refl;
}

-- The stack top 0x20001000, the entry 0x1009 and the marker, in 24 bytes.
abbrev image : List ℕ
image = write32 0x20001000 ++ write32 0x1009 ++ app_marker ++ (0 ∷ 0 ∷ 0 ∷ [])

abbrev toy_digest : List ℕ → Option (List ℕ)
toy_digest bs = some (take 32 (bs ++ replicate 32 0))

abbrev asked : Manifest
asked = record (new_manifest ideal 24 (image ++ replicate 8 0)) { state = requested }

abbrev device : Bytes × Bytes
device = (patch (patch (λ _. 0xff) journal (manifest_bytes asked)) 0 image, λ _. 0)

install_test : (install ideal toy_digest device).1 ≡ ok installed
unfolding install install_manifest copy_image copy_pages copy_page compare_page set_state status
    verify_image verify_loop manifest_valid vectors_valid scan region address read32 crc same_bytes
install_test = refl

install-Ends_example :
    Ends
      (install ideal toy_digest device)
      (IsOutcome ideal nor_of app_of ideal-IsFaithful toy_digest (nor_of device) (app_of device))
      (IsFailure ideal nor_of app_of ideal-IsFaithful toy_digest (nor_of device) (app_of device))
install-Ends_example = install-Ends ideal nor_of app_of ideal-IsFaithful toy_digest device

-- The image runs, and its trial is recorded.
abbrev running : Bytes × Bytes
running = (
  patch (λ _. 0xff) journal (manifest_bytes (record asked { state = trial })),
  patch (λ _. 0) 0x1000 image,
)

health_test : (health ideal toy_digest running).1 ≡ ok tt
unfolding health health_manifest set_state status verify_image verify_loop manifest_valid
    vectors_valid scan region address read32 crc same_bytes
health_test = refl

health-Ends_example :
    Ends
      (health ideal toy_digest running)
      (IsJudged ideal nor_of app_of ideal-IsFaithful toy_digest (nor_of running) (app_of running))
      (λ d'. app_of d' ≡ app_of running)
health-Ends_example = health-Ends ideal nor_of app_of ideal-IsFaithful toy_digest running

-- The first 16 bytes have been stored, and the last 8 follow.
abbrev half : Download
half = record {
  manifest = new_manifest ideal 24 (image ++ replicate 8 0);
  received = 16;
  active = true;
}

abbrev stored_half : Bytes × Bytes
stored_half = (patch (λ _. 0xff) 0 (take 16 image), λ _. 0)

write_test : (write ideal half 16 (0x41 ∷ 0x33 ∷ 0 ∷ 0 ∷ []) stored_half).1 ≡ ok tt
unfolding write rewrite_at append_at same_bytes region address
write_test = refl

write-stored_example :
    IsWritten ideal nor_of app_of ideal-IsFaithful ideal-IsLocal half 16
      (0x41 ∷ 0x33 ∷ 0 ∷ 0 ∷ [])
      stored_half
      (write ideal half 16 (0x41 ∷ 0x33 ∷ 0 ∷ 0 ∷ []) stored_half)
    × (region
          (stored ideal nor_of app_of ideal-IsFaithful ideal-IsLocal
            (write ideal half 16 (0x41 ∷ 0x33 ∷ 0 ∷ 0 ∷ []) stored_half).0.0)
          0
          16
        ≡ region (stored ideal nor_of app_of ideal-IsFaithful ideal-IsLocal stored_half) 0 16)
write-stored_example =
    write-stored ideal nor_of app_of ideal-IsFaithful ideal-IsLocal half 16
      (0x41 ∷ 0x33 ∷ 0 ∷ 0 ∷ []) stored_half (omega arith) (omega arith)

-- The marker is found after a part of it, but not where it begins inside that part.
scan_found : (scan (take 5 app_marker ++ app_marker) (0, false)).1 ≡ true
unfolding scan
scan_found = refl

scan_missed_overlap : (scan (take 12 app_marker ++ drop 1 app_marker) (0, false)).1 ≡ false
unfolding scan
scan_missed_overlap = refl
