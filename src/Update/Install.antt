-- ===== src/Update/Install.antt =====
-- `apx_update_request`, `_install` and `_health`.
use steelseries_apex_pro_min.Prelude.{
  ℕ, zero, suc, ◌+◌, ◌-◌, ◌/◌, ◌==◌, min, leb, ◌||◌, ◌&&◌, not, if◌then◌else◌, Bool, true, false,
  Option, List, same_bytes,
}
use steelseries_apex_pro_min.Flash.{
  Io, Action, failed, invalid, Result, ok, err, ◌>>=◌, ◌>>◌, pure, fail, read, run,
}
use steelseries_apex_pro_min.Update.{
  Manifest, Download, Installed, installed, nothing, address, sector, base, magic, downloading,
  requested, copying, trial, healthy, rejected,
}
use steelseries_apex_pro_min.Update.Journal.{status, set_state}
use steelseries_apex_pro_min.Update.Image.{verify_image}

module _ {D : Type 0} (io : Io D) (digest : List ℕ → Option (List ℕ)) where
  unfoldable pub request : Download → D → (D × Download) × Result (Unit {0})
  unfolding verify_image set_state
  request w d =
      if not w.active || not (w.received == w.manifest.image_length)
      then ((d, w), err invalid)
      else let (d', r) = (verify_image io digest w.manifest false >> set_state io requested) d in
        ((d', elim r [ ok _ ↦ record w { active = false } | err e ↦ w ]), r)

  -- The loop that compares a page, from `offset` to `end`; it goes on after a difference.
  unfoldable pub compare_page : ℕ → ℕ → ℕ → Bool → Action D Bool
  compare_page zero offset end same = fail failed
  compare_page (suc fuel) offset end same =
      let n = min (end - offset) 256 in
      let more = read (io.nor_read (address offset) n) >>= λ source.
      read (io.app_read (base + offset) n) >>= λ current.
      compare_page fuel (offset + 256) end (same && same_bytes source current) in
      if leb end offset then pure same else more

  -- The loop that copies a page.
  unfoldable pub copy_page : ℕ → ℕ → ℕ → Action D (Unit {0})
  copy_page zero offset end = fail failed
  copy_page (suc fuel) offset end =
      let n = min (end - offset) 256 in
      let more = read (io.nor_read (address offset) n) >>= λ source.
      run (io.app_write (base + offset) source) >> copy_page fuel (offset + 256) end in
      if leb end offset then pure tt else more

  -- The loop over the pages: 16 chunks of a page and the end are 17 rounds.
  unfoldable pub copy_pages : ℕ → ℕ → ℕ → Action D (Unit {0})
  unfolding compare_page copy_page
  copy_pages image_length zero page = fail failed
  copy_pages image_length (suc fuel) page =
      let end = min (page + sector) image_length in
      let more = compare_page 17 page end true >>= λ same.
      (if same then pure tt else run (io.app_erase (base + page) sector) >> copy_page 17 page end)
      >> copy_pages image_length fuel (page + sector) in
      if leb image_length page then pure tt else more

  -- Any failure becomes the result -1.
  abbrev pub as_failed : D × Result (Unit {0}) → D × Result (Unit {0})
  as_failed (d, ok _) = (d, ok tt)
  as_failed (d, err e) = (d, err failed)

  -- From the journal's state COPYING on.
  unfoldable pub copy_image : Manifest → Action D Installed
  unfolding verify_image set_state copy_pages
  copy_image h = do
    set_state io copying
    copy_pages h.image_length (h.image_length / sector + 2) 0
    (λ d. as_failed (verify_image io digest h true d))
    run io.app_finish
    set_state io trial
    pure installed

  -- `if (verify_image(...)) { (void)set_state(REJECTED); return -2; }`
  abbrev pub copy_verified : Manifest → D × Result (Unit {0}) → D × Result Installed
  copy_verified h (d, ok _) = copy_image h d
  copy_verified h (d, err e) = ((set_state io rejected d).0, err invalid)

  -- What `install` does with the manifest of the journal.
  unfoldable pub install_manifest : Manifest × Bool → Action D Installed
  unfolding verify_image copy_image set_state
  install_manifest (h, good) =
      if not good
      then (if h.magic_word == magic && not (h.state == downloading)
          then fail invalid
          else pure nothing)
      else if not (h.state == requested) && not (h.state == copying)
      then pure nothing
      else λ d. copy_verified h (verify_image io digest h false d)

  unfoldable pub install : Action D Installed
  unfolding status install_manifest
  install = status io >>= install_manifest

  -- What follows the verification in `health`: -1 is passed on, and else the state is set.
  abbrev pub judge_health : D × Result (Unit {0}) → D × Result (Unit {0})
  judge_health (d, ok _) = set_state io healthy d
  judge_health (d, err failed) = (d, err failed)
  judge_health (d, err _) = set_state io rejected d

  unfoldable pub health_manifest : Manifest × Bool → Action D (Unit {0})
  unfolding verify_image set_state
  health_manifest (h, good) = if not good || not (h.state == trial) then pure tt else λ d.
      judge_health (verify_image io digest h true d)

  unfoldable pub health : Action D (Unit {0})
  unfolding status health_manifest
  health = status io >>= health_manifest
