-- ===== src/Rollback.antt =====
-- apex-zmk-g4b/src/ab_rollback_g4b.c: the keyboard firmware's half of the rollback. It counts the boots
-- that were not healthy and stages a copy of the running application, over the flash operations of
-- update_g4b.c's `io`. The application's bytes are read where it is mapped to memory (`app_bytes`), and
-- its length is the linker's `_flash_used`. `CONFIG_APEX_G4B_AB_AUTOSTAGE` and `_WIRELESS_UPDATE` are on.
pub mod Tally
pub mod Pending
pub mod Boots
pub mod ReadBack
pub mod Descriptor
pub mod Commit
pub mod Staging
pub mod Copy
pub mod Autostage
pub mod Thread
pub mod Counted
pub mod Handover
pub mod Threshold
mod Tests
use steelseries_apex_pro_min.Prelude.{
  ℕ, zero, suc, ◌+◌, ◌-◌, ◌/◌, ◌==◌, min, ltb, leb, ◌||◌, ◌&&◌, not, if◌then◌else◌, Bool, true,
  false, Option, none, some, List, [], ◌∷◌, ◌++◌, length, take, write32,
}
use steelseries_apex_pro_min.Crc.{crc32_step}
use steelseries_apex_pro_min.Flash.{
  Io, Result, ok, err, failed, Action, ◌>>=◌, ◌>>◌, pure, check, read, run,
}
use steelseries_apex_pro_min.Update.{capacity}
use steelseries_apex_pro_min.Update.Install.{health}
use steelseries_apex_pro_min.Promote.{hdr_addr, tally_addr, ab_sector, bimg_addr, app_base}
use steelseries_apex_pro_min.Promote.Records.{Header, header_of, ab_magic, ab_version, flag_promote}

-- AB_DEFAULT_THRESH
abbrev pub default_thresh : ℕ
default_thresh = 3

-- The first eight words of the descriptor, which its own CRC covers.
unfoldable pub fields : ℕ → ℕ → List ℕ
fields b_len crc =
    write32 ab_magic
    ++ write32 ab_version
    ++ write32 app_base
    ++ write32 b_len
    ++ write32 crc
    ++ write32 bimg_addr
    ++ write32 default_thresh
    ++ write32 flag_promote

unfoldable pub descriptor : ℕ → ℕ → List ℕ
unfolding fields
descriptor b_len crc = fields b_len crc ++ write32 (crc32_step 0 (fields b_len crc))

-- The first erased byte of a buffer.
unfoldable pub find_free : List ℕ → Option ℕ
find_free [] = none
find_free (b ∷ bs) =
    let later : Option ℕ = elim (find_free bs) [ none ↦ none | some i ↦ some (i + 1) ] in
    if b == 0xff then some 0 else later

-- The guard of `ab_app_used_len`, of the commit and of the automatic staging
abbrev pub implausible : ℕ → Bool
implausible len = len == 0 || ltb capacity len

-- The chunks of 256 bytes of an image, and one round more
abbrev pub chunks : ℕ → ℕ
chunks len = len / 256 + 1

-- The tests of `ab_app_already_b` on the descriptor
unfoldable pub describes : ℕ → ℕ → List ℕ → Bool
describes len crc bytes =
    let h = header_of bytes in
    h.magic == ab_magic
    && h.version == ab_version
    && h.hdr_crc32 == crc32_step 0 (take 32 bytes)
    && h.b_base == app_base
    && h.b_len == len
    && h.b_crc32 == crc
    && h.nor_b_off == bimg_addr
    && h.flags == flag_promote

-- The static variable of `g4b_ab_mark_healthy`, and the count of `ab_autostage_sem`
pub record Health : Type 0 where
  pub done : Bool
  pub autostage : ℕ

module _ {D : Type 0} (io : Io D) where
  -- A buffer with a free byte ends the scan.
  abbrev pub free_or : ℕ → Option ℕ → Action D (Option ℕ) → Action D (Option ℕ)
  free_or off none rest = rest
  free_or off (some i) rest = pure (some (off + i))

  -- The scan of the tally for a free byte, with `left` buffers to go
  unfoldable pub scan_tally : ℕ → ℕ → Action D (Option ℕ)
  unfolding find_free
  scan_tally zero off = pure none
  scan_tally (suc left) off = read (io.nor_read (tally_addr + off) 256) >>= λ buf.
      free_or off (find_free buf) (scan_tally left (off + 256))

  abbrev pub mark_at : Option ℕ → Action D (Unit {0})
  mark_at none = pure tt
  mark_at (some idx) = run (io.nor_write (tally_addr + idx) (0 ∷ []))

  -- `g4b_ab_boot_pending`; the source drops the result.
  unfoldable pub boot_pending : Action D (Unit {0})
  unfolding scan_tally
  boot_pending = scan_tally 16 0 >>= mark_at

  -- After the erase of the tally
  abbrev pub after_erase : Health → D × Bool → D × Health
  after_erase h (d, true) = (d, record { done = true; autostage = min 1 (h.autostage + 1) })
  after_erase h (d, false) = (d, h)

  unfoldable pub mark_healthy : Health → D → D × Health
  mark_healthy h d = if h.done then (d, h) else after_erase h (io.nor_erase tally_addr ab_sector d)

  -- `g4b_ab_stage_erase`, with `left` sectors to go
  unfoldable pub erase_loop : ℕ → ℕ → Action D (Unit {0})
  erase_loop zero a = pure tt
  erase_loop (suc left) a =
      run (io.nor_erase (bimg_addr + a) ab_sector) >> erase_loop left (a + ab_sector)

  unfoldable pub stage_erase : Action D (Unit {0})
  unfolding erase_loop
  stage_erase = erase_loop (capacity / ab_sector) 0

  unfoldable pub stage_write : ℕ → List ℕ → D → D × Bool
  stage_write off bytes d =
      if ltb capacity (off + length bytes)
      then (d, false)
      else io.nor_write (bimg_addr + off) bytes d

  -- The CRC of the staged image as it is read back; there is a round for each chunk.
  unfoldable pub read_back : ℕ → ℕ → ℕ → ℕ → Action D ℕ
  read_back zero b_len off crc = pure crc
  read_back (suc left) b_len off crc =
      if leb b_len off
      then pure crc
      else read (io.nor_read (bimg_addr + off) (min 256 (b_len - off))) >>= λ buf.
          read_back left b_len (off + min 256 (b_len - off)) (crc32_step crc buf)

  -- The tally is cleared, and the descriptor is written last.
  unfoldable pub arm : ℕ → ℕ → Action D (Unit {0})
  unfolding descriptor
  arm b_len crc =
      run (io.nor_erase tally_addr ab_sector)
      >> run (io.nor_erase hdr_addr ab_sector)
      >> run (io.nor_write hdr_addr (descriptor b_len crc))

  unfoldable pub commit : ℕ → Action D (Unit {0})
  unfolding read_back arm
  commit b_len =
      check (not (implausible b_len)) failed >> read_back (chunks b_len) b_len 0 0 >>= arm b_len

  unfoldable pub disarm : D → D × Bool
  disarm d = io.nor_erase hdr_addr ab_sector d

module _ {D : Type 0} (io : Io D) (app_bytes : ℕ → ℕ → D → List ℕ) where
  -- `ab_app_already_b`, with the CRC of the application: it succeeds where the source gives true.
  unfoldable pub already_b : ℕ → ℕ → Action D (Unit {0})
  unfolding describes read_back
  already_b len crc = read (io.nor_read hdr_addr 36) >>= λ bytes.
      check (describes len crc bytes) failed >> read_back io (chunks len) len 0 0 >>= λ stored_crc.
      check (stored_crc == crc) failed

  -- The copy of the application to the staged image; there is a round for each chunk.
  unfoldable pub copy_app : ℕ → ℕ → ℕ → Action D (Unit {0})
  unfolding stage_write
  copy_app zero len off = pure tt
  copy_app (suc left) len off =
      if leb len off
      then pure tt
      else run (λ d. stage_write io off (app_bytes (app_base + off) (min 256 (len - off)) d) d)
        >> copy_app left len (off + min 256 (len - off))

  -- After the test whether the application is staged already
  abbrev pub stage_unless : ℕ → D × Result (Unit {0}) → D × Result (Unit {0})
  stage_unless len (d, ok _) = (d, ok tt)
  stage_unless len (d, err _) = (stage_erase io >> copy_app (chunks len) len 0 >> commit io len) d

  -- `ab_autostage_thread`, once the semaphore is taken: it succeeds where `update_ready` is set.
  unfoldable pub autostage_thread : (List ℕ → Option (List ℕ)) → ℕ → Action D (Unit {0})
  unfolding health already_b stage_erase copy_app commit
  autostage_thread digest flash_used =
      health io digest >> check (not (implausible flash_used)) failed >> λ d.
      stage_unless flash_used
        (already_b flash_used (crc32_step 0 (app_bytes app_base flash_used d)) d)
