-- ===== src/Promote/Restore.antt =====
-- `ab_promote_check` and its steps over the flashes.
use steelseries_apex_pro_min.Prelude.{
  ℕ, zero, suc, ◌+◌, ◌-◌, ◌*◌, ◌/◌, ◌==◌, min, ltb, leb, ◌&&◌, not, if◌then◌else◌, Bool, true,
  false, Option, none, some, List,
}
use steelseries_apex_pro_min.Crc.{crc32_step}
use steelseries_apex_pro_min.Flash.{Result, ok, err}
use steelseries_apex_pro_min.Update.{Installed, nothing, capacity}
use steelseries_apex_pro_min.Update.Install.{install}
use steelseries_apex_pro_min.Promote.{
  Build, Board, hdr_addr, tally_addr, ab_sector, bimg_addr, app_base, nor_read, update_nor_wait,
  update_io,
}
use steelseries_apex_pro_min.Promote.Records.{
  coredump_base, coredump_slot_size, coredump_size, Action, Status, Header, header_of, header_valid,
  count_zeros, take_dump, unarmed, waiting, bad_image, current, copy_failed, restored,
}

module _ {D : Type 0} (build : Build) (board : Board D) where
  unfoldable pub ab_read_header : D → D × Option Header
  unfolding header_valid nor_read
  ab_read_header d =
      let (d', r) = nor_read build board hdr_addr 36 d in
      elim r [
        | none ↦ (d', none)
        | some bytes ↦ (d', if header_valid build bytes then some (header_of bytes) else none)
      ]

  -- `ab_tally_fails`, with `left` buffers to go
  unfoldable pub tally_loop : ℕ → ℕ → ℕ → D → D × Option ℕ
  unfolding count_zeros nor_read
  tally_loop zero off fails d = (d, some fails)
  tally_loop (suc left) off fails d =
      let (d', r) = nor_read build board (tally_addr + off) 256 d in
      elim r [
        | none ↦ (d', none)
        | some buf ↦ tally_loop left (off + 256) (count_zeros buf fails) d'
      ]

  abbrev pub ab_tally_fails : D → D × Option ℕ
  ab_tally_fails = tally_loop 16 0 0

  -- `ab_scan_coredumps` from a slot on, with `left` slots to go; a slot that cannot be read is passed over.
  unfoldable pub scan_slots : ℕ → ℕ → D → Status → D × Status
  unfolding take_dump nor_read
  scan_slots zero slot d s = (d, s)
  scan_slots (suc left) slot d s =
      let (d', r) =
        nor_read build board (coredump_base + slot * coredump_slot_size) coredump_size d in
      elim r [
        | none ↦ scan_slots left (slot + 1) d' s
        | some bytes ↦ scan_slots left (slot + 1) d' (take_dump bytes s)
      ]

  -- The CRC of the staged image; `none` when a read fails. There is a round for each chunk.
  unfoldable pub staged_crc : ℕ → ℕ → ℕ → ℕ → D → D × Option ℕ
  unfolding nor_read
  staged_crc zero b_len off crc d = (d, some crc)
  staged_crc (suc left) b_len off crc d =
      let n = min (b_len - off) 256 in
      let (d', r) = nor_read build board (bimg_addr + off) n d in
      let more : D × Option ℕ = elim r [
        | none ↦ (d', none)
        | some buf ↦ staged_crc left b_len (off + n) (crc32_step crc buf) d'
      ] in
      if leb b_len off then (d, some crc) else more

  -- The copy; it gives the offset at which it ended.
  unfoldable pub copy_staged : ℕ → ℕ → ℕ → D → D × ℕ
  unfolding nor_read
  copy_staged zero b_len off d = (d, off)
  copy_staged (suc left) b_len off d =
      let n = min (b_len - off) 256 in
      let (d', r) = nor_read build board (bimg_addr + off) n d in
      let more : D × ℕ = elim r [
        | none ↦ (d', off)
        | some buf ↦ copy_staged left b_len (off + n) (board.flash_write (app_base + off) buf d')
      ] in
      if leb b_len off then (d, off) else more

  abbrev pub rounds : ℕ → ℕ
  rounds b_len = b_len / 256 + 2

  abbrev pub app_crc : ℕ → D → ℕ
  app_crc b_len d = crc32_step 0 (board.flash_bytes app_base b_len d)

  abbrev pub set_action : Action → Status → Status
  set_action a s = record s { boot = record s.boot { action = a } }

  -- `if (update_result < 0) GPREGRET = 0`
  abbrev pub clear_failed : Bool → D → D
  clear_failed failed d = if failed then board.set_gpregret 0 d else d

  -- GPREGRET after a verified restore, by what the build defines
  abbrev pub mark_restored : Option ℕ → Bool → D → D
  mark_restored none failed d = clear_failed failed d
  mark_restored (some value) failed d = board.set_gpregret value d

  -- From the verified copy on
  unfoldable pub settle : Bool → Header → D → Status → D × Status
  settle failed h d s =
      if app_crc h.b_len d == h.b_crc32
      then (
        mark_restored build.restored_magic failed
            (board.flash_erase board.settings_address board.code_page_size d),
        set_action restored s,
      )
      else (d, s)

  -- The erasing of the pages and the copy
  unfoldable pub restore : Bool → Header → D → Status → D × Status
  unfolding copy_staged settle
  restore failed h d s =
      let erase_len = (h.b_len + (ab_sector - 1)) / ab_sector * ab_sector in
      let (d', off) =
        copy_staged (rounds h.b_len) h.b_len 0 (board.flash_erase app_base erase_len d) in
      settle failed h (board.flash_flush d')
        (if off == h.b_len then s else set_action copy_failed s)

  -- With the CRC of the staged image known
  unfoldable pub compare_crc : Bool → Header → D × Option ℕ → Status → D × Status
  unfolding restore
  compare_crc failed h (d, none) s = (d, s)
  compare_crc failed h (d, some crc) s =
      if not (crc == h.b_crc32)
      then (d, set_action bad_image s)
      else if app_crc h.b_len d == h.b_crc32
      then (clear_failed failed d, set_action current s)
      else restore failed h d s

  -- With the tally of failed boots known
  unfoldable pub judge_tally : Bool → Header → D × Option ℕ → Status → D × Status
  unfolding staged_crc compare_crc
  judge_tally failed h (d, none) s =
      (d, record s { boot = record s.boot { tally_readable = false } })
  judge_tally failed h (d, some fails) s =
      let s' = record s { boot = record s.boot { tally_readable = true; failures = fails } } in
      if not failed && ltb fails h.fail_thresh
      then (d, set_action waiting s')
      else compare_crc failed h (staged_crc (rounds h.b_len) h.b_len 0 0 d) s'

  -- With the descriptor read
  unfoldable pub with_header : Bool → D × Option Header → Status → D × Status
  unfolding tally_loop judge_tally
  with_header failed (d, none) s = (d, s)
  with_header failed (d, some h) s =
      judge_tally failed h (ab_tally_fails d)
        (record s { boot = record s.boot { threshold = h.fail_thresh; image_len = h.b_len } })

  -- After the update; `failed` is `update_result < 0`.
  unfoldable pub fallback : Bool → D → Status → D × Status
  unfolding ab_read_header with_header
  fallback failed d s =
      with_header failed (ab_read_header (if failed then board.set_gpregret 0x57 d else d)) s

  abbrev pub is_err : {A : Type 0} → Result A → Bool
  is_err (ok a) = false
  is_err (err e) = true

  abbrev pub update_result : (List ℕ → Option (List ℕ)) → D → D × Result Installed
  update_result digest d =
      if build.app_maxlen == capacity
      then install (update_io build board) digest d
      else (d, ok nothing)

  abbrev pub fresh_status : D → Status → Status
  fresh_status d s = record s {
    boot = record {
      action = unarmed;
      resetreas = board.resetreas d;
      failures = 0;
      threshold = 0;
      image_len = 0;
      tally_readable = false;
      crash_present = false;
      crash_seq = 0;
      crash_reason = 0;
      crash_pc = 0;
    };
  }

  unfoldable pub ab_promote_check : (List ℕ → Option (List ℕ)) → D → Status → D × Status
  unfolding scan_slots install fallback
  ab_promote_check digest d s =
      let s0 = fresh_status d s in
      let (d1, idle) = update_nor_wait build board d in
      if not idle
      then (board.set_gpregret 0x57 d1, s0)
      else let (d2, s2) = scan_slots 4 0 d1 s0 in
        let (d3, r) = update_result digest d2 in fallback (is_err r) d3 s2
