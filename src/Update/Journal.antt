-- ===== src/Update/Journal.antt =====
-- The journal and the download: `apx_update_status`, `set_state`, `_check_filesystem`, `_begin` and
-- `_write`.
use steelseries_apex_pro_min.Prelude.{
  ℕ, zero, suc, ◌+◌, ◌-◌, ◌%◌, ◌==◌, ltb, ◌||◌, ◌&&◌, not, if◌then◌else◌, Bool, true, false, Option,
  none, some, List, [], ◌∷◌, length, byte_at, same_bytes, read32, write32,
}
use steelseries_apex_pro_min.Crc.{crc}
use steelseries_apex_pro_min.Flash.{
  Io, Action, failed, invalid, pending, Result, ok, err, ◌>>=◌, ◌>>◌, pure, check, read, run,
}
use steelseries_apex_pro_min.Update.{
  Manifest, Download, manifest_size, manifest_of, manifest_bytes, manifest_valid, head_bytes,
  address, journal, sector, lfs_base, magic, version, board, downloading, requested, copying, trial,
}

module _ {D : Type 0} (io : Io D) where
  -- The manifest as read, and whether it is valid: the results 0 and -2; a failed read is -1.
  unfoldable pub status : Action D (Manifest × Bool)
  unfolding manifest_valid
  status = do
    bytes ← read (io.nor_read journal manifest_size)
    pure (manifest_of bytes, manifest_valid (manifest_of bytes))

  unfoldable pub set_state : ℕ → Action D (Unit {0})
  set_state state = do
    run (io.nor_write (journal + 52) (write32 state))
    actual ← read (io.nor_read (journal + 52) 4)
    check (read32 actual == state) failed

  -- The first 64 bytes of a freshly formatted volume.
  abbrev pub empty_header : List ℕ
  empty_header =
      0x01 ∷ 0x00 ∷ 0x00 ∷ 0x00 ∷ 0xf0 ∷ 0x0f ∷ 0xff ∷ 0xf7 ∷ 0x6c ∷ 0x69 ∷ 0x74 ∷ 0x74 ∷ 0x6c
      ∷ 0x65 ∷ 0x66 ∷ 0x73 ∷ 0x2f ∷ 0xe0 ∷ 0x00 ∷ 0x10 ∷ 0x01 ∷ 0x00 ∷ 0x02 ∷ 0x00 ∷ 0x00 ∷ 0x10
      ∷ 0x00 ∷ 0x00 ∷ 0x15 ∷ 0x00 ∷ 0x00 ∷ 0x00 ∷ 0xff ∷ 0x00 ∷ 0x00 ∷ 0x00 ∷ 0xff ∷ 0xff ∷ 0xff
      ∷ 0x7f ∷ 0xfe ∷ 0x03 ∷ 0x00 ∷ 0x00 ∷ 0x7f ∷ 0xef ∷ 0xfc ∷ 0x10 ∷ 0x10 ∷ 0x00 ∷ 0x00 ∷ 0x00
      ∷ 0xe5 ∷ 0x39 ∷ 0x4c ∷ 0xc0 ∷ 0x0f ∷ 0xf0 ∷ 0x00 ∷ 0x0c ∷ 0xaa ∷ 0x34 ∷ 0xff ∷ 0x20 ∷ []

  -- The inner loop over a buffer read at `offset`: whether all bytes are erased, and as expected.
  unfoldable pub look : ℕ → List ℕ → Bool × Bool → Bool × Bool
  look offset [] flags = flags
  look offset (b ∷ bs) (blank, known) =
      let expected = if ltb offset 64 then byte_at empty_header offset else 0xff in
      look (offset + 1) bs (blank && b == 0xff, known && b == expected)

  -- The outer loop, with `left` buffers of 256 bytes to go.
  unfoldable pub filesystem_loop : ℕ → ℕ → Bool × Bool → Action D (Bool × Bool)
  unfolding look
  filesystem_loop zero offset flags = pure flags
  filesystem_loop (suc left) offset flags = do
    buffer ← read (io.nor_read (lfs_base + offset) 256)
    filesystem_loop left (offset + 256) (look offset buffer flags)

  unfoldable pub check_filesystem : Action D (Unit {0})
  unfolding filesystem_loop
  check_filesystem = do
    flags ← filesystem_loop 336 0 (true, true)
    check (flags.0 || flags.1) invalid

  -- What `begin` does once the new manifest is valid.
  unfoldable pub begin_journal : Manifest → Action D (Unit {0})
  unfolding status
  begin_journal h = do
    old ← status
    check
        (not
          (old.1 && (old.0.state == requested || old.0.state == copying || old.0.state == trial)))
        pending
    run (io.nor_erase journal sector)
    run (io.nor_write journal (manifest_bytes h))
    now ← status
    check (now.1 && same_bytes (manifest_bytes now.0) (manifest_bytes h)) failed

  abbrev pub new_manifest : ℕ → List ℕ → Manifest
  new_manifest image_length sha256 =
      let h : Manifest = record {
        magic_word = magic;
        version_word = version;
        board_word = board;
        image_length = image_length;
        sha256 = sha256;
        crc_word = 0;
        state = downloading;
      } in
      record h { crc_word = crc (head_bytes h) }

  -- The download is new whatever the result; it becomes active if the journal is written.
  unfoldable pub begin : ℕ → List ℕ → D → (D × Download) × Result (Unit {0})
  unfolding begin_journal manifest_valid
  begin image_length sha256 d =
      let h = new_manifest image_length sha256 in
      let fresh : Download = record { manifest = h; received = 0; active = false } in
      if not (manifest_valid h)
      then ((d, fresh), err invalid)
      else let (d', r) = begin_journal h d in
        ((d', elim r [ ok _ ↦ record fresh { active = true } | err e ↦ fresh ]), r)

  -- The test at the head of `write`.
  abbrev pub write_refused : Download → ℕ → ℕ → Bool
  write_refused w offset size =
      not w.active
      || size == 0
      || ltb 256 size
      || ltb w.manifest.image_length offset
      || ltb (w.manifest.image_length - offset) size
      || ltb (sector - offset % sector) size

  abbrev pub same_as : List ℕ → D × Option (List ℕ) → D × Result (Unit {0})
  same_as bytes (d, none) = (d, err invalid)
  same_as bytes (d, some verify) = (d, if same_bytes verify bytes then ok tt else err invalid)

  -- A repeated fragment has to be what is stored.
  unfoldable pub rewrite_at : ℕ → ℕ → List ℕ → Action D (Unit {0})
  rewrite_at received offset bytes d =
      if ltb (received - offset) (length bytes)
      then (d, err invalid)
      else same_as bytes (io.nor_read (address offset) (length bytes) d)

  -- A new one is written and read back, its sector erased first if it begins one.
  unfoldable pub append_at : ℕ → List ℕ → Action D (Unit {0})
  append_at offset bytes = do
    (if offset % sector == 0 then run (io.nor_erase (address offset) sector) else pure tt)
    run (io.nor_write (address offset) bytes)
    verify ← read (io.nor_read (address offset) (length bytes))
    check (same_bytes verify bytes) failed

  unfoldable pub write : Download → ℕ → List ℕ → D → (D × Download) × Result (Unit {0})
  unfolding rewrite_at append_at
  write w offset bytes d =
      if write_refused w offset (length bytes)
      then ((d, w), err invalid)
      else if ltb offset w.received
      then (let (d', r) = rewrite_at w.received offset bytes d in ((d', w), r))
      else if not (offset == w.received)
      then ((d, w), err invalid)
      else let (d', r) = append_at offset bytes d in
        ((d', elim r [ ok _ ↦ record w { received = w.received + length bytes } | err e ↦ w ]), r)
