-- ===== src/Promote/Records.antt =====
-- The records of the bootloader: the status of a boot, the descriptor of the staged image, the tally of
-- failed boots and the crash dumps.
use steelseries_apex_pro_min.Prelude.{
  ℕ, ◌+◌, ◌-◌, ◌^◌, ◌==◌, ltb, ◌||◌, ◌&&◌, not, if◌then◌else◌, Bool, true, List, [], ◌∷◌, take,
  drop, read32, read16, u16,
}
use steelseries_apex_pro_min.Crc.{crc32_step}
use steelseries_apex_pro_min.Promote.{Build, bimg_addr, app_base}

abbrev pub ab_magic : ℕ
ab_magic = 0x41423447

abbrev pub ab_version : ℕ
ab_version = 2

abbrev pub flag_promote : ℕ
flag_promote = 1

abbrev pub coredump_base : ℕ
coredump_base = 0xfc000

abbrev pub coredump_slot_size : ℕ
coredump_slot_size = 0x1000

abbrev pub coredump_magic : ℕ
coredump_magic = 0x43585041

abbrev pub coredump_version : ℕ
coredump_version = 1

abbrev pub coredump_size : ℕ
coredump_size = 248

-- `enum ab_boot_action`
pub data Action : Type 0 where
  unarmed waiting bad_image current copy_failed restored : Action

-- `struct ab_boot_status`
pub record BootStatus : Type 0 where
  pub action : Action
  pub resetreas : ℕ
  pub failures : ℕ
  pub threshold : ℕ
  pub image_len : ℕ
  pub tally_readable : Bool
  pub crash_present : Bool
  pub crash_seq : ℕ
  pub crash_reason : ℕ
  pub crash_pc : ℕ

-- The static variables `boot_status` and `newest_crash`
pub record Status : Type 0 where
  pub boot : BootStatus
  pub newest_crash : List ℕ

-- `struct ab_header`
pub record Header : Type 0 where
  pub magic : ℕ
  pub version : ℕ
  pub b_base : ℕ
  pub b_len : ℕ
  pub b_crc32 : ℕ
  pub nor_b_off : ℕ
  pub fail_thresh : ℕ
  pub flags : ℕ
  pub hdr_crc32 : ℕ

abbrev pub header_of : List ℕ → Header
header_of bytes = record {
  magic = read32 bytes;
  version = read32 (drop 4 bytes);
  b_base = read32 (drop 8 bytes);
  b_len = read32 (drop 12 bytes);
  b_crc32 = read32 (drop 16 bytes);
  nor_b_off = read32 (drop 20 bytes);
  fail_thresh = read32 (drop 24 bytes);
  flags = read32 (drop 28 bytes);
  hdr_crc32 = read32 (drop 32 bytes);
}

-- The tests of `ab_read_header`.
unfoldable pub header_valid : Build → List ℕ → Bool
header_valid build bytes =
    let h = header_of bytes in
    h.magic == ab_magic
    && h.version == ab_version
    && crc32_step 0 (take 32 bytes) == h.hdr_crc32
    && h.flags == flag_promote
    && not (h.fail_thresh == 0)
    && h.b_base == app_base
    && not (h.b_len == 0 || ltb build.app_maxlen h.b_len)
    && h.nor_b_off == bimg_addr

-- The inner loop of `ab_tally_fails`
unfoldable pub count_zeros : List ℕ → ℕ → ℕ
count_zeros [] fails = fails
count_zeros (b ∷ bs) fails = count_zeros bs (if b == 0 then fails + 1 else fails)

-- A record is a crash dump, and newer than the newest so far, if any.
unfoldable pub dump_valid : List ℕ → Bool
dump_valid record_bytes =
    read32 record_bytes == coredump_magic
    && read16 (drop 4 record_bytes) == coredump_version
    && crc32_step 0 (take (coredump_size - 4) record_bytes)
      == read32 (drop (coredump_size - 4) record_bytes)

abbrev pub newer : Bool → ℕ → ℕ → Bool
newer found seq best_seq = not found || ltb (u16 (seq + 2 ^ 16 - best_seq)) 0x8000

-- The body of the loop over the slots, for a record that was read; `found` is `crash_present`.
unfoldable pub take_dump : List ℕ → Status → Status
unfolding dump_valid
take_dump bytes s =
    let seq = read16 (drop 6 bytes) in
    if dump_valid bytes && newer s.boot.crash_present seq s.boot.crash_seq
    then record s {
      boot = record s.boot {
        crash_present = true;
        crash_seq = seq;
        crash_reason = read32 (drop 8 bytes);
        crash_pc = read32 (drop 40 bytes);
      };
      newest_crash = bytes;
    }
    else s
