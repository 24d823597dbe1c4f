-- ===== src/Rollback/Descriptor.antt =====
-- The descriptor of the staged image as the firmware writes it and the bootloader reads it.
use steelseries_apex_pro_min.Prelude.{
  ℕ, ◌^◌, ◌<◌, ◌≡◌, true, false, [], length, take, IsBytes, read32-write32, arith, refl,
}
use steelseries_apex_pro_min.Crc.{crc32_step}
use steelseries_apex_pro_min.Flash.Stores.{crc32_step-lt}
use steelseries_apex_pro_min.Update.{capacity}
use steelseries_apex_pro_min.Promote.{Build, app_base, bimg_addr}
use steelseries_apex_pro_min.Promote.Records.{
  header_of, header_valid, ab_magic, ab_version, flag_promote,
}
use steelseries_apex_pro_min.Rollback.{fields, descriptor, implausible, default_thresh}

pub length-descriptor : (b_len crc : ℕ) → length (descriptor b_len crc) ≡ 36
unfolding descriptor fields
length-descriptor b_len crc = refl

pub IsBytes-descriptor : (b_len crc : ℕ) → IsBytes (descriptor b_len crc)
unfolding descriptor fields
IsBytes-descriptor b_len crc = omega arith

module _ (b_len crc : ℕ) (word : b_len < 2 ^ 32) (word' : crc < 2 ^ 32) where
  pub b_len-descriptor : (header_of (descriptor b_len crc)).b_len ≡ b_len
  unfolding descriptor fields
  b_len-descriptor = read32-write32 b_len _ word

  pub b_crc32-descriptor : (header_of (descriptor b_len crc)).b_crc32 ≡ crc
  unfolding descriptor fields
  b_crc32-descriptor = read32-write32 crc _ word'

  pub hdr_crc32-descriptor :
      (header_of (descriptor b_len crc)).hdr_crc32 ≡ crc32_step 0 (take 32 (descriptor b_len crc))
  unfolding descriptor fields
  hdr_crc32-descriptor =
      read32-write32 (crc32_step 0 (fields b_len crc)) [] (crc32_step-lt 0 (fields b_len crc))

  pub fail_thresh-descriptor : (header_of (descriptor b_len crc)).fail_thresh ≡ default_thresh
  unfolding descriptor fields
  fail_thresh-descriptor = read32-write32 3 _ (omega arith)

-- The words that are the same in every descriptor.
pub constants-descriptor :
    (b_len crc : ℕ)
    → let h = header_of (descriptor b_len crc) in
      (h.magic ≡ ab_magic)
      × (h.version ≡ ab_version)
      × (h.b_base ≡ app_base)
      × (h.nor_b_off ≡ bimg_addr)
      × (h.flags ≡ flag_promote)
unfolding descriptor fields
constants-descriptor b_len crc = (
  read32-write32 ab_magic _ (omega arith),
  read32-write32 ab_version _ (omega arith),
  read32-write32 app_base _ (omega arith),
  read32-write32 bimg_addr _ (omega arith),
  read32-write32 flag_promote _ (omega arith),
)

-- The descriptor that the firmware writes for a plausible image is one that the bootloader takes.
pub header_valid-descriptor :
    (build : Build) (b_len crc : ℕ)
    → build.app_maxlen ≡ capacity
    → implausible b_len ≡ false
    → crc < 2 ^ 32
    → header_valid build (descriptor b_len crc) ≡ true
unfolding header_valid
header_valid-descriptor build b_len crc whole good word = ground (
  arith,
  constants-descriptor b_len crc,
  b_len-descriptor b_len crc (ground arith) word,
  hdr_crc32-descriptor b_len crc (ground arith) word,
  fail_thresh-descriptor b_len crc (ground arith) word,
)
