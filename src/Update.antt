-- ===== src/Update.antt =====
-- update/apex_update.c: the download of an image into three regions of the NOR flash, and its
-- installation into the internal flash with a journal that survives a loss of power. The progress
-- bar is left out. `digest` is SHA-256 (`tc_sha256_init`, `_update`, `_final`) of what is fed to it.
pub mod Journal
pub mod Image
pub mod Install
pub mod Candidate
pub mod Safety
pub mod Trial
pub mod Places
pub mod Transfer
mod Tests
use steelseries_apex_pro_min.Prelude.{
  ℕ, zero, suc, ◌+◌, ◌-◌, ◌/◌, ◌%◌, ◌==◌, ltb, leb, ◌||◌, ◌&&◌, not, if◌then◌else◌, Bool, true,
  false, Option, none, some, List, [], ◌∷◌, ◌++◌, length, take, drop, replicate, byte_at, get_or,
  same_bytes, read32, write32, uint32_max,
}
use steelseries_apex_pro_min.Crc.{crc}

abbrev pub version : ℕ
version = 3

abbrev pub board : ℕ
board = 0x41504b31

abbrev pub magic : ℕ
magic = 0x55585041

abbrev pub base : ℕ
base = 0x1000

abbrev pub downloading : ℕ
downloading = 0xffffffff

abbrev pub requested : ℕ
requested = 0xfffffffe

abbrev pub copying : ℕ
copying = 0xfffffffc

abbrev pub trial : ℕ
trial = 0xfffffff8

abbrev pub healthy : ℕ
healthy = 0xfffffff0

abbrev pub rejected : ℕ
rejected = 0xffffffe0

-- "APEX-KBD-OTA3"
abbrev pub app_marker : List ℕ
app_marker =
    b'A' ∷ b'P' ∷ b'E' ∷ b'X' ∷ b'-' ∷ b'K' ∷ b'B' ∷ b'D' ∷ b'-' ∷ b'O' ∷ b'T' ∷ b'A' ∷ b'3' ∷ []

abbrev pub capacity : ℕ
capacity = 0x71000

abbrev pub sector : ℕ
sector = 0x1000

abbrev pub journal : ℕ
journal = 0x82000

abbrev pub lfs_base : ℕ
lfs_base = 0x6b000

abbrev pub first_addr : ℕ
first_addr = 0

abbrev pub first_size : ℕ
first_size = 0x60000

abbrev pub second_addr : ℕ
second_addr = 0x77000

abbrev pub second_size : ℕ
second_size = 0x9000

abbrev pub third_addr : ℕ
third_addr = 0x83000

abbrev pub third_size : ℕ
third_size = 0x8000

unfoldable pub address : ℕ → ℕ
address offset =
    if ltb offset first_size
    then first_addr + offset
    else if ltb offset (first_size + second_size)
    then second_addr + offset - first_size
    else if ltb offset capacity
    then third_addr + offset - first_size - second_size
    else uint32_max

-- `struct apx_update_manifest`
pub record Manifest : Type 0 where
  pub magic_word : ℕ
  pub version_word : ℕ
  pub board_word : ℕ
  pub image_length : ℕ
  pub sha256 : List ℕ
  pub crc_word : ℕ
  pub state : ℕ

abbrev pub manifest_size : ℕ
manifest_size = 56

-- The 48 bytes before `crc`, little-endian.
abbrev pub head_bytes : Manifest → List ℕ
head_bytes h =
    write32 h.magic_word
    ++ (write32 h.version_word ++ (write32 h.board_word ++ (write32 h.image_length ++ h.sha256)))

abbrev pub manifest_bytes : Manifest → List ℕ
manifest_bytes h = head_bytes h ++ (write32 h.crc_word ++ write32 h.state)

abbrev pub manifest_of : List ℕ → Manifest
manifest_of bytes = record {
  magic_word = read32 bytes;
  version_word = read32 (drop 4 bytes);
  board_word = read32 (drop 8 bytes);
  image_length = read32 (drop 12 bytes);
  sha256 = take 32 (drop 16 bytes);
  crc_word = read32 (drop 48 bytes);
  state = read32 (drop 52 bytes);
}

unfoldable pub manifest_valid : Manifest → Bool
manifest_valid h =
    h.magic_word == magic
    && h.version_word == version
    && h.board_word == board
    && leb 8 h.image_length
    && leb h.image_length capacity
    && h.image_length % 4 == 0
    && h.crc_word == crc (head_bytes h)
    && (h.state == downloading
        || h.state == requested
        || h.state == copying
        || h.state == trial
        || h.state == healthy
        || h.state == rejected)

-- `struct apx_update_download`
pub record Download : Type 0 where
  pub manifest : Manifest
  pub received : ℕ
  pub active : Bool

-- The vectors of an image: the stack top inside RAM and aligned, the entry odd and inside the image.
unfoldable pub vectors_valid : ℕ → List ℕ → Bool
vectors_valid image_length bytes =
    let stack = read32 bytes in
    let entry = read32 (drop 4 bytes) in
    not (
      leb stack 0x20000000
      || ltb 0x20020000 stack
      || not (stack % 8 == 0)
      || entry % 2 == 0
      || ltb entry base
      || leb (base + image_length) (entry - entry % 2))

-- The search for the marker over the bytes of a chunk: `marker_match` and `marker_found`.
unfoldable pub scan : List ℕ → ℕ × Bool → ℕ × Bool
scan [] s = s
scan (b ∷ bs) (matched, found) =
    let next =
      if b == byte_at app_marker matched
      then matched + 1
      else if b == byte_at app_marker 0
      then 1
      else 0 in
    scan bs (if next == 13 then (0, true) else (next, found))

-- The results 1 and 0 of `apx_update_install`.
pub data Installed : Type 0 where
  installed nothing : Installed
