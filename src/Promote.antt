-- ===== src/Promote.antt =====
-- bootloader/apex_pro_mini_wl/ab_promote.c: the NOR flash over SPI, the update's access to both
-- flashes, and the restoring of the staged image after failed boots.
pub mod Records
pub mod Restore
pub mod Report
pub mod Text
pub mod Hardware
pub mod Staged
pub mod Access
pub mod Settle
pub mod Fallback
pub mod Boot
pub mod Bench
mod Tests
use steelseries_apex_pro_min.Prelude.{
  ℕ, zero, suc, ◌+◌, ◌-◌, ◌/◌, ◌%◌, ◌==◌, min, ltb, leb, ◌||◌, ◌&&◌, not, if◌then◌else◌, Bool, true,
  false, Option, none, some, List, [], ◌∷◌, ◌++◌, length, take, drop, byte_at, read32, write32, u8,
  ◌>>>◌, uint32_max,
}
use steelseries_apex_pro_min.Flash.{Io}
use steelseries_apex_pro_min.Update.{journal}

-- The hardware and the vendored flash driver, over an unknown state: a transfer on SPIM0 with the chip
-- selected, which gives as many bytes as asked for or times out; `flash_nrf5x_write`, `_erase` and
-- `_flush`; the internal flash as it is mapped to memory; GPREGRET and RESETREAS; the watchdog; and
-- two constants.
pub record Board (D : Type 0) : Type 0 where
  pub transfer : List ℕ → ℕ → D → D × Option (List ℕ)
  pub flash_write : ℕ → List ℕ → D → D
  pub flash_erase : ℕ → ℕ → D → D
  pub flash_flush : D → D
  pub flash_bytes : ℕ → ℕ → D → List ℕ
  pub set_gpregret : ℕ → D → D
  pub resetreas : D → ℕ
  pub watchdog : D → D
  -- BOOTLOADER_SETTINGS_ADDRESS and CODE_PAGE_SIZE of the vendored headers
  pub settings_address : ℕ
  pub code_page_size : ℕ

abbrev pub hdr_addr : ℕ
hdr_addr = 0x69000

abbrev pub tally_addr : ℕ
tally_addr = 0x6a000

abbrev pub ab_sector : ℕ
ab_sector = 0x1000

abbrev pub bimg_addr : ℕ
bimg_addr = 0x8b000

abbrev pub app_base : ℕ
app_base = 0x1000

-- What a build defines: APEX_AB_APP_MAXLEN, 0x71000 by default, and APEX_AB_RESTORED_MAGIC, if it does.
pub record Build : Type 0 where
  pub app_maxlen : ℕ
  pub restored_magic : Option ℕ

-- `NOR_CMD_READ` and the 24-bit address
abbrev pub address_bytes : ℕ → List ℕ
address_bytes a = u8 (a >>> 16) ∷ u8 (a >>> 8) ∷ u8 a ∷ []

module _ {D : Type 0} (build : Build) (board : Board D) where
  -- Whether a range leaves the application area: the test of the three operations on it.
  abbrev pub out_of_app : ℕ → ℕ → Bool
  out_of_app a size =
      ltb a app_base
      || ltb (app_base + build.app_maxlen) a
      || ltb (app_base + build.app_maxlen - a) size

  -- `nor_read`
  unfoldable pub nor_read : ℕ → ℕ → D → D × Option (List ℕ)
  nor_read a len d =
      let (d', r) = board.transfer (3 ∷ address_bytes a) (4 + len) d in
      elim r [ none ↦ (d', none) | some rx ↦ (d', some (drop 4 rx)) ]

  unfoldable pub update_nor_read : ℕ → ℕ → D → D × Option (List ℕ)
  unfolding nor_read
  update_nor_read a len d =
      if leb len 256 then nor_read a len (board.watchdog d) else (board.watchdog d, none)

  -- `update_nor_command`: the last byte of the response
  unfoldable pub update_nor_command : List ℕ → D → D × Option ℕ
  update_nor_command bytes d =
      if ltb 8 (length bytes)
      then (d, none)
      else let (d', r) = board.transfer bytes (length bytes) d in
        elim r [
          | none ↦ (d', none)
          | some response ↦ (d', some (byte_at response (length bytes - 1)))
        ]

  -- `update_nor_wait`, with `left` rounds of 100000 to go: whether the busy bit was seen cleared.
  unfoldable pub wait_loop : ℕ → D → D × Bool
  unfolding update_nor_command
  wait_loop zero d = (d, false)
  wait_loop (suc left) d =
      let (d', r) = update_nor_command (5 ∷ 0xff ∷ []) (board.watchdog d) in
      elim r [
        | none ↦ (d', false)
        | some status ↦ elim (status % 2 == 0) [ true ↦ (d', true) | false ↦ wait_loop left d' ]
      ]

  abbrev pub update_nor_wait : D → D × Bool
  update_nor_wait = wait_loop 100000

  -- Only the journal's state word is ever written.
  unfoldable pub update_nor_write : ℕ → List ℕ → D → D × Bool
  unfolding update_nor_command wait_loop
  update_nor_write a bytes d =
      if not (a == journal + 52) || not (length bytes == 4)
      then (d, false)
      else let (d', enabled) = update_nor_command (6 ∷ []) d in
        elim enabled [
          | none ↦ (d', false)
          | some _ ↦
              let (d'', programmed) = update_nor_command (2 ∷ (address_bytes a ++ bytes)) d' in
              elim programmed [ none ↦ (d'', false) | some _ ↦ update_nor_wait d'' ]
        ]

  unfoldable pub update_app_read : ℕ → ℕ → D → D × Option (List ℕ)
  update_app_read a size d =
      if out_of_app a size
      then (d, none)
      else (let d' = board.flash_flush d in (d', some (board.flash_bytes a size d')))

  unfoldable pub update_app_write : ℕ → List ℕ → D → D × Bool
  update_app_write a bytes d =
      if out_of_app a (length bytes) || not (length bytes % 4 == 0)
      then (d, false)
      else (board.flash_write a bytes (board.watchdog d), true)

  unfoldable pub update_app_erase : ℕ → ℕ → D → D × Bool
  update_app_erase a size d =
      if out_of_app a size || not (a % ab_sector == 0) || not (size == ab_sector)
      then (d, false)
      else (board.flash_erase a size (board.watchdog d), true)

  -- Whether every word of the settings page is erased.
  abbrev pub all_erased : List ℕ → Bool
  all_erased [] = true
  all_erased (b ∷ bs) = b == 0xff && all_erased bs

  unfoldable pub update_app_finish : D → D × Bool
  update_app_finish d =
      let d' =
        board.flash_flush (board.flash_erase board.settings_address board.code_page_size d) in
      if not (all_erased (board.flash_bytes board.settings_address board.code_page_size d'))
      then (d', false)
      else elim build.restored_magic [
        | none ↦ (d', true)
        | some value ↦ (board.set_gpregret value d', true)
      ]

  -- `update_io`; it has no `nor_erase`, which the bootloader never calls.
  abbrev pub update_io : Io D
  update_io = record {
    nor_read = update_nor_read;
    nor_write = update_nor_write;
    nor_erase = λ a n d. (d, false);
    app_read = update_app_read;
    app_write = update_app_write;
    app_erase = update_app_erase;
    app_finish = update_app_finish;
  }
