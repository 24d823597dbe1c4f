-- ===== src/Spinor.antt =====
-- apex-zmk-g4b/src/spinor_g4b.c: the keyboard's driver of its NOR flash, from one transaction on SPIM0 up
-- to the operations of a flash device, and the `io` of apex-zmk-g4b/src/update_g4b.c. The dump of the
-- whole chip and the write test are left out.
pub mod Chip
pub mod Reads
pub mod Writes
pub mod Pages
pub mod Sectors
pub mod Device
pub mod Driver
pub mod Wait
pub mod Bench
mod Tests
use steelseries_apex_pro_min.Prelude.{
  ℕ, zero, suc, ◌+◌, ◌-◌, ◌*◌, ◌/◌, ◌%◌, ◌^◌, ◌==◌, min, ltb, ◌||◌, ◌&&◌, not, if◌then◌else◌, Bool,
  true, false, Option, none, some, List, [], ◌∷◌, ◌++◌, length, take, drop, byte_at, u32,
}
use steelseries_apex_pro_min.Flash.{
  Io, Result, ok, err, failed, pending, Action, ◌>>=◌, ◌>>◌, pure, fail, check, read, run,
}
use steelseries_apex_pro_min.Update.{base, capacity}
use steelseries_apex_pro_min.Promote.{address_bytes}

-- The hardware and the kernel, over an unknown state: a transaction of SPIM0 with the chip selected,
-- which sends a command and clocks in as many bytes as asked for, or times out; one that only sends; the
-- cycle counter; the claiming and releasing of SPIM0 and its pins; the lock of the bus, and the wait for
-- the end of the boot replay; and the application as it is mapped to memory.
pub record Spim (D : Type 0) : Type 0 where
  pub xfer : List ℕ → ℕ → D → D × Option (List ℕ)
  pub tx : List ℕ → D → D × Bool
  pub cyccnt : D → D × ℕ
  pub nor_enable : D → D
  pub nor_disable : D → D
  pub extbus_lock : D → D
  pub extbus_unlock : D → D
  pub wait_replay : D → D
  pub app_bytes : ℕ → ℕ → D → List ℕ

abbrev pub nor_size : ℕ
nor_size = 0x100000

-- G4B_NOR_READ_CHUNK
abbrev pub read_chunk : ℕ
read_chunk = 1024

-- G4B_NOR_ERASE_CYC
abbrev pub erase_cyc : ℕ
erase_cyc = 64_000_000

-- G4B_NOR_PROG_CYC
abbrev pub prog_cyc : ℕ
prog_cyc = 6_400_000

abbrev pub stage_base : ℕ
stage_base = 0x14000

abbrev pub stage_size : ℕ
stage_size = 0x4b000

-- A result as the flash interface has it.
abbrev pub succeeded : {D : Type 0} → D × Result (Unit {0}) → D × Bool
succeeded (d, ok _) = (d, true)
succeeded (d, err _) = (d, false)

abbrev pub given : {D : Type 0} → D × Result (List ℕ) → D × Option (List ℕ)
given (d, ok bytes) = (d, some bytes)
given (d, err _) = (d, none)

-- How much of a write fits the page of its address
abbrev pub page_part : ℕ → ℕ → ℕ
page_part a len = min len (256 - a % 256)

module _ {D : Type 0} (spim : Spim D) where
  -- `nor_xfer`, within its two buffers
  abbrev pub nor_xfer : List ℕ → ℕ → D → D × Option (List ℕ)
  nor_xfer cmd n d =
      if ltb 4 (length cmd) || ltb (4 + read_chunk - length cmd) n
      then (d, none)
      else spim.xfer cmd n d

  -- `nor_read`, with a round for each chunk
  unfoldable pub nor_read : ℕ → ℕ → ℕ → Action D (List ℕ)
  nor_read zero addr len = pure []
  nor_read (suc left) addr len =
      if len == 0
      then pure []
      else read (nor_xfer (3 ∷ address_bytes addr) (min len read_chunk)) >>= λ bytes.
          nor_read left (addr + min len read_chunk) (len - min len read_chunk) >>= λ rest.
          pure (bytes ++ rest)

  -- The byte stays 0xff when the transaction fails.
  abbrev pub status_of : D × Option (List ℕ) → D × ℕ
  status_of (d, none) = (d, 0xff)
  status_of (d, some bytes) = (d, byte_at bytes 0)

  abbrev pub nor_status : D → D × ℕ
  nor_status d = status_of (nor_xfer (5 ∷ []) 1 d)

  -- `nor_wait_wip` since `start`; running out of rounds would be `pending`.
  unfoldable pub wait_wip : ℕ → ℕ → ℕ → Action D (Unit {0})
  wait_wip zero start max_cyc d = (d, err pending)
  wait_wip (suc left) start max_cyc d =
      let (d1, status) = nor_status d in
      let (d2, now) = spim.cyccnt d1 in
      let again = wait_wip left start max_cyc d2 in
      if status % 2 == 0
      then (d1, ok tt)
      else if ltb max_cyc (u32 (now + 2 ^ 32 - start))
      then (d2, err failed)
      else again

  -- A round for each cycle, and more than that
  unfoldable pub nor_wait_wip : ℕ → Action D (Unit {0})
  nor_wait_wip max_cyc d =
      let (d1, start) = spim.cyccnt d in wait_wip (max_cyc + 2) start max_cyc d1

  -- Its result is not looked at.
  abbrev pub nor_wren : D → D
  nor_wren d = (spim.tx (6 ∷ []) d).0

  unfoldable pub nor_sector_erase : ℕ → Action D (Unit {0})
  nor_sector_erase addr d =
      (run (spim.tx (0x20 ∷ address_bytes addr)) >> nor_wait_wip erase_cyc) (nor_wren d)

  unfoldable pub nor_page_program : ℕ → List ℕ → Action D (Unit {0})
  nor_page_program addr bytes = if ltb 256 (length bytes) then fail failed else λ d.
      (run (spim.tx (2 ∷ (address_bytes addr ++ bytes))) >> nor_wait_wip prog_cyc) (nor_wren d)

  -- The loop over the pages of a write; each round writes at least one byte.
  unfoldable pub program_loop : ℕ → ℕ → List ℕ → Action D (Unit {0})
  program_loop zero addr bytes = pure tt
  program_loop (suc left) addr bytes =
      if length bytes == 0
      then pure tt
      else nor_page_program addr (take (page_part addr (length bytes)) bytes)
        >> program_loop left (addr + page_part addr (length bytes))
            (drop (page_part addr (length bytes)) bytes)

  -- One span of the bus: the lock, SPIM0, and both given back.
  abbrev pub on_bus : {A : Type 0} → Action D A → Action D A
  on_bus m d =
      let (d', r) = m (spim.nor_enable (spim.extbus_lock d)) in
      (spim.extbus_unlock (spim.nor_disable d'), r)

  unfoldable pub dev_read : ℕ → ℕ → D → D × Option (List ℕ)
  dev_read addr len d =
      if ltb nor_size (addr + len)
      then (d, none)
      else given (on_bus (nor_read (len / read_chunk + 1) addr len) d)

  -- The sectors of an erase, each on the bus for itself
  unfoldable pub erase_sectors : ℕ → ℕ → Action D (Unit {0})
  erase_sectors zero addr = pure tt
  erase_sectors (suc left) addr =
      on_bus (nor_sector_erase addr) >> erase_sectors left (addr + 0x1000)

  unfoldable pub dev_erase : ℕ → ℕ → D → D × Bool
  dev_erase addr size d =
      if not (addr % 0x1000 == 0) || not (size % 0x1000 == 0) || ltb nor_size (addr + size)
      then (d, false)
      else succeeded (erase_sectors (size / 0x1000) addr (spim.wait_replay d))

  unfoldable pub dev_program : ℕ → List ℕ → D → D × Bool
  dev_program addr bytes d =
      if ltb nor_size (addr + length bytes)
      then (d, false)
      else succeeded (on_bus (program_loop (length bytes) addr bytes) (spim.wait_replay d))

  -- `app_read` of update_g4b.c
  unfoldable pub app_read : ℕ → ℕ → D → D × Option (List ℕ)
  app_read addr len d =
      if ltb addr base || ltb (base + capacity) addr || ltb (base + capacity - addr) len
      then (d, none)
      else (d, some (spim.app_bytes addr len d))

  -- `io` of update_g4b.c; it has no operation that writes the application.
  abbrev pub firmware_io : Io D
  firmware_io = record {
    nor_read = dev_read;
    nor_write = dev_program;
    nor_erase = dev_erase;
    app_read = app_read;
    app_write = λ a bytes d. (d, false);
    app_erase = λ a n d. (d, false);
    app_finish = λ d. (d, false);
  }

  -- `g4b_spinor_stage_erase`, with `left` sectors to go
  unfoldable pub stage_erase : ℕ → ℕ → Action D (Unit {0})
  stage_erase zero a = pure tt
  stage_erase (suc left) a = nor_sector_erase a >> stage_erase left (a + 0x1000)

  unfoldable pub stage_write : ℕ → List ℕ → Action D (Unit {0})
  stage_write off bytes =
      if ltb stage_size (off + length bytes)
      then fail failed
      else program_loop (length bytes) (stage_base + off) bytes

  unfoldable pub stage_read : ℕ → ℕ → Action D (List ℕ)
  stage_read off len =
      if ltb stage_size (off + len)
      then fail failed
      else nor_read (len / read_chunk + 1) (stage_base + off) len

  -- In a fault: a sector is erased and one page of it written, without the lock.
  unfoldable pub fault_write : ℕ → List ℕ → D → D × Bool
  fault_write addr record_bytes d =
      if length record_bytes == 0 || ltb 256 (length record_bytes)
      then (d, false)
      else let (d', good) = succeeded (
          (nor_wait_wip erase_cyc >> nor_sector_erase addr >> nor_page_program addr record_bytes)
            (spim.nor_enable d)) in
        (spim.nor_disable d', good)

  unfoldable pub coredump_read : ℕ → ℕ → D → D × Option (List ℕ)
  coredump_read addr len d =
      if ltb nor_size (addr + len)
      then (d, none)
      else given (on_bus (nor_read (len / read_chunk + 1) addr len) d)
