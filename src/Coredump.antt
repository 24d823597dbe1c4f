-- ===== src/Coredump.antt =====
-- apex-zmk-g4b/src/coredump_g4b.c and coredump_g4b.h: the record of a crash that the fault handler writes
-- to a ring of four sectors of the NOR flash, and the scan of the ring at boot. The reset that ends the
-- handler, and the text that is emitted, are left out.
pub mod Wire
pub mod Slots
pub mod Write
pub mod Newest
pub mod Next
pub mod Blank
pub mod Crashes
mod Tests
use steelseries_apex_pro_min.Prelude.{
  ℕ, zero, suc, ◌+◌, ◌-◌, ◌*◌, ◌%◌, ◌^◌, ◌==◌, ltb, leb, ◌||◌, ◌&&◌, not, if◌then◌else◌, Bool, true,
  false, Option, none, some, List, [], ◌∷◌, ◌++◌, take, drop, replicate, read32, read16, write32,
  write16, u16, uint32_max,
}
use steelseries_apex_pro_min.Crc.{crc_loop, complement}
use steelseries_apex_pro_min.Spinor.{Spim, fault_write, coredump_read}

abbrev pub coredump_magic : ℕ
coredump_magic = 0x43585041

abbrev pub coredump_version : ℕ
coredump_version = 1

abbrev pub ring_base : ℕ
ring_base = 0xfc000

abbrev pub ring_slots : ℕ
ring_slots = 4

abbrev pub slot_size : ℕ
slot_size = 0x1000

-- sizeof(struct g4b_coredump_record)
abbrev pub record_size : ℕ
record_size = 248

-- `esf->basic`
pub record Basic : Type 0 where
  pub r0 : ℕ
  pub r1 : ℕ
  pub r2 : ℕ
  pub r3 : ℕ
  pub r12 : ℕ
  pub lr : ℕ
  pub pc : ℕ
  pub xpsr : ℕ

-- `*esf->extra_info.callee`
pub record Callee : Type 0 where
  pub v1 : ℕ
  pub v2 : ℕ
  pub v3 : ℕ
  pub v4 : ℕ
  pub v5 : ℕ
  pub v6 : ℕ
  pub v7 : ℕ
  pub v8 : ℕ
  pub psp : ℕ

-- `esf->extra_info`, which CONFIG_EXTRA_EXCEPTION_INFO adds
pub record Extra : Type 0 where
  pub msp : ℕ
  pub exc_return : ℕ
  pub callee : Option Callee

-- `*esf`, with its address
pub record Frame : Type 0 where
  pub address : ℕ
  pub basic : Basic
  pub extra : Option Extra

-- What the handler finds: its argument, the frame, the registers that it reads, and the RAM, as the bytes
-- from an address on.
pub record Fault : Type 0 where
  pub reason : ℕ
  pub resetreas : ℕ
  pub esf : Option Frame
  pub cfsr : ℕ
  pub hfsr : ℕ
  pub bfar : ℕ
  pub mmfar : ℕ
  pub stack_at : ℕ → List ℕ

abbrev pub words : List ℕ → List ℕ
words [] = []
words (w ∷ ws) = write32 w ++ words ws

abbrev pub basic_words : Option Frame → List ℕ
basic_words none = replicate 8 0
basic_words (some f) =
    let b = f.basic in b.r0 ∷ b.r1 ∷ b.r2 ∷ b.r3 ∷ b.r12 ∷ b.lr ∷ b.pc ∷ b.xpsr ∷ []

abbrev pub callee_words : Option Callee → List ℕ
callee_words none = replicate 8 0
callee_words (some c) = c.v1 ∷ c.v2 ∷ c.v3 ∷ c.v4 ∷ c.v5 ∷ c.v6 ∷ c.v7 ∷ c.v8 ∷ []

abbrev pub psp_of : Option Callee → ℕ
psp_of none = 0
psp_of (some c) = c.psp

abbrev pub extra_of : Option Frame → Extra
extra_of none = record { msp = 0; exc_return = 0; callee = none }
extra_of (some f) = elim f.extra [
  | none ↦ record { msp = 0; exc_return = 0; callee = none }
  | some e ↦ e
]

abbrev pub sp_of : Option Frame → ℕ
sp_of none = 0
sp_of (some f) = f.address

-- The stack pointer lies in the RAM, with room for the copy.
abbrev pub stack_readable : ℕ → Bool
stack_readable sp = leb 0x20000000 sp && leb sp (0x20020000 - 128)

abbrev pub stack_valid : ℕ → ℕ
stack_valid sp = if stack_readable sp then 1 else 0

-- The words of the record from `reason` to `stack_valid`
unfoldable pub fields : Fault → List ℕ
fields f =
    let sp = sp_of f.esf in
    let extra = extra_of f.esf in
    f.reason
    ∷ f.resetreas
    ∷ (basic_words f.esf
        ++ (callee_words extra.callee
            ++ (f.cfsr
                ∷ f.hfsr
                ∷ f.bfar
                ∷ f.mmfar
                ∷ sp
                ∷ extra.msp
                ∷ psp_of extra.callee
                ∷ extra.exc_return
                ∷ stack_valid sp
                ∷ [])))

-- The copy of the stack
unfoldable pub stack_of : Fault → List ℕ
stack_of f = let sp = sp_of f.esf in if stack_readable sp then f.stack_at sp else replicate 128 0

-- The bytes of the record up to its CRC
unfoldable pub body : Fault → ℕ → List ℕ
unfolding fields stack_of
body f seq =
    write32 coredump_magic
    ++ write16 coredump_version
    ++ write16 seq
    ++ (words (fields f) ++ stack_of f)

-- `g4b_cd_crc32`
abbrev pub cd_crc32 : List ℕ → ℕ → ℕ
cd_crc32 bytes crc = crc_loop crc bytes

unfoldable pub fault_record : Fault → ℕ → List ℕ
unfolding body
fault_record f seq = body f seq ++ write32 (complement (cd_crc32 (body f seq) uint32_max))

-- The static variables
pub record Ring : Type 0 where
  pub next_slot : ℕ
  pub next_seq : ℕ
  pub last : List ℕ
  pub have_last : Bool

-- The tests of the scan on a record that was read
unfoldable pub record_valid : List ℕ → Bool
record_valid tmp =
    read32 tmp == coredump_magic
    && read32 (drop (record_size - 4) tmp)
      == complement (cd_crc32 (take (record_size - 4) tmp) uint32_max)

abbrev pub seq_of : List ℕ → ℕ
seq_of tmp = read16 (drop 6 tmp)

-- The local variables of the scan, and the record that it retains
pub record Scan : Type 0 where
  pub best_seq : ℕ
  pub best_slot : ℕ
  pub any : Bool
  pub last : List ℕ
  pub have_last : Bool

unfoldable pub take_slot : ℕ → List ℕ → Scan → Scan
unfolding record_valid
take_slot s tmp scan =
    if not (record_valid tmp)
    then scan
    else if not scan.any || ltb (u16 (seq_of tmp + 2 ^ 32 - scan.best_seq)) 0x8000
    then record { best_seq = seq_of tmp; best_slot = s; any = true; last = tmp; have_last = true }
    else record scan { any = true }

abbrev pub scan_end : Scan → Ring
scan_end scan =
    if scan.any
    then record {
      next_slot = (scan.best_slot + 1) % ring_slots;
      next_seq = u16 (scan.best_seq + 1);
      last = scan.last;
      have_last = scan.have_last;
    }
    else record { next_slot = 0; next_seq = 1; last = scan.last; have_last = scan.have_last }

module _ {D : Type 0} (spim : Spim D) where
  -- `k_sys_fatal_error_handler`, up to the reset; the source drops the result of the write.
  unfoldable pub fatal_error_handler : Ring → Fault → D → D × Bool
  unfolding fault_record
  fatal_error_handler r f =
      fault_write spim (ring_base + r.next_slot % ring_slots * slot_size)
        (fault_record f r.next_seq)

  -- A slot that cannot be read is passed over.
  abbrev pub taken : ℕ → Option (List ℕ) → Scan → Scan
  taken s none scan = scan
  taken s (some tmp) scan = take_slot s tmp scan

  -- The loop of the scan, with `left` slots to go
  unfoldable pub scan_loop : ℕ → ℕ → Scan → D → D × Scan
  unfolding take_slot
  scan_loop zero s scan d = (d, scan)
  scan_loop (suc left) s scan d =
      let (d', tmp) = coredump_read spim (ring_base + s * slot_size) record_size d in
      scan_loop left (s + 1) (taken s tmp scan) d'

  abbrev pub at_boot : Scan
  at_boot = record { best_seq = 0; best_slot = 0; any = false; last = []; have_last = false }

  -- `g4b_coredump_scan`
  unfoldable pub coredump_scan : D → D × Ring
  unfolding scan_loop
  coredump_scan d = let (d', scan) = scan_loop ring_slots 0 at_boot d in (d', scan_end scan)

-- `g4b_coredump_read_last`
abbrev pub read_last : Ring → Option (List ℕ)
read_last r = if r.have_last then some r.last else none
