-- ===== src/Spinor/Chip.antt =====
-- What is relied on of the NOR chip on SPIM0, and of the bus.
use steelseries_apex_pro_min.Prelude.{
  ℕ, ◌+◌, ◌%◌, ◌^◌, ◌==◌, ◌≤◌, ◌<◌, ◌≡◌, ◌⊎◌, Bool, true, false, some, byte_at, List, [], ◌∷◌, ◌++◌,
  length, IsBytes,
}
use steelseries_apex_pro_min.Flash.Laws.{region, At}
use steelseries_apex_pro_min.Promote.{address_bytes}
use steelseries_apex_pro_min.Spinor.{Spim, nor_size}

module _ {D : Type 0} (spim : Spim D) (nor_at app_at : D → ℕ → ℕ) where
  -- The bytes of `nor_at` are those that the chip holds once an operation in progress has ended. A chip
  -- that is busy ignores commands: only one that is not gives its bytes to a read, sets its write enable
  -- latch on a write enable that completes, and, with the latch set, stores the bytes of a page program
  -- that completes in erased places, or leaves ones after an erase that completes. Nothing is said of
  -- whether it is busy afterwards; that it is not shows in the lowest bit of its status. A page program
  -- changes only the bytes it names, if they lie in one page, and an erase only its sector, whether or
  -- not the chip obeys or the transaction completes. Reads, write enables, the pins, the lock and the wait
  -- for the replay do not make the chip busy; these, the status and the counter change no bytes, and
  -- nothing changes the application. Of the bus: a command sent right after a write enable that timed out
  -- does not complete either.
  pub record IsChip : Type 0 where
    pub busy : D → Bool
    pub latched : D → Bool
    pub nor_byte : (d : D) (i : ℕ) → nor_at d i < 256
    pub status_idle :
        (d : D) (bs : List ℕ)
        → (spim.xfer (5 ∷ []) 1 d).1 ≡ some bs
        → (byte_at bs 0 % 2 == 0) ≡ true
        → busy (spim.xfer (5 ∷ []) 1 d).0 ≡ false
    pub read_idle :
        (a n : ℕ) (d : D) → busy d ≡ false → busy (spim.xfer (3 ∷ address_bytes a) n d).0 ≡ false
    pub wren_idle : (d : D) → busy d ≡ false → busy (spim.tx (6 ∷ []) d).0 ≡ false
    pub wren_latches :
        (d : D)
        → busy d ≡ false
        → (spim.tx (6 ∷ []) d).1 ≡ true
        → latched (spim.tx (6 ∷ []) d).0 ≡ true
    pub wren_completes :
        (cmd : List ℕ) (d : D)
        → (spim.tx cmd (spim.tx (6 ∷ []) d).0).1 ≡ true
        → (spim.tx (6 ∷ []) d).1 ≡ true
    pub enable_idle : (d : D) → busy d ≡ false → busy (spim.nor_enable d) ≡ false
    pub disable_idle : (d : D) → busy d ≡ false → busy (spim.nor_disable d) ≡ false
    pub lock_idle : (d : D) → busy d ≡ false → busy (spim.extbus_lock d) ≡ false
    pub unlock_idle : (d : D) → busy d ≡ false → busy (spim.extbus_unlock d) ≡ false
    pub replay_idle : (d : D) → busy d ≡ false → busy (spim.wait_replay d) ≡ false
    pub read_gives :
        (a n : ℕ) (d : D) (bs : List ℕ)
        → busy d ≡ false
        → a < 2 ^ 24
        → (spim.xfer (3 ∷ address_bytes a) n d).1 ≡ some bs
        → bs ≡ region (nor_at d) a n
    pub read_nor : (a n : ℕ) (d : D) → nor_at (spim.xfer (3 ∷ address_bytes a) n d).0 ≡ nor_at d
    pub status_nor : (d : D) → nor_at (spim.xfer (5 ∷ []) 1 d).0 ≡ nor_at d
    pub xfer_app : (cmd : List ℕ) (n : ℕ) (d : D) → app_at (spim.xfer cmd n d).0 ≡ app_at d
    pub wren_nor : (d : D) → nor_at (spim.tx (6 ∷ []) d).0 ≡ nor_at d
    pub tx_app : (bytes : List ℕ) (d : D) → app_at (spim.tx bytes d).0 ≡ app_at d
    pub program_else :
        (a : ℕ) (bs : List ℕ) (d : D) (b : ℕ)
        → a % 256 + length bs ≤ 256
        → a + length bs ≤ nor_size
        → (b < a) ⊎ (a + length bs ≤ b)
        → nor_at (spim.tx (2 ∷ (address_bytes a ++ bs)) d).0 b ≡ nor_at d b
    pub program_stores :
        (a : ℕ) (bs : List ℕ) (d : D)
        → busy d ≡ false
        → latched d ≡ true
        → a % 256 + length bs ≤ 256
        → a + length bs ≤ nor_size
        → IsBytes bs
        → ((i : ℕ) → i < length bs → nor_at d (a + i) ≡ 0xff)
        → (spim.tx (2 ∷ (address_bytes a ++ bs)) d).1 ≡ true
        → region (nor_at (spim.tx (2 ∷ (address_bytes a ++ bs)) d).0) a (length bs) ≡ bs
    pub erase_else :
        (a : ℕ) (d : D) (b : ℕ)
        → a % 0x1000 ≡ 0
        → a + 0x1000 ≤ nor_size
        → (b < a) ⊎ (a + 0x1000 ≤ b)
        → nor_at (spim.tx (0x20 ∷ address_bytes a) d).0 b ≡ nor_at d b
    pub erase_clears :
        (a : ℕ) (d : D) (b : ℕ)
        → busy d ≡ false
        → latched d ≡ true
        → a % 0x1000 ≡ 0
        → a + 0x1000 ≤ nor_size
        → (spim.tx (0x20 ∷ address_bytes a) d).1 ≡ true
        → a ≤ b
        → b < a + 0x1000
        → nor_at (spim.tx (0x20 ∷ address_bytes a) d).0 b ≡ 0xff
    pub cyccnt_At :
        (nor app : ℕ → ℕ) (d : D)
        → At nor_at app_at nor app d
        → At nor_at app_at nor app (spim.cyccnt d).0
    pub enable_At :
        (nor app : ℕ → ℕ) (d : D)
        → At nor_at app_at nor app d
        → At nor_at app_at nor app (spim.nor_enable d)
    pub disable_At :
        (nor app : ℕ → ℕ) (d : D)
        → At nor_at app_at nor app d
        → At nor_at app_at nor app (spim.nor_disable d)
    pub lock_At :
        (nor app : ℕ → ℕ) (d : D)
        → At nor_at app_at nor app d
        → At nor_at app_at nor app (spim.extbus_lock d)
    pub unlock_At :
        (nor app : ℕ → ℕ) (d : D)
        → At nor_at app_at nor app d
        → At nor_at app_at nor app (spim.extbus_unlock d)
    pub replay_At :
        (nor app : ℕ → ℕ) (d : D)
        → At nor_at app_at nor app d
        → At nor_at app_at nor app (spim.wait_replay d)
    pub app_gives : (a n : ℕ) (d : D) → spim.app_bytes a n d ≡ region (app_at d) a n
