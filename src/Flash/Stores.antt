-- ===== src/Flash/Stores.antt =====
-- What is relied on of a NOR flash whose writing and erasing succeed, and the CRC of a memory in blocks.
use steelseries_apex_pro_min.Prelude.{
  ℕ, zero, suc, ◌+◌, ◌%◌, ◌^◌, ◌∷◌, byte_at, ◌≤◌, ◌<◌, ◌≡◌, Bool, true, false, List, [], some,
  length, IsBytes, arith, refl, ap, sym, ◌∙◌,
}
use steelseries_apex_pro_min.Crc.{crc32_step, crc_loop}
use steelseries_apex_pro_min.Crc.Chain.{crc32_step-append}
use steelseries_apex_pro_min.Flash.{Io, run}
use steelseries_apex_pro_min.Flash.Laws.{region, region-add, region_ext, Ends}

module _ {D : Type 0} (io : Io D) (nor_at : D → ℕ → ℕ) where
  -- A write that succeeds stores its bytes where the flash was erased, and an erase that succeeds
  -- leaves ones.
  pub record IsStoring : Type 0 where
    pub nor_byte : (d : D) (i : ℕ) → nor_at d i < 256
    pub nor_write_stores :
        (a : ℕ) (bs : List ℕ) (d : D)
        → IsBytes bs
        → ((i : ℕ) → i < length bs → nor_at d (a + i) ≡ 0xff)
        → (io.nor_write a bs d).1 ≡ true
        → region (nor_at (io.nor_write a bs d).0) a (length bs) ≡ bs
    pub nor_erase_clears :
        (a n : ℕ) (d : D) (b : ℕ)
        → (io.nor_erase a n d).1 ≡ true
        → a ≤ b
        → b < a + n
        → nor_at (io.nor_erase a n d).0 b ≡ 0xff

module _ {D : Type 0} (io : Io D) (nor_at app_at : D → ℕ → ℕ) where
  -- Reads of either flash, and writes to the other one, leave a flash as it is, and reads of the
  -- application give its bytes.
  pub record IsPassive : Type 0 where
    pub app_read_gives :
        (a n : ℕ) (d : D) (bs : List ℕ)
        → (io.app_read a n d).1 ≡ some bs
        → bs ≡ region (app_at d) a n
    pub nor_read_nor : (a n : ℕ) (d : D) → nor_at (io.nor_read a n d).0 ≡ nor_at d
    pub nor_read_app : (a n : ℕ) (d : D) → app_at (io.nor_read a n d).0 ≡ app_at d
    pub app_read_nor : (a n : ℕ) (d : D) → nor_at (io.app_read a n d).0 ≡ nor_at d
    pub app_read_app : (a n : ℕ) (d : D) → app_at (io.app_read a n d).0 ≡ app_at d
    pub nor_write_app : (a : ℕ) (bs : List ℕ) (d : D) → app_at (io.nor_write a bs d).0 ≡ app_at d

  -- On a NOR flash that is not busy, a read that succeeds gives what is stored, a write that succeeds
  -- stores its bytes where the flash was erased, and an erase that succeeds leaves ones. After a read, and
  -- after a write or an erase that succeeds, it is not busy again.
  pub record IsServing (busy : D → Bool) : Type 0 where
    pub nor_read_gives :
        (a n : ℕ) (d : D) (bs : List ℕ)
        → busy d ≡ false
        → (io.nor_read a n d).1 ≡ some bs
        → bs ≡ region (nor_at d) a n
    pub nor_read_idle : (a n : ℕ) (d : D) → busy d ≡ false → busy (io.nor_read a n d).0 ≡ false
    pub nor_write_stores :
        (a : ℕ) (bs : List ℕ) (d : D)
        → busy d ≡ false
        → IsBytes bs
        → ((i : ℕ) → i < length bs → nor_at d (a + i) ≡ 0xff)
        → (io.nor_write a bs d).1 ≡ true
        → region (nor_at (io.nor_write a bs d).0) a (length bs) ≡ bs
    pub nor_write_idle :
        (a : ℕ) (bs : List ℕ) (d : D)
        → busy d ≡ false
        → (io.nor_write a bs d).1 ≡ true
        → busy (io.nor_write a bs d).0 ≡ false
    pub nor_erase_clears :
        (a n : ℕ) (d : D) (b : ℕ)
        → busy d ≡ false
        → (io.nor_erase a n d).1 ≡ true
        → a ≤ b
        → b < a + n
        → nor_at (io.nor_erase a n d).0 b ≡ 0xff
    pub nor_erase_idle :
        (a n : ℕ) (d : D)
        → busy d ≡ false
        → (io.nor_erase a n d).1 ≡ true
        → busy (io.nor_erase a n d).0 ≡ false

module _ {D : Type 0} (E : D → Type 0) where
  -- An operation, given what is so when it succeeds.
  pub Ends-run_good :
      (Q : D → Unit {0} → Type 0) (m : D → D × Bool) (d : D)
      → ((m d).1 ≡ true → Q (m d).0 tt)
      → E (m d).0
      → Ends (run m d) Q E
  Ends-run_good Q m d good bad = go (m d).0 (m d).1 good bad
    where
      go : (d' : D) (r : Bool) → (r ≡ true → Q d' tt) → E d' → Ends (run (λ _. (d', r)) d') Q E
      go d' true good bad = good refl
      go d' false good bad = bad

pub IsBytes-region : (f : ℕ → ℕ) (a n : ℕ) → ((i : ℕ) → f i < 256) → IsBytes (region f a n)
unfolding region
IsBytes-region f a zero h = tt
IsBytes-region f a (suc n) h = (h a, IsBytes-region f (a + 1) n h)

pub crc32_step-lt : (seed : ℕ) (bs : List ℕ) → crc32_step seed bs < 2 ^ 32
unfolding crc32_step
crc32_step-lt seed bs = omega arith

pub crc32_step-nil : (seed : ℕ) → seed < 2 ^ 32 → crc32_step seed [] ≡ seed
unfolding crc32_step crc_loop
crc32_step-nil seed h = omega arith

-- Going on from the CRC of a first block.
pub crc32_step-block :
    (f : ℕ → ℕ) (a m n seed : ℕ)
    → ((i : ℕ) → f i < 256)
    → seed < 2 ^ 32
    → crc32_step (crc32_step seed (region f a m)) (region f (a + m) n)
      ≡ crc32_step seed (region f a (m + n))
crc32_step-block f a m n seed bytes word =
    (crc32_step-append seed (region f a m) (region f (a + m) n) word (IsBytes-region f a m bytes)).1
    ∙ ap (crc32_step seed) (sym (region-add f a m n))

-- A memory that holds the bytes of a list.
pub region-length_cong :
    (f : ℕ → ℕ) (a : ℕ) (bs : List ℕ) (n : ℕ)
    → length bs ≡ n
    → region f a (length bs) ≡ bs
    → region f a n ≡ bs
region-length_cong f a bs n e h = ap (region f a) (sym e) ∙ h

-- Bytes that agree on a range are those of the region.
pub region_all :
    (f g : ℕ → ℕ) (a n : ℕ)
    → ((b : ℕ) → a ≤ b → b < a + n → f b ≡ g b)
    → region f a n ≡ region g a n
region_all f g a n h = region_ext f g a a n (λ i lt. h (a + i) (omega arith) (omega arith))

-- A memory that has the bytes of a list one by one.
pub region-bytes :
    (f : ℕ → ℕ) (bs : List ℕ) (a : ℕ)
    → ((i : ℕ) → i < length bs → f (a + i) ≡ byte_at bs i)
    → region f a (length bs) ≡ bs
unfolding region
region-bytes f [] a h = refl
region-bytes f (b ∷ bs) a h =
    let e : a + 0 ≡ a = omega arith in
    let first : f a ≡ b = ap f (sym e) ∙ h 0 (omega arith) in
    let rest =
      region-bytes f bs (a + 1) (λ i lt.
        let e' : a + 1 + i ≡ a + suc i = omega arith in ap f e' ∙ h (suc i) (omega arith)) in
    rw (first, rest) refl

pub byte_at-mod : (bs : List ℕ) (i : ℕ) → IsBytes bs → byte_at bs i % 256 ≡ byte_at bs i
byte_at-mod [] i h = refl
byte_at-mod (b ∷ bs) zero h = omega (arith, h.0)
byte_at-mod (b ∷ bs) (suc i) h = byte_at-mod bs i h.1
