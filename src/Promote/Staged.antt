-- ===== src/Promote/Staged.antt =====
-- The two loops over the staged image: its CRC, and its copy to the application area.
use steelseries_apex_pro_min.Prelude.{
  ℕ, zero, suc, ◌+◌, ◌-◌, ◌*◌, ◌^◌, ◌≤◌, ◌<◌, ◌≡◌, ◌⊎◌, inl, inr, min, leb, Option, none, some,
  List, ◌++◌, length, IsBytes, arith, refl, ap, sym, ◌∙◌, Bool-cases,
}
use steelseries_apex_pro_min.Crc.{crc32_step}
use steelseries_apex_pro_min.Crc.Chain.{crc32_step-append}
use steelseries_apex_pro_min.Flash.Stores.{IsBytes-region, crc32_step-lt, crc32_step-nil}
use steelseries_apex_pro_min.Flash.Laws.{region, region-add, length-region, At}
use steelseries_apex_pro_min.Update.{capacity}
use steelseries_apex_pro_min.Promote.{Build, Board, bimg_addr, app_base, nor_read}
use steelseries_apex_pro_min.Promote.Restore.{staged_crc, copy_staged}
use steelseries_apex_pro_min.Promote.Hardware.{IsBoard, nor_read-At, nor_read-region}

module _ {D : Type 0} (build : Build) (board : Board D) (nor_at app_at : D → ℕ → ℕ)
    (ok_board : IsBoard board nor_at app_at) where
  module _ (nor app : ℕ → ℕ) (bytes : (i : ℕ) → nor i < 256) (b_len : ℕ)
      (fits : b_len ≤ capacity) where
    abbrev rest : ℕ → List ℕ
    rest off = region nor (bimg_addr + off) (b_len - off)

    unfoldable pub GivesCrc : ℕ → ℕ → D × Option ℕ → Type 0
    GivesCrc off crc p =
        At nor_at app_at nor app p.0 × ((c : ℕ) → p.1 ≡ some c → c ≡ crc32_step crc (rest off))

    rest-step :
        (off : ℕ)
        → off < b_len
        → rest off
          ≡ region nor (bimg_addr + off) (min (b_len - off) 256)
            ++ rest (off + min (b_len - off) 256)
    rest-step off lt =
        let n = min (b_len - off) 256 in
        let split : b_len - off ≡ n + (b_len - (off + n)) = omega arith in
        let place : bimg_addr + off + n ≡ bimg_addr + (off + n) = omega arith in
        ap (λ k. region nor (bimg_addr + off) k) split
        ∙ region-add nor (bimg_addr + off) n (b_len - (off + n))
        ∙ ap (λ a. region nor (bimg_addr + off) n ++ region nor a (b_len - (off + n))) place

    GivesCrc-done :
        (off crc : ℕ) (d : D)
        → b_len ≤ off
        → crc < 2 ^ 32
        → At nor_at app_at nor app d
        → GivesCrc off crc (d, some crc)
    unfolding GivesCrc region
    GivesCrc-done off crc d past word at = (
      at,
      λ c e.
          let same : crc ≡ c = cc in
          let empty : b_len - off ≡ 0 = omega arith in
          sym same ∙ rw empty (sym (crc32_step-nil crc word)),
    )

    GivesCrc-none : (off crc : ℕ) (d : D) → At nor_at app_at nor app d → GivesCrc off crc (d, none)
    unfolding GivesCrc
    GivesCrc-none off crc d at = (at, λ c e. absurd cc)

    GivesCrc-step :
        (off crc : ℕ) (bs : List ℕ) (p : D × Option ℕ)
        → off < b_len
        → crc < 2 ^ 32
        → bs ≡ region nor (bimg_addr + off) (min (b_len - off) 256)
        → GivesCrc (off + min (b_len - off) 256) (crc32_step crc bs) p
        → GivesCrc off crc p
    unfolding GivesCrc
    GivesCrc-step off crc bs p lt word here h =
        let n = min (b_len - off) 256 in
        let good : IsBytes bs = rw here (IsBytes-region nor (bimg_addr + off) n bytes) in
        (
          h.0,
          λ c e.
              h.1 c e
              ∙ (crc32_step-append crc bs (rest (off + n)) word good).1
              ∙ ap (crc32_step crc) (ap (λ l. l ++ rest (off + n)) here ∙ sym (rest-step off lt)),
        )

    pub staged_crc-GivesCrc :
        (left off crc : ℕ) (d : D)
        → b_len ≤ off + 256 * left
        → crc < 2 ^ 32
        → At nor_at app_at nor app d
        → GivesCrc off crc (staged_crc build board left b_len off crc d)
    unfolding staged_crc
    staged_crc-GivesCrc zero off crc d enough word at =
        GivesCrc-done off crc d (omega arith) word at
    staged_crc-GivesCrc (suc left) off crc d enough word at = elim (Bool-cases (leb b_len off)) [
      | inl past ↦ rw past (GivesCrc-done off crc d (ground arith) word at)
      | inr more ↦ rw more (
          go (nor_read build board (bimg_addr + off) n d).1 (ground arith)
            (λ bs e.
              nor_read-region board nor_at app_at build ok_board nor (bimg_addr + off) n d bs at.0
                (ground arith) e)
            (λ crc' word'. staged_crc-GivesCrc left (off + n) crc' d1 (ground arith) word' at1))
    ]
      where
        n : ℕ
        n = min (b_len - off) 256

        d1 : D
        d1 = (nor_read build board (bimg_addr + off) n d).0

        at1 : At nor_at app_at nor app d1
        at1 = nor_read-At board nor_at app_at build ok_board nor app (bimg_addr + off) n d at

        go :
            (r : Option (List ℕ))
            → off < b_len
            → ((bs : List ℕ) → r ≡ some bs → bs ≡ region nor (bimg_addr + off) n)
            → ((crc' : ℕ)
                → crc' < 2 ^ 32
                → GivesCrc (off + n) crc' (staged_crc build board left b_len (off + n) crc' d1))
            → GivesCrc off crc (elim r as (λ _. D × Option ℕ) [
              | none ↦ (d1, none)
              | some buf ↦ staged_crc build board left b_len (off + n) (crc32_step crc buf) d1
            ])
        go none lt gives ih = GivesCrc-none off crc d1 at1
        go (some bs) lt gives ih =
            GivesCrc-step off crc bs _ lt word (gives bs refl)
              (ih (crc32_step crc bs) (crc32_step-lt crc bs))

  -- The NOR flash is as before, and the internal one outside of `span` bytes of the application.
  unfoldable pub IsBeside : (ℕ → ℕ) → (ℕ → ℕ) → ℕ → D → Type 0
  IsBeside nor app span d =
      (nor_at d ≡ nor) × ((b : ℕ) → (b < app_base) ⊎ (app_base + span ≤ b) → app_at d b ≡ app b)

  module _ (nor app : ℕ → ℕ) (span b_len : ℕ) (inside : b_len ≤ span)
      (fits : b_len ≤ capacity) where
    read-IsBeside :
        (a n : ℕ) (d : D)
        → IsBeside nor app span d
        → IsBeside nor app span (nor_read build board a n d).0
    unfolding IsBeside
    read-IsBeside a n d h =
        let same =
          nor_read-At board nor_at app_at build ok_board (nor_at d) (app_at d) a n d (refl, refl) in
        (same.0 ∙ h.0, λ b out. ap (λ f. f b) same.1 ∙ h.1 b out)

    write-IsBeside :
        (off : ℕ) (bs : List ℕ) (d : D)
        → off + length bs ≤ b_len
        → IsBeside nor app span d
        → IsBeside nor app span (board.flash_write (app_base + off) bs d)
    unfolding IsBeside
    write-IsBeside off bs d below h = (
      ok_board.write_nor (app_base + off) bs d ∙ h.0,
      λ b out. ok_board.write_else (app_base + off) bs d b (apart b out) ∙ h.1 b out,
    )
      where
        apart :
            (b : ℕ)
            → (b < app_base) ⊎ (app_base + span ≤ b)
            → (b < app_base + off) ⊎ (app_base + off + length bs ≤ b)
        apart b (inl lt) = inl (omega arith)
        apart b (inr le) = inr (omega arith)

    pub copy_staged-IsBeside :
        (left off : ℕ) (d : D)
        → IsBeside nor app span d
        → IsBeside nor app span (copy_staged build board left b_len off d).0
    unfolding copy_staged
    copy_staged-IsBeside zero off d h = h
    copy_staged-IsBeside (suc left) off d h = elim (Bool-cases (leb b_len off)) [
      | inl past ↦ rw past h
      | inr more ↦ rw more (
          go (nor_read build board (bimg_addr + off) n d).1 (ground arith)
            (λ bs e. size bs (
              nor_read-region board nor_at app_at build ok_board (nor_at d) (bimg_addr + off) n d bs
                refl (ground arith) e))
            (λ d' h'. copy_staged-IsBeside left (off + n) d' h'))
    ]
      where
        n : ℕ
        n = min (b_len - off) 256

        d1 : D
        d1 = (nor_read build board (bimg_addr + off) n d).0

        h1 : IsBeside nor app span d1
        h1 = read-IsBeside (bimg_addr + off) n d h

        size : (bs : List ℕ) → bs ≡ region (nor_at d) (bimg_addr + off) n → length bs ≡ n
        size bs e = rw e (length-region (nor_at d) (bimg_addr + off) n)

        go :
            (r : Option (List ℕ))
            → off < b_len
            → ((bs : List ℕ) → r ≡ some bs → length bs ≡ n)
            → ((d' : D)
                → IsBeside nor app span d'
                → IsBeside nor app span (copy_staged build board left b_len (off + n) d').0)
            → IsBeside nor app span
                (elim r as (λ _. D × ℕ) [
                  | none ↦ (d1, off)
                  | some buf ↦
                      copy_staged build board left b_len
                        (off + n)
                        (board.flash_write (app_base + off) buf d1)
                ]).0
        go none lt long ih = h1
        go (some bs) lt long ih =
            ih (board.flash_write (app_base + off) bs d1)
              (write-IsBeside off bs d1 (omega (arith, long bs refl)) h1)
