-- ===== src/Promote/Hardware.antt =====
-- What is relied on of the hardware and of the vendored flash driver.
use steelseries_apex_pro_min.Prelude.{
  ℕ, ◌+◌, ◌^◌, ◌≤◌, ◌<◌, ◌≡◌, ◌⊎◌, Option, none, some, List, ◌∷◌, length, drop, refl, ap, sym, ◌∙◌,
}
use steelseries_apex_pro_min.Flash.Laws.{region, At}
use steelseries_apex_pro_min.Promote.{Build, Board, address_bytes, nor_read}

-- Memory shows all that was written: the driver holds no write back.
abbrev pub IsShown : {D : Type 0} → Board D → (D → ℕ → ℕ) → D → Type 0
IsShown board app_at d = (a n : ℕ) → board.flash_bytes a n d ≡ region (app_at d) a n

module _ {D : Type 0} (board : Board D) (nor_at app_at : D → ℕ → ℕ) where
  -- A read command that completes gives the bytes at its 24-bit address and changes nothing; the chip is
  -- taken not to be busy then. The bytes of `app_at` are
  -- those of the internal flash once the driver has programmed the writes that it holds in its cache: a
  -- write and an erase change the bytes named, and a transfer, the registers, the watchdog and a flush
  -- change none of them. Memory need not show them after a write; it does after a flush, and still does
  -- after an erase. Writing GPREGRET does not change what memory shows.
  pub record IsBoard : Type 0 where
    pub read_gives :
        (a n : ℕ) (d : D) (rx : List ℕ)
        → a < 2 ^ 24
        → (board.transfer (3 ∷ address_bytes a) (4 + n) d).1 ≡ some rx
        → drop 4 rx ≡ region (nor_at d) a n
    pub nor_byte : (d : D) (i : ℕ) → nor_at d i < 256
    pub read_nor :
        (a n : ℕ) (d : D) → nor_at (board.transfer (3 ∷ address_bytes a) (4 + n) d).0 ≡ nor_at d
    pub transfer_app : (tx : List ℕ) (n : ℕ) (d : D) → app_at (board.transfer tx n d).0 ≡ app_at d
    pub flush_shows : (d : D) → IsShown board app_at (board.flash_flush d)
    pub erase_shows :
        (a n : ℕ) (d : D) → IsShown board app_at d → IsShown board app_at (board.flash_erase a n d)
    pub gpregret_bytes :
        (v a n : ℕ) (d : D)
        → board.flash_bytes a n (board.set_gpregret v d) ≡ board.flash_bytes a n d
    pub write_else :
        (a : ℕ) (bs : List ℕ) (d : D) (b : ℕ)
        → (b < a) ⊎ (a + length bs ≤ b)
        → app_at (board.flash_write a bs d) b ≡ app_at d b
    pub write_nor : (a : ℕ) (bs : List ℕ) (d : D) → nor_at (board.flash_write a bs d) ≡ nor_at d
    pub erase_else :
        (a n : ℕ) (d : D) (b : ℕ)
        → (b < a) ⊎ (a + n ≤ b)
        → app_at (board.flash_erase a n d) b ≡ app_at d b
    pub erase_nor : (a n : ℕ) (d : D) → nor_at (board.flash_erase a n d) ≡ nor_at d
    pub flush_app : (d : D) → app_at (board.flash_flush d) ≡ app_at d
    pub flush_nor : (d : D) → nor_at (board.flash_flush d) ≡ nor_at d
    pub watchdog_nor : (d : D) → nor_at (board.watchdog d) ≡ nor_at d
    pub watchdog_app : (d : D) → app_at (board.watchdog d) ≡ app_at d
    pub gpregret_nor : (v : ℕ) (d : D) → nor_at (board.set_gpregret v d) ≡ nor_at d
    pub gpregret_app : (v : ℕ) (d : D) → app_at (board.set_gpregret v d) ≡ app_at d

  module _ (build : Build) (ok_board : IsBoard) where
    pub nor_read-At :
        (nor app : ℕ → ℕ) (a n : ℕ) (d : D)
        → At nor_at app_at nor app d
        → At nor_at app_at nor app (nor_read build board a n d).0
    unfolding nor_read
    nor_read-At nor app a n d h = go (board.transfer (3 ∷ address_bytes a) (4 + n) d).1
      where
        d1 : D
        d1 = (board.transfer (3 ∷ address_bytes a) (4 + n) d).0

        go :
            (r : Option (List ℕ))
            → At nor_at app_at nor app
                (elim r as (λ _. D × Option (List ℕ)) [
                  | none ↦ (d1, none)
                  | some rx ↦ (d1, some (drop 4 rx))
                ]).0
        go none = (
          ok_board.read_nor a n d ∙ h.0,
          ok_board.transfer_app (3 ∷ address_bytes a) (4 + n) d ∙ h.1,
        )
        go (some rx) = (
          ok_board.read_nor a n d ∙ h.0,
          ok_board.transfer_app (3 ∷ address_bytes a) (4 + n) d ∙ h.1,
        )

    pub nor_read-region :
        (nor : ℕ → ℕ) (a n : ℕ) (d : D) (bs : List ℕ)
        → nor_at d ≡ nor
        → a < 2 ^ 24
        → (nor_read build board a n d).1 ≡ some bs
        → bs ≡ region nor a n
    unfolding nor_read
    nor_read-region nor a n d bs h below =
        go (board.transfer (3 ∷ address_bytes a) (4 + n) d).1
          (λ rx e. ok_board.read_gives a n d rx below e)
      where
        d1 : D
        d1 = (board.transfer (3 ∷ address_bytes a) (4 + n) d).0

        go :
            (r : Option (List ℕ))
            → ((rx : List ℕ) → r ≡ some rx → drop 4 rx ≡ region (nor_at d) a n)
            → (elim r as (λ _. D × Option (List ℕ)) [
              | none ↦ (d1, none)
              | some rx ↦ (d1, some (drop 4 rx))
            ]).1
              ≡ some bs
            → bs ≡ region nor a n
        go none k e = absurd cc
        go (some rx) k e =
            let same : drop 4 rx ≡ bs = cc in sym same ∙ k rx refl ∙ ap (λ g. region g a n) h
