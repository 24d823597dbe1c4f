-- ===== src/Rollback/Counted.antt =====
-- The bootloader counts what the firmware has marked: `ab_tally_fails`.
use steelseries_apex_pro_min.Prelude.{
  ℕ, zero, suc, ◌+◌, ◌*◌, ◌==◌, ◌≤◌, ◌≡◌, Option, none, some, List, [], ◌∷◌, ◌++◌, if◌then◌else◌,
  arith, refl, ap, sym, ◌∙◌,
}
use steelseries_apex_pro_min.Flash.Laws.{region, region-add, At}
use steelseries_apex_pro_min.Promote.{Build, Board, tally_addr, ab_sector, nor_read}
use steelseries_apex_pro_min.Promote.Records.{count_zeros}
use steelseries_apex_pro_min.Promote.Restore.{ab_tally_fails, tally_loop}
use steelseries_apex_pro_min.Promote.Hardware.{IsBoard, nor_read-At, nor_read-region}
use steelseries_apex_pro_min.Rollback.Tally.{failures}

count_zeros-append :
    (xs ys : List ℕ) (n : ℕ) → count_zeros (xs ++ ys) n ≡ count_zeros ys (count_zeros xs n)
unfolding count_zeros
count_zeros-append [] ys n = refl
count_zeros-append (x ∷ xs) ys n = count_zeros-append xs ys (if x == 0 then n + 1 else n)

module _ {D : Type 0} (build : Build) (board : Board D) (nor_at app_at : D → ℕ → ℕ)
    (ok_board : IsBoard board nor_at app_at) (nor app : ℕ → ℕ) where
  unfoldable Counts : ℕ → ℕ → ℕ → D × Option ℕ → Type 0
  Counts left off fails p =
      At nor_at app_at nor app p.0
      × ((c : ℕ)
          → p.1 ≡ some c
          → c ≡ count_zeros (region nor (tally_addr + off) (256 * left)) fails)

  Counts-next :
      (left off fails : ℕ) (buf : List ℕ) (p : D × Option ℕ)
      → buf ≡ region nor (tally_addr + off) 256
      → Counts left (off + 256) (count_zeros buf fails) p
      → Counts (suc left) off fails p
  unfolding Counts
  Counts-next left off fails buf p e h = (
    h.0,
    λ c k.
        let size : 256 * suc left ≡ 256 + 256 * left = omega arith in
        let place : tally_addr + off + 256 ≡ tally_addr + (off + 256) = omega arith in
        let first = region nor (tally_addr + off) 256 in
        let later = region nor (tally_addr + (off + 256)) (256 * left) in
        h.1 c k
        ∙ ap (λ l. count_zeros later (count_zeros l fails)) e
        ∙ sym (count_zeros-append first later fails)
        ∙ ap (λ a. count_zeros (first ++ region nor a (256 * left)) fails) (sym place)
        ∙ ap (λ l. count_zeros l fails) (sym (region-add nor (tally_addr + off) 256 (256 * left)))
        ∙ ap (λ n. count_zeros (region nor (tally_addr + off) n) fails) (sym size),
  )

  tally_loop-Counts :
      (left off fails : ℕ) (d : D)
      → off + 256 * left ≤ ab_sector
      → At nor_at app_at nor app d
      → Counts left off fails (tally_loop build board left off fails d)
  unfolding tally_loop Counts count_zeros region
  tally_loop-Counts zero off fails d below at = (at, λ c k. cc)
  tally_loop-Counts (suc left) off fails d below at =
      go (nor_read build board (tally_addr + off) 256 d).1
        (λ bs e.
          nor_read-region board nor_at app_at build ok_board nor (tally_addr + off) 256 d bs at.0
            (omega arith) e)
        (λ fails'. tally_loop-Counts left (off + 256) fails' d1 (omega arith) at1)
    where
      d1 : D
      d1 = (nor_read build board (tally_addr + off) 256 d).0

      at1 : At nor_at app_at nor app d1
      at1 = nor_read-At board nor_at app_at build ok_board nor app (tally_addr + off) 256 d at

      go :
          (r : Option (List ℕ))
          → ((bs : List ℕ) → r ≡ some bs → bs ≡ region nor (tally_addr + off) 256)
          → ((fails' : ℕ)
              → Counts left (off + 256) fails' (tally_loop build board left (off + 256) fails' d1))
          → Counts (suc left) off fails (elim r as (λ _. D × Option ℕ) [
            | none ↦ (d1, none)
            | some buf ↦ tally_loop build board left (off + 256) (count_zeros buf fails) d1
          ])
      go none gives ih = (at1, λ c e. absurd cc)
      go (some bs) gives ih =
          Counts-next left off fails bs _ (gives bs refl) (ih (count_zeros bs fails))

  -- The bootloader reads the tally as the firmware left it.
  pub ab_tally_fails-failures :
      (d : D) (c : ℕ)
      → At nor_at app_at nor app d
      → (ab_tally_fails build board d).1 ≡ some c
      → c ≡ failures nor
  unfolding failures Counts
  ab_tally_fails-failures d c at e =
      let place : tally_addr + 0 ≡ tally_addr = omega arith in
      (tally_loop-Counts 16 0 0 d (omega arith) at).1 c e
