-- ===== src/Spinor/Wait.antt =====
-- The wait for the chip ends: `nor_wait_wip`.
use steelseries_apex_pro_min.Prelude.{
  ℕ, zero, suc, ◌+◌, ◌-◌, ◌%◌, ◌^◌, ◌==◌, ◌≤◌, ◌<◌, ◌≡◌, ◌≢◌, inl, inr, ltb, Option, none, some,
  List, [], ◌∷◌, u32, arith, refl, ap, Bool-cases,
}
use steelseries_apex_pro_min.Flash.{Result, err, failed, pending}
use steelseries_apex_pro_min.Spinor.{Spim, nor_status, status_of, wait_wip, nor_wait_wip}

-- The cycle counter is the low word of a time that grows with every reading; a status transaction does not
-- turn it back and, with the reading after it, takes at most 2^31 cycles.
pub record IsClock {D : Type 0} (spim : Spim D) (time : D → ℕ) : Type 0 where
  pub reading : (d : D) → (spim.cyccnt d).1 ≡ u32 (time (spim.cyccnt d).0)
  pub advances : (d : D) → time d < time (spim.cyccnt d).0
  pub status_forward : (d : D) → time d ≤ time (spim.xfer (5 ∷ []) 1 d).0
  pub bounded : (d : D) → time (spim.cyccnt (spim.xfer (5 ∷ []) 1 d).0).0 ≤ time d + 2 ^ 31

module _ {D : Type 0} (spim : Spim D) (time : D → ℕ) (clock : IsClock spim time) where
  status-state : (d : D) → (nor_status spim d).0 ≡ (spim.xfer (5 ∷ []) 1 d).0
  status-state d = go (spim.xfer (5 ∷ []) 1 d).1
    where
      d1 : D
      d1 = (spim.xfer (5 ∷ []) 1 d).0

      go : (r : Option (List ℕ)) → (status_of spim (d1, r)).0 ≡ d1
      go none = refl
      go (some bs) = refl

  -- It does not run out of rounds, and it gives up only after that many cycles.
  abbrev IsTimely : ℕ → ℕ → D × Result (Unit {0}) → Type 0
  IsTimely origin max_cyc p = (p.1 ≢ err pending) × (p.1 ≡ err failed → max_cyc < time p.0 - origin)

  wait_wip-IsTimely :
      (left origin max_cyc : ℕ) (d : D)
      → max_cyc < 2 ^ 31
      → origin ≤ time d
      → time d - origin ≤ max_cyc
      → max_cyc + 2 ≤ left + (time d - origin)
      → IsTimely origin max_cyc (wait_wip spim left (u32 origin) max_cyc d)
  unfolding wait_wip
  wait_wip-IsTimely zero origin max_cyc d small since early enough = absurd (omega arith)
  wait_wip-IsTimely (suc left) origin max_cyc d small since early enough =
      elim (Bool-cases ((nor_status spim d).1 % 2 == 0)) [
        | inl idle ↦ rw idle ((λ e. absurd cc), λ e. absurd cc)
        | inr busy ↦ rw busy (elim (Bool-cases (ltb max_cyc (u32 (now + 2 ^ 32 - u32 origin)))) [
          | inl late ↦ rw late ((λ e. absurd cc), λ e. ground (arith, elapsed))
          | inr more ↦ rw more (
              wait_wip-IsTimely left origin max_cyc d2 small (omega (arith, later))
                (ground (arith, elapsed)) (omega (arith, later)))
        ])
      ]
    where
      d1 : D
      d1 = (nor_status spim d).0

      d2 : D
      d2 = (spim.cyccnt d1).0

      now : ℕ
      now = (spim.cyccnt d1).1

      reached : time d ≤ time d1
      reached = omega (arith, ap time (status-state d), clock.status_forward d)

      later : time d < time d2
      later = omega (arith, reached, clock.advances d1)

      short : time d2 ≤ time d + 2 ^ 31
      short = omega (arith, ap (λ e. time (spim.cyccnt e).0) (status-state d), clock.bounded d)

      elapsed : u32 (now + 2 ^ 32 - u32 origin) ≡ time d2 - origin
      elapsed = rw (clock.reading d1) (omega (arith, later, short))

  -- For fewer than 2^31 cycles the wait ends before its rounds do, and it reports a timeout only when more
  -- than that many cycles have passed since it began.
  pub nor_wait_wip-returns :
      (max_cyc : ℕ) (d : D)
      → max_cyc < 2 ^ 31
      → let p = nor_wait_wip spim max_cyc d in
        (p.1 ≢ err pending) × (p.1 ≡ err failed → max_cyc < time p.0 - time (spim.cyccnt d).0)
  unfolding nor_wait_wip
  nor_wait_wip-returns max_cyc d small = rw (clock.reading d) (
      wait_wip-IsTimely (max_cyc + 2) (time (spim.cyccnt d).0) max_cyc (spim.cyccnt d).0 small
        (omega arith) (omega arith) (omega arith))
