-- ===== src/Rollback/Boots.antt =====
-- A run of boots that were not healthy.
use steelseries_apex_pro_min.Prelude.{
  ℕ, zero, suc, ◌+◌, ◌-◌, ◌≤◌, ◌<◌, ◌≡◌, ◌⊎◌, inl, inr, arith, refl, ap, ◌∙◌,
}
use steelseries_apex_pro_min.Flash.{Io, ok}
use steelseries_apex_pro_min.Flash.Laws.{region, region_ext, IsFaithful, IsLocal, Ends_ok}
use steelseries_apex_pro_min.Flash.Stores.{IsStoring}
use steelseries_apex_pro_min.Promote.{tally_addr, ab_sector}
use steelseries_apex_pro_min.Promote.Records.{count_zeros}
use steelseries_apex_pro_min.Rollback.{boot_pending}
use steelseries_apex_pro_min.Rollback.Tally.{failures}
use steelseries_apex_pro_min.Rollback.Pending.{IsFull, boot_pending-Ends}

abbrev pub IsTally : (ℕ → ℕ) → (ℕ → Type 0) → Type 0
IsTally nor P = (i : ℕ) → i < ab_sector → P (nor (tally_addr + i))

-- What `g4b_ab_mark_healthy` and the commit leave.
abbrev pub IsErased : (ℕ → ℕ) → Type 0
IsErased nor = IsTally nor (λ v. v ≡ 0xff)

-- Boots that were each marked with success; in between the tally sector is left alone.
pub data Boots {D : Type 0} (io : Io D) (nor_at : D → ℕ → ℕ) (d : D) : ℕ → D → Type 0 where
  start : Boots io nor_at d zero d
  boot :
      {k : ℕ} {d1 : D} (d2 : D)
      → Boots io nor_at d k d1
      → (boot_pending io d1).1 ≡ ok tt
      → ((i : ℕ)
          → i < ab_sector
          → nor_at d2 (tally_addr + i) ≡ nor_at (boot_pending io d1).0 (tally_addr + i))
      → Boots io nor_at d (suc k) d2

count_zeros-erased :
    (f : ℕ → ℕ) (n a acc : ℕ)
    → ((b : ℕ) → a ≤ b → b < a + n → f b ≡ 0xff)
    → count_zeros (region f a n) acc ≡ acc
unfolding count_zeros region
count_zeros-erased f zero a acc h = refl
count_zeros-erased f (suc n) a acc h =
    let e : f a ≡ 0xff = h a (omega arith) (omega arith) in
    rw e (count_zeros-erased f n (a + 1) acc (λ b le lt. h b (omega arith) (omega arith)))

count_zeros-full :
    (f : ℕ → ℕ) (n a acc : ℕ)
    → ((b : ℕ) → a ≤ b → b < a + n → f b ≡ 0)
    → count_zeros (region f a n) acc ≡ acc + n
unfolding count_zeros region
count_zeros-full f zero a acc h = omega arith
count_zeros-full f (suc n) a acc h =
    let e : f a ≡ 0 = h a (omega arith) (omega arith) in
    let rest =
      count_zeros-full f n (a + 1) (acc + 1) (λ b le lt. h b (omega arith) (omega arith)) in
    rw e (omega (arith, rest))

pub failures_cong :
    (f g : ℕ → ℕ)
    → ((i : ℕ) → i < ab_sector → f (tally_addr + i) ≡ g (tally_addr + i))
    → failures f ≡ failures g
unfolding failures
failures_cong f g h = ap (λ l. count_zeros l 0) (region_ext f g tally_addr tally_addr ab_sector h)

at_offset : (f : ℕ → ℕ) (b v : ℕ) → tally_addr ≤ b → f (tally_addr + (b - tally_addr)) ≡ v → f b ≡ v
at_offset f b v le h = let e : b ≡ tally_addr + (b - tally_addr) = omega arith in ap f e ∙ h

pub failures-erased : (f : ℕ → ℕ) → IsErased f → failures f ≡ 0
unfolding failures
failures-erased f h =
    count_zeros-erased f ab_sector tally_addr 0
      (λ b le lt. at_offset f b 0xff le (h (b - tally_addr) (omega arith)))

failures-full : (f : ℕ → ℕ) → IsTally f (λ v. v ≡ 0) → failures f ≡ ab_sector
unfolding failures
failures-full f h =
    count_zeros-full f ab_sector tally_addr 0
      (λ b le lt. at_offset f b 0 le (h (b - tally_addr) (omega arith)))

abbrev IsMark : ℕ → Type 0
IsMark v = (v ≡ 0xff) ⊎ (v ≡ 0)

marks_full : (f : ℕ → ℕ) → IsTally f IsMark → IsFull f → failures f ≡ ab_sector
marks_full f marks full = failures-full f (λ i lt. clear i lt (marks i lt))
  where
    clear : (i : ℕ) → i < ab_sector → IsMark (f (tally_addr + i)) → f (tally_addr + i) ≡ 0
    clear i lt (inl e) = absurd (full i lt e)
    clear i lt (inr e) = e

module _ {D : Type 0} (io : Io D) (nor_at app_at : D → ℕ → ℕ) (ok_io : IsFaithful io nor_at app_at)
    (local_io : IsLocal io nor_at app_at) (ok_flash : IsStoring io nor_at) where
  abbrev HasMarks : ℕ → D → Type 0
  HasMarks k d = IsTally (nor_at d) IsMark × (failures (nor_at d) ≡ k)

  counted-HasMarks :
      (k : ℕ) (d d' : D)
      → k < ab_sector
      → HasMarks k d
      → ((failures (nor_at d') ≡ suc (failures (nor_at d)))
          × ((b : ℕ) → (nor_at d' b ≡ nor_at d b) ⊎ (nor_at d' b ≡ 0)))
        ⊎ (IsFull (nor_at d) × (nor_at d' ≡ nor_at d))
      → HasMarks (suc k) d'
  counted-HasMarks k d d' below h (inl c) =
      ((λ i lt. mark i (h.0 i lt) (c.1 (tally_addr + i))), c.0 ∙ ap suc h.1)
    where
      mark :
          (i : ℕ)
          → IsMark (nor_at d (tally_addr + i))
          → (nor_at d' (tally_addr + i) ≡ nor_at d (tally_addr + i))
            ⊎ (nor_at d' (tally_addr + i) ≡ 0)
          → IsMark (nor_at d' (tally_addr + i))
      mark i (inl e) (inl same) = inl (same ∙ e)
      mark i (inr e) (inl same) = inr (same ∙ e)
      mark i m (inr zero_) = inr zero_
  counted-HasMarks k d d' below h (inr c) =
      absurd (omega (arith, marks_full (nor_at d) h.0 c.0, h.1))

  Boots-HasMarks :
      {d : D} {k : ℕ} {d' : D}
      → IsErased (nor_at d)
      → Boots io nor_at d k d'
      → k ≤ ab_sector
      → HasMarks k d'
  Boots-HasMarks {d' = d'} erased start below =
      ((λ i lt. inl (erased i lt)), failures-erased (nor_at d') erased)
  Boots-HasMarks {d' = d'} erased (boot {k} {d1} d2 before good same) below =
      let pending = boot_pending io d1 in
      let c =
        Ends_ok _ _ pending tt (boot_pending-Ends io nor_at app_at ok_io local_io ok_flash d1)
          good in
      let h =
        counted-HasMarks k d1 pending.0 (omega arith) (Boots-HasMarks erased before (omega arith))
          c.1 in
      ((λ i lt. rw (same i lt) (h.0 i lt)), failures_cong (nor_at d2) (nor_at pending.0) same ∙ h.1)

  -- From an erased tally, `k` boots that were each marked with success make the bootloader count `k`
  -- failures, up to the size of the sector.
  pub Boots-failures :
      (k : ℕ) (d d' : D)
      → IsErased (nor_at d)
      → Boots io nor_at d k d'
      → k ≤ ab_sector
      → failures (nor_at d') ≡ k
  Boots-failures k d d' erased boots below = (Boots-HasMarks erased boots below).1
