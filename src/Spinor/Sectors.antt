-- ===== src/Spinor/Sectors.antt =====
-- The spans of the bus, and an erase of any number of sectors: `g4b_spinor_dev_erase`'s loop.
use steelseries_apex_pro_min.Prelude.{
  ℕ, zero, suc, ◌+◌, ◌*◌, ◌%◌, ◌≤◌, ◌<◌, ◌≡◌, inl, inr, ltb, false, arith, refl, ap, ◌∙◌,
  Bool-cases,
}
use steelseries_apex_pro_min.Flash.{Result, ok, err, Action}
use steelseries_apex_pro_min.Flash.Laws.{At, Ends, Ends-after, Ends_mono}
use steelseries_apex_pro_min.Spinor.{Spim, nor_size, on_bus, nor_sector_erase, erase_sectors}
use steelseries_apex_pro_min.Spinor.Chip.{IsChip}
use steelseries_apex_pro_min.Spinor.Writes.{IsKept, Cleared, nor_sector_erase-Ends}
use steelseries_apex_pro_min.Spinor.Pages.{Kept-wider, Kept-trans}

module _ {D : Type 0} (spim : Spim D) (nor_at app_at : D → ℕ → ℕ)
    (chip : IsChip spim nor_at app_at) where
  abbrev pub opened : D → D
  opened d = spim.nor_enable (spim.extbus_lock d)

  abbrev pub closed : D → D
  closed d = spim.extbus_unlock (spim.nor_disable d)

  pub opened-At : (d : D) → At nor_at app_at (nor_at d) (app_at d) (opened d)
  opened-At d =
      chip.enable_At (nor_at d) (app_at d) (spim.extbus_lock d)
        (chip.lock_At (nor_at d) (app_at d) d (refl, refl))

  pub closed-At : (d : D) → At nor_at app_at (nor_at d) (app_at d) (closed d)
  closed-At d =
      chip.unlock_At (nor_at d) (app_at d) (spim.nor_disable d)
        (chip.disable_At (nor_at d) (app_at d) d (refl, refl))

  pub opened_idle : (d : D) → chip.busy d ≡ false → chip.busy (opened d) ≡ false
  opened_idle d idle = chip.enable_idle (spim.extbus_lock d) (chip.lock_idle d idle)

  pub closed_idle : (d : D) → chip.busy d ≡ false → chip.busy (closed d) ≡ false
  closed_idle d idle = chip.unlock_idle (spim.nor_disable d) (chip.disable_idle d idle)

  -- What is so within a span of the bus is so after it, if giving the bus back keeps it.
  pub on_bus-Ends :
      {A : Type 0} (Q : D → A → Type 0) (F : D → Type 0) (m : Action D A) (d : D)
      → Ends (m (opened d)) Q F
      → ((d' : D) (a : A) → Q d' a → Q (closed d') a)
      → ((d' : D) → F d' → F (closed d'))
      → Ends (on_bus spim m d) Q F
  on_bus-Ends {A} Q F m d within good bad = go (m (opened d)) within
    where
      go : (p : D × Result A) → Ends p Q F → Ends (closed p.0, p.1) Q F
      go (d', ok a) h = good d' a h
      go (d', err x) h = bad d' h

  pub Kept-closed :
      (a z : ℕ) (d d' : D) → IsKept nor_at app_at a z d d' → IsKept nor_at app_at a z d (closed d')
  Kept-closed a z d d' h =
      ((closed-At d').1 ∙ h.0, λ b out. ap (λ f. f b) (closed-At d').0 ∙ h.1 b out)

  sector-Ends :
      (a : ℕ) (d : D)
      → a % 0x1000 ≡ 0
      → a + 0x1000 ≤ nor_size
      → Ends
          (on_bus spim (nor_sector_erase spim a) d)
          (Cleared spim nor_at app_at chip a (a + 0x1000) d)
          (IsKept nor_at app_at a (a + 0x1000) d)
  sector-Ends a d aligned inside =
      on_bus-Ends (Cleared spim nor_at app_at chip a (a + 0x1000) d)
        (IsKept nor_at app_at a (a + 0x1000) d) (nor_sector_erase spim a) d
        (Ends_mono _ (IsKept nor_at app_at a (a + 0x1000) (opened d))
          (Cleared spim nor_at app_at chip a (a + 0x1000) d) (IsKept nor_at app_at a (a + 0x1000) d)
          _ (nor_sector_erase-Ends spim nor_at app_at chip a (opened d) aligned inside)
          (λ d2 _ h. ((since d2 h.0.0, λ idle. h.0.1 (opened_idle d idle)), λ _. h.1)) since)
        (λ d' _ h. (
          (
            Kept-closed a (a + 0x1000) d d' h.0.0,
            λ idle b le lt. ap (λ f. f b) (closed-At d').0 ∙ h.0.1 idle b le lt,
          ),
          λ idle. closed_idle d' (h.1 idle),
        ))
        (λ d' h. Kept-closed a (a + 0x1000) d d' h)
    where
      since :
          (d2 : D)
          → IsKept nor_at app_at a (a + 0x1000) (opened d) d2
          → IsKept nor_at app_at a (a + 0x1000) d d2
      since d2 h = (h.0 ∙ (opened-At d).1, λ b out. h.1 b out ∙ ap (λ f. f b) (opened-At d).0)

  pub erase_sectors-Ends :
      (left a z : ℕ) (d : D)
      → z ≡ a + left * 0x1000
      → a % 0x1000 ≡ 0
      → z ≤ nor_size
      → Ends
          (erase_sectors spim left a d)
          (Cleared spim nor_at app_at chip a z d)
          (IsKept nor_at app_at a z d)
  unfolding erase_sectors
  erase_sectors-Ends zero a z d e aligned inside =
      (((refl, λ b out. refl), λ idle b le lt. absurd (omega arith)), λ idle. idle)
  erase_sectors-Ends (suc left) a z d e aligned inside =
      let E = IsKept nor_at app_at a z d in
      let Q = Cleared spim nor_at app_at chip a z d in
      let wider = Kept-wider spim nor_at app_at chip in
      let trans = Kept-trans spim nor_at app_at chip in
      Ends-after (Cleared spim nor_at app_at chip a (a + 0x1000) d) E Q E _ _
        (Ends_mono (Cleared spim nor_at app_at chip a (a + 0x1000) d)
          (IsKept nor_at app_at a (a + 0x1000) d) (Cleared spim nor_at app_at chip a (a + 0x1000) d)
          E _ (sector-Ends a d aligned (omega arith)) (λ d1 _ h. h)
          (λ d1 h. wider a (a + 0x1000) a z d d1 (omega arith) (omega arith) h))
        (λ d1 _ h.
          Ends_mono (Cleared spim nor_at app_at chip (a + 0x1000) z d1)
            (IsKept nor_at app_at (a + 0x1000) z d1) Q E _
            (erase_sectors-Ends left (a + 0x1000) z d1 (omega arith) (omega arith) inside)
            (λ d2 _ k. (
              (
                trans a z d d1 d2 (wider a (a + 0x1000) a z d d1 (omega arith) (omega arith) h.0.0)
                    (wider (a + 0x1000) z a z d1 d2 (omega arith) (omega arith) k.0.0),
                both d1 d2 h k,
              ),
              λ idle. k.1 (h.1 idle),
            ))
            (λ d2 k.
              trans a z d d1 d2 (wider a (a + 0x1000) a z d d1 (omega arith) (omega arith) h.0.0)
                (wider (a + 0x1000) z a z d1 d2 (omega arith) (omega arith) k)))
        (λ d1 k. k)
    where
      both :
          (d1 d2 : D)
          → Cleared spim nor_at app_at chip a (a + 0x1000) d d1 tt
          → Cleared spim nor_at app_at chip (a + 0x1000) z d1 d2 tt
          → chip.busy d ≡ false
          → (b : ℕ) → a ≤ b
          → b < z
          → nor_at d2 b ≡ 0xff
      both d1 d2 h k idle b le lt = elim (Bool-cases (ltb b (a + 0x1000))) [
        | inl here ↦ k.0.0.1 b (inl (ground arith)) ∙ h.0.1 idle b le (ground arith)
        | inr later ↦ k.0.1 (h.1 idle) b (ground arith) lt
      ]
