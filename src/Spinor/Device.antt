-- ===== src/Spinor/Device.antt =====
-- The driver fills the interface of the flash.
use steelseries_apex_pro_min.Prelude.{
  ℕ, ◌+◌, ◌/◌, ◌%◌, ◌==◌, ◌≡◌, inl, inr, ◌||◌, not, ltb, Bool, true, false, Option, some, List,
  length, arith, refl, ap, ◌∙◌, Bool-cases,
}
use mathlib.Core.Option.{some_inj}
use steelseries_apex_pro_min.Flash.{Result, ok, err}
use steelseries_apex_pro_min.Flash.Laws.{region, At, Ends, Ends_mono}
use steelseries_apex_pro_min.Spinor.{
  Spim, nor_size, read_chunk, succeeded, given, on_bus, nor_read, erase_sectors, program_loop,
  dev_read, dev_erase, dev_program,
}
use steelseries_apex_pro_min.Spinor.Chip.{IsChip}
use steelseries_apex_pro_min.Spinor.Reads.{Still, nor_read-Ends}
use steelseries_apex_pro_min.Spinor.Writes.{IsKept, Programmed, Cleared}
use steelseries_apex_pro_min.Spinor.Pages.{program_loop-Ends}
use steelseries_apex_pro_min.Spinor.Sectors.{
  on_bus-Ends, erase_sectors-Ends, opened, closed, opened-At, closed-At, opened_idle, closed_idle,
  Kept-closed,
}

module _ {D : Type 0} (E : D → Type 0) where
  pub given-Ends :
      (Q : D → List ℕ → Type 0) (p : D × Result (List ℕ))
      → Ends p Q E
      → ((d : D) (bs : List ℕ) → Q d bs → E d)
      → E (given p).0 × ((bs : List ℕ) → (given p).1 ≡ some bs → Q (given p).0 bs)
  given-Ends Q (d, ok bs) h weaker = (weaker d bs h, λ bs' e. coe 0 1 (i. Q d (some_inj.0 e i)) h)
  given-Ends Q (d, err x) h weaker = (h, λ bs e. absurd cc)

  pub succeeded-Ends :
      (Q : D → Unit {0} → Type 0) (p : D × Result (Unit {0}))
      → Ends p Q E
      → ((d : D) → Q d tt → E d)
      → E (succeeded p).0 × ((succeeded p).1 ≡ true → Q (succeeded p).0 tt)
  succeeded-Ends Q (d, ok _) h weaker = (weaker d h, λ e. h)
  succeeded-Ends Q (d, err x) h weaker = (h, λ e. absurd cc)

module _ {D : Type 0} (spim : Spim D) (nor_at app_at : D → ℕ → ℕ)
    (chip : IsChip spim nor_at app_at) where
  -- A device read.
  abbrev pub Reads : ℕ → ℕ → D → D × Option (List ℕ) → Type 0
  Reads a n d p =
      (At nor_at app_at (nor_at d) (app_at d) p.0 × (chip.busy d ≡ false → chip.busy p.0 ≡ false))
      × ((bs : List ℕ) → p.1 ≡ some bs → chip.busy d ≡ false → bs ≡ region (nor_at d) a n)

  pub dev_read-Reads : (a n : ℕ) (d : D) → Reads a n d (dev_read spim a n d)
  unfolding dev_read
  dev_read-Reads a n d = elim (Bool-cases (ltb nor_size (a + n))) [
    | inl past ↦ rw past (((refl, refl), λ idle. idle), λ bs e. absurd cc)
    | inr inside ↦ rw inside (
        let Q =
          λ (d' : D) (bs : List ℕ). S d' × (chip.busy d ≡ false → bs ≡ region (nor_at d) a n) in
        let r =
          given-Ends S Q (on_bus spim (nor_read spim (n / read_chunk + 1) a n) d)
            (on_bus-Ends spim nor_at app_at chip Q S (nor_read spim (n / read_chunk + 1) a n) d
              (nor_read-Ends spim nor_at app_at chip (nor_at d) (app_at d) (chip.busy d ≡ false)
                (n / read_chunk + 1) a n (opened spim nor_at app_at chip d) (omega arith)
                (ground arith)
                (opened-At spim nor_at app_at chip d, opened_idle spim nor_at app_at chip d))
              (λ d' bs h. (given_back d' h.0, h.1)) given_back)
            (λ d' bs h. h.0) in
        (r.0, λ bs e. (r.1 bs e).1))
  ]
    where
      S : D → Type 0
      S = Still spim nor_at app_at chip (nor_at d) (app_at d) (chip.busy d ≡ false)

      given_back : (d' : D) → S d' → S (closed spim nor_at app_at chip d')
      given_back d' h =
          let at = closed-At spim nor_at app_at chip d' in
          ((at.0 ∙ h.0.0, at.1 ∙ h.0.1), λ idle. closed_idle spim nor_at app_at chip d' (h.1 idle))

  -- A state with the same flashes, in which the chip is not busy if it was not.
  abbrev Entered : D → D → Type 0
  Entered d d1 =
      At nor_at app_at (nor_at d) (app_at d) d1 × (chip.busy d ≡ false → chip.busy d1 ≡ false)

  replayed : (d : D) → Entered d (spim.wait_replay d)
  replayed d = (chip.replay_At (nor_at d) (app_at d) d (refl, refl), chip.replay_idle d)

  Kept-from :
      (a z : ℕ) (d d1 d2 : D)
      → Entered d d1
      → IsKept nor_at app_at a z d1 d2
      → IsKept nor_at app_at a z d d2
  Kept-from a z d d1 d2 at h = (h.0 ∙ at.0.1, λ b out. h.1 b out ∙ ap (λ f. f b) at.0.0)

  Programmed-from :
      (a : ℕ) (bs : List ℕ) (d d1 d2 : D)
      → Entered d d1
      → Programmed spim nor_at app_at chip a bs d1 d2 tt
      → Programmed spim nor_at app_at chip a bs d d2 tt
  Programmed-from a bs d d1 d2 at h = (
    (
      Kept-from a (a + length bs) d d1 d2 at h.0.0,
      λ idle bytes blank. h.0.1 (at.1 idle) bytes (λ i lt. ap (λ f. f (a + i)) at.0.0 ∙ blank i lt),
    ),
    λ idle. h.1 (at.1 idle),
  )

  abbrev pub Programs : ℕ → List ℕ → D → D × Bool → Type 0
  Programs a bs d p =
      IsKept nor_at app_at a (a + length bs) d p.0
      × (p.1 ≡ true → Programmed spim nor_at app_at chip a bs d p.0 tt)

  pub dev_program-Programs :
      (a : ℕ) (bs : List ℕ) (d : D) → Programs a bs d (dev_program spim a bs d)
  unfolding dev_program
  dev_program-Programs a bs d = elim (Bool-cases (ltb nor_size (a + length bs))) [
    | inl past ↦ rw past ((refl, λ b out. refl), λ e. absurd cc)
    | inr inside ↦ rw inside (
        succeeded-Ends E Q (on_bus spim (program_loop spim (length bs) a bs) (spim.wait_replay d))
          (on_bus-Ends spim nor_at app_at chip Q E (program_loop spim (length bs) a bs)
            (spim.wait_replay d)
            (Ends_mono (Programmed spim nor_at app_at chip a bs d1)
              (IsKept nor_at app_at a (a + length bs) d1) Q E _
              (program_loop-Ends spim nor_at app_at chip (length bs) a bs d1 (omega arith)
                (ground arith))
              (λ d2 _ h. Programmed-from a bs d d1 d2 entered h)
              (λ d2 h. Kept-from a (a + length bs) d d1 d2 entered h))
            (λ d' _ h. (
              (
                Kept-closed spim nor_at app_at chip a (a + length bs) d d' h.0.0,
                λ idle bytes blank.
                    ap (λ f. region f a (length bs)) (closed-At spim nor_at app_at chip d').0
                    ∙ h.0.1 idle bytes blank,
              ),
              λ idle. closed_idle spim nor_at app_at chip d' (h.1 idle),
            ))
            (λ d' h. Kept-closed spim nor_at app_at chip a (a + length bs) d d' h))
          (λ d' h. h.0.0))
  ]
    where
      E : D → Type 0
      E = IsKept nor_at app_at a (a + length bs) d

      Q : D → Unit {0} → Type 0
      Q = Programmed spim nor_at app_at chip a bs d

      d1 : D
      d1 = opened spim nor_at app_at chip (spim.wait_replay d)

      entered : Entered d d1
      entered =
          let at = opened-At spim nor_at app_at chip (spim.wait_replay d) in
          let before = replayed d in
          (
            (at.0 ∙ before.0.0, at.1 ∙ before.0.1),
            λ idle. opened_idle spim nor_at app_at chip (spim.wait_replay d) (before.1 idle),
          )

  abbrev pub Erases : ℕ → ℕ → D → D × Bool → Type 0
  Erases a n d p =
      IsKept nor_at app_at a (a + n) d p.0
      × (p.1 ≡ true → Cleared spim nor_at app_at chip a (a + n) d p.0 tt)

  pub dev_erase-Erases : (a n : ℕ) (d : D) → Erases a n d (dev_erase spim a n d)
  unfolding dev_erase
  dev_erase-Erases a n d =
      elim (Bool-cases (not (a % 0x1000 == 0) || not (n % 0x1000 == 0) || ltb nor_size (a + n))) [
        | inl refused ↦ rw refused ((refl, λ b out. refl), λ e. absurd cc)
        | inr fine ↦ rw fine (
            let r =
              succeeded-Ends (IsKept nor_at app_at a (a + n) (spim.wait_replay d))
                (Cleared spim nor_at app_at chip a (a + n) (spim.wait_replay d))
                (erase_sectors spim (n / 0x1000) a (spim.wait_replay d))
                (erase_sectors-Ends spim nor_at app_at chip (n / 0x1000) a (a + n)
                  (spim.wait_replay d) (ground arith) (ground arith) (ground arith))
                (λ d' h. h.0.0) in
            (
              since _ r.0,
              λ e.
                  let c = r.1 e in
                  let entered = replayed d in
                  ((since _ c.0.0, λ idle. c.0.1 (entered.1 idle)), λ idle. c.1 (entered.1 idle)),
            ))
      ]
    where
      since :
          (d2 : D)
          → IsKept nor_at app_at a (a + n) (spim.wait_replay d) d2
          → IsKept nor_at app_at a (a + n) d d2
      since d2 h = Kept-from a (a + n) d (spim.wait_replay d) d2 (replayed d) h
