-- ===== src/Spinor/Pages.antt =====
-- A write over any pages: `g4b_spinor_dev_program`'s loop.
use steelseries_apex_pro_min.Prelude.{
  ℕ, zero, suc, ◌+◌, ◌-◌, ◌==◌, ◌≤◌, ◌≡◌, inl, inr, List, [], ◌∷◌, ◌++◌, length, take, drop,
  length-take, length-drop, length-append, take-append-drop, IsBytes-parts, arith, refl, ap, ap₂,
  ◌∙◌,
}
use steelseries_apex_pro_min.Flash.Laws.{region, region-add, Ends, Ends-after, Ends-if, Ends_mono}
use steelseries_apex_pro_min.Flash.Stores.{region_all}
use steelseries_apex_pro_min.Spinor.{Spim, nor_size, page_part, program_loop}
use steelseries_apex_pro_min.Spinor.Chip.{IsChip}
use steelseries_apex_pro_min.Spinor.Writes.{IsKept, Programmed, nor_page_program-Ends}

module _ {D : Type 0} (spim : Spim D) (nor_at app_at : D → ℕ → ℕ)
    (chip : IsChip spim nor_at app_at) where
  abbrev pub Kept : ℕ → ℕ → D → D → Type 0
  Kept = IsKept nor_at app_at

  pub Kept-wider : (a z a' z' : ℕ) (d d' : D) → a' ≤ a → z ≤ z' → Kept a z d d' → Kept a' z' d d'
  Kept-wider a z a' z' d d' le le' h = (h.0, λ b out. h.1 b (omega arith))

  pub Kept-trans : (a z : ℕ) (d d1 d2 : D) → Kept a z d d1 → Kept a z d1 d2 → Kept a z d d2
  Kept-trans a z d d1 d2 h k = (k.0 ∙ h.0, λ b out. k.1 b out ∙ h.1 b out)

  -- A write that is followed by one of the bytes after it.
  Programmed-append :
      (a : ℕ) (xs ys : List ℕ) (d d1 d2 : D)
      → Programmed spim nor_at app_at chip a xs d d1 tt
      → Programmed spim nor_at app_at chip (a + length xs) ys d1 d2 tt
      → Programmed spim nor_at app_at chip a (xs ++ ys) d d2 tt
  Programmed-append a xs ys d d1 d2 h k = (
    (
      Kept-trans a (a + length (xs ++ ys)) d d1 d2
          (Kept-wider a (a + length xs) a (a + length (xs ++ ys)) d d1 (omega arith)
            (omega (arith, size)) h.0.0)
          (Kept-wider (a + length xs) (a + length xs + length ys) a (a + length (xs ++ ys)) d1 d2
            (omega arith) (omega (arith, size)) k.0.0),
      λ idle bytes blank.
          let both = IsBytes-parts xs ys bytes in
          ap (region (nor_at d2) a) size
          ∙ region-add (nor_at d2) a (length xs) (length ys)
          ∙ ap₂ (λ l r. l ++ r)
              (region_all (nor_at d2) (nor_at d1) a (length xs) (λ b le lt. k.0.0.1 b (inl lt))
                ∙ h.0.1 idle both.0 (λ i lt. blank i (omega (arith, size))))
              (k.0.1 (h.1 idle) both.1 (λ i lt.
                let e : a + length xs + i ≡ a + (length xs + i) = omega arith in
                h.0.0.1 (a + length xs + i) (inr (omega arith))
                ∙ ap (nor_at d) e
                ∙ blank (length xs + i) (omega (arith, size)))),
    ),
    λ idle. k.1 (h.1 idle),
  )
    where
      size : length (xs ++ ys) ≡ length xs + length ys
      size = length-append xs ys

  -- Nothing but the bytes from `a` on is touched, and each page program stays in one page; if the write
  -- succeeds on an erased range of a chip that was not busy, its bytes are stored and it is not busy.
  pub program_loop-Ends :
      (left a : ℕ) (bs : List ℕ) (d : D)
      → length bs ≤ left
      → a + length bs ≤ nor_size
      → Ends
          (program_loop spim left a bs d)
          (Programmed spim nor_at app_at chip a bs d)
          (Kept a (a + length bs) d)
  unfolding program_loop region
  program_loop-Ends zero a [] d enough inside =
      (((refl, λ b out. refl), λ idle bytes blank. refl), λ idle. idle)
  program_loop-Ends zero a (x ∷ bs) d enough inside = absurd (omega arith)
  program_loop-Ends (suc left) a bs d enough inside =
      let Q = Programmed spim nor_at app_at chip a bs d in
      let E = Kept a (a + length bs) d in
      Ends-if Q E (length bs == 0) _ _ d (λ none_. nothing bs (ground arith))
        (λ more.
          let n = page_part a (length bs) in
          let xs = take n bs in
          let ys = drop n bs in
          let len : length xs ≡ n = length-take n bs ∙ omega arith in
          let len' : length ys ≡ length bs - n = length-drop n bs in
          let place : a + length xs ≡ a + n = omega (arith, len) in
          Ends-after (Programmed spim nor_at app_at chip a xs d) E Q E _ _
            (Ends_mono _ (Kept a (a + length xs) d) (Programmed spim nor_at app_at chip a xs d) E _
              (nor_page_program-Ends spim nor_at app_at chip a xs d (omega (arith, len))
                (omega (arith, len)))
              (λ d1 _ h. (h.0, λ _. h.1))
              (λ d1 h.
                Kept-wider a (a + length xs) a (a + length bs) d d1 (omega arith)
                  (omega (arith, len)) h))
            (λ d1 _ h.
              Ends_mono (Programmed spim nor_at app_at chip (a + n) ys d1)
                (Kept (a + n) (a + n + length ys) d1) Q E _
                (program_loop-Ends left (a + n) ys d1 (ground (arith, len')) (omega (arith, len')))
                (λ d2 _ k.
                  coe 0 1
                    (i. Programmed spim nor_at app_at chip a (take-append-drop n bs i) d d2 tt)
                    (Programmed-append a xs ys d d1 d2 h (rw place k)))
                (λ d2 k.
                  Kept-trans a (a + length bs) d d1 d2
                    (Kept-wider a (a + length xs) a (a + length bs) d d1 (omega arith)
                      (omega (arith, len)) h.0.0)
                    (Kept-wider (a + n) (a + n + length ys) a (a + length bs) d1 d2 (omega arith)
                      (omega (arith, len')) k)))
            (λ d1 k. k))
    where
      nothing : (l : List ℕ) → length l ≡ 0 → Programmed spim nor_at app_at chip a l d d tt
      nothing [] e = (((refl, λ b out. refl), λ idle bytes blank. refl), λ idle. idle)
      nothing (x ∷ l) e = absurd (omega arith)
