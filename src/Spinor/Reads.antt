-- ===== src/Spinor/Reads.antt =====
-- Reading the flash: `nor_read`, and the wait for the chip.
use steelseries_apex_pro_min.Prelude.{
  ℕ, zero, suc, ◌+◌, ◌-◌, ◌*◌, ◌%◌, ◌^◌, ◌==◌, ◌≤◌, ◌≡◌, inl, inr, ltb, min, byte_at, true, false,
  Option, none, some, List, [], ◌∷◌, u32, arith, refl, ap, sym, ◌∙◌, Bool-cases,
}
use steelseries_apex_pro_min.Flash.{read}
use steelseries_apex_pro_min.Flash.Laws.{
  region, region-add, At, Ends, Ends-after, Ends-read, Ends-if,
}
use steelseries_apex_pro_min.Promote.{address_bytes}
use steelseries_apex_pro_min.Spinor.{
  Spim, nor_size, read_chunk, nor_xfer, nor_read, nor_status, status_of, wait_wip, nor_wait_wip,
}
use steelseries_apex_pro_min.Spinor.Chip.{IsChip}

region_nil : (f : ℕ → ℕ) (a n : ℕ) → n ≡ 0 → [] ≡ region f a n
unfolding region
region_nil f a n e = rw e refl

module _ {D : Type 0} (spim : Spim D) (nor_at app_at : D → ℕ → ℕ) (chip : IsChip spim nor_at app_at)
    (nor app : ℕ → ℕ) where
  abbrev Same : D → Type 0
  Same = At nor_at app_at nor app

  -- Both flashes are as given, and the chip is not busy, if it was not at first.
  abbrev pub Still : Type 0 → D → Type 0
  Still First d = Same d × (First → chip.busy d ≡ false)

  -- The read command fits the buffers.
  xfer_inside :
      (a n : ℕ) (d : D)
      → n ≤ read_chunk
      → nor_xfer spim (3 ∷ address_bytes a) n d ≡ spim.xfer (3 ∷ address_bytes a) n d
  xfer_inside a n d fits =
      let inside : ltb (4 + read_chunk - 4) n ≡ false = ground arith in rw inside refl

  pub nor_read-Ends :
      (First : Type 0) (left a len : ℕ) (d : D)
      → len ≤ left * read_chunk
      → a + len ≤ nor_size
      → Still First d
      → Ends
          (nor_read spim left a len d)
          (λ d' bs. Still First d' × (First → bs ≡ region nor a len))
          (Still First)
  unfolding nor_read
  nor_read-Ends First zero a len d enough inside at = (at, λ _. region_nil nor a len (omega arith))
  nor_read-Ends First (suc left) a len d enough inside at =
      let n = min len read_chunk in
      let S = Still First in
      let Q = λ (d' : D) (bs : List ℕ). S d' × (First → bs ≡ region nor a len) in
      let Buf = λ (d' : D) (bs : List ℕ). S d' × (First → bs ≡ region nor a n) in
      let Rest = λ (d' : D) (bs : List ℕ). S d' × (First → bs ≡ region nor (a + n) (len - n)) in
      let whole : n + (len - n) ≡ len = omega arith in
      Ends-if Q S (len == 0) _ _ d (λ done. (at, λ _. region_nil nor a len (ground arith)))
        (λ more.
          Ends-after Buf S Q S (read (nor_xfer spim (3 ∷ address_bytes a) n) d) _
            (Ends-read S Buf (nor_xfer spim (3 ∷ address_bytes a) n) d
              (λ bs e. (
                same1 n (omega arith),
                λ first.
                    chip.read_gives a n d bs (at.1 first) (omega arith)
                      (sym (ap (λ p. p.1) (xfer_inside a n d (omega arith))) ∙ e)
                    ∙ ap (λ f. region f a n) at.0.0,
              ))
              (same1 n (omega arith)))
            (λ d1 bs h.
              Ends-after Rest S Q S (nor_read spim left (a + n) (len - n) d1) _
                (nor_read-Ends First left (a + n) (len - n) d1 (ground arith) (omega arith) h.0)
                (λ d2 rest g. (
                  g.0,
                  λ first.
                      rw (h.1 first, g.1 first)
                        (sym (region-add nor a n (len - n)) ∙ ap (region nor a) whole),
                ))
                (λ d2 k. k))
            (λ d1 k. k))
    where
      same1 : (n : ℕ) → n ≤ read_chunk → Still First (nor_xfer spim (3 ∷ address_bytes a) n d).0
      same1 n fits =
          let e = xfer_inside a n d fits in
          (
            (
              ap (λ p. nor_at p.0) e ∙ chip.read_nor a n d ∙ at.0.0,
              ap (λ p. app_at p.0) e ∙ chip.xfer_app (3 ∷ address_bytes a) n d ∙ at.0.1,
            ),
            λ first. ap (λ p. chip.busy p.0) e ∙ chip.read_idle a n d (at.1 first),
          )

  status-Same : (d : D) → Same d → Same (nor_status spim d).0
  status-Same d at = go (spim.xfer (5 ∷ []) 1 d).1
    where
      d1 : D
      d1 = (spim.xfer (5 ∷ []) 1 d).0

      go : (r : Option (List ℕ)) → Same (status_of spim (d1, r)).0
      go none = (chip.status_nor d ∙ at.0, chip.xfer_app (5 ∷ []) 1 d ∙ at.1)
      go (some bs) = (chip.status_nor d ∙ at.0, chip.xfer_app (5 ∷ []) 1 d ∙ at.1)

  status-idle :
      (d : D) → ((nor_status spim d).1 % 2 == 0) ≡ true → chip.busy (nor_status spim d).0 ≡ false
  status-idle d = go (spim.xfer (5 ∷ []) 1 d).1 (chip.status_idle d)
    where
      d1 : D
      d1 = (spim.xfer (5 ∷ []) 1 d).0

      go :
          (r : Option (List ℕ))
          → ((bs : List ℕ) → r ≡ some bs → (byte_at bs 0 % 2 == 0) ≡ true → chip.busy d1 ≡ false)
          → ((status_of spim (d1, r)).1 % 2 == 0) ≡ true
          → chip.busy (status_of spim (d1, r)).0 ≡ false
      go none k e = absurd cc
      go (some bs) k e = k bs refl e

  wait_wip-Same :
      (left start max_cyc : ℕ) (d : D)
      → Same d
      → Ends (wait_wip spim left start max_cyc d) (λ d' _. Same d' × (chip.busy d' ≡ false)) Same
  unfolding wait_wip
  wait_wip-Same zero start max_cyc d at = at
  wait_wip-Same (suc left) start max_cyc d at = elim (Bool-cases ((nor_status spim d).1 % 2 == 0)) [
    | inl idle ↦ rw idle (status-Same d at, status-idle d idle)
    | inr busy ↦
        rw busy (elim (Bool-cases (ltb max_cyc (u32 ((spim.cyccnt d1).1 + 2 ^ 32 - start)))) [
          | inl late ↦ rw late at2
          | inr early ↦ rw early (wait_wip-Same left start max_cyc (spim.cyccnt d1).0 at2)
        ])
  ]
    where
      d1 : D
      d1 = (nor_status spim d).0

      at2 : Same (spim.cyccnt d1).0
      at2 = chip.cyccnt_At nor app d1 (status-Same d at)

  -- The wait changes neither flash, and after one that succeeds the chip is not busy.
  pub nor_wait_wip-Same :
      (max_cyc : ℕ) (d : D)
      → Same d
      → Ends (nor_wait_wip spim max_cyc d) (λ d' _. Same d' × (chip.busy d' ≡ false)) Same
  unfolding nor_wait_wip
  nor_wait_wip-Same max_cyc d at =
      wait_wip-Same (max_cyc + 2) (spim.cyccnt d).1 max_cyc (spim.cyccnt d).0
        (chip.cyccnt_At nor app d at)
