-- ===== src/Rollback/Pending.antt =====
-- A boot adds one to the tally: `g4b_ab_boot_pending`.
use steelseries_apex_pro_min.Prelude.{
  ℕ, zero, suc, ◌+◌, ◌*◌, ◌≤◌, ◌<◌, ◌≡◌, ◌≢◌, ◌⊎◌, inl, inr, true, Option, none, some, List, [],
  ◌∷◌, arith, refl, ap, ◌∙◌, ◌-◌, ◌==◌, leb, Bool-cases,
}
use steelseries_apex_pro_min.Flash.{Io, Action, read}
use steelseries_apex_pro_min.Flash.Laws.{
  region, IsFaithful, IsLocal, At, Ends, Ends-after, Ends-read, Ends_mono,
}
use steelseries_apex_pro_min.Flash.Stores.{IsStoring, Ends-run_good}
use steelseries_apex_pro_min.Promote.{tally_addr, ab_sector}
use steelseries_apex_pro_min.Rollback.{find_free, scan_tally, free_or, mark_at, boot_pending}
use steelseries_apex_pro_min.Rollback.Tally.{FoundIn, find_free-FoundIn, count_zeros-mark, failures}

-- The tally sector has no erased byte left.
abbrev pub IsFull : (ℕ → ℕ) → Type 0
IsFull nor = (i : ℕ) → i < ab_sector → nor (tally_addr + i) ≢ 0xff

-- Both flashes are as before, but for the tally sector.
abbrev pub IsTallyOnly : {D : Type 0} → (D → ℕ → ℕ) → (D → ℕ → ℕ) → D → D → Type 0
IsTallyOnly nor_at app_at d d' =
    (app_at d' ≡ app_at d)
    × ((b : ℕ) → (b < tally_addr) ⊎ (tally_addr + ab_sector ≤ b) → nor_at d' b ≡ nor_at d b)

region-one : (f : ℕ → ℕ) (a : ℕ) {v : ℕ} → region f a 1 ≡ v ∷ [] → f a ≡ v
unfolding region
region-one f a e = cc

failures-mark :
    (f g : ℕ → ℕ) (idx : ℕ)
    → idx < ab_sector
    → f (tally_addr + idx) ≡ 0xff
    → g (tally_addr + idx) ≡ 0
    → ((b : ℕ) → (b < tally_addr + idx) ⊎ (tally_addr + idx + 1 ≤ b) → g b ≡ f b)
    → failures g ≡ suc (failures f)
unfolding failures
failures-mark f g idx lt full clear else_ =
    count_zeros-mark f g ab_sector tally_addr idx 0 lt full clear (λ b ne. else_ b (apart b ne))
  where
    apart : (b : ℕ) → b ≢ tally_addr + idx → (b < tally_addr + idx) ⊎ (tally_addr + idx + 1 ≤ b)
    apart b ne = omega arith

module _ {D : Type 0} (io : Io D) (nor_at app_at : D → ℕ → ℕ)
    (ok_io : IsFaithful io nor_at app_at) where
  -- What the scan from `off` on says, with `left` buffers to go.
  abbrev Found : (ℕ → ℕ) → ℕ → ℕ → Option ℕ → Type 0
  Found nor left off none = (i : ℕ) → off ≤ i → i < off + 256 * left → nor (tally_addr + i) ≢ 0xff
  Found nor left off (some idx) = (idx < off + 256 * left) × (nor (tally_addr + idx) ≡ 0xff)

  Found-next :
      (nor : ℕ → ℕ) (left off : ℕ) (r : Option ℕ)
      → FoundIn nor (tally_addr + off) 256 none
      → Found nor left (off + 256) r
      → Found nor (suc left) off r
  Found-next nor left off none here later = λ i le lt. elim (Bool-cases (leb (off + 256) i)) [
    | inl far ↦ later i (ground arith) (omega arith)
    | inr near ↦ λ e.
        let e' : tally_addr + off + (i - off) ≡ tally_addr + i = omega arith in
        here (i - off) (ground arith) (ap nor e' ∙ e)
  ]
  Found-next nor left off (some idx) here later = (omega (arith, later.0), later.1)

  Found-here :
      (nor : ℕ → ℕ) (left off i : ℕ)
      → FoundIn nor (tally_addr + off) 256 (some i)
      → Found nor (suc left) off (some (off + i))
  Found-here nor left off i h =
      let e : tally_addr + (off + i) ≡ tally_addr + off + i = omega arith in
      (omega (arith, h.0), ap nor e ∙ h.1)

  module _ (nor app : ℕ → ℕ) where
    abbrev Scanned : ℕ → ℕ → D → Option ℕ → Type 0
    Scanned left off d' r = At nor_at app_at nor app d' × Found nor left off r

    free_or-Ends :
        (left off : ℕ) (r : Option ℕ) (rest : Action D (Option ℕ)) (d : D)
        → At nor_at app_at nor app d
        → FoundIn nor (tally_addr + off) 256 r
        → Ends (rest d) (Scanned left (off + 256)) (At nor_at app_at nor app)
        → Ends (free_or io off r rest d) (Scanned (suc left) off) (At nor_at app_at nor app)
    free_or-Ends left off none rest d at here later =
        Ends_mono (Scanned left (off + 256)) (At nor_at app_at nor app) (Scanned (suc left) off)
          (At nor_at app_at nor app) (rest d) later
          (λ d' r h. (h.0, Found-next nor left off r here h.1)) (λ d' h. h)
    free_or-Ends left off (some i) rest d at here later = (at, Found-here nor left off i here)

    scan_tally-Ends :
        (left off : ℕ) (d : D)
        → off + 256 * left ≤ ab_sector
        → At nor_at app_at nor app d
        → Ends (scan_tally io left off d) (Scanned left off) (At nor_at app_at nor app)
    unfolding scan_tally
    scan_tally-Ends zero off d below at = (at, λ i le lt. absurd (omega arith))
    scan_tally-Ends (suc left) off d below at =
        let a = tally_addr + off in
        let d1 = (io.nor_read a 256 d).0 in
        let at1 : At nor_at app_at nor app d1 =
          (ok_io.nor_read_nor a 256 d ∙ at.0, ok_io.nor_read_app a 256 d ∙ at.1) in
        let Buf =
          λ (d' : D) (buf : List ℕ). At nor_at app_at nor app d' × (buf ≡ region nor a 256) in
        Ends-after Buf (At nor_at app_at nor app) (Scanned (suc left) off)
          (At nor_at app_at nor app) (read (io.nor_read a 256) d) _
          (Ends-read (At nor_at app_at nor app) Buf (io.nor_read a 256) d
            (λ bs e. (
              at1,
              ok_io.nor_read_gives a 256 d bs (omega arith) e ∙ ap (λ g. region g a 256) at.0,
            ))
            at1)
          (λ d' buf h.
            free_or-Ends left off (find_free buf) (scan_tally io left (off + 256)) d' h.0
              (rw h.1 (find_free-FoundIn nor 256 a))
              (scan_tally-Ends left (off + 256) d' (omega arith) h.0))
          (λ d' h. h)

  module _ (local_io : IsLocal io nor_at app_at) (ok_flash : IsStoring io nor_at) where
    -- One more failure, or a tally that is full and stays as it is.
    abbrev pub IsCounted : D → D → Unit {0} → Type 0
    IsCounted d d' _ =
        IsTallyOnly nor_at app_at d d'
        × (((failures (nor_at d') ≡ suc (failures (nor_at d)))
              × ((b : ℕ) → (nor_at d' b ≡ nor_at d b) ⊎ (nor_at d' b ≡ 0)))
            ⊎ (IsFull (nor_at d) × (nor_at d' ≡ nor_at d)))

    mark_at-Ends :
        (d d1 : D) (r : Option ℕ)
        → Scanned (nor_at d) (app_at d) 16 0 d1 r
        → Ends (mark_at io r d1) (IsCounted d) (IsTallyOnly nor_at app_at d)
    mark_at-Ends d d1 none h = (
      (h.0.1, λ b out. ap (λ g. g b) h.0.0),
      inr ((λ i lt. h.1 i (omega arith) (omega arith)), h.0.0),
    )
    mark_at-Ends d d1 (some idx) h =
        Ends-run_good (IsTallyOnly nor_at app_at d) (IsCounted d) (io.nor_write a (0 ∷ [])) d1
          (λ good. (frame, inl (counted (stores good), cleared (stores good)))) frame
      where
        a : ℕ
        a = tally_addr + idx

        after : ℕ → ℕ
        after = nor_at (io.nor_write a (0 ∷ []) d1).0

        inside : idx < ab_sector
        inside = h.1.0

        else_ : (b : ℕ) → (b < a) ⊎ (a + 1 ≤ b) → after b ≡ nor_at d b
        else_ b out = local_io.nor_write_else a (0 ∷ []) d1 b out ∙ ap (λ g. g b) h.0.0

        frame : IsTallyOnly nor_at app_at d (io.nor_write a (0 ∷ []) d1).0
        frame = (ok_io.nor_write_app a (0 ∷ []) d1 ∙ h.0.1, λ b out. else_ b (apart b out))
          where
            apart :
                (b : ℕ) → (b < tally_addr) ⊎ (tally_addr + ab_sector ≤ b) → (b < a) ⊎ (a + 1 ≤ b)
            apart b (inl lt) = inl (omega arith)
            apart b (inr le) = inr (omega (arith, inside))

        stores : (io.nor_write a (0 ∷ []) d1).1 ≡ true → region after a 1 ≡ 0 ∷ []
        stores good =
            ok_flash.nor_write_stores a (0 ∷ []) d1 (omega arith)
              (λ i lt.
                let e : a + i ≡ a = omega arith in ap (nor_at d1) e ∙ ap (λ g. g a) h.0.0 ∙ h.1.1)
              good

        counted : region after a 1 ≡ 0 ∷ [] → failures after ≡ suc (failures (nor_at d))
        counted e = failures-mark (nor_at d) after idx inside h.1.1 (region-one after a e) else_

        cleared : region after a 1 ≡ 0 ∷ [] → (b : ℕ) → (after b ≡ nor_at d b) ⊎ (after b ≡ 0)
        cleared e b = elim (Bool-cases (b == a)) [
          | inl same ↦ let e' : b ≡ a = ground arith in inr (ap after e' ∙ region-one after a e)
          | inr other ↦ let ne : b ≢ a = ground arith in inl (else_ b (omega arith))
        ]

    -- Marking a boot touches the tally sector alone. If it succeeds, the bootloader counts one failed
    -- boot more, by a byte that became zero, unless the sector has no erased byte left.
    pub boot_pending-Ends :
        (d : D) → Ends (boot_pending io d) (IsCounted d) (IsTallyOnly nor_at app_at d)
    unfolding boot_pending
    boot_pending-Ends d =
        Ends-after (Scanned (nor_at d) (app_at d) 16 0) (At nor_at app_at (nor_at d) (app_at d))
          (IsCounted d) (IsTallyOnly nor_at app_at d) (scan_tally io 16 0 d) (mark_at io)
          (scan_tally-Ends (nor_at d) (app_at d) 16 0 d (omega arith) (refl, refl))
          (λ d1 r h. mark_at-Ends d d1 r h) (λ d1 h. (h.1, λ b out. ap (λ g. g b) h.0))
