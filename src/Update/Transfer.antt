-- ===== src/Update/Transfer.antt =====
-- The download: `apx_update_write`.
use steelseries_apex_pro_min.Prelude.{
  ℕ, ◌+◌, ◌-◌, ◌%◌, ◌==◌, ◌≤◌, ◌<◌, ◌≡◌, inl, inr, ltb, not, if◌then◌else◌, Bool, true, false,
  Option, none, some, List, length, arith, refl, ap, sym, ◌∙◌, same_bytes, same_bytes_iff,
  Bool-cases,
}
use Prim.Native.Nat.{max}
use steelseries_apex_pro_min.Flash.{Io, Result, ok, err, failed, invalid, read, run}
use steelseries_apex_pro_min.Flash.Laws.{
  region, IsFaithful, IsLocal, Ends, Ends-after, Ends-read, Ends-run, Ends-check, Ends-if,
}
use steelseries_apex_pro_min.Update.{Download, address, capacity, sector}
use steelseries_apex_pro_min.Update.Journal.{write_refused, rewrite_at, append_at, same_as, write}
use steelseries_apex_pro_min.Update.Candidate.{address-lt}
use steelseries_apex_pro_min.Update.Places.{IsKept, away, IsKept-region, region-address}

module _ {D : Type 0} (io : Io D) (nor_at app_at : D → ℕ → ℕ) (ok_io : IsFaithful io nor_at app_at)
    (local_io : IsLocal io nor_at app_at) where
  abbrev pub stored : D → ℕ → ℕ
  stored d i = nor_at d (address i)

  -- After a failure too, only bytes from the offset on have changed.
  pub IsAt : ℕ → D → D → Type 0
  IsAt offset d d' = IsKept offset (nor_at d) (nor_at d') × (app_at d' ≡ app_at d)

  pub IsAt-refl : (offset : ℕ) (d : D) → IsAt offset d d
  unfolding IsAt
  IsAt-refl offset d = ((λ b h. refl), refl)

  erase-IsAt :
      (offset : ℕ) (d d' : D)
      → offset % sector ≡ 0
      → offset < capacity
      → IsAt offset d d'
      → IsAt offset d (io.nor_erase (address offset) sector d').0
  unfolding IsAt
  erase-IsAt offset d d' aligned below h = (
    (λ b other.
        local_io.nor_erase_else (address offset) sector d' b
          (away offset sector b (omega arith) (omega arith) other)
        ∙ h.0 b other),
    local_io.nor_erase_app (address offset) sector d' ∙ h.1,
  )

  write-IsAt :
      (offset : ℕ) (bytes : List ℕ) (d d' : D)
      → offset % sector + length bytes ≤ sector
      → offset + length bytes ≤ capacity
      → IsAt offset d d'
      → IsAt offset d (io.nor_write (address offset) bytes d').0
  unfolding IsAt
  write-IsAt offset bytes d d' inside below h = (
    (λ b other.
        local_io.nor_write_else (address offset) bytes d' b
          (away offset (length bytes) b inside below other)
        ∙ h.0 b other),
    ok_io.nor_write_app (address offset) bytes d' ∙ h.1,
  )

  read-IsAt : (offset a n : ℕ) (d d' : D) → IsAt offset d d' → IsAt offset d (io.nor_read a n d').0
  unfolding IsAt
  read-IsAt offset a n d d' h = (
    (λ b other. ap (λ g. g b) (ok_io.nor_read_nor a n d') ∙ h.0 b other),
    ok_io.nor_read_app a n d' ∙ h.1,
  )

  read_back :
      (offset : ℕ) (bytes verify : List ℕ) (d : D)
      → 0 < length bytes
      → offset % sector + length bytes ≤ sector
      → offset + length bytes ≤ capacity
      → (io.nor_read (address offset) (length bytes) d).1 ≡ some verify
      → verify ≡ region (stored d) offset (length bytes)
  read_back offset bytes verify d some_bytes inside below e =
      ok_io.nor_read_gives (address offset) (length bytes) d verify
        (address-lt offset (omega arith)) e
      ∙ region-address (nor_at d) offset (length bytes) inside below

  append_at-Ends :
      (offset : ℕ) (bytes : List ℕ) (d : D)
      → 0 < length bytes
      → offset % sector + length bytes ≤ sector
      → offset + length bytes ≤ capacity
      → Ends
          (append_at io offset bytes d)
          (λ d' _. IsAt offset d d' × (region (stored d') offset (length bytes) ≡ bytes))
          (IsAt offset d)
  unfolding append_at
  append_at-Ends offset bytes d some_bytes inside below =
      let E = IsAt offset d in
      let E' = λ (d' : D) (_ : Unit {0}). E d' in
      let Q =
        λ (d' : D) (_ : Unit {0}). E d' × (region (stored d') offset (length bytes) ≡ bytes) in
      Ends-after E' E Q E _ _
        (Ends-if E' E (offset % sector == 0) _ _ d
          (λ first.
            let h = erase-IsAt offset d d (ground arith) (omega arith) (IsAt-refl offset d) in
            Ends-run E E' (io.nor_erase (address offset) sector) d h h)
          (λ _. IsAt-refl offset d))
        (λ d1 _ h1.
          let h = write-IsAt offset bytes d d1 inside below h1 in
          Ends-after E' E Q E (run (io.nor_write (address offset) bytes) d1) _
            (Ends-run E E' (io.nor_write (address offset) bytes) d1 h h)
            (λ d2 _ h2.
              let m = io.nor_read (address offset) (length bytes) in
              let R = λ (d3 : D) (verify : List ℕ).
                E d3 × (verify ≡ region (stored d3) offset (length bytes)) in
              let h3 = read-IsAt offset (address offset) (length bytes) d d2 h2 in
              Ends-after R E Q E (read m d2) _
                (Ends-read E R m d2
                  (λ verify e. (
                    h3,
                    read_back offset bytes verify d2 some_bytes inside below e
                        ∙ ap (λ g. region (λ i. g (address i)) offset (length bytes))
                            (sym (ok_io.nor_read_nor (address offset) (length bytes) d2)),
                  ))
                  h3)
                (λ d3 verify r.
                  Ends-check E Q (same_bytes verify bytes) failed d3
                    (λ e. (r.0, sym r.1 ∙ (same_bytes_iff verify bytes).0 e)) r.0)
                (λ _ k. k))
            (λ _ k. k))
        (λ _ k. k)

  -- What a write leaves: the earlier bytes of the image; and the new ones with no gap, if it succeeds.
  abbrev pub IsWritten : Download → ℕ → List ℕ → D → (D × Download) × Result (Unit {0}) → Type 0
  IsWritten w offset bytes d ((d', w'), ok _) =
      IsAt w.received d d'
      × (region (stored d') offset (length bytes) ≡ bytes)
      × (offset ≤ w.received)
      × (w' ≡ record w { received = max w.received (offset + length bytes) })
  IsWritten w offset bytes d ((d', w'), err e) = IsAt w.received d d' × (w' ≡ w)

  IsWritten-if :
      (w : Download) (offset : ℕ) (bytes : List ℕ) (d : D) (b : Bool)
      (x y : (D × Download) × Result (Unit {0}))
      → (b ≡ true → IsWritten w offset bytes d x)
      → (b ≡ false → IsWritten w offset bytes d y)
      → IsWritten w offset bytes d (if b then x else y)
  IsWritten-if w offset bytes d true x y h k = h refl
  IsWritten-if w offset bytes d false x y h k = k refl

  IsWritten-IsAt :
      (w : Download) (offset : ℕ) (bytes : List ℕ) (d : D) (p : (D × Download) × Result (Unit {0}))
      → IsWritten w offset bytes d p
      → IsAt w.received d p.0.0
  IsWritten-IsAt w offset bytes d ((d', w'), ok _) h = h.0
  IsWritten-IsAt w offset bytes d ((d', w'), err e) h = h.0

  module _ (w : Download) (offset : ℕ) (bytes : List ℕ) (d : D) where
    refused-IsWritten : IsWritten w offset bytes d ((d, w), err invalid)
    refused-IsWritten = (IsAt-refl w.received d, refl)

    rewrite_at-Ends :
        offset < w.received
        → 0 < length bytes
        → offset % sector + length bytes ≤ sector
        → offset + length bytes ≤ capacity
        → Ends
            (rewrite_at io w.received offset bytes d)
            (λ d' _.
              IsAt w.received d d'
              × (region (stored d') offset (length bytes) ≡ bytes)
              × (offset + length bytes ≤ w.received))
            (IsAt w.received d)
    unfolding rewrite_at
    rewrite_at-Ends before some_bytes inside below =
        elim (Bool-cases (ltb (w.received - offset) (length bytes))) [
          | inl long ↦ rw long (IsAt-refl w.received d)
          | inr short ↦ rw short (
              go (io.nor_read (address offset) (length bytes) d).1 (ground arith)
                (λ verify e. read_back offset bytes verify d some_bytes inside below e))
        ]
      where
        d1 : D
        d1 = (io.nor_read (address offset) (length bytes) d).0

        at : IsAt w.received d d1
        at = read-IsAt w.received (address offset) (length bytes) d d (IsAt-refl w.received d)

        go :
            (r : Option (List ℕ))
            → offset + length bytes ≤ w.received
            → ((verify : List ℕ)
                → r ≡ some verify
                → verify ≡ region (stored d) offset (length bytes))
            → Ends
                (same_as io bytes (d1, r))
                (λ d' _.
                  IsAt w.received d d'
                  × (region (stored d') offset (length bytes) ≡ bytes)
                  × (offset + length bytes ≤ w.received))
                (IsAt w.received d)
        go none le gives = at
        go (some verify) le gives = elim (Bool-cases (same_bytes verify bytes)) [
          | inl same ↦ rw same (
            at,
            ap (λ g. region (λ i. g (address i)) offset (length bytes))
                  (ok_io.nor_read_nor (address offset) (length bytes) d)
                ∙ sym (gives verify refl)
                ∙ (same_bytes_iff verify bytes).0 same,
            le,
          )
          | inr other ↦ rw other at
        ]

    repeat-IsWritten :
        (p : D × Result (Unit {0}))
        → Ends p
            (λ d' _.
              IsAt w.received d d'
              × (region (stored d') offset (length bytes) ≡ bytes)
              × (offset + length bytes ≤ w.received))
            (IsAt w.received d)
        → IsWritten w offset bytes d (let (d', r) = p in ((d', w), r))
    repeat-IsWritten (d', ok _) h =
        let most : max w.received (offset + length bytes) ≡ w.received = omega (arith, h.2) in
        rw most (h.0, h.1, omega (arith, h.2), refl)
    repeat-IsWritten (d', err e) h = (h, refl)

    append-IsWritten :
        (p : D × Result (Unit {0}))
        → offset ≡ w.received
        → Ends p
            (λ d' _. IsAt offset d d' × (region (stored d') offset (length bytes) ≡ bytes))
            (IsAt offset d)
        → IsWritten w offset bytes d (
            let (d', r) = p in
            (
              (d', elim r [ ok _ ↦ record w { received = w.received + length bytes } | err e ↦ w ]),
              r,
            ))
    append-IsWritten (d', ok _) here h =
        let most : max w.received (offset + length bytes) ≡ w.received + length bytes =
          omega arith in
        rw most (rw here at h.0, h.1, omega arith, refl)
    append-IsWritten (d', err e) here h = (rw here at h, refl)

    write-IsWritten :
        w.manifest.image_length ≤ capacity → IsWritten w offset bytes d (write io w offset bytes d)
    unfolding write
    write-IsWritten fits =
        IsWritten-if w offset bytes d (write_refused io w offset (length bytes)) _ _
          (λ _. refused-IsWritten)
          (λ fine.
            let inside : offset % sector + length bytes ≤ sector = ground arith in
            let below : offset + length bytes ≤ capacity = ground arith in
            let some_bytes : 0 < length bytes = ground arith in
            IsWritten-if w offset bytes d (ltb offset w.received) _ _
              (λ before.
                repeat-IsWritten (rewrite_at io w.received offset bytes d)
                  (rewrite_at-Ends (ground arith) some_bytes inside below))
              (λ _.
                IsWritten-if w offset bytes d (not (offset == w.received)) _ _
                  (λ _. refused-IsWritten)
                  (λ here.
                    append-IsWritten (append_at io offset bytes d) (ground arith)
                      (append_at-Ends offset bytes d some_bytes inside below))))

    -- For an image and a received length within the capacity: a write changes only places of the image
    -- from the received length on, also when it fails, so the bytes received before are kept. If it
    -- succeeds, the fragment is stored at its offset, which is not beyond the received length, and that
    -- length is then the larger of what it was and the fragment's end; else the download is unchanged.
    pub write-stored :
        w.manifest.image_length ≤ capacity
        → w.received ≤ capacity
        → IsWritten w offset bytes d (write io w offset bytes d)
          × (region (stored (write io w offset bytes d).0.0) 0 w.received
              ≡ region (stored d) 0 w.received)
    unfolding IsAt
    write-stored fits below =
        let written = write-IsWritten fits in
        let kept = IsWritten-IsAt w offset bytes d (write io w offset bytes d) written in
        (
          written,
          IsKept-region w.received (nor_at d) (nor_at (write io w offset bytes d).0.0) below kept.0,
        )
