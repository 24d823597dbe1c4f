-- ===== src/Update/Candidate.antt =====
-- What `verify_image` has established when it succeeds, for an image in either flash.
use steelseries_apex_pro_min.Prelude.{
  ℕ, zero, suc, ◌+◌, ◌-◌, ◌/◌, ◌%◌, ◌^◌, ◌==◌, ◌≤◌, ◌<◌, ◌≡◌, inl, inr, min, leb, not, ◌&&◌,
  if◌then◌else◌, Bool, true, false, Option, none, some, List, [], ◌∷◌, ◌++◌, arith, refl, ap, ap₂,
  sym, ◌∙◌, same_bytes, same_bytes_iff, Bool-cases,
}
use mathlib.Core.List.{append_assoc, append-nil}
use steelseries_apex_pro_min.Flash.{Io, ok, err, failed, invalid, read}
use steelseries_apex_pro_min.Flash.Laws.{
  region, region-add, region_ext, IsFaithful, At, Ends, Ends-after, Ends_mono, Ends-read, Ends-if,
}
use steelseries_apex_pro_min.Update.{Manifest, address, base, capacity, vectors_valid, scan}
use steelseries_apex_pro_min.Update.Image.{image_read, verify_loop, judge, verify_image}

-- The regions of the NOR flash begin at sectors, so a chunk of the image lies in one of them.
pub address-add :
    (offset i : ℕ)
    → offset % 256 ≡ 0
    → i < 256
    → offset + i < capacity
    → address (offset + i) ≡ address offset + i
unfolding address
address-add offset i aligned lt below = ground arith

-- They lie in the 24-bit address space of the flash.
pub address-lt : (offset : ℕ) → offset < capacity → address offset < 2 ^ 24
unfolding address
address-lt offset h = ground arith

-- The bytes of an image in the internal flash or in the NOR flash.
abbrev pub image_at : Bool → (ℕ → ℕ) → (ℕ → ℕ) → ℕ → ℕ
image_at true nor app offset = app (base + offset)
image_at false nor app offset = nor (address offset)

pub scan-append : (xs ys : List ℕ) (s : ℕ × Bool) → scan (xs ++ ys) s ≡ scan ys (scan xs s)
unfolding scan
scan-append [] ys s = refl
scan-append (x ∷ xs) ys s = scan-append xs ys (scan (x ∷ []) s)

-- An image that belongs to a manifest: vectors, marker and digest are as they have to be.
unfoldable pub IsImage : (List ℕ → Option (List ℕ)) → Manifest → (ℕ → ℕ) → Type 0
IsImage digest h f =
    (vectors_valid h.image_length (region f 0 (min h.image_length 256)) ≡ true)
    × ((scan (region f 0 h.image_length) (0, false)).1 ≡ true)
    × (digest (region f 0 h.image_length) ≡ some h.sha256)

-- The image in the NOR flash or in the internal one is that of the manifest.
abbrev pub IsStaged : (List ℕ → Option (List ℕ)) → Manifest → (ℕ → ℕ) → Type 0
IsStaged digest h nor = IsImage digest h (λ i. nor (address i))

abbrev pub IsInstalled : (List ℕ → Option (List ℕ)) → Manifest → (ℕ → ℕ) → Type 0
IsInstalled digest h app = IsImage digest h (λ i. app (base + i))

module _ {D : Type 0} (io : Io D) (nor_at app_at : D → ℕ → ℕ)
    (ok_io : IsFaithful io nor_at app_at) where
  module _ (digest : List ℕ → Option (List ℕ)) (h : Manifest) (fits : h.image_length ≤ capacity)
      (nor app : ℕ → ℕ) (internal : Bool) where
    abbrev f : ℕ → ℕ
    f = image_at internal nor app

    IsRest : ℕ → ℕ × Bool → List ℕ → Bool × List ℕ → Type 0
    IsRest offset s fed r =
        (r ≡ (
          (scan (region f offset (h.image_length - offset)) s).1,
          fed ++ region f offset (h.image_length - offset),
        ))
        × (offset < h.image_length
            → offset ≡ 0
            → vectors_valid h.image_length (region f 0 (min h.image_length 256)) ≡ true)

    image_read-At :
        (offset n : ℕ) (d : D)
        → At nor_at app_at nor app d
        → At nor_at app_at nor app (image_read io digest h internal offset n d).0
    image_read-At offset n d at = go internal
      where
        go : (b : Bool) → At nor_at app_at nor app (image_read io digest h b offset n d).0
        go true = (
          ok_io.app_read_nor (base + offset) n d ∙ at.0,
          ok_io.app_read_app (base + offset) n d ∙ at.1,
        )
        go false = (
          ok_io.nor_read_nor (address offset) n d ∙ at.0,
          ok_io.nor_read_app (address offset) n d ∙ at.1,
        )

    image_read-region :
        (offset n : ℕ) (d : D)
        → At nor_at app_at nor app d
        → offset % 256 ≡ 0
        → 0 < n
        → n ≤ 256
        → offset + n ≤ capacity
        → (bs : List ℕ) → (image_read io digest h internal offset n d).1 ≡ some bs
        → bs ≡ region f offset n
    image_read-region offset n d at aligned some_bytes small below bs = go internal
      where
        go :
            (b : Bool)
            → (image_read io digest h b offset n d).1 ≡ some bs
            → bs ≡ region (image_at b nor app) offset n
        go true e =
            ok_io.app_read_gives (base + offset) n d bs e
            ∙ rw at.1 (
                region_ext app (λ k. app (base + k)) (base + offset) offset n
                  (λ i lt. ap app (omega arith)))
        go false e =
            ok_io.nor_read_gives (address offset) n d bs (address-lt offset (omega arith)) e
            ∙ rw at.0 (
                region_ext nor (λ k. nor (address k)) (address offset) offset n
                  (λ i lt. ap nor (sym (address-add offset i aligned (omega arith) (omega arith)))))

    IsRest-step :
        (offset n : ℕ) (s : ℕ × Bool) (fed bs : List ℕ) (r : Bool × List ℕ)
        → n ≡ min (h.image_length - offset) 256
        → offset < h.image_length
        → bs ≡ region f offset n
        → (offset == 0 && not (vectors_valid h.image_length bs)) ≡ false
        → IsRest (offset + n) (scan bs s) (fed ++ bs) r
        → IsRest offset s fed r
    unfolding IsRest
    IsRest-step offset n s fed bs r size below here good rest =
        let R = region f offset n in
        let R2 = region f (offset + n) (h.image_length - (offset + n)) in
        let split : region f offset (h.image_length - offset) ≡ R ++ R2 =
          ap (λ k. region f offset k) (omega arith)
          ∙ region-add f offset n (h.image_length - (offset + n)) in
        let scanned : (scan R2 (scan bs s)) ≡ scan (R ++ R2) s =
          rw here (sym (scan-append R R2 s)) in
        let joined : (fed ++ bs) ++ R2 ≡ fed ++ (R ++ R2) = rw here (append_assoc fed R R2) in
        (
          rest.0 ∙ rw split (ap₂ (λ (a : ℕ × Bool) (b : List ℕ). (a.1, b)) scanned joined),
          λ _ zero_offset. first_chunk zero_offset,
        )
      where
        first_chunk :
            offset ≡ 0 → vectors_valid h.image_length (region f 0 (min h.image_length 256)) ≡ true
        first_chunk e =
            let shape : region f 0 (min h.image_length 256) ≡ bs =
              ap₂ (λ a b. region f a b) (sym e) (omega arith) ∙ sym here in
            rw shape (ground arith)

    IsRest-done :
        (offset : ℕ) (s : ℕ × Bool) (fed : List ℕ)
        → h.image_length ≤ offset
        → IsRest offset s fed (s.1, fed)
    unfolding IsRest region scan
    IsRest-done offset s fed past =
        let none_left : h.image_length - offset ≡ 0 = omega arith in
        (rw none_left (ap (λ b. (s.1, b)) (sym (append-nil fed))), λ lt. absurd (omega arith))

    verify_loop-Ends :
        (fuel offset : ℕ) (s : ℕ × Bool) (fed : List ℕ) (d : D)
        → At nor_at app_at nor app d
        → (offset < h.image_length → offset % 256 ≡ 0)
        → Ends
            (verify_loop io digest h internal fuel offset s fed d)
            (λ d' r. At nor_at app_at nor app d' × IsRest offset s fed r)
            (At nor_at app_at nor app)
    unfolding verify_loop
    verify_loop-Ends zero offset s fed d at aligned = at
    verify_loop-Ends (suc fuel) offset s fed d at aligned =
        Ends-if (λ d' r. At nor_at app_at nor app d' × IsRest offset s fed r)
          (At nor_at app_at nor app) (leb h.image_length offset) _ _ d
          (λ e. (at, IsRest-done offset s fed (ground arith)))
          (λ e.
            let n = min (h.image_length - offset) 256 in
            let m = image_read io digest h internal offset n in
            let below : offset < h.image_length = ground arith in
            let at' = image_read-At offset n d at in
            Ends-after (λ d' bs. At nor_at app_at nor app d' × (bs ≡ region f offset n))
              (At nor_at app_at nor app)
              (λ d' r. At nor_at app_at nor app d' × IsRest offset s fed r)
              (At nor_at app_at nor app) (read m d) _
              (Ends-read (At nor_at app_at nor app)
                (λ d' bs. At nor_at app_at nor app d' × (bs ≡ region f offset n)) m d
                (λ bs found. (
                  at',
                  image_read-region offset n d at (aligned below) (omega arith) (omega arith)
                      (omega arith) bs found,
                ))
                at')
              (λ d' bs q.
                Ends-if (λ d' r. At nor_at app_at nor app d' × IsRest offset s fed r)
                  (At nor_at app_at nor app) (offset == 0 && not (vectors_valid h.image_length bs))
                  _ _ d' (λ _. q.0)
                  (λ good.
                    Ends_mono
                      (λ d' r.
                        At nor_at app_at nor app d' × IsRest (offset + n) (scan bs s) (fed ++ bs) r)
                      (At nor_at app_at nor app)
                      (λ d' r. At nor_at app_at nor app d' × IsRest offset s fed r)
                      (At nor_at app_at nor app) _
                      (verify_loop-Ends fuel (offset + n) (scan bs s) (fed ++ bs) d' q.0
                        (λ lt. omega (arith, aligned below)))
                      (λ d' r t. (t.0, IsRest-step offset n s fed bs r refl below q.1 good t.1))
                      (λ d' t. t)))
              (λ d' t. t))

    judge-Ends :
        (d : D) (r : Bool × List ℕ)
        → At nor_at app_at nor app d
        → IsRest 0 (0, false) [] r
        → 8 ≤ h.image_length
        → Ends
            (judge io digest h r d)
            (λ d' _. At nor_at app_at nor app d' × IsImage digest h f)
            (At nor_at app_at nor app)
    unfolding IsImage IsRest
    judge-Ends d (found, fed) at rest long = go (digest fed) refl
      where
        whole : h.image_length - 0 ≡ h.image_length
        whole = omega arith

        seen :
            (found ≡ (scan (region f 0 h.image_length) (0, false)).1)
            × (fed ≡ region f 0 h.image_length)
        seen = (rw whole at (ap (λ p. p.0) rest.0), rw whole at (ap (λ p. p.1) rest.0))

        fed_all : fed ≡ region f 0 h.image_length
        fed_all = seen.1

        go :
            (o : Option (List ℕ))
            → digest fed ≡ o
            → Ends {A = Unit {0}}
                (elim o [
                  | none ↦ (d, err failed)
                  | some sum ↦ (d, if found && same_bytes sum h.sha256 then ok tt else err invalid)
                ])
                (λ d' _. At nor_at app_at nor app d' × IsImage digest h f)
                (At nor_at app_at nor app)
        go none e = at
        go (some sum) e = elim (Bool-cases (found && same_bytes sum h.sha256)) [
          | inl good ↦ rw good (
            at,
            (
              rest.1 (omega arith) refl,
              sym seen.0 ∙ ground arith,
              rw fed_all at e ∙ ap some ((same_bytes_iff sum h.sha256).0 (ground arith)),
            ),
          )
          | inr bad ↦ rw bad at
        ]

    -- The verification changes no byte, and it succeeds on an image of this manifest only.
    pub verify_image-Ends :
        (d : D)
        → At nor_at app_at nor app d
        → 8 ≤ h.image_length
        → Ends
            (verify_image io digest h internal d)
            (λ d' _. At nor_at app_at nor app d' × IsImage digest h (image_at internal nor app))
            (At nor_at app_at nor app)
    unfolding verify_image IsImage
    verify_image-Ends d at long =
        Ends-after (λ d' r. At nor_at app_at nor app d' × IsRest 0 (0, false) [] r)
          (At nor_at app_at nor app)
          (λ d' _. At nor_at app_at nor app d' × IsImage digest h (image_at internal nor app))
          (At nor_at app_at nor app) _ _
          (verify_loop-Ends (h.image_length / 256 + 2) 0 (0, false) [] d at (λ _. refl))
          (λ d' r q. judge-Ends d' r q.0 q.1 long) (λ d' t. t)
