-- ===== src/Hid/Order.antt =====
-- What USB gets, after any interleaving of the radio's, the USB stack's and the polling thread's steps.
use steelseries_apex_pro_min.Prelude.{
  ℕ, ◌^◌, ◌<◌, ◌==◌, ◌≡◌, ◌≢◌, ◌&&◌, ◌||◌, not, ltb, if◌then◌else◌, Bool, true, false, inl, inr,
  some, List, [], ◌∷◌, ◌++◌, take, arith, refl, ap₂, ◌∙◌, Bool-cases,
}
use steelseries_apex_pro_min.Input.{Frame, keyboard_type, consumer_type, size}
use steelseries_apex_pro_min.Delivery.{Rx, complete}
use steelseries_apex_pro_min.Delivery.Receiver.{IsSound, waiting, complete_lem}
use steelseries_apex_pro_min.Hid.{
  Hid, releasing, account, report_done, Choice, Outcome, submitted, submit, protocol_boot, store,
}
use steelseries_apex_pro_min.Hid.Steps.{Reach, IsFirst, IsInOrder, IsFirst-IsNext}
use steelseries_apex_pro_min.Hid.Invariant.{held-IsFirst, Reach-IsInOrder}

-- The bytes of a report on USB.
abbrev pub wire_of : Hid → ℕ → List ℕ → List ℕ
wire_of h type payload =
    (if h.protocol == protocol_boot then [] else type ∷ []) ++ take (size type) payload

module _ (n : ℕ) (h : Hid) (c : Choice) (wire : List ℕ) (k : IsInOrder n h (some c))
    (real : c.sequence ≢ 0) where
  -- What a submission shows.
  IsSent : Hid → Type 0
  IsSent h' =
      (releasing h ≡ false)
      × (h.busy ≡ false)
      × IsFirst h.delivery c
      × (wire ≡ wire_of h c.type c.payload)
      × (h'.busy ≡ true)
      × (h'.pending_generation ≡ h'.generation)
      × (h'.pending_sequence ≡ c.sequence)
      × (h'.delivery ≡ h.delivery)

  IsSent-if :
      (b : Bool) (x y : Hid × Outcome)
      → (b ≡ true → x.1 ≡ submitted wire → IsSent x.0)
      → (b ≡ false → y.1 ≡ submitted wire → IsSent y.0)
      → (if b then x else y).1 ≡ submitted wire
      → IsSent (if b then x else y).0
  IsSent-if true x y j k = j refl
  IsSent-if false x y j k = k refl

  IsSent-store :
      (releasing h ≡ false)
      → (h.busy ≡ false)
      → IsFirst h.delivery c
      → wire ≡ wire_of h c.type c.payload
      → IsSent (record (store h c.type (take (size c.type) c.payload)) {
        pending_sequence = c.sequence;
        pending_type = c.type;
        pending_generation = h.generation;
        busy = true;
      })
  unfolding IsSent
  IsSent-store quiet free first body = elim (Bool-cases (c.type == keyboard_type)) [
    | inl a ↦ rw a (quiet, free, first, body, refl, refl, refl, refl)
    | inr a ↦ rw a (quiet, free, first, body, refl, refl, refl, refl)
  ]

  submit-IsSent : (now : ℕ) → (submit h c now).1 ≡ submitted wire → IsSent (submit h c now).0
  unfolding submit
  submit-IsSent now =
      IsSent-if (not (c.expected == h.generation)) _ _ (λ _ e. absurd cc)
        (λ current.
          IsSent-if (ltb now h.hold_until) _ _ (λ _ e. absurd cc)
            (λ _.
              IsSent-if
                (not (c.sequence == 0) && c.sequence == h.delivered_sequence && not (releasing h)) _
                _ (λ _ e. absurd cc)
                (λ fresh.
                  IsSent-if (not h.ready || h.busy || (not (c.sequence == 0) && releasing h)) _ _
                    (λ _ e. absurd cc)
                    (λ free.
                      IsSent-if (h.protocol == protocol_boot && c.type == consumer_type) _ _
                        (λ _ e. absurd cc)
                        (λ _ e.
                          let (quiet, first) = held-IsFirst n h c k (ground arith) real fresh in
                          IsSent-store quiet (ground arith) first cc)))))

-- A success in the generation of the submission completes the report.
done-complete :
    (h : Hid) (sequence : ℕ) (rx : Rx)
    → h.busy ≡ true
    → h.pending_generation ≡ h.generation
    → h.pending_sequence ≡ sequence
    → h.delivery ≡ rx
    → sequence ≢ 0
    → ((report_done h false).delivery ≡ (complete rx sequence).0)
      × ((report_done h false).delivered_sequence ≡ sequence)
unfolding report_done account
done-complete h sequence rx on now same queue real =
    elim (Bool-cases (h.busy && h.pending_generation == h.generation)) [
      | inr off ↦ absurd (ground arith)
      | inl fine ↦ rw fine (elim (Bool-cases (h.pending_sequence == 0)) [
        | inl none_sent ↦ absurd (real (ground arith))
        | inr some_sent ↦ rw some_sent (ap₂ (λ q s. (complete q s).0) queue same, same)
      ])
    ]

complete-first :
    (rx : Rx) (c : Choice)
    → IsSound rx
    → IsFirst rx c
    → (f : Frame) × (waiting rx ≡ f ∷ waiting (complete rx c.sequence).0)
      × (c.sequence ≡ f.sequence)
      × (c.type ≡ f.type)
      × (c.payload ≡ f.payload)
complete-first rx c s (f, rest, e, number, typed, body) =
    let next = IsFirst-IsNext rx c s (f, rest, e, number, typed, body) in
    elim (complete_lem s c.sequence).1 [
      | inl done ↦ (f, let d = done.3 in cc, number, typed, body)
      | inr not_done ↦ absurd (elim not_done.2 [
        | inl empty ↦ omega (arith, s.positions, next.0)
        | inr other ↦ other next.1
      ])
    ]

-- After any interleaving with fewer than 2^32 releases, a report with a number that `submit` hands to
-- USB is the oldest waiting one and no release is to be sent; and its success takes it off the queue.
pub Reach-sends :
    {n : ℕ} {h : Hid} (c : Choice) (now : ℕ) (wire : List ℕ)
    → Reach n h (some c)
    → n < 2 ^ 32
    → c.sequence ≢ 0
    → (submit h c now).1 ≡ submitted wire
    → let h' = report_done (submit h c now).0 false in
      (releasing h ≡ false)
      × (f : Frame) × (waiting h.delivery ≡ f ∷ waiting h'.delivery)
      × (c.sequence ≡ f.sequence)
      × (wire ≡ wire_of h f.type f.payload)
      × (h'.delivered_sequence ≡ f.sequence)
unfolding IsSent
Reach-sends {n} {h} c now wire r below real e =
    let k = Reach-IsInOrder r below in
    let (quiet, free, first, body, on, same, number, queue) =
      submit-IsSent n h c wire k real now e in
    let (gone, shown) =
      done-complete (submit h c now).0 c.sequence h.delivery on same number queue real in
    let (f, joined, numbered, typed, payload) = complete-first h.delivery c k.sound first in
    (
      quiet,
      f,
      rw gone joined,
      numbered,
      body ∙ ap₂ (λ t p. wire_of h t p) typed payload,
      shown ∙ numbered,
    )
