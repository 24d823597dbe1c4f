-- ===== src/Hid/Invariant.antt =====
-- Every step keeps the order of the reports.
use steelseries_apex_pro_min.Prelude.{
  ℕ, ◌+◌, ◌^◌, ◌<◌, ◌==◌, ◌≡◌, ◌≢◌, ◌&&◌, ◌||◌, not, ltb, if◌then◌else◌, Bool, true, false, inl,
  inr, Option, none, some, List, take, arith, refl, ap, ◌∙◌, u32, length, bit_and, byte_at,
  Bool-cases,
}
use steelseries_apex_pro_min.Input.{keyboard_type, consumer_type, size}
use steelseries_apex_pro_min.Delivery.Receiver.{rx_reset-IsSound, complete-IsSound}
use steelseries_apex_pro_min.Hid.{
  Hid, releasing, release, set_report, Choice, Outcome, skip, submit, protocol_boot, store,
}
use steelseries_apex_pro_min.Hid.Steps.{
  Step, readies, switches, finishes, lights, holds, delivers, polls, submits, fails, Reach, started,
  stepped, released, IsFirst, Holds, IsInOrder, IsFirst-IsNext,
}
use steelseries_apex_pro_min.Hid.Arrivals.{
  deliver-IsInOrder, poll-Holds, idle-IsInOrder, finish-IsInOrder,
}

module _ (n : ℕ) (h : Hid) where
  let_go : (l : Option Choice) → IsInOrder n h l → IsInOrder n h none
  unfolding Holds
  let_go l k = record {
    sound = k.sound;
    begun = k.begun;
    earlier = k.earlier;
    pending = k.pending;
    holds = tt;
  }

  pub skip-IsInOrder :
      (c : Choice) → h.busy ≡ false → IsInOrder n h (some c) → IsInOrder n (skip h c) none
  unfolding skip Holds
  skip-IsInOrder c off k = elim (Bool-cases (c.sequence == 0)) [
    | inl zero_skipped ↦ rw zero_skipped (record {
      sound = k.sound;
      begun = k.begun;
      earlier = k.earlier;
      pending = λ on now real. absurd cc;
      holds = tt;
    })
    | inr real ↦ rw real (record {
      sound = complete-IsSound k.sound c.sequence;
      begun = k.begun;
      earlier = k.earlier;
      pending = λ on now real. absurd cc;
      holds = tt;
    })
  ]

  -- A report that passes the tests of `submit` is the oldest one.
  pub held-IsFirst :
      (c : Choice)
      → IsInOrder n h (some c)
      → c.expected ≡ h.generation
      → c.sequence ≢ 0
      → (not (c.sequence == 0) && c.sequence == h.delivered_sequence && not (releasing h)) ≡ false
      → (releasing h ≡ false) × IsFirst h.delivery c
  unfolding Holds
  held-IsFirst c k now real fresh =
      let held = k.holds.1 (now ∙ k.begun) real in
      (held.0, elim held.1 [ inl here ↦ here | inr sent ↦ absurd (ground (arith, sent.0, held.0)) ])

  pub after-if :
      (b : Bool) (x y : Hid × Outcome)
      → (b ≡ true → IsInOrder n x.0 none)
      → (b ≡ false → IsInOrder n y.0 none)
      → IsInOrder n (if b then x else y).0 none
  after-if true x y j k = j refl
  after-if false x y j k = k refl

  pub busy-IsInOrder :
      (c : Choice) (body : List ℕ)
      → IsInOrder n h (some c)
      → (c.sequence ≢ 0 → IsFirst h.delivery c)
      → IsInOrder n
          (record (store h c.type body) {
            pending_sequence = c.sequence;
            pending_type = c.type;
            pending_generation = h.generation;
            busy = true;
          })
          none
  unfolding Holds
  busy-IsInOrder c body k first = elim (Bool-cases (c.type == keyboard_type)) [
    | inl a ↦ rw a (record {
      sound = k.sound;
      begun = k.begun;
      earlier = omega (arith, k.begun);
      pending = λ on now real. IsFirst-IsNext h.delivery c k.sound (first real);
      holds = tt;
    })
    | inr a ↦ rw a (record {
      sound = k.sound;
      begun = k.begun;
      earlier = omega (arith, k.begun);
      pending = λ on now real. IsFirst-IsNext h.delivery c k.sound (first real);
      holds = tt;
    })
  ]

  pub submit-IsInOrder :
      (c : Choice) (now : ℕ) → IsInOrder n h (some c) → IsInOrder n (submit h c now).0 none
  unfolding submit
  submit-IsInOrder c now k =
      let stay = let_go (some c) k in
      after-if (not (c.expected == h.generation)) _ _ (λ _. stay)
        (λ current.
          after-if (ltb now h.hold_until) _ _ (λ _. stay)
            (λ _.
              after-if
                (not (c.sequence == 0) && c.sequence == h.delivered_sequence && not (releasing h)) _
                _ (λ _. stay)
                (λ fresh.
                  after-if (not h.ready || h.busy || (not (c.sequence == 0) && releasing h)) _ _
                    (λ _. stay)
                    (λ free.
                      after-if (h.protocol == protocol_boot && c.type == consumer_type) _ _
                        (λ _. skip-IsInOrder c (ground arith) k)
                        (λ _.
                          busy-IsInOrder c (take (size c.type) c.payload) k
                            (λ real. (held-IsFirst c k (ground arith) real fresh).1))))))

  -- The interface, the protocol, the lights and the hold do not matter to the order.
  pub aside-Holds :
      (l : Option Choice) (on : Bool) (value shown until : ℕ)
      → Holds n h l
      → Holds n (record h { ready = on; protocol = value; leds = shown; hold_until = until }) l
  unfolding Holds
  aside-Holds none on value shown until k = tt
  aside-Holds (some c) on value shown until k = k

  pub aside-IsInOrder :
      (l : Option Choice) (on : Bool) (value shown until : ℕ)
      → IsInOrder n h l
      → IsInOrder n (record h { ready = on; protocol = value; leds = shown; hold_until = until }) l
  aside-IsInOrder l on value shown until k = record {
    sound = k.sound;
    begun = k.begun;
    earlier = k.earlier;
    pending = k.pending;
    holds = aside-Holds l on value shown until k.holds;
  }

  pub set_report-IsInOrder :
      (l : Option Choice) (output : Bool) (id : ℕ) (buf : List ℕ)
      → IsInOrder n h l
      → IsInOrder n (set_report h output id buf).0 l
  unfolding set_report
  set_report-IsInOrder l output id buf k =
      elim (Bool-cases (not output || (not (id == 1) && not (id == 0)) || not (length buf == 1))) [
        | inl bad ↦ rw bad k
        | inr good ↦
            rw good
              (aside-IsInOrder l h.ready h.protocol (bit_and (byte_at buf 0) 0x1f) h.hold_until k)
      ]

pub Step-IsInOrder :
    {n : ℕ} {h h' : Hid} {l l' : Option Choice}
    → Step h l h' l'
    → IsInOrder n h l
    → IsInOrder n h' l'
Step-IsInOrder {n} {h} (readies l on) k = aside-IsInOrder n h l on h.protocol h.leds h.hold_until k
Step-IsInOrder {n} {h} (switches l value) k =
    aside-IsInOrder n h l h.ready value h.leds h.hold_until k
Step-IsInOrder {n} {h} (finishes l failed) k = finish-IsInOrder n h l failed k
Step-IsInOrder {n} {h} (lights l output id buf) k = set_report-IsInOrder n h l output id buf k
Step-IsInOrder {n} {h} (holds l until) k = aside-IsInOrder n h l h.ready h.protocol h.leds until k
Step-IsInOrder {n} {h} (delivers l frame) k = deliver-IsInOrder n h l frame k
Step-IsInOrder {n} {h} polls k = record {
  sound = k.sound;
  begun = k.begun;
  earlier = k.earlier;
  pending = k.pending;
  holds = poll-Holds n h k;
}
Step-IsInOrder {n} {h} (submits c now) k = submit-IsInOrder n h c now k
Step-IsInOrder {n} {h} (fails l) k = idle-IsInOrder n h l k

pub release-Holds :
    (n : ℕ) (h : Hid) (l : Option Choice) → Holds n h l → Holds (n + 1) (release h) l
unfolding Holds release
release-Holds n h none k = tt
release-Holds n h (some c) k = (omega (arith, k.0), λ now real. absurd (omega (arith, k.0)))

pub release-IsInOrder :
    (n : ℕ) (h : Hid) (l : Option Choice)
    → n + 1 < 2 ^ 32
    → IsInOrder n h l
    → IsInOrder (n + 1) (release h) l
unfolding release
release-IsInOrder n h l below k = record {
  sound = rx_reset-IsSound;
  begun = ap (λ g. u32 (g + 1)) k.begun ∙ omega arith;
  earlier = omega (arith, k.earlier);
  pending = λ on now real. absurd (omega (arith, k.earlier));
  holds = release-Holds n h l k.holds;
}

pub Reach-IsInOrder :
    {n : ℕ} {h : Hid} {l : Option Choice} → Reach n h l → n < 2 ^ 32 → IsInOrder n h l
unfolding Holds
Reach-IsInOrder started below = record {
  sound = rx_reset-IsSound;
  begun = refl;
  earlier = omega arith;
  pending = λ on now real. absurd cc;
  holds = tt;
}
Reach-IsInOrder (stepped r step) below = Step-IsInOrder step (Reach-IsInOrder r below)
Reach-IsInOrder (released {n} {h} {l} r) below =
    release-IsInOrder n h l below (Reach-IsInOrder r (omega arith))
