-- ===== src/Hid/Arrivals.antt =====
-- A report that comes, a poll and a transfer that ends keep the order of the reports.
use steelseries_apex_pro_min.Prelude.{
  ℕ, ◌==◌, ◌≡◌, ◌&&◌, ◌||◌, not, if◌then◌else◌, Bool, true, false, inl, inr, Option, none, some,
  arith, refl, sym, ◌∙◌, Bool-cases,
}
use steelseries_apex_pro_min.Input.{Frame, keyboard_type, consumer_type}
use steelseries_apex_pro_min.Delivery.{front, complete}
use steelseries_apex_pro_min.Delivery.Receiver.{
  IsSound, receive-IsSound, complete-IsSound, front-head,
}
use steelseries_apex_pro_min.Exchange.{deliver}
use steelseries_apex_pro_min.Hid.{
  Hid, releasing, account, report_done, Choice, deliver_report, poll, choose, zero_report,
}
use steelseries_apex_pro_min.Hid.Steps.{
  IsNext, Holds, IsInOrder, IsFirst-IsNext, receive-IsNext, receive-IsFirst,
}

module _ (n : ℕ) (h : Hid) where
  pub deliver-Holds :
      (l : Option Choice) (frame : Frame)
      → IsSound h.delivery
      → Holds n h l
      → Holds n (deliver_report h frame).0 l
  unfolding Holds deliver_report deliver
  deliver-Holds none frame s k = tt
  deliver-Holds (some c) frame s k = (
    k.0,
    λ now real.
        let (quiet, first) = k.1 now real in
        (
          quiet,
          elim first [
            | inl here ↦ inl (receive-IsFirst h.delivery frame c s here)
            | inr sent ↦ inr sent
          ],
        ),
  )

  pub deliver-IsInOrder :
      (l : Option Choice) (frame : Frame)
      → IsInOrder n h l
      → IsInOrder n (deliver_report h frame).0 l
  unfolding deliver_report deliver
  deliver-IsInOrder l frame k = record {
    sound = receive-IsSound k.sound frame;
    begun = k.begun;
    earlier = k.earlier;
    pending = λ on now real.
        receive-IsNext h.delivery frame h.pending_sequence k.sound (k.pending on now real);
    holds = deliver-Holds l frame k.sound k.holds;
  }

  pub zero-Holds : (type : ℕ) → IsInOrder n h none → Holds n h (some (zero_report h type))
  unfolding Holds
  zero-Holds type k = (omega (arith, k.begun), λ now real. absurd (real refl))

  pub choose-Holds :
      (o : Option Frame)
      → front h.delivery ≡ o
      → releasing h ≡ false
      → IsInOrder n h none
      → Holds n h (choose h o)
  unfolding Holds
  choose-Holds none e quiet k = tt
  choose-Holds (some f) e quiet k =
      let (rest, here, _) = front-head k.sound f e in
      (omega (arith, k.begun), λ now real. (quiet, inl (f, rest, here, refl, refl, refl)))

  pub Holds-if :
      (b : Bool) (x y : Option Choice)
      → (b ≡ true → Holds n h x)
      → (b ≡ false → Holds n h y)
      → Holds n h (if b then x else y)
  Holds-if true x y j k = j refl
  Holds-if false x y j k = k refl

  -- A poll chooses the oldest report, and only when nothing is to be released.
  pub poll-Holds : IsInOrder n h none → Holds n h (poll h)
  unfolding poll
  poll-Holds k =
      Holds-if h.release_keyboard _ _ (λ _. zero-Holds keyboard_type k)
        (λ a.
          Holds-if h.release_consumer _ _ (λ _. zero-Holds consumer_type k)
            (λ b. choose-Holds (front h.delivery) refl (ground arith) k))

  pub idle-Holds : (l : Option Choice) → Holds n h l → Holds n (record h { busy = false }) l
  unfolding Holds
  idle-Holds none k = tt
  idle-Holds (some c) k = (
    k.0,
    λ now real. (
      (k.1 now real).0,
      elim (k.1 now real).1 [ inl here ↦ inl here | inr sent ↦ inr (sent.0, refl) ],
    ),
  )

  pub idle-IsInOrder :
      (l : Option Choice) → IsInOrder n h l → IsInOrder n (record h { busy = false }) l
  idle-IsInOrder l k = record {
    sound = k.sound;
    begun = k.begun;
    earlier = k.earlier;
    pending = λ on now real. absurd cc;
    holds = idle-Holds l k.holds;
  }

  -- A release that has been sent clears its flag; what is held is still to be sent.
  pub cleared-Holds :
      (l : Option Choice) (a b : Bool)
      → (releasing h ≡ false → (a || b) ≡ false)
      → h.busy ≡ true
      → Holds n h l
      → Holds n
          (record h {
            delivered_sequence = 0;
            release_keyboard = a;
            release_consumer = b;
            busy = false;
          })
          l
  unfolding Holds
  cleared-Holds none a b less on k = tt
  cleared-Holds (some c) a b less on k = (
    k.0,
    λ now real. (
      less (k.1 now real).0,
      elim (k.1 now real).1 [ inl here ↦ inl here | inr sent ↦ absurd cc ],
    ),
  )

  pub cleared-IsInOrder :
      (l : Option Choice) (a b : Bool)
      → (releasing h ≡ false → (a || b) ≡ false)
      → h.busy ≡ true
      → IsInOrder n h l
      → IsInOrder n
          (record h {
            delivered_sequence = 0;
            release_keyboard = a;
            release_consumer = b;
            busy = false;
          })
          l
  cleared-IsInOrder l a b less on k = record {
    sound = k.sound;
    begun = k.begun;
    earlier = k.earlier;
    pending = λ on now real. absurd cc;
    holds = cleared-Holds l a b less on k.holds;
  }

  -- A report that has been sent is the oldest one, and goes; what is held is that report.
  pub sent-Holds :
      (l : Option Choice)
      → IsSound h.delivery
      → IsNext h.delivery h.pending_sequence
      → h.busy ≡ true
      → Holds n h l
      → Holds n
          (record h {
            delivered_sequence = h.pending_sequence;
            delivery = (complete h.delivery h.pending_sequence).0;
            busy = false;
          })
          l
  unfolding Holds
  sent-Holds none s next on k = tt
  sent-Holds (some c) s next on k = (
    k.0,
    λ now real. (
      (k.1 now real).0,
      elim (k.1 now real).1 [
        | inl here ↦ inr ((IsFirst-IsNext h.delivery c s here).1 ∙ sym next.1, refl)
        | inr sent ↦ absurd cc
      ],
    ),
  )

  pub account-IsInOrder :
      (l : Option Choice)
      → h.busy ≡ true
      → h.pending_generation ≡ h.generation
      → IsInOrder n h l
      → IsInOrder n (record (account h) { busy = false }) l
  unfolding account
  account-IsInOrder l on same k = elim (Bool-cases (h.pending_sequence == 0)) [
    | inl zero_sent ↦ rw zero_sent (elim (Bool-cases (h.pending_type == keyboard_type)) [
      | inl a ↦ rw a (cleared-IsInOrder l false h.release_consumer (λ e. ground arith) on k)
      | inr a ↦ rw a (elim (Bool-cases (h.pending_type == consumer_type)) [
        | inl b ↦ rw b (cleared-IsInOrder l h.release_keyboard false (λ e. ground arith) on k)
        | inr b ↦ rw b (cleared-IsInOrder l h.release_keyboard h.release_consumer (λ e. e) on k)
      ])
    ])
    | inr real ↦ rw real (
        let next = k.pending on (same ∙ k.begun) (λ e. ground arith) in
        record {
          sound = complete-IsSound k.sound h.pending_sequence;
          begun = k.begun;
          earlier = k.earlier;
          pending = λ on now real. absurd cc;
          holds = sent-Holds l k.sound next on k.holds;
        })
  ]

  pub finish-IsInOrder :
      (l : Option Choice) (failed : Bool) → IsInOrder n h l → IsInOrder n (report_done h failed) l
  unfolding report_done
  finish-IsInOrder l failed k =
      elim (Bool-cases (not failed && h.busy && h.pending_generation == h.generation)) [
        | inl on ↦ rw on (account-IsInOrder l (ground arith) (ground arith) k)
        | inr off ↦ rw off (idle-IsInOrder l k)
      ]
