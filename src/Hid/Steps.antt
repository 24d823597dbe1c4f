-- ===== src/Hid/Steps.antt =====
-- The steps of hid.c as they can interleave, and what the polling thread holds between its two.
use steelseries_apex_pro_min.Prelude.{
  ℕ, ◌+◌, ◌≤◌, ◌<◌, ◌≡◌, ◌≢◌, Bool, true, false, ◌⊎◌, inl, inr, Option, none, some, List, [], ◌∷◌,
  ◌++◌, arith, ap, ◌∙◌,
}
use steelseries_apex_pro_min.Input.{Frame}
use steelseries_apex_pro_min.Delivery.{Rx, receive, complete}
use steelseries_apex_pro_min.Delivery.Receiver.{
  IsSound, waiting, receive_lem, complete_lem, length-waiting,
}
use steelseries_apex_pro_min.Hid.{
  Hid, start, releasing, release, set_ready, protocol_as, report_done, set_report, Choice, submit,
  submit_failed, deliver_report, poll,
}

-- One step under the lock, with what the polling thread holds before and after it. Of the steps, only
-- `releases` begins a generation.
pub data Step (h : Hid) : Option Choice → Hid → Option Choice → Type 0 where
  readies : (l : Option Choice) (on : Bool) → Step h l (set_ready h on) l
  switches : (l : Option Choice) (value : ℕ) → Step h l (protocol_as h value) l
  finishes : (l : Option Choice) (failed : Bool) → Step h l (report_done h failed) l
  lights :
      (l : Option Choice) (output : Bool) (id : ℕ) (buf : List ℕ)
      → Step h l (set_report h output id buf).0 l
  holds : (l : Option Choice) (until : ℕ) → Step h l (record h { hold_until = until }) l
  delivers : (l : Option Choice) (frame : Frame) → Step h l (deliver_report h frame).0 l
  polls : Step h none h (poll h)
  submits : (c : Choice) (now : ℕ) → Step h (some c) (submit h c now).0 none
  fails : (l : Option Choice) → Step h l (submit_failed h) l

-- What can come about, with the number of releases so far.
pub data Reach : ℕ → Hid → Option Choice → Type 0 where
  started : Reach 0 start none
  stepped :
      {n : ℕ} {h h' : Hid} {l l' : Option Choice} → Reach n h l → Step h l h' l' → Reach n h' l'
  released : {n : ℕ} {h : Hid} {l : Option Choice} → Reach n h l → Reach (n + 1) (release h) l

-- A number is that of the oldest waiting report; and a choice is that report.
abbrev pub IsNext : Rx → ℕ → Type 0
IsNext rx sequence = (rx.completed < rx.accepted) × (sequence ≡ rx.completed + 1)

abbrev pub IsFirst : Rx → Choice → Type 0
IsFirst rx c =
    (f : Frame) × (rest : List Frame) × (waiting rx ≡ f ∷ rest)
    × (c.sequence ≡ f.sequence)
    × (c.type ≡ f.type)
    × (c.payload ≡ f.payload)

-- What the polling thread holds is stale, or a release, or the oldest report, or has just been sent.
unfoldable pub Holds : ℕ → Hid → Option Choice → Type 0
Holds n h none = Unit
Holds n h (some c) =
    (c.expected ≤ n)
    × (c.expected ≡ n
        → c.sequence ≢ 0
        → (releasing h ≡ false)
          × (IsFirst h.delivery c ⊎ ((c.sequence ≡ h.delivered_sequence) × (h.busy ≡ false))))

pub record IsInOrder (n : ℕ) (h : Hid) (l : Option Choice) : Type 0 where
  pub sound : IsSound h.delivery
  pub begun : h.generation ≡ n
  pub earlier : h.pending_generation ≤ n
  pub pending :
      h.busy ≡ true
      → h.pending_generation ≡ n
      → h.pending_sequence ≢ 0
      → IsNext h.delivery h.pending_sequence
  pub holds : Holds n h l

pub IsFirst-IsNext : (rx : Rx) (c : Choice) → IsSound rx → IsFirst rx c → IsNext rx c.sequence
IsFirst-IsNext rx c s (f, rest, e, number, _, _) =
    let run = rw e at s.run_of in
    let size = rw e at (length-waiting rx) in (omega (arith, s.positions, size), number ∙ run.1)

-- Completing the oldest report takes it off.
pub complete-next :
    (rx : Rx) (sequence : ℕ)
    → IsSound rx
    → IsNext rx sequence
    → (complete rx sequence).0.completed ≡ sequence
complete-next rx sequence s next = elim (complete_lem s sequence).1 [
  | inl done ↦ done.4
  | inr not_done ↦ absurd (elim not_done.2 [
    | inl empty ↦ omega (arith, s.positions, next.0)
    | inr other ↦ other next.1
  ])
]

pub receive-IsNext :
    (rx : Rx) (frame : Frame) (sequence : ℕ)
    → IsSound rx
    → IsNext rx sequence
    → IsNext (receive rx frame).0 sequence
receive-IsNext rx frame sequence s next = elim (receive_lem s frame).1 [
  | inl joined ↦ (omega (arith, joined.2, joined.4, next.0), next.1 ∙ omega (arith, joined.4))
  | inr other ↦ rw other.1 next
]

pub receive-IsFirst :
    (rx : Rx) (frame : Frame) (c : Choice)
    → IsSound rx
    → IsFirst rx c
    → IsFirst (receive rx frame).0 c
receive-IsFirst rx frame c s (f, rest, e, number, typed, body) = elim (receive_lem s frame).1 [
  | inl joined ↦
      (f, rest ++ (frame ∷ []), joined.1 ∙ ap (λ l. l ++ (frame ∷ [])) e, number, typed, body)
  | inr other ↦ rw other.1 (f, rest, e, number, typed, body)
]
