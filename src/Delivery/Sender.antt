-- ===== src/Delivery/Sender.antt =====
-- The sender's side: which waiting reports `next` and `batch` choose, and how an acknowledgement
-- moves the positions.
use steelseries_apex_pro_min.Prelude.{
  ℕ, zero, suc, ◌+◌, ◌-◌, ◌≤◌, ◌==◌, ltb, leb, ◌≡◌, ◌↔◌, ◌||◌, not, if◌then◌else◌, true, none, List,
  [], ◌∷◌, length, take, drop, get_elem?, uint32_max, arith, refl, ◌∙◌, window,
}
use native.Mathlib.Decide.{dec_lt, dec_le}
use steelseries_apex_pro_min.Prelude.{take-nil, drop-nil}
use steelseries_apex_pro_min.Input.{Frame, zero_frame, Queue, queue_size}
use steelseries_apex_pro_min.Input.Fifo.{contents, view}
use steelseries_apex_pro_min.Input.Runs.{IsRun, IsOrdered}
use steelseries_apex_pro_min.Delivery.{
  Tx, Ack, batch_max, valid_ack, apply, find_from, next, collect, batch, capacity,
}

-- The loop of `batch` on the list of waiting reports.
collect_list : List Frame → ℕ → ℕ → List Frame
collect_list [] room next = []
collect_list (f ∷ fs) zero next = []
collect_list (f ∷ fs) (suc room) next =
    if not (ltb next uint32_max)
    then []
    else if leb f.sequence next
    then collect_list fs (suc room) next
    else if not (f.sequence == next + 1)
    then []
    else f ∷ collect_list fs room (next + 1)

collect_window :
    (q : Queue) (left i room next : ℕ)
    → collect q i left room next
      ≡ collect_list (window zero_frame queue_size q.frames (q.head + i) left) room next
unfolding collect collect_list
collect_window q zero i room next = refl
collect_window q (suc left) i zero next = refl
collect_window q (suc left) i (suc room) next =
    let e : q.head + (i + 1) ≡ q.head + i + 1 = omega arith in
    ground (
      arith,
      e,
      collect_window q left (i + 1) (suc room) next,
      collect_window q left (i + 1) room (next + 1),
    )

drop_all : (n : ℕ) (fs : List Frame) → length fs ≤ n → drop n fs ≡ []
drop_all zero [] h = refl
drop_all zero (f ∷ fs) h = absurd (omega arith)
drop_all (suc n) [] h = refl
drop_all (suc n) (f ∷ fs) h = drop_all n fs (omega arith)

IsRun-bound :
    (first : ℕ) (f : Frame) (fs : List Frame)
    → IsRun first (f ∷ fs)
    → first + length fs ≤ uint32_max
IsRun-bound first f [] h = omega (arith, h.0.fits, h.1)
IsRun-bound first f (g ∷ gs) h = omega (arith, IsRun-bound (first + 1) g gs h.2)

collect_run :
    (fs : List Frame) (first room next : ℕ)
    → IsRun first fs
    → first ≤ next + 1
    → collect_list fs room next ≡ take room (drop (next + 1 - first) fs)
unfolding collect_list
collect_run [] first room next h le = rw (drop-nil, take-nil) refl
collect_run (f ∷ fs) first zero next h le = refl
collect_run (f ∷ fs) first (suc room) next h le = elim (dec_lt next uint32_max) [
  | no top ↦
      rw (drop_all (next + 1 - first) (f ∷ fs) (omega (arith, IsRun-bound first f fs h)))
        (ground arith)
  | yes below ↦ elim (dec_le first next) [
    | yes old ↦
        let e : next + 1 - first ≡ suc (next - first) = omega arith in
        let e' : next + 1 - (first + 1) ≡ next - first = omega arith in
        rw e (
          ground
            (arith, h.1, rw e' at (collect_run fs (first + 1) (suc room) next h.2 (omega arith))))
    | no new ↦
        let e : next + 1 - first ≡ 0 = omega arith in
        let e' : next + 1 + 1 - (first + 1) ≡ 0 = omega arith in
        rw e (
          ground
            (arith, h.1, rw e' at (collect_run fs (first + 1) room (next + 1) h.2 (omega arith))))
  ]
]

-- `next` finds the report after the last accepted one.
find_window :
    (q : Queue) (sequence left i first : ℕ)
    → IsRun first (window zero_frame queue_size q.frames (q.head + i) left)
    → first ≤ sequence
    → find_from q sequence i left
      ≡ get_elem? (window zero_frame queue_size q.frames (q.head + i) left) (sequence - first)
unfolding find_from
find_window q sequence zero i first h le = refl
find_window q sequence (suc left) i first h le =
    let e : q.head + (i + 1) ≡ q.head + i + 1 = omega arith in
    elim (dec_lt first sequence) [
      | yes later ↦
          let e₁ : sequence - first ≡ suc (sequence - (first + 1)) = omega arith in
          let ih = find_window q sequence left (i + 1) (first + 1) (rw e h.2) (omega arith) in
          rw e₁ (ground (arith, h.1, rw e at ih))
      | no here ↦ let e₁ : sequence - first ≡ 0 = omega arith in rw e₁ (ground (arith, h.1))
    ]

-- The number of the oldest waiting report.
abbrev pub oldest_sequence : Queue → ℕ
oldest_sequence q = q.next_sequence - length (contents q)

module _ (q : Queue) (o : IsOrdered (view q)) (tx : Tx)
    (near : oldest_sequence q ≤ tx.accepted + 1) where
  -- While online, a batch is the at most three reports that follow the last accepted one, if the
  -- receiver has room for all of those, and else empty.
  pub batch_lem :
      q.online ≡ true
      → batch tx q ≡ (
          let fs = take batch_max (drop (tx.accepted + 1 - oldest_sequence q) (contents q)) in
          if leb (length fs) tx.free then fs else [])
  unfolding batch
  batch_lem on =
      let w = collect_window q q.count 0 batch_max tx.accepted in
      let e : q.head + 0 ≡ q.head = omega arith in
      let r = collect_run (contents q) (oldest_sequence q) batch_max tx.accepted o.run_of near in
      rw (on, (rw e at w) ∙ r) refl

  -- The next report to send is the one after the last accepted one, if it waits, the receiver has
  -- room and numbers are left.
  pub next_lem : next tx q ≡ (
      if tx.free == 0 || tx.accepted == uint32_max
      then none
      else get_elem? (contents q) (tx.accepted + 1 - oldest_sequence q))
  unfolding next
  next_lem =
      let e : q.head + 0 ≡ q.head = omega arith in
      let run : IsRun (oldest_sequence q)
          (window zero_frame queue_size q.frames (q.head + 0) q.count) =
        rw e o.run_of in
      rw (find_window q (tx.accepted + 1) q.count 0 (oldest_sequence q) run near) (rw e refl)

-- The acknowledgements that a sender takes: no position moves back or beyond what was sent, and the
-- free entries account for the reports between the positions.
pub record IsProgress (tx : Tx) (ack : Ack) : Type 0 where
  pub ordered : ack.completed ≤ ack.accepted
  pub room : ack.accepted + ack.free ≡ ack.completed + capacity
  pub was_sent : ack.accepted ≤ tx.sent
  pub accepted_up : tx.accepted ≤ ack.accepted
  pub completed_up : tx.completed ≤ ack.completed

-- `apply` takes exactly those, and then holds their positions; at any other nothing changes.
pub apply_lem :
    (tx : Tx) (ack : Ack)
    → let (tx', done) = apply tx ack in
      ((done ≡ true) ↔ IsProgress tx ack)
      × (tx' ≡ (
          if done
          then record tx { accepted = ack.accepted; completed = ack.completed; free = ack.free }
          else tx))
unfolding apply valid_ack
apply_lem tx ack = ground arith
