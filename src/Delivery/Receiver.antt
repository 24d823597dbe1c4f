-- ===== src/Delivery/Receiver.antt =====
-- The receiver's queue of eight reports: what `receive`, `complete`, `front` and `status` do to the
-- reports that wait for USB, and which positions they report.
use steelseries_apex_pro_min.Prelude.{
  ℕ, ◌+◌, ◌-◌, ◌%◌, ◌≤◌, ◌<◌, ◌==◌, ltb, ◌≡◌, ◌≢◌, ◌||◌, ◌&&◌, ◌⊎◌, inl, inr, if◌then◌else◌, true,
  false, some, List, [], ◌∷◌, ◌++◌, length, get_or, uint32_max, arith, refl, window, window-set,
  window_next, window_pos, length-window, length-set,
}
use steelseries_apex_pro_min.Input.{Frame, zero_frame, size}
use steelseries_apex_pro_min.Delivery.{
  Rx, Received, queued, duplicate, invalid, full, rx_reset, receive, front, complete, status,
  valid_ack, capacity,
}

abbrev pub waiting : Rx → List Frame
waiting rx = window zero_frame capacity rx.frames rx.head rx.count

pub length-waiting : (rx : Rx) → length (waiting rx) ≡ rx.count
length-waiting rx = length-window zero_frame capacity rx.frames rx.head rx.count

-- Frames of a known type with consecutive sequence numbers, the first one given.
abbrev pub IsRun : ℕ → List Frame → Type 0
IsRun first [] = Unit
IsRun first (f ∷ fs) = (size f.type ≢ 0) × (f.sequence ≡ first) × IsRun (first + 1) fs

IsRun-append :
    (first : ℕ) (fs : List Frame) (f : Frame)
    → IsRun first fs
    → size f.type ≢ 0
    → f.sequence ≡ first + length fs
    → IsRun first (fs ++ (f ∷ []))
IsRun-append first [] f h k e = (k, omega arith, tt)
IsRun-append first (g ∷ fs) f h k e = (h.0, h.1, IsRun-append (first + 1) fs f h.2 k (omega arith))

-- Eight slots, indices inside them, and in them the reports after `completed` up to `accepted`.
pub record IsSound (rx : Rx) : Type 0 where
  pub slots : length rx.frames ≡ capacity
  pub head_in : rx.head < capacity
  pub count_in : rx.count ≤ capacity
  pub positions : rx.completed + rx.count ≡ rx.accepted
  pub bound : rx.accepted ≤ uint32_max
  pub run_of : IsRun (rx.completed + 1) (waiting rx)

pub rx_reset-IsSound : IsSound rx_reset
rx_reset-IsSound = record {
  slots = refl;
  head_in = omega arith;
  count_in = omega arith;
  positions = refl;
  bound = omega arith;
  run_of = tt;
}

-- The answer to a frame, from its number and type and the two positions alone.
unfoldable pub verdict : Rx → Frame → Received
verdict rx frame =
    if frame.sequence == 0 || size frame.type == 0
    then invalid
    else if ltb rx.accepted frame.sequence
    then (if frame.sequence == rx.accepted + 1 && ltb rx.accepted uint32_max
        then (if rx.accepted - rx.completed == capacity then full else queued)
        else invalid)
    else duplicate

module _ {rx : Rx} (s : IsSound rx) (frame : Frame) where
  pub receive-verdict : (receive rx frame).1 ≡ verdict rx frame
  unfolding receive verdict
  receive-verdict = ground (arith, s.positions, s.count_in)

  pub receive-queued :
      (receive rx frame).1 ≡ queued
      → let rx' = (receive rx frame).0 in
        (waiting rx' ≡ waiting rx ++ (frame ∷ []))
        × (rx'.accepted ≡ rx.accepted + 1)
        × (frame.sequence ≡ rx.accepted + 1)
        × (rx'.completed ≡ rx.completed)
        × (size frame.type ≢ 0)
        × IsSound rx'
  unfolding receive
  receive-queued h = ground (
    arith,
    s.slots,
    s.count_in,
    s.positions,
    s.bound,
    s.run_of,
    window-set zero_frame capacity rx.frames frame rx.head rx.count,
    length-set rx.frames ((rx.head + rx.count) % capacity) frame,
    length-waiting rx,
    IsRun-append (rx.completed + 1) (waiting rx) frame,
  )

  pub receive-other : (receive rx frame).1 ≢ queued → (receive rx frame).0 ≡ rx
  unfolding receive
  receive-other h = ground arith

  -- The answer is `verdict`; exactly a queued report joins the end of the waiting ones and advances
  -- the accepted position, and at any other answer nothing changes.
  pub receive_lem :
      let (rx', r) = receive rx frame in
      (r ≡ verdict rx frame)
      × (((r ≡ queued)
            × (waiting rx' ≡ waiting rx ++ (frame ∷ []))
            × (rx'.accepted ≡ rx.accepted + 1)
            × (frame.sequence ≡ rx.accepted + 1)
            × (rx'.completed ≡ rx.completed))
          ⊎ ((r ≢ queued) × (rx' ≡ rx)))
  receive_lem = (receive-verdict, go (receive rx frame).1 refl)
    where
      go :
          (r : Received)
          → (receive rx frame).1 ≡ r
          → let rx' = (receive rx frame).0 in
            (((receive rx frame).1 ≡ queued)
              × (waiting rx' ≡ waiting rx ++ (frame ∷ []))
              × (rx'.accepted ≡ rx.accepted + 1)
              × (frame.sequence ≡ rx.accepted + 1)
              × (rx'.completed ≡ rx.completed))
            ⊎ (((receive rx frame).1 ≢ queued) × ((receive rx frame).0 ≡ rx))
      go queued e =
          let (joined, up, number, kept, typed, sound) = receive-queued e in
          inl (e, joined, up, number, kept)
      go duplicate e = inr (λ h. cc, receive-other (λ h. cc))
      go invalid e = inr (λ h. cc, receive-other (λ h. cc))
      go full e = inr (λ h. cc, receive-other (λ h. cc))

  -- Receiving any report, queued or not, keeps the queue sound.
  pub receive-IsSound : IsSound (receive rx frame).0
  receive-IsSound = go (receive rx frame).1 refl
    where
      go : (r : Received) → (receive rx frame).1 ≡ r → IsSound (receive rx frame).0
      go queued e = (receive-queued e).5
      go duplicate e = rw (receive-other (λ h. cc)) s
      go invalid e = rw (receive-other (λ h. cc)) s
      go full e = rw (receive-other (λ h. cc)) s

module _ {rx : Rx} (s : IsSound rx) where
  abbrev oldest : Frame
  oldest = get_or rx.frames rx.head zero_frame

  abbrev younger : List Frame
  younger = window zero_frame capacity rx.frames ((rx.head + 1) % capacity) (rx.count - 1)

  waiting_pos : 0 < rx.count → waiting rx ≡ oldest ∷ younger
  waiting_pos h = ground (
    arith,
    s.head_in,
    window_pos zero_frame capacity rx.frames rx.head rx.count,
    window_next zero_frame capacity rx.frames rx.head (rx.count - 1),
  )

  oldest-IsRun : 0 < rx.count → IsRun (rx.completed + 1) (oldest ∷ younger)
  oldest-IsRun h = rw (waiting_pos h) at s.run_of

  -- What `front` shows is the oldest waiting report, and the next to complete.
  pub front-head :
      (f : Frame)
      → front rx ≡ some f
      → (rest : List Frame) × (waiting rx ≡ f ∷ rest) × (f.sequence ≡ rx.completed + 1)
  unfolding front
  front-head f h = (younger, ground (arith, waiting_pos), ground (arith, oldest-IsRun))

  -- `complete` takes the oldest report off if it has that number, and else changes nothing.
  pub complete-IsSound : (sequence : ℕ) → IsSound (complete rx sequence).0
  unfolding complete
  complete-IsSound sequence =
      ground (arith, s.slots, s.head_in, s.count_in, s.positions, s.bound, s.run_of, oldest-IsRun)

  -- It succeeds exactly for the report after `completed`, if one waits; then that report is gone and
  -- counted as completed. Otherwise nothing changes. `accepted` stays in both cases.
  pub complete_lem :
      (sequence : ℕ)
      → let (rx', done) = complete rx sequence in
        (rx'.accepted ≡ rx.accepted)
        × (((done ≡ true)
              × (0 < rx.count)
              × (sequence ≡ rx.completed + 1)
              × (waiting rx ≡ oldest ∷ waiting rx')
              × (rx'.completed ≡ sequence))
            ⊎ ((done ≡ false) × (rx' ≡ rx) × ((rx.count ≡ 0) ⊎ (sequence ≢ rx.completed + 1))))
  unfolding complete
  complete_lem sequence = ground (arith, oldest-IsRun, waiting_pos)

  -- The acknowledgement always passes the sender's consistency test.
  pub valid_ack-status : (leds : ℕ) → valid_ack (status rx leds) ≡ true
  unfolding valid_ack status
  valid_ack-status leds = ground (arith, s.positions, s.count_in)
