-- ===== src/Hid/Tests.antt =====
-- The endpoint from its start to the first report.
use steelseries_apex_pro_min.Prelude.{ℕ, ◌≡◌, ◌≢◌, true, false, none, some, [], ◌∷◌, arith, refl}
use steelseries_apex_pro_min.Input.{Frame, size}
use steelseries_apex_pro_min.Delivery.{receive, front}
use steelseries_apex_pro_min.Delivery.Receiver.{waiting}
use steelseries_apex_pro_min.Exchange.{deliver}
use steelseries_apex_pro_min.Hid.{
  Hid, start, set_ready, release, releasing, report_done, account, submit, submitted, Choice,
  deliver_report, poll, zero_report,
}
use steelseries_apex_pro_min.Hid.Steps.{
  readies, delivers, polls, submits, finishes, Reach, started, stepped, released,
}
use steelseries_apex_pro_min.Hid.Order.{Reach-sends, wire_of}

-- The interface is ready, the two releases have been sent, and a report has come from the radio.
abbrev ready : Hid
ready = release (set_ready start true)

abbrev sends_zero : Hid → ℕ → Hid
sends_zero h type = report_done (submit h (zero_report h type) 0).0 false

abbrev first_key : Frame
first_key = record { sequence = 1; type = 1; payload = 2 ∷ 0 ∷ 4 ∷ 0 ∷ 0 ∷ 0 ∷ 0 ∷ 0 ∷ [] }

abbrev waits : Hid
waits = (deliver_report (sends_zero (sends_zero ready 1) 2) first_key).0

abbrev chosen : Choice
chosen = record { sequence = 1; type = 1; payload = first_key.payload; expected = 1 }

waits-Reach : Reach 1 waits none
unfolding poll release submit report_done account deliver_report deliver receive
waits-Reach =
    stepped
      (stepped
        (stepped
          (stepped
            (stepped
              (stepped (stepped (released (stepped started (readies none true))) polls)
                (submits (zero_report ready 1) 0))
              (finishes none false))
            polls)
          (submits (zero_report (sends_zero ready 1) 2) 0))
        (finishes none false))
      (delivers none first_key)

chosen-Reach : Reach 1 waits (some chosen)
unfolding poll release submit report_done account deliver_report deliver receive front size
chosen-Reach = stepped waits-Reach polls

-- Report 1 goes out with its id.
sent : (submit waits chosen 0).1 ≡ submitted (1 ∷ 2 ∷ 0 ∷ 4 ∷ 0 ∷ 0 ∷ 0 ∷ 0 ∷ 0 ∷ [])
unfolding poll release submit report_done account deliver_report deliver receive front size
sent = refl

numbered : chosen.sequence ≢ 0
numbered e = absurd (omega arith)

Reach-sends_example :
    let h' = report_done (submit waits chosen 0).0 false in
    (releasing waits ≡ false)
    × (f : Frame) × (waiting waits.delivery ≡ f ∷ waiting h'.delivery)
    × (1 ≡ f.sequence)
    × ((1 ∷ 2 ∷ 0 ∷ 4 ∷ 0 ∷ 0 ∷ 0 ∷ 0 ∷ 0 ∷ []) ≡ wire_of waits f.type f.payload)
    × (h'.delivered_sequence ≡ f.sequence)
Reach-sends_example =
    Reach-sends chosen 0 (1 ∷ 2 ∷ 0 ∷ 4 ∷ 0 ∷ 0 ∷ 0 ∷ 0 ∷ 0 ∷ []) chosen-Reach (omega arith)
      numbered sent
