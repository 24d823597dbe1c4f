-- ===== src/Delivery/Tests.antt =====
-- The delivery theorems at a key press and its release: queued by the keyboard, received,
-- completed and acknowledged.
use steelseries_apex_pro_min.Prelude.{
  ℕ, ◌+◌, ◌-◌, ◌≤◌, ◌<◌, ◌≡◌, ◌≢◌, ◌↔◌, ◌⊎◌, ◌==◌, leb, ◌||◌, if◌then◌else◌, true, false, none,
  some, List, [], ◌∷◌, ◌++◌, arith, refl, replicate, length, take, drop, get_elem?, get_or, read32,
  IsBytes, uint32_max, same_bytes,
}
use steelseries_apex_pro_min.Input.{
  Frame, Queue, zero_frame, size, push, enqueue, session, disconnect, keyboard_type,
}
use steelseries_apex_pro_min.Input.Wire.{IsFrame}
use steelseries_apex_pro_min.Input.Fifo.{contents, view}
use steelseries_apex_pro_min.Input.Runs.{Op, run, step, zero_queue, run-IsOrdered, IsOrdered}
use steelseries_apex_pro_min.Delivery.{
  Ack, Rx, Tx, receive, complete, status, apply, next, batch, ack_pack, ack_unpack, batch_pack,
  batch_unpack, rx_reset, tx_reset, queued, version, batch_max, valid_ack,
}
use steelseries_apex_pro_min.Delivery.Receiver.{
  IsSound, rx_reset-IsSound, receive-IsSound, receive_lem, verdict, complete_lem, waiting,
}
use steelseries_apex_pro_min.Delivery.Sender.{
  batch_lem, next_lem, apply_lem, oldest_sequence, IsProgress,
}
use steelseries_apex_pro_min.Delivery.AckWire.{ack_unpack-status, ack_pack-ack_unpack}
use steelseries_apex_pro_min.Delivery.BatchWire.{batch_unpack-batch_pack, wire_size}

abbrev press : List ℕ
press = 0 ∷ 0 ∷ 4 ∷ 0 ∷ 0 ∷ 0 ∷ 0 ∷ 0 ∷ []

abbrev calls : List Op
calls = Op.connected ∷ Op.report keyboard_type press ∷ []

abbrev two_waiting : Queue
two_waiting = (run zero_queue calls).0

abbrev first_report : Frame
first_report = record { sequence = 1; type = keyboard_type; payload = replicate 12 0 }

abbrev second_report : Frame
second_report = record { sequence = 2; type = keyboard_type; payload = press ++ replicate 4 0 }

abbrev one_received : Rx
one_received = (receive rx_reset first_report).0

one_received-IsSound : IsSound one_received
one_received-IsSound = receive-IsSound rx_reset-IsSound first_report

receive-IsSound_example : IsSound (receive one_received second_report).0
receive-IsSound_example = receive-IsSound one_received-IsSound second_report

receive_lem_example :
    let (rx', r) = receive one_received second_report in
    (r ≡ verdict one_received second_report)
    × (((r ≡ queued)
          × (waiting rx' ≡ waiting one_received ++ (second_report ∷ []))
          × (rx'.accepted ≡ one_received.accepted + 1)
          × (second_report.sequence ≡ one_received.accepted + 1)
          × (rx'.completed ≡ one_received.completed))
        ⊎ ((r ≢ queued) × (rx' ≡ one_received)))
receive_lem_example = receive_lem one_received-IsSound second_report

complete_lem_example :
    let (rx', done) = complete one_received 1 in
    (rx'.accepted ≡ one_received.accepted)
    × (((done ≡ true)
          × (0 < one_received.count)
          × (1 ≡ one_received.completed + 1)
          × (waiting one_received
              ≡ get_or one_received.frames one_received.head zero_frame ∷ waiting rx')
          × (rx'.completed ≡ 1))
        ⊎ ((done ≡ false)
            × (rx' ≡ one_received)
            × ((one_received.count ≡ 0) ⊎ (1 ≢ one_received.completed + 1))))
complete_lem_example = complete_lem one_received-IsSound 1

ack_unpack-status_test :
    ack_unpack (ack_pack (status one_received 3)) ≡ some (status one_received 3)
ack_unpack-status_test = ack_unpack-status one_received 3 one_received-IsSound

abbrev ack_wire : List ℕ
ack_wire = version ∷ 1 ∷ 0 ∷ 0 ∷ 0 ∷ 0 ∷ 0 ∷ 0 ∷ 0 ∷ 7 ∷ 3 ∷ []

abbrev one_ack : Ack
one_ack = record { accepted = 1; completed = 0; free = 7; leds = 3 }

ack_wire-IsBytes : IsBytes ack_wire
ack_wire-IsBytes = omega arith

ack_pack-ack_unpack_test : (ack_pack one_ack ≡ ack_wire) × (valid_ack one_ack ≡ true)
unfolding ack_unpack valid_ack read32
ack_pack-ack_unpack_test = ack_pack-ack_unpack ack_wire one_ack ack_wire-IsBytes refl

two_waiting-IsOrdered : IsOrdered (view two_waiting)
two_waiting-IsOrdered = (run-IsOrdered calls).1

two_waiting_near : oldest_sequence two_waiting ≤ tx_reset.accepted + 1
unfolding run step push enqueue session disconnect size same_bytes
two_waiting_near = omega arith

two_waiting_online : two_waiting.online ≡ true
unfolding run step push enqueue session disconnect size same_bytes
two_waiting_online = refl

batch_lem_example : batch tx_reset two_waiting ≡ (
    let fs =
      take batch_max
        (drop (tx_reset.accepted + 1 - oldest_sequence two_waiting) (contents two_waiting)) in
    if leb (length fs) tx_reset.free then fs else [])
batch_lem_example =
    batch_lem two_waiting two_waiting-IsOrdered tx_reset two_waiting_near two_waiting_online

next_lem_test : next tx_reset two_waiting ≡ (
    if tx_reset.free == 0 || tx_reset.accepted == uint32_max
    then none
    else get_elem? (contents two_waiting) (tx_reset.accepted + 1 - oldest_sequence two_waiting))
next_lem_test = next_lem two_waiting two_waiting-IsOrdered tx_reset two_waiting_near

abbrev one_sent : Tx
one_sent = record tx_reset { sent = 1 }

apply_lem_example :
    let (tx', done) = apply one_sent one_ack in
    ((done ≡ true) ↔ IsProgress one_sent one_ack)
    × (tx' ≡ (
        if done
        then record one_sent {
          accepted = one_ack.accepted;
          completed = one_ack.completed;
          free = one_ack.free;
        }
        else one_sent))
apply_lem_example = apply_lem one_sent one_ack

first_report-IsFrame : IsFrame first_report
unfolding size
first_report-IsFrame = record {
  numbered = omega arith;
  fits = omega arith;
  typed = omega arith;
  full_length = refl;
  padded = refl;
}

second_report-IsFrame : IsFrame second_report
unfolding size
second_report-IsFrame = record {
  numbered = omega arith;
  fits = omega arith;
  typed = omega arith;
  full_length = refl;
  padded = refl;
}

abbrev two_reports : List Frame
two_reports = first_report ∷ second_report ∷ []

two_reports_fit : wire_size two_reports + 2 ≤ 46
unfolding size
two_reports_fit = omega arith

batch_unpack-batch_pack_example :
    (wire : List ℕ) × (batch_pack two_reports 46 ≡ some wire)
    × (length wire ≡ wire_size two_reports + 2)
    × (batch_unpack wire ≡ some two_reports)
batch_unpack-batch_pack_example =
    batch_unpack-batch_pack two_reports 46
      (refl, first_report-IsFrame, (refl, second_report-IsFrame, tt)) (omega arith) (omega arith)
      two_reports_fit
