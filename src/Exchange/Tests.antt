-- ===== src/Exchange/Tests.antt =====
-- A batch of a report that was accepted before and two new ones.
use steelseries_apex_pro_min.Prelude.{
  ℕ, ◌+◌, ◌-◌, ◌≤◌, ◌≡◌, List, [], ◌∷◌, take, drop, replicate, arith, refl,
}
use steelseries_apex_pro_min.Input.{Frame, size, keyboard_type}
use steelseries_apex_pro_min.Delivery.{Rx, rx_reset, receive, capacity}
use steelseries_apex_pro_min.Delivery.Receiver.{IsRun, rx_reset-IsSound, receive-IsSound}
use steelseries_apex_pro_min.Exchange.{deliver_all}
use steelseries_apex_pro_min.Exchange.Batches.{IsDelivered, deliver_all_lem}

abbrev report : ℕ → Frame
report n = record { sequence = n; type = keyboard_type; payload = replicate 12 n }

abbrev three : List Frame
three = report 1 ∷ report 2 ∷ report 3 ∷ []

abbrev one_accepted : Rx
one_accepted = (receive rx_reset (report 1)).0

three-IsRun : IsRun 1 three
unfolding size
three-IsRun = (omega arith, refl, (omega arith, refl, (omega arith, refl, tt)))

one_accepted_near : 1 ≤ one_accepted.accepted + 1
unfolding receive size
one_accepted_near = omega arith

deliver_all_lem_example :
    IsDelivered one_accepted
      (take (capacity - one_accepted.count) (drop (one_accepted.accepted + 1 - 1) three))
      (deliver_all one_accepted one_accepted.accepted three)
deliver_all_lem_example =
    deliver_all_lem three 1 one_accepted (receive-IsSound rx_reset-IsSound (report 1)) three-IsRun
      one_accepted_near (omega arith)

-- Afterwards the receiver has accepted three reports.
three_accepted : (deliver_all one_accepted one_accepted.accepted three).1 ≡ 3
unfolding deliver_all receive size
three_accepted = refl
