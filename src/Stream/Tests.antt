-- ===== src/Stream/Tests.antt =====
-- One fragment from the left end to the right: put, sent twice, taken, read and acknowledged.
use steelseries_apex_pro_min.Prelude.{
  ℕ, ◌≤◌, ◌≡◌, ◌==◌, if◌then◌else◌, List, [], ◌∷◌, ◌++◌, inl, inr, length, refl, read16,
}
use steelseries_apex_pro_min.Stream.{put, get, pack, receive, take_fragment}
use steelseries_apex_pro_min.Stream.Wire.{unread}
use steelseries_apex_pro_min.Stream.Network.{
  End, fresh, puts, gets, packs, takes, putting, getting, packing, taking, Reach, start, left,
  right,
}
use steelseries_apex_pro_min.Stream.Order.{Reach-in_order, Reach-acknowledged}

abbrev fragment : List ℕ
fragment = 10 ∷ 20 ∷ 30 ∷ []

abbrev data_packet : List ℕ
data_packet = pack (puts fresh fragment).stream

abbrev sender : End
sender = packs (packs (puts fresh fragment))

abbrev reader : End
reader = packs (gets (takes fresh data_packet))

abbrev done : End
done = takes sender (pack (gets (takes fresh data_packet)).stream)

reader_has_it : reader.read ≡ fragment ∷ []
unfolding put get pack receive take_fragment read16
reader_has_it = refl

-- The second copy of the packet is taken once more, to no effect.
run_of_one : Reach done (takes reader data_packet)
run_of_one =
    let sent = left (left (left start (putting fragment)) packing) packing in
    let received = right (right (right sent (taking data_packet (inl refl))) getting) packing in
    left (right received (taking data_packet (inr (inl refl)))) (taking _ (inl refl))

Reach-in_order_example :
    ((missing : List (List ℕ)) × (done.sent ≡ missing ++ (takes reader data_packet).read)
      × (length missing ≤ 2))
    × ((missing : List (List ℕ)) × ((takes reader data_packet).sent ≡ missing ++ done.read)
        × (length missing ≤ 2))
Reach-in_order_example = Reach-in_order run_of_one

all_acknowledged : done.stream.tx_length ≡ 0
unfolding put get pack receive take_fragment read16
all_acknowledged = refl

Reach-acknowledged_example : done.sent ≡ (
    if (takes reader data_packet).stream.rx_length == 0
    then (takes reader data_packet).read
    else unread (takes reader data_packet).stream ∷ (takes reader data_packet).read)
Reach-acknowledged_example = Reach-acknowledged run_of_one all_acknowledged
