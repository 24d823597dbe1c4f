-- ===== src/HopLink/Tests.antt =====
-- The two links 60 ms after a clock packet 5 ms into slot 4.
use steelseries_apex_pro_min.Prelude.{◌+◌, ◌≡◌, true, [], ◌∷◌, replicate, arith, refl}
use steelseries_apex_pro_min.Packet.{ok}
use steelseries_apex_pro_min.Hop.{zero_hop, position, set_clock}
use steelseries_apex_pro_min.Hop.Clock.{IsClock}
use steelseries_apex_pro_min.HopLink
use steelseries_apex_pro_min.HopLink.{HopLink, zero_link, ready, input_window, reply_window}
use steelseries_apex_pro_min.HopLink.Follows.{followed, windows_follow, channels_follow}

abbrev keyboard_link : HopLink
keyboard_link = record zero_link {
  clock = record zero_hop {
    session_id = replicate 8 0;
    channels = 6 ∷ 26 ∷ 50 ∷ 74 ∷ [];
    count = 4;
    stride = 1;
    initialized = true;
    running = true;
    anchor_us = 1000;
    anchor_slot = 2;
  };
  rendezvous = 74;
  map_acked = true;
  sync_acked = true;
}

abbrev receiver_link : HopLink
receiver_link = record zero_link {
  clock = record zero_hop {
    session_id = replicate 8 0;
    channels = 6 ∷ 26 ∷ 50 ∷ 74 ∷ [];
    count = 4;
    stride = 1;
    role = 1;
    initialized = true;
  };
  rendezvous = 74;
}

keyboard_link-IsClock : IsClock keyboard_link.clock
keyboard_link-IsClock = record {
  set_up = refl;
  on = refl;
  mapped = omega arith;
  phase_in = omega arith;
  slot_in = omega arith;
}

slot_four : position keyboard_link.clock 46000 ≡ ok (4, 5000)
unfolding position
slot_four = refl

first_clock : (set_clock receiver_link.clock 4 5000 9 70000).1 ≡ ok tt
unfolding set_clock
first_clock = refl

windows_follow_example :
    let rx = followed keyboard_link receiver_link 9 46000 70000 4 5000 in
    (ready rx (70000 + 60000) ≡ ready keyboard_link (46000 + 60000))
    × (input_window rx (70000 + 60000) ≡ input_window keyboard_link (46000 + 60000))
    × (reply_window rx (70000 + 60000) ≡ reply_window keyboard_link (46000 + 60000))
windows_follow_example =
    windows_follow keyboard_link receiver_link 9 46000 70000 4 5000 keyboard_link-IsClock refl refl
      refl slot_four first_clock refl (omega arith) 60000 (omega arith)

channels_follow_example :
    HopLink.channel (followed keyboard_link receiver_link 9 46000 70000 4 5000) (70000 + 60000)
    ≡ HopLink.channel keyboard_link (46000 + 60000)
channels_follow_example =
    channels_follow keyboard_link receiver_link 9 46000 70000 4 5000 keyboard_link-IsClock refl refl
      refl slot_four first_clock refl (omega arith) 60000 (omega arith) refl refl refl refl refl

-- They are in slot 7, where the window for input is open.
open_in_slot_seven : input_window keyboard_link (46000 + 60000) ≡ true
unfolding input_window ready position
open_in_slot_seven = refl
