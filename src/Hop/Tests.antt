-- ===== src/Hop/Tests.antt =====
-- The hop theorems on the map that the link uses, 2406, 2426, 2450 and 2474 MHz.
use steelseries_apex_pro_min.Prelude.{
  ℕ, ◌+◌, ◌*◌, ◌/◌, ◌%◌, ◌≤◌, ◌≡◌, ◌↔◌, ◌⊎◌, ◌&&◌, ltb, leb, if◌then◌else◌, true, false, List, [],
  ◌∷◌, arith, refl, replicate, uint32_max, read32,
}
use steelseries_apex_pro_min.Packet.{ok, err, state_error, expired, rekey}
use steelseries_apex_pro_min.Hop.{
  Hop, zero_hop, slot_us, holdover_us, install, valid_map, stride_loop, gcd, position, set_clock,
  channel_of, channel_at,
}
use steelseries_apex_pro_min.Hop.Schedule.{IsInstalled, install-IsInstalled, channel_of_lem}
use steelseries_apex_pro_min.Hop.Clock.{
  IsClock, IsSync, time_of, position_lem, set_clock_lem, position_follows, channel_follows,
}

abbrev map_channels : List ℕ
map_channels = 6 ∷ 26 ∷ 50 ∷ 74 ∷ []

abbrev blank : Hop
blank = record zero_hop { session_id = 5 ∷ 0 ∷ 0 ∷ 0 ∷ 7 ∷ 0 ∷ 0 ∷ 0 ∷ []; initialized = true }

abbrev mapped : Hop
mapped = install blank map_channels 1

install-IsInstalled_example : IsInstalled mapped map_channels
unfolding valid_map
install-IsInstalled_example = install-IsInstalled blank map_channels 1 refl

-- Offset 5 % 4 and stride 1 + 7 % 3, which 4 does not share: the laps go 26, 74, ... by twos, so the
-- loop moves on to stride 3.
lap :
    (channel_of mapped 0 ≡ 26)
    × (channel_of mapped 1 ≡ 6)
    × (channel_of mapped 2 ≡ 74)
    × (channel_of mapped 3 ≡ 50)
unfolding install stride_loop gcd read32
lap = (refl, refl, refl, refl)

channel_of_lem_example :
    (2 ≤ channel_of mapped 3)
    × (channel_of mapped 3 ≤ 80)
    × ((channel_of mapped 3 ≡ channel_of mapped 9) ↔ (3 % mapped.count ≡ 9 % mapped.count))
channel_of_lem_example = channel_of_lem install-IsInstalled_example 3 9

abbrev keyboard_clock : Hop
keyboard_clock = record zero_hop {
  session_id = replicate 8 0;
  channels = 6 ∷ 26 ∷ 50 ∷ 74 ∷ [];
  count = 4;
  stride = 1;
  initialized = true;
  running = true;
  anchor_us = 1000;
  anchor_slot = 2;
  phase_us = 0;
}

abbrev receiver_clock : Hop
receiver_clock = record zero_hop {
  session_id = replicate 8 0;
  channels = 6 ∷ 26 ∷ 50 ∷ 74 ∷ [];
  count = 4;
  stride = 1;
  role = 1;
  initialized = true;
}

keyboard_runs : IsClock keyboard_clock
keyboard_runs = record {
  set_up = refl;
  on = refl;
  mapped = omega arith;
  phase_in = omega arith;
  slot_in = omega arith;
}

position_lem_example : position keyboard_clock 46000 ≡ (
    if ltb 46000 1000
    then err state_error
    else if false && leb holdover_us 45000
    then err expired
    else if leb ((uint32_max + 1) * slot_us) (time_of keyboard_clock 46000)
    then err rekey
    else ok (time_of keyboard_clock 46000 / slot_us, time_of keyboard_clock 46000 % slot_us))
position_lem_example = position_lem keyboard_clock 46000 keyboard_runs

-- 45 ms after slot 2 began it is 5 ms into slot 4.
position_46000 : position keyboard_clock 46000 ≡ ok (4, 5000)
unfolding position
position_46000 = refl

set_clock_lem_test :
    let (h', r) = set_clock receiver_clock 4 5000 9 70000 in
    ((r ≡ ok tt) ↔ IsSync receiver_clock 4 5000 9 70000) × ((h' ≡ receiver_clock) ⊎ (r ≡ ok tt))
set_clock_lem_test =
    set_clock_lem receiver_clock 4 5000 9 70000 (omega arith) (omega arith) (omega arith)

position_follows_test :
    position (set_clock receiver_clock 4 5000 9 70000).0 (70000 + 60000)
    ≡ position keyboard_clock (46000 + 60000)
unfolding set_clock
position_follows_test =
    position_follows keyboard_clock receiver_clock 9 46000 70000 4 5000 keyboard_runs (omega arith)
      position_46000 refl refl (omega arith) 60000 (omega arith)

channel_follows_example :
    channel_at (set_clock receiver_clock 4 5000 9 70000).0 (70000 + 60000)
    ≡ channel_at keyboard_clock (46000 + 60000)
unfolding set_clock
channel_follows_example =
    channel_follows keyboard_clock receiver_clock 9 46000 70000 4 5000 keyboard_runs (omega arith)
      position_46000 refl refl (omega arith) 60000 (omega arith) refl refl refl refl
