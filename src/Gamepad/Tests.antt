-- ===== src/Gamepad/Tests.antt =====
-- A stick pushed once, and the keyboard gone silent.
use steelseries_apex_pro_min.Prelude.{
  ℕ, ◌+◌, ◌-◌, ◌^◌, ◌≤◌, ◌<◌, ◌≡◌, ◌&&◌, not, if◌then◌else◌, true, false, ◌⊎◌, List, [], ◌∷◌, arith,
  refl, u32,
}
use steelseries_apex_pro_min.Gamepad.{
  Gamepad, neutral, zero_gamepad, init, receive, iface_ready, poll,
}
use steelseries_apex_pro_min.Gamepad.Reports.{Step, Reach, Reach-shown, poll-stale}

abbrev pushed : List ℕ
pushed = 0xff ∷ 0x7f ∷ 0 ∷ 0x40 ∷ 0 ∷ 0 ∷ 0 ∷ 0 ∷ 0 ∷ 0x40 ∷ 1 ∷ []

abbrev live_gamepad : Gamepad
live_gamepad = receive (iface_ready (init zero_gamepad) true) true pushed 4294967290

silent_reached : Reach (poll live_gamepad 104).0
silent_reached =
    Reach.later
      (Reach.later (Reach.later Reach.started (Step.readies true))
        (Step.receives true pushed 4294967290))
      (Step.polls 104)

Reach-shown_example :
    let g = (poll live_gamepad 104).0 in
    ((g.live ≡ true) ⊎ (g.current ≡ neutral))
    × ((g.ready ≡ false) ⊎ (g.dirty ≡ true) ⊎ (g.tx ≡ g.current))
Reach-shown_example = Reach-shown silent_reached

live_is : live_gamepad.live ≡ true
unfolding receive
live_is = refl

live_at : live_gamepad.received_at < 2 ^ 32
unfolding receive
live_at = omega arith

stale_at : 100 ≤ u32 (104 + 2 ^ 32 - live_gamepad.received_at)
unfolding receive
stale_at = omega arith

-- The clock of 32 bits has wrapped in between.
poll-stale_test :
    let (g', submits) = poll live_gamepad 104 in
    (g'.live ≡ false)
    × (g'.current ≡ neutral)
    × (submits ≡ (live_gamepad.ready && not live_gamepad.busy))
    × (g'.tx ≡ (if submits then neutral else live_gamepad.tx))
poll-stale_test = poll-stale live_gamepad 104 live_is live_at stale_at
