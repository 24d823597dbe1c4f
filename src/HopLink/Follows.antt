-- ===== src/HopLink/Follows.antt =====
-- Two links after an accepted clock packet: both ends hop, listen and send together.
use steelseries_apex_pro_min.Prelude.{ℕ, ◌+◌, ◌<◌, ◌≡◌, ◌≢◌, true, arith}
use steelseries_apex_pro_min.Packet.{receiver_role, keyboard_role, ok}
use steelseries_apex_pro_min.Hop.{holdover_us, position, set_clock}
use steelseries_apex_pro_min.Hop.Clock.{IsClock, set_clock_ok, position_follows, channel_follows}
use steelseries_apex_pro_min.HopLink
use steelseries_apex_pro_min.HopLink.{HopLink, ready, input_window, reply_window}

-- The keyboard's link `l`, acknowledged and running, and the receiver's link `m`, whose clock was
-- just set to the slot and phase that the keyboard found at its time `t`.
module _ (l m : HopLink) (counter t r slot phase : ℕ) where
  abbrev pub followed : HopLink
  followed = record m { clock = (set_clock m.clock slot phase counter r).0 }

  module _ (kc : IsClock l.clock) (keys : l.clock.role ≡ keyboard_role)
      (receives : m.clock.role ≡ receiver_role) (acked : l.sync_acked ≡ true)
      (sent : position l.clock t ≡ ok (slot, phase))
      (taken : (set_clock m.clock slot phase counter r).1 ≡ ok tt) (up : m.clock.initialized ≡ true)
      (mapped : m.clock.count ≢ 0) where
    same_position :
        (d : ℕ) → d < holdover_us → position followed.clock (r + d) ≡ position l.clock (t + d)
    same_position d soon =
        position_follows l.clock m.clock counter t r slot phase kc (rw keys (omega arith)) sent
          taken up mapped d soon

    -- After the receiver takes a clock packet of an acknowledged keyboard: at all times less than
    -- 100 ms later both are ready, and their windows open, or neither.
    pub windows_follow :
        (d : ℕ)
        → d < holdover_us
        → (ready followed (r + d) ≡ ready l (t + d))
          × (input_window followed (r + d) ≡ input_window l (t + d))
          × (reply_window followed (r + d) ≡ reply_window l (t + d))
    unfolding ready input_window reply_window
    windows_follow d soon =
        let same = same_position d soon in
        let sets = set_clock_ok m.clock slot phase counter r taken in
        ground (arith, same, sets, kc.on, keys, receives, acked)

    -- After the receiver takes a clock packet of an acknowledged keyboard: at all times less than
    -- 100 ms later both use the same channel, or neither may use one, if they hold the same map and
    -- rendezvous channel.
    pub channels_follow :
        (d : ℕ)
        → d < holdover_us
        → m.clock.channels ≡ l.clock.channels
        → m.clock.count ≡ l.clock.count
        → m.clock.offset ≡ l.clock.offset
        → m.clock.stride ≡ l.clock.stride
        → m.rendezvous ≡ l.rendezvous
        → HopLink.channel followed (r + d) ≡ HopLink.channel l (t + d)
    unfolding HopLink.channel
    channels_follow d soon e₁ e₂ e₃ e₄ e₅ =
        let same = same_position d soon in
        let sets = set_clock_ok m.clock slot phase counter r taken in
        let hops =
          channel_follows l.clock m.clock counter t r slot phase kc (rw keys (omega arith)) sent
            taken up mapped d soon e₁ e₂ e₃ e₄ in
        ground (arith, same, sets, hops, kc.on, kc.set_up, keys, receives, acked, up)
