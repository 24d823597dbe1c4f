-- ===== src/Hop/Clock.antt =====
-- Slot time: `position` is exact and cannot wrap, and a receiver that accepts a clock packet follows
-- the keyboard's slots until the holdover ends.
use steelseries_apex_pro_min.Prelude.{
  ℕ, ◌+◌, ◌-◌, ◌*◌, ◌/◌, ◌%◌, ◌==◌, ◌≤◌, ◌<◌, ◌≡◌, ◌≢◌, ◌↔◌, ltb, leb, ◌&&◌, if◌then◌else◌, true,
  false, arith, ◌⊎◌, uint32_max,
}
use steelseries_apex_pro_min.Packet.{receiver_role, ok, err, rekey, expired, state_error}
use steelseries_apex_pro_min.Hop.{
  Hop, slot_us, holdover_us, sync_skew_us, position, set_clock, distance, channel_at,
}

-- A running schedule: a slot number of 32 bits and a phase inside a slot.
pub record IsClock (h : Hop) : Type 0 where
  pub set_up : h.initialized ≡ true
  pub on : h.running ≡ true
  pub mapped : h.count ≢ 0
  pub phase_in : h.phase_us < slot_us
  pub slot_in : h.anchor_slot ≤ uint32_max

-- Microseconds since slot 0 began, at a local time from the anchor on.
abbrev pub time_of : Hop → ℕ → ℕ
time_of h local_us = h.anchor_slot * slot_us + h.phase_us + (local_us - h.anchor_us)

-- The answers of `position`: refused before the anchor, expired at a receiver 100 ms past it, to be
-- rekeyed once slot numbers run out, and else the quotient and remainder of the time by a slot.
pub position_lem :
    (h : Hop) (local_us : ℕ)
    → IsClock h
    → position h local_us ≡ (
        if ltb local_us h.anchor_us
        then err state_error
        else if h.role == receiver_role && leb holdover_us (local_us - h.anchor_us)
        then err expired
        else if leb ((uint32_max + 1) * slot_us) (time_of h local_us)
        then err rekey
        else ok (time_of h local_us / slot_us, time_of h local_us % slot_us))
unfolding position
position_lem h local_us k = ground (arith, k.set_up, k.on, k.mapped, k.phase_in, k.slot_in)

-- An accepted clock packet: a newer packet than before with a phase inside a slot; on a running
-- schedule it is neither earlier than the anchor nor more than 500 us off the prediction.
pub record IsSync (h : Hop) (slot phase counter local_us : ℕ) : Type 0 where
  pub phase_in : phase < slot_us
  pub newer : h.sync_counter < counter
  pub forward :
      (h.running ≡ false)
      ⊎ ((h.anchor_us ≤ local_us)
          × (h.anchor_slot * slot_us + h.phase_us ≤ slot * slot_us + phase)
          × (distance (time_of h local_us) (slot * slot_us + phase) ≤ sync_skew_us))

module _ (h : Hop) (slot phase counter local_us : ℕ) where
  -- Before the holdover ends exactly the clock packets that `IsSync` describes are accepted;
  -- at any other nothing changes.
  pub set_clock_lem :
      h.anchor_slot ≤ uint32_max
      → h.phase_us < slot_us
      → local_us < h.anchor_us + holdover_us
      → let (h', r) = set_clock h slot phase counter local_us in
        ((r ≡ ok tt) ↔ IsSync h slot phase counter local_us) × ((h' ≡ h) ⊎ (r ≡ ok tt))
  unfolding set_clock
  set_clock_lem slot_in phase_in soon = ground arith

  -- An accepted one moves the anchor to the packet, and keeps the map and the session.
  pub set_clock_ok :
      (set_clock h slot phase counter local_us).1 ≡ ok tt
      → let h' = (set_clock h slot phase counter local_us).0 in
        (h'.anchor_us ≡ local_us)
        × (h'.anchor_slot ≡ slot)
        × (h'.phase_us ≡ phase)
        × (h'.sync_counter ≡ counter)
        × (h'.running ≡ true)
        × (phase < slot_us)
        × (h.correction_max_us ≤ h'.correction_max_us)
        × (h' ≡ record h {
          anchor_us = local_us;
          anchor_slot = slot;
          phase_us = phase;
          sync_counter = counter;
          running = true;
          correction_max_us = h'.correction_max_us;
        })
  unfolding set_clock
  set_clock_ok e = ground arith

module _ (kb rx : Hop) (counter t r slot phase : ℕ) where
  abbrev synced : Hop
  synced = (set_clock rx slot phase counter r).0

  module _ (kc : IsClock kb) (keys : kb.role ≢ receiver_role)
      (sent : position kb t ≡ ok (slot, phase))
      (taken : (set_clock rx slot phase counter r).1 ≡ ok tt) (up : rx.initialized ≡ true)
      (mapped : rx.count ≢ 0) where
    synced-IsClock : IsClock synced
    synced-IsClock = ground (arith, set_clock_ok rx slot phase counter r, position_lem kb t kc)

    -- After the receiver accepts the slot and phase that the keyboard found at its time `t`, both
    -- find the same slot and phase at all times less than 100 ms later.
    pub position_follows : (d : ℕ) → d < holdover_us → position synced (r + d) ≡ position kb (t + d)
    position_follows d soon = ground (
      arith,
      set_clock_ok rx slot phase counter r,
      position_lem kb t kc,
      position_lem kb (t + d) kc,
      position_lem synced (r + d) synced-IsClock,
    )

    -- After the receiver accepts the slot and phase that the keyboard found at its time `t`, both
    -- give the same channel, or the same refusal, at all times less than 100 ms later, if they hold
    -- the same map.
    pub channel_follows :
        (d : ℕ)
        → d < holdover_us
        → rx.channels ≡ kb.channels
        → rx.count ≡ kb.count
        → rx.offset ≡ kb.offset
        → rx.stride ≡ kb.stride
        → channel_at synced (r + d) ≡ channel_at kb (t + d)
    unfolding channel_at
    channel_follows d soon e₁ e₂ e₃ e₄ =
        ground (arith, position_follows d soon, set_clock_ok rx slot phase counter r taken)
