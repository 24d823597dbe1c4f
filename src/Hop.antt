-- ===== src/Hop.antt =====
-- radio/src/apex_hop.c: the channel map, the schedule that both ends follow, and the clock packets
-- that keep the receiver on it.
pub mod Clock
pub mod Schedule
mod Tests
use steelseries_apex_pro_min.Prelude.{
  ℕ, zero, suc, ◌+◌, ◌-◌, ◌*◌, ◌/◌, ◌%◌, ◌==◌, ltb, leb, ◌||◌, ◌&&◌, not, if◌then◌else◌, Bool, true,
  false, Option, none, some, List, [], ◌∷◌, ◌++◌, length, take, drop, replicate, byte_at,
  same_bytes, read32, write32, u32, u64, u8, uint32_max, bit_or, ◌<<<◌, ◌>>>◌,
}
use steelseries_apex_pro_min.Packet.{
  keyboard_role, receiver_role, channel_map_type, control_type, payload_max, Error, invalid, rekey,
  expired, state_error, Result, ok, err, Crypto,
}
use steelseries_apex_pro_min.Connection
use steelseries_apex_pro_min.Connection.{Connection, is_established}

abbrev pub channels_max : ℕ
channels_max = 16

abbrev pub slot_us : ℕ
slot_us = 20000

abbrev pub holdover_us : ℕ
holdover_us = 100000

abbrev pub sync_skew_us : ℕ
sync_skew_us = 500

abbrev pub format : ℕ
format = 1

abbrev pub sync : ℕ
sync = 0x48

-- `struct apex_hop`
pub record Hop : Type 0 where
  pub anchor_us : ℕ
  pub generation : ℕ
  pub anchor_slot : ℕ
  pub phase_us : ℕ
  pub sync_counter : ℕ
  pub correction_max_us : ℕ
  pub session_id : List ℕ
  pub channels : List ℕ
  pub count : ℕ
  pub offset : ℕ
  pub stride : ℕ
  pub role : ℕ
  pub initialized : Bool
  pub running : Bool

abbrev pub zero_hop : Hop
zero_hop = record {
  anchor_us = 0;
  generation = 0;
  anchor_slot = 0;
  phase_us = 0;
  sync_counter = 0;
  correction_max_us = 0;
  session_id = replicate 8 0;
  channels = replicate channels_max 0;
  count = 0;
  offset = 0;
  stride = 0;
  role = 0;
  initialized = false;
  running = false;
}

unfoldable pub bound : Hop → Connection → Bool
bound h c =
    h.initialized
    && is_established c.state
    && c.role == h.role
    && same_bytes h.session_id c.session.id

-- The loop of `valid_map` over the channels, with the one before if there is one.
unfoldable pub spaced : Option ℕ → List ℕ → Bool
spaced previous [] = true
spaced previous (c ∷ cs) =
    let close : Bool = elim previous [ none ↦ false | some p ↦ ltb c (p + 2) ] in
    not (ltb c 2 || ltb 80 c || close) && spaced (some c) cs

unfoldable pub valid_map : List ℕ → ℕ → Bool
unfolding spaced
valid_map channels generation =
    not (generation == 0 || ltb (length channels) 4 || ltb channels_max (length channels))
    && spaced none channels

-- `while (b) { remainder = a % b; a = b; b = remainder; }` with fuel: `b` falls in each round.
unfoldable pub gcd_loop : ℕ → ℕ → ℕ → ℕ
gcd_loop zero a b = a
gcd_loop (suc fuel) a b = let rest = gcd_loop fuel b (a % b) in if b == 0 then a else rest

unfoldable pub gcd : ℕ → ℕ → ℕ
unfolding gcd_loop
gcd a b = gcd_loop (b + 1) a b

-- `while (gcd(stride, count) != 1) stride = stride % (count - 1) + 1;` with fuel: the strides go
-- round the numbers 1 to count - 1, and 1 ends the loop.
unfoldable pub stride_loop : ℕ → ℕ → ℕ → ℕ
stride_loop zero count stride = stride
stride_loop (suc fuel) count stride =
    let rest = stride_loop fuel count (stride % (count - 1) + 1) in
    if gcd stride count == 1 then stride else rest

unfoldable pub install : Hop → List ℕ → ℕ → Hop
unfolding stride_loop
install h channels generation =
    let count = length channels in
    record h {
      channels = channels ++ replicate (channels_max - count) 0;
      count = count;
      generation = generation;
      offset = read32 h.session_id % count;
      stride = stride_loop count count (1 + read32 (drop 4 h.session_id) % (count - 1));
    }

unfoldable pub init : Connection → Hop × Result (Unit {0})
init c =
    if not (is_established c.state) || not c.session.ready || ltb receiver_role c.role
    then (zero_hop, err state_error)
    else (record zero_hop { session_id = c.session.id; role = c.role; initialized = true }, ok tt)

-- `h->channels[0..count)` against the map; the counts are compared first.
unfoldable pub acceptable : Hop → List ℕ → ℕ → Bool
unfolding valid_map
acceptable h channels generation =
    valid_map channels generation
    && (ltb h.generation generation
        || generation == h.generation
          && length channels == h.count
          && same_bytes channels (take (length channels) h.channels))

unfoldable pub begin : Hop → ℕ → ℕ → Hop × Result (Unit {0})
begin h local_us slot =
    if not h.initialized || h.count == 0 || not (h.role == keyboard_role) || h.running
    then (h, err state_error)
    else (
      record h { anchor_us = local_us; anchor_slot = slot; phase_us = 0; running = true },
      ok tt,
    )

-- Slot and microseconds into it. `phase_us` is below a slot, so `available - phase_us` is exact.
unfoldable pub position : Hop → ℕ → Result (ℕ × ℕ)
position h local_us =
    if not h.initialized || not h.running || h.count == 0 || ltb local_us h.anchor_us
    then err state_error
    else let age = local_us - h.anchor_us in
      if h.role == receiver_role && leb holdover_us age
      then err expired
      else let available = (uint32_max - h.anchor_slot + 1) * slot_us in
        if leb (available - h.phase_us) age
        then err rekey
        else let elapsed = age + h.phase_us in
          ok (u32 (h.anchor_slot + elapsed / slot_us), elapsed % slot_us)

abbrev pub channel_of : Hop → ℕ → ℕ
channel_of h slot = byte_at h.channels ((h.offset + slot % h.count * h.stride) % h.count)

unfoldable pub channel_at : Hop → ℕ → Result ℕ
unfolding position
channel_at h local_us = elim (position h local_us) [
  | err e ↦ err e
  | ok (slot, phase) ↦ ok (channel_of h slot)
]

-- `predicted > advertised ? predicted - advertised : advertised - predicted`
abbrev pub distance : ℕ → ℕ → ℕ
distance a b = if ltb b a then a - b else b - a

-- The clock as the running schedule predicts it; `local_us` is not before the anchor there.
abbrev pub predicted : Hop → ℕ → ℕ
predicted h local_us = u64 (h.anchor_slot * slot_us + h.phase_us + local_us - h.anchor_us)

-- The part of `accept_sync` after the payload is read.
unfoldable pub set_clock : Hop → ℕ → ℕ → ℕ → ℕ → Hop × Result (Unit {0})
set_clock h slot phase counter local_us =
    let difference = distance (predicted h local_us) (slot * slot_us + phase) in
    let h' = record h {
      anchor_us = local_us;
      anchor_slot = slot;
      phase_us = phase;
      sync_counter = counter;
      running = true;
    } in
    if leb slot_us phase
      || leb counter h.sync_counter
      || h.running
        && (ltb local_us h.anchor_us
            || ltb slot h.anchor_slot
            || slot == h.anchor_slot && ltb phase h.phase_us)
    then (h, err invalid)
    else if h.running
    then (if ltb sync_skew_us difference
        then (h, err invalid)
        else if ltb h.correction_max_us difference
        then (record h' { correction_max_us = difference }, ok tt)
        else (h', ok tt))
    else (h', ok tt)

module _ (crypto : Crypto) where
  unfoldable pub offer_map : Hop → Connection → List ℕ → ℕ → ℕ → Hop × Connection × Result (List ℕ)
  offer_map h c channels generation capacity =
      if not (bound h c) || not (h.role == keyboard_role) || h.running
      then (h, c, err state_error)
      else if not (acceptable h channels generation)
      then (h, c, err invalid)
      else let payload = format ∷ (write32 generation ++ (length channels ∷ channels)) in
        let (c', r) = Connection.encode crypto c channel_map_type payload capacity in
        elim r [
          | err e ↦ (h, c', err e)
          | ok packet ↦ (install h channels generation, c', ok packet)
        ]

  -- `n != payload[5] + 6` makes `payload + 6` the map.
  unfoldable pub accept_map : Hop → Connection → List ℕ → Hop × Connection × Result (Unit {0})
  accept_map h c packet =
      if not (bound h c) || not (h.role == receiver_role) || h.running
      then (h, c, err state_error)
      else let (c', r) = Connection.decode crypto c packet payload_max in
        elim r [
          | err e ↦ (h, c', err e)
          | ok (type, payload) ↦
              if not (type == channel_map_type)
                || ltb (length payload) 6
                || not (byte_at payload 0 == format)
                || not (length payload == byte_at payload 5 + 6)
                || not (acceptable h (drop 6 payload) (read32 (drop 1 payload)))
              then (h, c', err invalid)
              else (install h (drop 6 payload) (read32 (drop 1 payload)), c', ok tt)
        ]

  unfoldable pub emit_sync : Hop → Connection → ℕ → ℕ → Connection × Result (List ℕ)
  emit_sync h c local_us capacity =
      if not (bound h c) || not (h.role == keyboard_role)
      then (c, err state_error)
      else elim (position h local_us) [
        | err e ↦ (c, err e)
        | ok (slot, phase) ↦
            Connection.encode crypto c control_type
              (sync
                ∷ format
                ∷ (write32 h.generation ++ write32 slot ++ (u8 phase ∷ u8 (phase >>> 8) ∷ [])))
              capacity
      ]

  unfoldable pub accept_sync : Hop → Connection → List ℕ → ℕ → Hop × Connection × Result (Unit {0})
  unfolding set_clock
  accept_sync h c packet local_us =
      if not (bound h c) || not (h.role == receiver_role) || h.count == 0
      then (h, c, err state_error)
      else if h.running && leb h.anchor_us local_us && leb holdover_us (local_us - h.anchor_us)
      then (h, c, err expired)
      else let (c', r) = Connection.decode crypto c packet payload_max in
        elim r [
          | err e ↦ (h, c', err e)
          | ok (type, payload) ↦
              if not (type == control_type)
                || not (length payload == 12)
                || not (byte_at payload 0 == sync)
                || not (byte_at payload 1 == format)
                || not (read32 (drop 2 payload) == h.generation)
              then (h, c', err invalid)
              else let (h', r') =
                  set_clock h (read32 (drop 6 payload))
                    (bit_or (byte_at payload 10) (byte_at payload 11 <<< 8))
                    (read32 (drop 4 packet)) local_us in
                (h', c', r')
        ]
