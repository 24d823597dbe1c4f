-- ===== src/HopLink.antt =====
-- radio/src/apex_hop_link.c: the startup exchange that gets both ends onto the schedule, the channel
-- in use, and the windows of a slot in which to send.
pub mod Follows
mod Tests
use steelseries_apex_pro_min.Prelude.{
  ℕ, ◌+◌, ◌-◌, ◌/◌, ◌%◌, ◌==◌, ltb, leb, ◌||◌, ◌&&◌, not, if◌then◌else◌, Bool, true, false, List,
  [], ◌∷◌, ◌++◌, length, drop, byte_at, same_bytes, read32, write32,
}
use steelseries_apex_pro_min.Packet.{
  keyboard_role, receiver_role, channel_map_type, control_type, payload_max, header_size, invalid,
  expired, state_error, Result, ok, err, Crypto,
}
use steelseries_apex_pro_min.Connection
use steelseries_apex_pro_min.Connection.{Connection, is_established}
use steelseries_apex_pro_min.Hop
use steelseries_apex_pro_min.Hop.{Hop, zero_hop, position, slot_us}

abbrev pub map_ack : ℕ
map_ack = 0x4d

abbrev pub sync_ack : ℕ
sync_ack = 0x49

abbrev pub start_slot : ℕ
start_slot = 5

abbrev pub channels : List ℕ
channels = 6 ∷ 26 ∷ 50 ∷ 74 ∷ []

abbrev pub input_open_us : ℕ
input_open_us = 750

abbrev pub input_close_us : ℕ
input_close_us = 18500

abbrev pub reply_close_us : ℕ
reply_close_us = 19500

-- `struct apex_hop_link`
pub record HopLink : Type 0 where
  pub clock : Hop
  pub next_sync_slot : ℕ
  pub first_sync : ℕ
  pub last_sync : ℕ
  pub acked_sync : ℕ
  pub rendezvous : ℕ
  pub map_acked : Bool
  pub sync_acked : Bool

abbrev pub zero_link : HopLink
zero_link = record {
  clock = zero_hop;
  next_sync_slot = 0;
  first_sync = 0;
  last_sync = 0;
  acked_sync = 0;
  rendezvous = 0;
  map_acked = false;
  sync_acked = false;
}

-- A refused rendezvous channel leaves the link as it was.
unfoldable pub init : HopLink → Connection → ℕ → HopLink × Result (Unit {0})
init l c rendezvous =
    if ltb 80 rendezvous
    then (l, err invalid)
    else let (h, r) = Hop.init c in (record zero_link { clock = h; rendezvous = rendezvous }, r)

-- What the keyboard does with the payload of a control packet.
unfoldable pub on_ack : HopLink → List ℕ → ℕ → HopLink × Result (Unit {0})
on_ack l ack received_us =
    let counter = read32 (drop 6 ack) in
    if ltb (length ack) 6
      || not (byte_at ack 1 == 1)
      || l.clock.count == 0
      || not (read32 (drop 2 ack) == l.clock.generation)
    then (l, err invalid)
    else if byte_at ack 0 == map_ack && length ack == 6
    then (if l.map_acked
        then (l, ok tt)
        else let (h, r) = Hop.begin l.clock received_us 0 in
          elim r [
            | err e ↦ (record l { clock = h }, err e)
            | ok _ ↦ (record l { clock = h; map_acked = true }, ok tt)
          ])
    else if byte_at ack 0 == sync_ack
        && length ack == 10
        && not (l.first_sync == 0)
        && leb l.first_sync counter
        && leb counter l.last_sync
    then (
      record l {
        sync_acked = true;
        acked_sync = if ltb l.acked_sync counter then counter else l.acked_sync;
      },
      ok tt,
    )
    else (l, err invalid)

module _ (crypto : Crypto) where
  -- The receiver's reply to an accepted map or clock packet.
  unfoldable pub on_packet :
      HopLink → Connection → List ℕ → ℕ → ℕ → HopLink × Connection × Result (List ℕ)
  on_packet l c packet received_us capacity =
      if byte_at packet 1 == channel_map_type
      then (let (h, c', r) = Hop.accept_map crypto l.clock c packet in
          elim r [
            | err e ↦ (record l { clock = h }, c', err e)
            | ok _ ↦
                let (c'', reply) =
                  Connection.encode crypto c' control_type (map_ack ∷ 1 ∷ write32 h.generation)
                    capacity in
                (record l { clock = h }, c'', reply)
          ])
      else if byte_at packet 1 == control_type
      then (let (h, c', r) = Hop.accept_sync crypto l.clock c packet received_us in
          elim r [
            | err e ↦ (record l { clock = h }, c', err e)
            | ok _ ↦
                let (c'', reply) =
                  Connection.encode crypto c' control_type
                    (sync_ack ∷ 1 ∷ (write32 h.generation ++ write32 h.sync_counter)) capacity in
                (record l { clock = h }, c'', reply)
          ])
      else (l, c, err invalid)

  -- The empty reply is a result of 0.
  unfoldable pub receive :
      HopLink → Connection → List ℕ → ℕ → ℕ → HopLink × Connection × Result (List ℕ)
  unfolding on_packet on_ack
  receive l c packet received_us capacity =
      if ltb (length packet) header_size
        || not (is_established c.state)
        || not l.clock.initialized
        || not (l.clock.role == c.role)
        || not (same_bytes l.clock.session_id c.session.id)
      then (l, c, err state_error)
      else if c.role == receiver_role
      then on_packet l c packet received_us capacity
      else let (c', r) = Connection.decode crypto c packet payload_max in
        elim r [
          | err e ↦ (l, c', err e)
          | ok (type, ack) ↦
              if not (type == control_type)
              then (l, c', err invalid)
              else let (l', r') = on_ack l ack received_us in
                elim r' [ err e ↦ (l', c', err e) | ok _ ↦ (l', c', ok []) ]
        ]

  -- The packet to send, or the empty packet for a result of 0, which permits input.
  unfoldable pub next : HopLink → Connection → ℕ → ℕ → HopLink × Connection × Result (List ℕ)
  next l c scheduled_end_us capacity =
      if not (c.role == keyboard_role)
      then (l, c, err state_error)
      else if not l.map_acked
      then (let (h, c', r) = Hop.offer_map crypto l.clock c channels 1 capacity in
          (record l { clock = h }, c', r))
      else elim (position l.clock scheduled_end_us) [
        | err e ↦ (l, c, err e)
        | ok (slot, phase) ↦
            if leb start_slot slot && not l.sync_acked
            then (l, c, err expired)
            else if ltb slot start_slot || leb l.next_sync_slot slot
            then (let (c', r) = Hop.emit_sync crypto l.clock c scheduled_end_us capacity in
                elim r [
                  | err e ↦ (l, c', err e)
                  | ok packet ↦
                      let counter = read32 (drop 4 packet) in
                      (
                        record l {
                          last_sync = counter;
                          first_sync = if l.first_sync == 0 then counter else l.first_sync;
                          next_sync_slot = slot + 1;
                        },
                        c',
                        ok packet,
                      )
                ])
            else (l, c, ok [])
      ]

unfoldable pub channel : HopLink → ℕ → Result ℕ
channel l now_us =
    if not l.clock.initialized
    then err state_error
    else if not l.clock.running
    then ok l.rendezvous
    else elim (position l.clock now_us) [
      | err e ↦ err e
      | ok (slot, phase) ↦
          if ltb slot start_slot
          then ok l.rendezvous
          else if l.clock.role == keyboard_role && not l.sync_acked
          then err expired
          else Hop.channel_at l.clock now_us
    ]

unfoldable pub ready : HopLink → ℕ → Bool
ready l now_us = if not l.clock.running then false else elim (position l.clock now_us) [
  | err e ↦ false
  | ok (slot, phase) ↦ leb start_slot slot && (l.clock.role == receiver_role || l.sync_acked)
]

-- The phase test of a window, false where there is no position.
abbrev pub phase_within : Hop → ℕ → ℕ → ℕ → Bool
phase_within h now_us from to = elim (position h now_us) [
  | err e ↦ false
  | ok (slot, phase) ↦ leb from phase && ltb phase to
]

unfoldable pub window : HopLink → ℕ → Bool
window l now_us = if not l.clock.running then true else elim (position l.clock now_us) [
  | err e ↦ false
  | ok (slot, phase) ↦ ltb slot (start_slot - 1) || leb 3000 phase && ltb phase 13000
]

unfoldable pub input_window : HopLink → ℕ → Bool
unfolding ready
input_window l now_us =
    if not (ready l now_us) then false else phase_within l.clock now_us input_open_us input_close_us

unfoldable pub reply_window : HopLink → ℕ → Bool
unfolding ready
reply_window l now_us =
    if not (ready l now_us) then false else phase_within l.clock now_us input_open_us reply_close_us

-- `search[]` is 74, 6, 50, 26.
unfoldable pub discovery_channel : ℕ → ℕ → ℕ
discovery_channel role elapsed_us =
    byte_at (74 ∷ 6 ∷ 50 ∷ 26 ∷ [])
      (elapsed_us / (if role == keyboard_role then 300000 else 40000) % 4)
