-- ===== src/Delivery.antt =====
-- radio/src/apex_delivery.c: reports from the keyboard's queue to the receiver's queue of eight, the
-- acknowledgement that reports both positions, and batches of up to three reports.
pub mod AckWire
pub mod BatchWire
pub mod Receiver
pub mod Sender
mod Tests
use steelseries_apex_pro_min.Prelude.{
  ℕ, zero, suc, ◌+◌, ◌-◌, ◌%◌, ◌==◌, ltb, leb, ◌||◌, ◌&&◌, not, if◌then◌else◌, Bool, true, false,
  Option, none, some, List, [], ◌∷◌, ◌++◌, length, get_or, set, take, drop, replicate, byte_at,
  read32, write32, uint32_max,
}
use steelseries_apex_pro_min.Input.{Frame, zero_frame, Queue, size, queue_size, pack, unpack}

abbrev pub capacity : ℕ
capacity = 8

abbrev pub ack_size : ℕ
ack_size = 11

abbrev pub version : ℕ
version = 2

abbrev pub batch_max : ℕ
batch_max = 3

-- `struct apex_delivery_ack`
pub record Ack : Type 0 where
  pub accepted : ℕ
  pub completed : ℕ
  pub free : ℕ
  pub leds : ℕ

-- `struct apex_delivery_rx`
pub record Rx : Type 0 where
  pub frames : List Frame
  pub accepted : ℕ
  pub completed : ℕ
  pub head : ℕ
  pub count : ℕ

-- `struct apex_delivery_tx`
pub record Tx : Type 0 where
  pub sent : ℕ
  pub accepted : ℕ
  pub completed : ℕ
  pub free : ℕ

-- The results 0, 1, -1 and -2 of `apex_delivery_receive`.
pub data Received : Type 0 where
  queued duplicate invalid full : Received

abbrev pub rx_reset : Rx
rx_reset = record {
  frames = replicate capacity zero_frame;
  accepted = 0;
  completed = 0;
  head = 0;
  count = 0;
}

unfoldable pub receive : Rx → Frame → Rx × Received
receive rx frame =
    if frame.sequence == 0 || size frame.type == 0
    then (rx, invalid)
    else if leb frame.sequence rx.accepted
    then (rx, duplicate)
    else if rx.accepted == uint32_max || not (frame.sequence == rx.accepted + 1)
    then (rx, invalid)
    else if rx.count == capacity
    then (rx, full)
    else (
      record rx {
        frames = set rx.frames ((rx.head + rx.count) % capacity) frame;
        accepted = frame.sequence;
        count = rx.count + 1;
      },
      queued,
    )

unfoldable pub front : Rx → Option Frame
front rx = if rx.count == 0 then none else some (get_or rx.frames rx.head zero_frame)

unfoldable pub complete : Rx → ℕ → Rx × Bool
complete rx sequence =
    if rx.count == 0 || not ((get_or rx.frames rx.head zero_frame).sequence == sequence)
    then (rx, false)
    else (
      record rx { completed = sequence; head = (rx.head + 1) % capacity; count = rx.count - 1 },
      true,
    )

-- `APEX_DELIVERY_CAPACITY - rx->count` is not truncated: `count` is at most 8.
unfoldable pub status : Rx → ℕ → Ack
status rx leds = record {
  accepted = rx.accepted;
  completed = rx.completed;
  free = capacity - rx.count;
  leds = leds;
}

abbrev pub tx_reset : Tx
tx_reset = record { sent = 0; accepted = 0; completed = 0; free = capacity }

-- The differences are taken only where the tests before them make them exact.
unfoldable pub valid_ack : Ack → Bool
valid_ack ack =
    leb ack.completed ack.accepted
    && leb ack.free capacity
    && ack.accepted - ack.completed == capacity - ack.free

unfoldable pub apply : Tx → Ack → Tx × Bool
apply tx ack =
    if not (valid_ack ack)
      || ltb tx.sent ack.accepted
      || ltb ack.accepted tx.accepted
      || ltb ack.completed tx.completed
    then (tx, false)
    else (record tx { accepted = ack.accepted; completed = ack.completed; free = ack.free }, true)

abbrev pub entry : Queue → ℕ → Frame
entry q i = get_or q.frames ((q.head + i) % queue_size) zero_frame

-- The search loop of `apex_delivery_next` at index `i`, with `left` rounds to go.
unfoldable pub find_from : Queue → ℕ → ℕ → ℕ → Option Frame
find_from q sequence i zero = none
find_from q sequence i (suc left) =
    let rest = find_from q sequence (i + 1) left in
    if (entry q i).sequence == sequence then some (entry q i) else rest

unfoldable pub next : Tx → Queue → Option Frame
unfolding find_from
next tx q =
    if tx.free == 0 || tx.accepted == uint32_max
    then none
    else find_from q (tx.accepted + 1) 0 q.count

-- The loop of `apex_delivery_batch` at index `i`: `room` is the entries that the batch may still
-- take, `next` the last sequence number taken; it returns what it adds to the batch.
unfoldable pub collect : Queue → ℕ → ℕ → ℕ → ℕ → List Frame
collect q i zero room next = []
collect q i (suc left) zero next = []
collect q i (suc left) (suc room) next =
    let f = entry q i in
    let skip = collect q (i + 1) left (suc room) next in
    let keep = f ∷ collect q (i + 1) left room (next + 1) in
    if not (ltb next uint32_max)
    then []
    else if leb f.sequence next
    then skip
    else if not (f.sequence == next + 1)
    then []
    else keep

unfoldable pub batch : Tx → Queue → List Frame
unfolding collect
batch tx q =
    if not q.online
    then []
    else let frames = collect q 0 q.count batch_max tx.accepted in
      if leb (length frames) tx.free then frames else []

unfoldable pub ack_pack : Ack → List ℕ
ack_pack ack =
    version ∷ (write32 ack.accepted ++ write32 ack.completed ++ (ack.free ∷ ack.leds ∷ []))

unfoldable pub ack_unpack : List ℕ → Option Ack
unfolding valid_ack
ack_unpack bytes =
    if not (length bytes == ack_size) || not (byte_at bytes 0 == version)
    then none
    else let decoded : Ack = record {
      accepted = read32 (drop 1 bytes);
      completed = read32 (drop 5 bytes);
      free = byte_at bytes 9;
      leds = byte_at bytes 10;
    } in
      if valid_ack decoded then some decoded else none

-- `i && (previous.sequence == UINT32_MAX || sequence != previous.sequence + 1)`
abbrev pub breaks_run : Option Frame → Frame → Bool
breaks_run none f = false
breaks_run (some p) f = p.sequence == uint32_max || not (f.sequence == p.sequence + 1)

-- The loop of `apex_delivery_batch_pack`: the frames left, the one before them, the room left.
unfoldable pub pack_frames : Option Frame → List Frame → ℕ → Option (List ℕ)
pack_frames previous [] room = some []
pack_frames previous (f ∷ fs) room = if breaks_run previous f then none else elim (pack f room) [
  | none ↦ none
  | some wire ↦ elim (pack_frames (some f) fs (room - length wire)) [
    | none ↦ none
    | some rest ↦ some (wire ++ rest)
  ]
]

-- `frames[0..count)` is the list.
unfoldable pub batch_pack : List Frame → ℕ → Option (List ℕ)
unfolding pack_frames
batch_pack frames room =
    if length frames == 0 || ltb batch_max (length frames) || ltb room 2
    then none
    else elim (pack_frames none frames (room - 2)) [
      | none ↦ none
      | some wire ↦ some (version ∷ length frames ∷ wire)
    ]

-- The loop of `apex_delivery_batch_unpack` with `left` frames to go; the bytes are those from
-- `offset` on, and a frame's size is read from its type byte.
unfoldable pub unpack_frames : Option Frame → ℕ → List ℕ → Option (List Frame)
unpack_frames previous zero bytes = if length bytes == 0 then some [] else none
unpack_frames previous (suc left) bytes =
    let n = 6 + size (byte_at bytes 5) in
    if ltb (length bytes) 6 || ltb (length bytes) n then none else elim (unpack (take n bytes)) [
      | none ↦ none
      | some f ↦
          if breaks_run previous f
          then none
          else elim (unpack_frames (some f) left (drop n bytes)) [
            | none ↦ none
            | some fs ↦ some (f ∷ fs)
          ]
    ]

unfoldable pub batch_unpack : List ℕ → Option (List Frame)
unfolding unpack_frames
batch_unpack bytes =
    if ltb (length bytes) 2
      || not (byte_at bytes 0 == version)
      || byte_at bytes 1 == 0
      || ltb batch_max (byte_at bytes 1)
    then none
    else unpack_frames none (byte_at bytes 1) (drop 2 bytes)
