-- ===== src/Input.antt =====
-- radio/src/apex_input.c: the queue of HID reports that the keyboard sends by radio, and the wire
-- form of one report. Buffers are lists; a pointer with a length is a list of that length, and
-- pointers are taken to be non-null.
mod Tests
pub mod Wire
pub mod Fifo
pub mod Runs
use steelseries_apex_pro_min.Prelude.{
  ℕ, ◌+◌, ◌-◌, ◌%◌, ◌==◌, ltb, ◌||◌, not, if◌then◌else◌, Bool, true, false, Option, none, some,
  List, [], ◌∷◌, ◌++◌, length, get_or, set, take, drop, replicate, byte_at, same_bytes, read32,
  write32, uint32_max,
}

abbrev pub version : ℕ
version = 2

abbrev pub keyboard_type : ℕ
keyboard_type = 1

abbrev pub consumer_type : ℕ
consumer_type = 2

abbrev pub keyboard_size : ℕ
keyboard_size = 8

abbrev pub consumer_size : ℕ
consumer_size = 12

abbrev pub queue_size : ℕ
queue_size = 32

-- `struct apex_input_frame`; `payload` is its `data`.
pub record Frame : Type 0 where
  pub sequence : ℕ
  pub type : ℕ
  pub payload : List ℕ

abbrev pub zero_frame : Frame
zero_frame = record { sequence = 0; type = 0; payload = replicate consumer_size 0 }

-- `struct apex_input_queue`
pub record Queue : Type 0 where
  pub frames : List Frame
  pub keyboard : List ℕ
  pub consumer : List ℕ
  pub next_sequence : ℕ
  pub head : ℕ
  pub count : ℕ
  pub online : Bool

-- The return values 0, -1 and -2.
pub data Status : Type 0 where
  ok invalid full : Status

unfoldable pub size : ℕ → ℕ
size type =
    if type == keyboard_type
    then keyboard_size
    else if type == consumer_type
    then consumer_size
    else 0

-- `memset` of a 12-byte field and `memcpy` of `n` bytes into it
abbrev pub copy_payload : List ℕ → ℕ → List ℕ
copy_payload bytes n = take n bytes ++ replicate (consumer_size - n) 0

unfoldable pub enqueue : Queue → ℕ → List ℕ → Queue × Status
enqueue q type bytes =
    if q.count == queue_size || q.next_sequence == uint32_max then (q, full) else (
      record q {
        frames = set q.frames ((q.head + q.count) % queue_size) (record {
          sequence = q.next_sequence;
          type = type;
          payload = copy_payload bytes (size type);
        });
        next_sequence = q.next_sequence + 1;
        count = q.count + 1;
      },
      ok,
    )

unfoldable pub disconnect : Queue → Queue
disconnect q = record q { head = 0; count = 0; online = false }

unfoldable pub session : Queue → Queue
unfolding disconnect
session q =
    let q₁ = record (disconnect q) { online = true; next_sequence = 1 } in
    let q₂ = (enqueue q₁ keyboard_type q₁.keyboard).0 in (enqueue q₂ consumer_type q₂.consumer).0

-- `latest`, the stored report of that type, and the `memcpy` over it
abbrev pub latest : Queue → ℕ → List ℕ
latest q type = if type == keyboard_type then q.keyboard else q.consumer

abbrev pub set_latest : Queue → ℕ → List ℕ → Queue
set_latest q type bytes =
    if type == keyboard_type then record q { keyboard = bytes } else record q { consumer = bytes }

unfoldable pub push : Queue → ℕ → List ℕ → Queue × Status
push q type bytes =
    if size type == 0 || not (length bytes == size type)
    then (q, invalid)
    else if same_bytes (latest q type) bytes
    then (q, ok)
    else let q' = set_latest q type bytes in if q'.online then enqueue q' type bytes else (q', ok)

unfoldable pub peek : Queue → Option Frame
peek q = if q.count == 0 then none else some (get_or q.frames q.head zero_frame)

unfoldable pub ack : Queue → ℕ → Queue × Bool
ack q sequence =
    if q.count == 0 || not ((get_or q.frames q.head zero_frame).sequence == sequence)
    then (q, false)
    else (record q { head = (q.head + 1) % queue_size; count = q.count - 1 }, true)

-- `none` is -1; the list is what is written at `out`, and its length the result.
unfoldable pub pack : Frame → ℕ → Option (List ℕ)
pack f capacity =
    let n = size f.type in
    if n == 0 || f.sequence == 0 || ltb capacity (n + 6)
    then none
    else some (version ∷ (write32 f.sequence ++ (f.type ∷ take n f.payload)))

-- The loop that ORs the four bytes of the sequence number is `read32` written out.
unfoldable pub unpack : List ℕ → Option Frame
unpack bytes =
    if ltb (length bytes) 6 || not (byte_at bytes 0 == version)
    then none
    else let n = size (byte_at bytes 5) in
      if n == 0 || not (length bytes == n + 6)
      then none
      else let sequence = read32 (drop 1 bytes) in
        if sequence == 0
        then none
        else some (record {
          sequence = sequence;
          type = byte_at bytes 5;
          payload = copy_payload (drop 6 bytes) n;
        })
