-- ===== src/Stream.antt =====
-- radio/src/apex_stream.c: the stop-and-wait stream that carries shell and update traffic in both
-- directions, one fragment of at most 47 bytes at a time.
pub mod InStep
pub mod Network
pub mod Order
mod Tests
pub mod Wire
use steelseries_apex_pro_min.Prelude.{
  ℕ, ◌+◌, ◌==◌, ltb, leb, ◌||◌, not, if◌then◌else◌, Bool, true, false, Option, none, some, List,
  ◌∷◌, ◌++◌, length, take, drop, replicate, byte_at, read16, write16, uint16_max,
}

abbrev pub data_max : ℕ
data_max = 47

abbrev pub header_size : ℕ
header_size = 6

-- `struct apex_stream`
pub record Stream : Type 0 where
  pub tx_sequence : ℕ
  pub rx_sequence : ℕ
  pub tx_length : ℕ
  pub rx_length : ℕ
  pub tx : List ℕ
  pub rx : List ℕ

abbrev pub reset : Stream
reset = record {
  tx_sequence = 0;
  rx_sequence = 0;
  tx_length = 0;
  rx_length = 0;
  tx = replicate data_max 0;
  rx = replicate data_max 0;
}

-- `memcpy` of all of `bytes` to the start of a buffer
abbrev pub overwrite : List ℕ → List ℕ → List ℕ
overwrite buffer bytes = bytes ++ drop (length bytes) buffer

-- `none` is -1.
unfoldable pub put : Stream → List ℕ → Stream × Option ℕ
put s bytes =
    if length bytes == 0 || ltb data_max (length bytes) || s.tx_sequence == uint16_max
    then (s, none)
    else if not (s.tx_length == 0)
    then (s, some 0)
    else (
      record s {
        tx = overwrite s.tx bytes;
        tx_length = length bytes;
        tx_sequence = s.tx_sequence + 1;
      },
      some (length bytes),
    )

-- The bytes copied out; their number is the result.
unfoldable pub get : Stream → Stream × List ℕ
get s = (record s { rx_length = 0 }, take s.rx_length s.rx)

unfoldable pub pack : Stream → List ℕ
pack s =
    1
    ∷ s.tx_length
    ∷ (write16 (if s.tx_length == 0 then 0 else s.tx_sequence)
        ++ write16 s.rx_sequence
        ++ take s.tx_length s.tx)

-- `a != b` of two tests
abbrev pub differ : Bool → Bool → Bool
differ true b = not b
differ false b = b

-- The second half of `receive`, after the acknowledgement is taken.
unfoldable pub take_fragment : Stream → List ℕ → ℕ → Stream × Option ℕ
take_fragment s packet sequence =
    if sequence == 0 || leb sequence s.rx_sequence || not (s.rx_length == 0) then (s, some 0) else (
      record s {
        rx = overwrite s.rx (take (byte_at packet 1) (drop header_size packet));
        rx_length = byte_at packet 1;
        rx_sequence = sequence;
      },
      some (byte_at packet 1),
    )

unfoldable pub receive : Stream → List ℕ → Stream × Option ℕ
unfolding take_fragment
receive s packet =
    if ltb (length packet) header_size
      || not (byte_at packet 0 == 1)
      || ltb data_max (byte_at packet 1)
      || not (length packet == header_size + byte_at packet 1)
    then (s, none)
    else let sequence = read16 (drop 2 packet) in
      let ack = read16 (drop 4 packet) in
      if differ (not (byte_at packet 1 == 0)) (not (sequence == 0))
        || ltb s.tx_sequence ack
        || ltb (s.rx_sequence + 1) sequence
      then (s, none)
      else take_fragment (if ack == s.tx_sequence then record s { tx_length = 0 } else s) packet
          sequence
