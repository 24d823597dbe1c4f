-- ===== src/Stream/Wire.antt =====
-- The fields of a stream packet, and what `pack`, `put` and `receive` do to the two directions.
use steelseries_apex_pro_min.Prelude.{
  ℕ, ◌+◌, ◌^◌, ◌==◌, ◌≤◌, ◌<◌, ◌≡◌, ◌≢◌, if◌then◌else◌, some, List, ◌++◌, ◌⊎◌, length, take, drop,
  byte_at, read16, write16, read16-write16, uint16_max, arith, take-append, take-take, length-take,
  length-drop,
}
use steelseries_apex_pro_min.Stream.{Stream, header_size, put, pack, take_fragment, receive}

abbrev pub sequence_of : List ℕ → ℕ
sequence_of packet = read16 (drop 2 packet)

abbrev pub ack_of : List ℕ → ℕ
ack_of packet = read16 (drop 4 packet)

abbrev pub fragment_of : List ℕ → List ℕ
fragment_of packet = take (byte_at packet 1) (drop header_size packet)

-- The fragment that waits to be acknowledged, and the one that waits to be read.
abbrev pub unacked : Stream → List ℕ
unacked s = take s.tx_length s.tx

abbrev pub unread : Stream → List ℕ
unread s = take s.rx_length s.rx

module _ (s : Stream) (tx_fits : s.tx_sequence ≤ uint16_max)
    (rx_fits : s.rx_sequence ≤ uint16_max) where
  pub sequence_of-pack : sequence_of (pack s) ≡ (if s.tx_length == 0 then 0 else s.tx_sequence)
  unfolding pack
  sequence_of-pack =
      let n = if s.tx_length == 0 then 0 else s.tx_sequence in
      let fits : n < 2 ^ 16 = ground arith in
      read16-write16 n (write16 s.rx_sequence ++ unacked s) fits

  pub ack_of-pack : ack_of (pack s) ≡ s.rx_sequence
  unfolding pack
  ack_of-pack = read16-write16 s.rx_sequence (unacked s) (omega arith)

  pub fragment_of-pack : fragment_of (pack s) ≡ unacked s
  unfolding pack
  fragment_of-pack = take-take s.tx_length s.tx

-- The effect of `receive` on the sending half: an acknowledgement of the newest fragment clears it.
pub receive_tx :
    (s : Stream) (packet : List ℕ)
    → let s' = (receive s packet).0 in
      (s'.tx ≡ s.tx)
      × (s'.tx_sequence ≡ s.tx_sequence)
      × ((s'.tx_length ≡ s.tx_length) ⊎ ((s'.tx_length ≡ 0) × (ack_of packet ≡ s.tx_sequence)))
unfolding receive take_fragment
receive_tx s packet = ground arith

-- The effect on the receiving half: nothing, or the next fragment in an empty buffer.
pub receive_rx :
    (s : Stream) (packet : List ℕ)
    → let s' = (receive s packet).0 in
      ((s'.rx ≡ s.rx) × (s'.rx_sequence ≡ s.rx_sequence) × (s'.rx_length ≡ s.rx_length))
      ⊎ ((sequence_of packet ≡ s.rx_sequence + 1)
          × (s'.rx_sequence ≡ s.rx_sequence + 1)
          × (s.rx_length ≡ 0)
          × (s'.rx_length ≢ 0)
          × (unread s' ≡ fragment_of packet))
unfolding receive take_fragment
receive_rx s packet =
    let n = byte_at packet 1 in
    ground (
      arith,
      length-take {0} n (drop header_size packet),
      length-drop {0} header_size packet,
      take-append n (fragment_of packet) (drop (length (fragment_of packet)) s.rx),
    )

-- What `put` does: nothing, or one more fragment in an empty buffer.
pub put_tx :
    (s : Stream) (bytes : List ℕ)
    → s.tx_sequence ≤ uint16_max
    → let s' = (put s bytes).0 in
      (s'.rx ≡ s.rx)
      × (s'.rx_sequence ≡ s.rx_sequence)
      × (s'.rx_length ≡ s.rx_length)
      × (((s' ≡ s) × ((put s bytes).1 ≢ some (length bytes)))
          ⊎ (((put s bytes).1 ≡ some (length bytes))
              × (s.tx_length ≡ 0)
              × (s'.tx_length ≢ 0)
              × (s'.tx_sequence ≡ s.tx_sequence + 1)
              × (s'.tx_sequence ≤ uint16_max)
              × (unacked s' ≡ bytes)))
unfolding put
put_tx s bytes fits = ground (arith, take-append (length bytes) bytes (drop (length bytes) s.tx))
