-- ===== src/Packet.antt =====
-- radio/src/apex_packet.c: authenticated packets with a 64-entry replay window. The TinyCrypt HMAC,
-- AES key schedule and CCM mode are a parameter.
pub mod Delivery
pub mod Replay
mod Tests
pub mod Window
use steelseries_apex_pro_min.Prelude.{
  ℕ, ◌+◌, ◌-◌, ◌*◌, ◌^◌, ◌≤◌, ◌<◌, ◌==◌, ◌≡◌, ltb, leb, ◌||◌, not, if◌then◌else◌, Bool, true, false,
  Option, none, some, List, [], ◌∷◌, ◌++◌, length, take, drop, replicate, byte_at, read32, write32,
  uint32_max, u64, bit_and, bit_or, bit_xor, ◌<<<◌, same_bytes,
}

abbrev pub protocol_version : ℕ
protocol_version = 1

abbrev pub header_size : ℕ
header_size = 16

abbrev pub tag_size : ℕ
tag_size = 8

abbrev pub payload_max : ℕ
payload_max = 64

abbrev pub packet_max : ℕ
packet_max = header_size + payload_max + tag_size

-- `enum apex_role`
abbrev pub keyboard_role : ℕ
keyboard_role = 0

abbrev pub receiver_role : ℕ
receiver_role = 1

-- `enum apex_packet_type`, the ends of its range and the two of the hop messages
abbrev pub input_type : ℕ
input_type = 1

abbrev pub ack_type : ℕ
ack_type = 2

abbrev pub control_type : ℕ
control_type = 3

abbrev pub channel_map_type : ℕ
channel_map_type = 5

abbrev pub input_batch_type : ℕ
input_batch_type = 6

abbrev pub shell_type : ℕ
shell_type = 8

-- The negative results of this file and of the ones built on it: -1 to -6.
pub data Error : Type 0 where
  invalid auth_failed replay rekey state_error expired : Error

pub data Result {ℓ} (A : Type ℓ) : Type ℓ where
  ok : A → Result A
  err : Error → Result A

-- What the code calls of TinyCrypt. A key schedule is its 16-byte key; `none` is a result of 0.
pub record Crypto : Type 0 where
  -- HMAC-SHA256 over the concatenation of what is fed to `tc_hmac_update`: 32 bytes
  pub hmac : List ℕ → List ℕ → Option (List ℕ)
  -- `tc_aes128_set_encrypt_key`
  pub aes_key_set : List ℕ → Bool
  -- `tc_ccm_generation_encryption`: key, nonce, associated data, payload; the ciphertext and tag
  pub ccm_encrypt : List ℕ → List ℕ → List ℕ → List ℕ → Option (List ℕ)
  -- `tc_ccm_decryption_verification`: key, nonce, associated data, ciphertext and tag; the payload
  pub ccm_decrypt : List ℕ → List ℕ → List ℕ → List ℕ → Option (List ℕ)

-- `struct apex_session`
pub record Session : Type 0 where
  pub aes : List ℕ
  pub id : List ℕ
  pub tx_counter : ℕ
  pub rx_highest : ℕ
  pub rx_seen : ℕ
  pub role : ℕ
  pub ready : Bool

abbrev pub session_clear : Session
session_clear = record {
  aes = replicate 16 0;
  id = replicate 8 0;
  tx_counter = 0;
  rx_highest = 0;
  rx_seen = 0;
  role = 0;
  ready = false;
}

-- "apex-radio-v1-session"
abbrev pub session_label : List ℕ
session_label =
    b'a' ∷ b'p' ∷ b'e' ∷ b'x' ∷ b'-' ∷ b'r' ∷ b'a' ∷ b'd' ∷ b'i' ∷ b'o' ∷ b'-' ∷ b'v' ∷ b'1' ∷ b'-'
    ∷ b's' ∷ b'e' ∷ b's' ∷ b's' ∷ b'i' ∷ b'o' ∷ b'n' ∷ []

abbrev pub make_nonce : List ℕ → List ℕ
make_nonce packet = take 8 (drop 8 packet) ++ (take 4 (drop 4 packet) ++ (byte_at packet 2 ∷ []))

unfoldable pub valid_type : ℕ → Bool
valid_type type = not (ltb type input_type || ltb shell_type type)

-- `rx_seen` after a newer packet, `gap` counters ahead: `(gap >= 64 ? 0 : rx_seen << gap) | 1`
unfoldable pub shift_window : ℕ → ℕ → ℕ
shift_window seen gap = bit_or (if leb 64 gap then 0 else u64 (seen <<< gap)) 1

-- `rx_seen & (UINT64_C(1) << gap)`
unfoldable pub seen_bit : ℕ → ℕ → Bool
seen_bit seen gap = not (bit_and seen (1 <<< gap) == 0)

-- The replay check on an authenticated counter: the session with the counter noted, or a replay.
unfoldable pub note_counter : Session → ℕ → Option Session
note_counter s counter =
    if ltb s.rx_highest counter
    then some (record s {
      rx_seen = shift_window s.rx_seen (counter - s.rx_highest);
      rx_highest = counter;
    })
    else let gap = s.rx_highest - counter in
      if leb 64 gap || seen_bit s.rx_seen gap
      then none
      else some (record s { rx_seen = bit_or s.rx_seen (1 <<< gap) })

-- The test before the counter is read.
unfoldable pub malformed : Session → List ℕ → ℕ → Bool
malformed s packet capacity =
    not s.ready
    || ltb (length packet) (header_size + tag_size)
    || ltb packet_max (length packet)
    || not (byte_at packet 0 == protocol_version)
    || not (valid_type (byte_at packet 1))
    || not (byte_at packet 2 == bit_xor s.role 1)
    || ltb capacity (byte_at packet 3)
    || ltb payload_max (byte_at packet 3)
    || not (length packet == header_size + byte_at packet 3 + tag_size)
    || not (same_bytes (take 8 (drop 8 packet)) s.id)

module _ (crypto : Crypto) where
  unfoldable pub session_init : List ℕ → List ℕ → List ℕ → ℕ → Session × Result (Unit {0})
  session_init key kn dn role =
      if ltb receiver_role role
      then (session_clear, err invalid)
      else elim (crypto.hmac key (session_label ++ kn ++ dn)) [
        | none ↦ (session_clear, err auth_failed)
        | some derived ↦
            let set = crypto.aes_key_set (take 16 derived) in
            (
              record {
                aes = take 16 derived;
                id = take 8 (drop 16 derived);
                tx_counter = 1;
                rx_highest = 0;
                rx_seen = 0;
                role = role;
                ready = set;
              },
              if set then ok tt else err auth_failed,
            )
      ]

  -- The packet written is the result; its length is what the code returns.
  unfoldable pub encode : Session → ℕ → List ℕ → ℕ → Session × Result (List ℕ)
  encode s type payload capacity =
      if not s.ready
        || not (valid_type type)
        || ltb payload_max (length payload)
        || ltb capacity (header_size + length payload + tag_size)
      then (s, err invalid)
      else if s.tx_counter == uint32_max
      then (s, err rekey)
      else let header =
          protocol_version ∷ type ∷ s.role ∷ length payload ∷ (write32 s.tx_counter ++ s.id) in
        let s' = record s { tx_counter = s.tx_counter + 1 } in
        elim (crypto.ccm_encrypt s.aes (make_nonce header) header payload) [
          | none ↦ (s', err auth_failed)
          | some sealed ↦ (s', ok (header ++ sealed))
        ]

  -- The type and payload delivered; the session is new only then.
  unfoldable pub decode : Session → List ℕ → ℕ → Session × Result (ℕ × List ℕ)
  decode s packet capacity =
      if malformed s packet capacity
      then (s, err invalid)
      else let counter = read32 (drop 4 packet) in
        if counter == 0 || counter == uint32_max
        then (s, err invalid)
        else elim (crypto.ccm_decrypt s.aes (make_nonce packet) (take header_size packet)
            (drop header_size packet)) [
              | none ↦ (s, err auth_failed)
              | some plain ↦ elim (note_counter s counter) [
                | none ↦ (s, err replay)
                | some s' ↦ (s', ok (byte_at packet 1, take (byte_at packet 3) plain))
              ]
            ]
