-- ===== src/Packet/Tests.antt =====
-- The packet theorems at concrete sessions, with a cipher that only appends eight zero bytes.
use steelseries_apex_pro_min.Prelude.{
  ℕ, ◌+◌, ◌-◌, ◌≤◌, ◌≡◌, ◌↔◌, ◌⊎◌, true, none, some, List, [], ◌∷◌, ◌++◌, arith, refl, length, take,
  replicate, length-append, take-append, uint32_max, read32, same_bytes,
}
use steelseries_apex_pro_min.Packet.{
  Crypto, Session, encode, decode, note_counter, ok, err, replay, malformed, valid_type, seen_bit,
  shift_window,
}
use steelseries_apex_pro_min.Packet.Window.{contains, fresh-IsTracking, note_counter_iff}
use steelseries_apex_pro_min.Packet.Delivery.{IsCcm, IsPaired, decode-encode}
use steelseries_apex_pro_min.Packet.Replay.{
  IsDistinct, IsDescending, Sending, receive_all, send_all, receive_all-IsDistinct,
  send_all-IsDescending,
}

abbrev toy : Crypto
toy = record {
  hmac = λ key message. some (replicate 32 7);
  aes_key_set = λ key. true;
  ccm_encrypt = λ key nonce header payload. some (payload ++ replicate 8 0);
  ccm_decrypt = λ key nonce header sealed. some (take (length sealed - 8) sealed);
}

toy-opens :
    (payload : List ℕ)
    → take (length (payload ++ replicate 8 0) - 8) (payload ++ replicate 8 0) ≡ payload
toy-opens payload =
    take-append (length (payload ++ replicate 8 0) - 8) payload (replicate 8 0)
      (omega (arith, length-append payload (replicate 8 0)))

toy-IsCcm : IsCcm toy
toy-IsCcm = record {
  opens = λ key nonce header payload sealed e. ground (arith, e, toy-opens payload);
  adds_tag =
      λ key nonce header payload sealed e. ground (arith, e, length-append payload (replicate 8 0));
}

abbrev keyboard_end : Session
keyboard_end = record {
  aes = replicate 16 7;
  id = replicate 8 9;
  tx_counter = 3;
  rx_highest = 0;
  rx_seen = 0;
  role = 0;
  ready = true;
}

abbrev receiver_end : Session
receiver_end = record {
  aes = replicate 16 7;
  id = replicate 8 9;
  tx_counter = 1;
  rx_highest = 0;
  rx_seen = 0;
  role = 1;
  ready = true;
}

IsPaired-ends : IsPaired keyboard_end receiver_end
IsPaired-ends = record {
  same_key = refl;
  same_id = refl;
  id_length = refl;
  opposite = refl;
  usable = refl;
}

-- One byte, 42, under counter 3.
abbrev sealed_byte : List ℕ
sealed_byte = 1 ∷ 1 ∷ 0 ∷ 1 ∷ 3 ∷ 0 ∷ 0 ∷ 0 ∷ (replicate 8 9 ++ (42 ∷ replicate 8 0))

encode_byte :
    encode toy keyboard_end 1 (42 ∷ []) 88
    ≡ (record keyboard_end { tx_counter = 4 }, ok sealed_byte)
unfolding encode valid_type
encode_byte = refl

-- Sent twice, it is delivered once.
receive_twice :
    (receive_all toy receiver_end [] ((sealed_byte, 64) ∷ (sealed_byte, 64) ∷ [])).1 ≡ 3 ∷ []
unfolding receive_all decode malformed read32 same_bytes valid_type note_counter shift_window
    seen_bit
receive_twice = refl

receive_all-IsDistinct_example :
    IsDistinct (receive_all toy receiver_end [] ((sealed_byte, 64) ∷ (sealed_byte, 64) ∷ [])).1
receive_all-IsDistinct_example =
    receive_all-IsDistinct toy receiver_end ((sealed_byte, 64) ∷ (sealed_byte, 64) ∷ []) refl refl

abbrev attempts : List Sending
attempts =
    record { type = 1; payload = 42 ∷ []; capacity = 88 }
    ∷ record { type = 9; payload = []; capacity = 88 }
    ∷ record { type = 2; payload = []; capacity = 88 }
    ∷ []

send_all-IsDescending_example :
    let (s', sent) = send_all toy keyboard_end [] attempts in
    IsDescending s'.tx_counter sent × (s'.tx_counter ≤ uint32_max)
send_all-IsDescending_example = send_all-IsDescending toy attempts keyboard_end [] tt (omega arith)

decode-encode_example :
    decode toy receiver_end sealed_byte 64 ≡ elim (note_counter receiver_end 3) [
      | none ↦ (receiver_end, err replay)
      | some r' ↦ (r', ok (1, 42 ∷ []))
    ]
decode-encode_example =
    decode-encode toy toy-IsCcm keyboard_end receiver_end IsPaired-ends 1 (42 ∷ []) 88 64
      (record keyboard_end { tx_counter = 4 }) sealed_byte (omega arith) (omega arith) (omega arith)
      encode_byte

note_counter_iff_test :
    (note_counter receiver_end 5 ≡ none) ↔ ((contains 5 [] ≡ true) ⊎ (5 + 64 ≤ 0))
note_counter_iff_test =
    note_counter_iff receiver_end [] 5 (fresh-IsTracking receiver_end refl refl) (omega arith)
