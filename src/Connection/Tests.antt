-- ===== src/Connection/Tests.antt =====
-- The handshake between two configured ends, message by message, with a constant tag.
use steelseries_apex_pro_min.Prelude.{
  ℕ, ◌≡◌, true, some, List, [], ◌∷◌, ◌++◌, arith, refl, replicate, take, length, same_bytes,
}
use steelseries_apex_pro_min.Packet
use steelseries_apex_pro_min.Packet.{Crypto, Result, ok, err, keyboard_role, receiver_role}
use steelseries_apex_pro_min.Packet.Delivery.{IsPaired}
use steelseries_apex_pro_min.Connection.{
  Connection, established, init, start, receive, request, hello, challenge, confirm, ready,
  zero_nonce, check, after_check, accepted, on_hello, hello_at, on_challenge, challenge_at, on_last,
  confirm_at, ready_at, with_session, after_init, emit,
}
use steelseries_apex_pro_min.Connection.Keys.{IsMade}
use steelseries_apex_pro_min.Connection.Messages.{IsWorking, IsConfigured}
use steelseries_apex_pro_min.Connection.Handshake.{challenging, confirming, receive-establishes}
use steelseries_apex_pro_min.Connection.Agreement.{Step, Reach, IsHmac, agreement, Reach-IsMade}

abbrev toy : Crypto
toy = record {
  hmac = λ key message. some (replicate 32 7);
  aes_key_set = λ key. true;
  ccm_encrypt = λ key nonce header payload. some (payload ++ replicate 8 0);
  ccm_decrypt = λ key nonce header sealed. some (take (length sealed) sealed);
}

toy-IsHmac : IsHmac toy
toy-IsHmac = record { mac_length = λ key message mac e. ground (arith, e) }

abbrev pairing_key : List ℕ
pairing_key = replicate 16 3

abbrev pair_id : List ℕ
pair_id = replicate 8 4

abbrev message : ℕ → List ℕ → List ℕ
message kind receiver_nonce =
    1 ∷ kind ∷ (pair_id ++ (replicate 16 1 ++ (receiver_nonce ++ replicate 16 7)))

abbrev keyboard₀ : Connection
keyboard₀ = (start (init pairing_key pair_id keyboard_role).0 (replicate 16 1)).0

abbrev receiver₀ : Connection
receiver₀ = (start (init pairing_key pair_id receiver_role).0 (replicate 16 2)).0

abbrev receiver₁ : Connection
receiver₁ = (receive toy receiver₀ (message hello zero_nonce) 58).0

abbrev keyboard₁ : Connection
keyboard₁ = (receive toy keyboard₀ (message challenge (replicate 16 2)) 58).0

abbrev receiver₂ : Connection
receiver₂ = (receive toy receiver₁ (message confirm (replicate 16 2)) 58).0

abbrev keyboard₂ : Connection
keyboard₂ = (receive toy keyboard₁ (message ready (replicate 16 2)) 58).0

-- The four messages in order establish both ends.
four_messages :
    (request toy keyboard₀ 58 ≡ ok (message hello zero_nonce))
    × ((receive toy receiver₀ (message hello zero_nonce) 58).1
        ≡ ok (message challenge (replicate 16 2)))
    × ((receive toy keyboard₀ (message challenge (replicate 16 2)) 58).1
        ≡ ok (message confirm (replicate 16 2)))
    × ((receive toy receiver₁ (message confirm (replicate 16 2)) 58).1
        ≡ ok (message ready (replicate 16 2)))
    × (receiver₂.state ≡ established)
    × (keyboard₂.state ≡ established)
unfolding request receive check after_check accepted on_hello hello_at on_challenge challenge_at
    on_last confirm_at ready_at with_session after_init emit start init Packet.session_init
    same_bytes
four_messages = (refl, refl, refl, refl, refl, refl)

keyboard_reached : Reach toy pairing_key pair_id keyboard_role keyboard₂
keyboard_reached =
    Reach.later
      (Reach.later (Reach.later Reach.configured (Step.starts (replicate 16 1)))
        (Step.receives (message challenge (replicate 16 2)) 58))
      (Step.receives (message ready (replicate 16 2)) 58)

receiver_reached : Reach toy pairing_key pair_id receiver_role receiver₂
receiver_reached =
    Reach.later
      (Reach.later (Reach.later Reach.configured (Step.starts (replicate 16 2)))
        (Step.receives (message hello zero_nonce) 58))
      (Step.receives (message confirm (replicate 16 2)) 58)

agreement_example :
    IsPaired keyboard₂.session receiver₂.session × IsPaired receiver₂.session keyboard₂.session
unfolding request receive check after_check accepted on_hello hello_at on_challenge challenge_at
    on_last confirm_at ready_at with_session after_init emit start init Packet.session_init
    same_bytes
agreement_example = agreement toy toy-IsHmac keyboard_reached receiver_reached refl refl refl refl

Reach-IsMade_test : IsMade toy keyboard₂ keyboard₂.role keyboard₂.session
unfolding receive check after_check accepted on_challenge challenge_at on_last ready_at with_session
    after_init emit start init Packet.session_init same_bytes
Reach-IsMade_test = Reach-IsMade toy keyboard_reached refl

toy-IsWorking : IsWorking toy
toy-IsWorking = record {
  digest = λ key message. (replicate 32 7, refl, refl);
  schedules = λ key. refl;
}

keyboard₀-IsConfigured : IsConfigured keyboard₀
unfolding start init same_bytes
keyboard₀-IsConfigured = record {
  set_up = refl;
  id_length = refl;
  keyboard_length = refl;
  receiver_length = refl;
}

receiver₀-IsConfigured : IsConfigured receiver₀
unfolding start init same_bytes
receiver₀-IsConfigured = record {
  set_up = refl;
  id_length = refl;
  keyboard_length = refl;
  receiver_length = refl;
}

receive-establishes_example :
    let rx = challenging toy toy-IsWorking keyboard₀ receiver₀ in
    let kb = confirming toy toy-IsWorking keyboard₀ receiver₀ in
    (m₁ : List ℕ) × (m₂ : List ℕ) × (m₃ : List ℕ) × (m₄ : List ℕ) × (request toy keyboard₀ 58
      ≡ ok m₁)
    × (receive toy receiver₀ m₁ 58 ≡ (rx, ok m₂))
    × (receive toy keyboard₀ m₂ 58 ≡ (kb, ok m₃))
    × (receive toy rx m₃ 58 ≡ (record rx { state = established }, ok m₄))
    × (receive toy kb m₄ 58 ≡ (record kb { state = established }, ok []))
unfolding start init same_bytes
receive-establishes_example =
    receive-establishes toy toy-IsWorking keyboard₀ receiver₀ keyboard₀-IsConfigured
      receiver₀-IsConfigured refl refl refl refl refl refl
