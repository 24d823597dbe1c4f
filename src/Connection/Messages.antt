-- ===== src/Connection/Messages.antt =====
-- A handshake message that one end emits is authentic at the other, with its fields.
use steelseries_apex_pro_min.Prelude.{
  ℕ, ◌==◌, ◌≤◌, ◌≡◌, ltb, if◌then◌else◌, true, false, some, List, ◌∷◌, ◌++◌, length, length-append,
  length-take, take, drop, take-append, drop-append, take_all, byte_at, same_bytes_iff, arith, refl,
  ap, sym, ◌∙◌,
}
use mathlib.Core.List.{append_assoc}
use steelseries_apex_pro_min.Packet.{Crypto, ok, protocol_version}
use steelseries_apex_pro_min.Connection
use steelseries_apex_pro_min.Connection.{
  Connection, State, wait_hello, wait_challenge, wait_confirm, wait_ready, established,
  handshake_size, hello, challenge, confirm, ready, zero_nonce, tag, message_of, emit, request,
  check, receive,
}

-- The fields of a message body of a pair id, two nonces and a tag.
module _ (a b c t : List ℕ) (na : length a ≡ 8) (nb : length b ≡ 16) (nc : length c ≡ 16) where
  abbrev body : List ℕ
  body = ((a ++ b) ++ c) ++ t

  length-ab : length (a ++ b) ≡ 24
  length-ab = omega (arith, length-append a b, na, nb)

  length-abc : length ((a ++ b) ++ c) ≡ 40
  length-abc = omega (arith, length-append (a ++ b) c, length-ab, nc)

  split_b : body ≡ (a ++ b) ++ (c ++ t)
  split_b = append_assoc (a ++ b) c t

  split_a : body ≡ a ++ (b ++ (c ++ t))
  split_a = split_b ∙ append_assoc a b (c ++ t)

  signed_part : take 40 body ≡ (a ++ b) ++ c
  signed_part = take-append 40 ((a ++ b) ++ c) t length-abc

  tag_part : drop 40 body ≡ t
  tag_part = drop-append 40 ((a ++ b) ++ c) t length-abc

  pair_part : take 8 body ≡ a
  pair_part = rw split_a (take-append 8 a (b ++ (c ++ t)) na)

  after_pair : drop 8 body ≡ b ++ (c ++ t)
  after_pair = rw split_a (drop-append 8 a (b ++ (c ++ t)) na)

  keyboard_part : take 16 (drop 8 body) ≡ b
  keyboard_part = rw after_pair (take-append 16 b (c ++ t) nb)

  after_nonce : drop 24 body ≡ c ++ t
  after_nonce = rw split_b (drop-append 24 (a ++ b) (c ++ t) length-ab)

  receiver_part : take 16 (drop 24 body) ≡ c
  receiver_part = rw after_nonce (take-append 16 c t nc)

  length-body : length t ≡ 16 → length body ≡ 56
  length-body nt = omega (arith, length-append ((a ++ b) ++ c) t, length-abc, nt)

pub ==_refl : (a b : ℕ) → a ≡ b → (a == b) ≡ true
==_refl a b h = ground arith

pub not-ltb : (a b : ℕ) → b ≤ a → ltb a b ≡ false
not-ltb a b h = ground arith

-- What the handshake relies on: HMAC and the key schedule succeed, with a digest of 32 bytes.
pub record IsWorking (crypto : Crypto) : Type 0 where
  pub digest :
      (key message : List ℕ)
      → (mac : List ℕ) × (crypto.hmac key message ≡ some mac) × (length mac ≡ 32)
  pub schedules : (key : List ℕ) → crypto.aes_key_set key ≡ true

-- A configured connection with fields of the C sizes.
pub record IsConfigured (c : Connection) : Type 0 where
  pub set_up : c.configured ≡ true
  pub id_length : length c.pair_id ≡ 8
  pub keyboard_length : length c.keyboard_nonce ≡ 16
  pub receiver_length : length c.receiver_nonce ≡ 16

-- The second nonce of a message.
abbrev pub second_nonce : Connection → ℕ → List ℕ
second_nonce c kind = if kind == hello then zero_nonce else c.receiver_nonce

-- A message of one end that the other finds authentic, with its fields.
pub record IsSent (crypto : Crypto) (c d : Connection) (kind : ℕ) (message : List ℕ) : Type 0 where
  pub sent : emit crypto c kind handshake_size ≡ ok message
  pub authentic : check crypto d message handshake_size ≡ ok tt
  pub kind_is : byte_at message 1 ≡ kind
  pub keyboard_is : take 16 (drop 10 message) ≡ c.keyboard_nonce
  pub receiver_is : take 16 (drop 26 message) ≡ second_nonce c kind

module _ (crypto : Crypto) (works : IsWorking crypto) where
  check_lem :
      (d : Connection) (message mac : List ℕ)
      → d.configured ≡ true
      → length message ≡ handshake_size
      → byte_at message 0 ≡ protocol_version
      → hello ≤ byte_at message 1
      → byte_at message 1 ≤ ready
      → take 8 (drop 2 message) ≡ d.pair_id
      → tag crypto d message ≡ some mac
      → drop 42 message ≡ take 16 mac
      → check crypto d message handshake_size ≡ ok tt
  unfolding check
  check_lem d message mac up long version lo hi ids made tagged =
      let long_is = ==_refl (length message) handshake_size long in
      let version_is = ==_refl (byte_at message 0) protocol_version version in
      let not_below = not-ltb (byte_at message 1) hello lo in
      let not_above = not-ltb ready (byte_at message 1) hi in
      let same_id = (same_bytes_iff (take 8 (drop 2 message)) d.pair_id).1 ids in
      let same_tag = (same_bytes_iff (take 16 mac) (drop 42 message)).1 (sym tagged) in
      rw (made, up, long_is, version_is, not_below, not_above, same_id, same_tag) refl

  pub emit-IsSent :
      (c d : Connection) (kind : ℕ)
      → IsConfigured c
      → d.configured ≡ true
      → c.key ≡ d.key
      → c.pair_id ≡ d.pair_id
      → hello ≤ kind
      → kind ≤ ready
      → (message : List ℕ) × IsSent crypto c d kind message
  unfolding emit
  emit-IsSent c d kind k up keys ids lo hi =
      let n = second_nonce c kind in
      let nc : length n ≡ 16 = ground (arith, k.receiver_length) in
      let (mac, made, long) = works.digest c.key (Connection.domain ++ message_of crypto c kind) in
      let t = take 16 mac in
      let nt : length t ≡ 16 = omega (arith, length-take {0} 16 mac, long) in
      let a = c.pair_id in
      let b = c.keyboard_nonce in
      let message = message_of crypto c kind ++ t in
      let inside : List ℕ = (a ++ b) ++ n in
      let whole : take 42 (message_of crypto c kind) ≡ message_of crypto c kind =
        ap (λ l. protocol_version ∷ kind ∷ l)
          (take_all 40 inside (length-abc a b n t k.id_length k.keyboard_length nc)) in
      let signed : take 42 message ≡ message_of crypto c kind =
        ap (λ l. protocol_version ∷ kind ∷ l)
          (signed_part a b n t k.id_length k.keyboard_length nc) in
      (
        message,
        record {
          sent = rw (whole, made) refl;
          authentic =
              check_lem d message mac up
                (omega (arith, length-body a b n t k.id_length k.keyboard_length nc nt)) refl lo hi
                (pair_part a b n t k.id_length k.keyboard_length nc ∙ ids)
                (ap (λ l. crypto.hmac d.key (Connection.domain ++ l)) signed
                  ∙ ap (λ k. crypto.hmac k (Connection.domain ++ message_of crypto c kind))
                      (sym keys)
                  ∙ made)
                (tag_part a b n t k.id_length k.keyboard_length nc);
          kind_is = refl;
          keyboard_is = keyboard_part a b n t k.id_length k.keyboard_length nc;
          receiver_is = receiver_part a b n t k.id_length k.keyboard_length nc;
        },
      )
