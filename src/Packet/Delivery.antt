-- ===== src/Packet/Delivery.antt =====
-- Packets from one end to the other: what `encode` seals, `decode` opens, once.
use steelseries_apex_pro_min.Prelude.{
  ℕ, ◌+◌, ◌≤◌, ◌<◌, ◌≡◌, ◌≢◌, true, false, none, some, List, [], ◌∷◌, ◌++◌, arith, refl, ap, sym,
  ◌∙◌, inl, inr, length, take, drop, same_bytes_iff, read32, write32, read32-write32, uint32_max,
  bit_xor, Option-cases, take-append, drop-append, take_all, length-append,
}
use steelseries_apex_pro_min.Packet.{
  Crypto, Session, ok, err, replay, encode, decode, malformed, make_nonce, valid_type, note_counter,
  header_size, tag_size, payload_max, protocol_version,
}

-- What the packet code relies on of CCM: opening what was sealed under the same key, nonce and
-- header gives the payload back, and sealing adds the tag.
pub record IsCcm (crypto : Crypto) : Type 0 where
  pub opens :
      (key nonce header payload sealed : List ℕ)
      → crypto.ccm_encrypt key nonce header payload ≡ some sealed
      → crypto.ccm_decrypt key nonce header sealed ≡ some payload
  pub adds_tag :
      (key nonce header payload sealed : List ℕ)
      → crypto.ccm_encrypt key nonce header payload ≡ some sealed
      → length sealed ≡ length payload + tag_size

-- The two ends of one session.
pub record IsPaired (s r : Session) : Type 0 where
  pub same_key : s.aes ≡ r.aes
  pub same_id : s.id ≡ r.id
  pub id_length : length s.id ≡ 8
  pub opposite : s.role ≡ bit_xor r.role 1
  pub usable : r.ready ≡ true

abbrev pub header_of : Session → ℕ → List ℕ → List ℕ
header_of s type payload =
    protocol_version ∷ type ∷ s.role ∷ length payload ∷ (write32 s.tx_counter ++ s.id)

module _ (crypto : Crypto) (s : Session) (type : ℕ) (payload : List ℕ) (capacity : ℕ) where
  -- A sealed packet spends the sender's counter, which it carries, and is the header followed by
  -- what CCM made of the payload.
  pub encode_lem :
      (s' : Session) (packet : List ℕ)
      → encode crypto s type payload capacity ≡ (s', ok packet)
      → (sealed : List ℕ) × (packet ≡ header_of s type payload ++ sealed)
        × (crypto.ccm_encrypt s.aes
              (make_nonce (header_of s type payload))
              (header_of s type payload)
              payload
            ≡ some sealed)
        × (s' ≡ record s { tx_counter = s.tx_counter + 1 })
        × (s.tx_counter ≢ uint32_max)
        × (valid_type type ≡ true)
        × (length payload ≤ payload_max)
  unfolding encode
  encode_lem s' packet e =
      elim (Option-cases (
        crypto.ccm_encrypt s.aes (make_nonce (header_of s type payload)) (header_of s type payload)
          payload)) [
            | inl failed ↦ absurd (ground (arith, e, failed))
            | inr (sealed, made) ↦ (
              sealed,
              ground (arith, e, made),
              made,
              ground (arith, e, made),
              ground (arith, e, made),
              ground (arith, e, made),
              ground (arith, e, made),
            )
          ]

-- The regions of a packet made of a header and sealed bytes.
module _ (s : Session) (type : ℕ) (payload sealed : List ℕ) (eight : length s.id ≡ 8) where
  abbrev packet_of : List ℕ
  packet_of = header_of s type payload ++ sealed

  packet_id : take 8 (drop 8 packet_of) ≡ s.id
  packet_id = take-append 8 s.id sealed eight

  packet_nonce : make_nonce packet_of ≡ make_nonce (header_of s type payload)
  packet_nonce =
      let e : take 8 (s.id ++ sealed) ≡ take 8 s.id = packet_id ∙ sym (take_all 8 s.id eight) in
      ap (λ l. l ++ (write32 s.tx_counter ++ (s.role ∷ []))) e

  packet_header : take header_size packet_of ≡ header_of s type payload
  packet_header =
      ap (λ l. protocol_version ∷ type ∷ s.role ∷ length payload ∷ (write32 s.tx_counter ++ l))
        packet_id

  packet_body : drop header_size packet_of ≡ sealed
  packet_body = drop-append 8 s.id sealed eight

  packet_length : length packet_of ≡ header_size + length sealed
  packet_length = omega (arith, length-append s.id sealed, eight)

module _ (crypto : Crypto) (ccm : IsCcm crypto) (s r : Session) (paired : IsPaired s r) where
  -- Between the two ends of a session: what one encodes, the other decodes to the same type and
  -- payload, unless the replay check refuses the counter; nothing changes then.
  pub decode-encode :
      (type : ℕ) (payload : List ℕ) (room capacity : ℕ) (s' : Session) (packet : List ℕ)
      → 0 < s.tx_counter
      → s.tx_counter ≤ uint32_max
      → length payload ≤ capacity
      → encode crypto s type payload room ≡ (s', ok packet)
      → decode crypto r packet capacity ≡ elim (note_counter r s.tx_counter) [
        | none ↦ (r, err replay)
        | some r' ↦ (r', ok (type, payload))
      ]
  unfolding decode malformed
  decode-encode type payload room capacity s' packet pos fits h e =
      let (sealed, is, made, next, below, typed, short) =
        encode_lem crypto s type payload room s' packet e in
      let made' =
        ccm.opens s.aes (make_nonce (header_of s type payload)) (header_of s type payload) payload
          sealed made in
      let n =
        ccm.adds_tag s.aes (make_nonce (header_of s type payload)) (header_of s type payload)
          payload sealed made in
      let eight = paired.id_length in
      let well : malformed r (header_of s type payload ++ sealed) capacity ≡ false =
        rw (packet_id s type payload sealed eight) (
          ground (
            arith,
            packet_length s type payload sealed eight,
            n,
            short,
            typed,
            paired.usable,
            paired.opposite,
            (same_bytes_iff s.id r.id).1 paired.same_id,
          )) in
      let number : read32 (drop 4 (header_of s type payload ++ sealed)) ≡ s.tx_counter =
        read32-write32 s.tx_counter (s.id ++ sealed) (omega arith) in
      let opened : crypto.ccm_decrypt r.aes (make_nonce (header_of s type payload ++ sealed))
            (take header_size (header_of s type payload ++ sealed))
            (drop header_size (header_of s type payload ++ sealed))
          ≡ some payload =
        rw
          (
            packet_nonce s type payload sealed eight,
            packet_header s type payload sealed eight,
            packet_body s type payload sealed eight,
            ← paired.same_key,
          )
          made' in
      rw (is, well, number)
        (rw opened (elim (Option-cases (note_counter r s.tx_counter)) [
          | inl seen ↦ rw seen (ground (arith, below, pos))
          | inr (r', fresh) ↦
              rw fresh (ground (arith, below, pos, take_all (length payload) payload refl))
        ]))
