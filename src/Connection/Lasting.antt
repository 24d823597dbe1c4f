-- ===== src/Connection/Lasting.antt =====
-- radio/src/apex_packet.c: the key, the identifier and the role of a session through its packets.
use steelseries_apex_pro_min.Prelude.{
  ℕ, ◌≤◌, ◌≡◌, some, List, arith, inl, inr, drop, Option-cases, read32,
}
use steelseries_apex_pro_min.Packet
use steelseries_apex_pro_min.Packet.{Crypto, Session, note_counter}

-- What a session keeps for its life; the counter to send only grows.
pub record IsSame (s s' : Session) : Type 0 where
  pub aes : s'.aes ≡ s.aes
  pub id : s'.id ≡ s.id
  pub role : s'.role ≡ s.role
  pub ready : s'.ready ≡ s.ready
  pub counter : s.tx_counter ≤ s'.tx_counter

module _ (crypto : Crypto) where
  pub encode-IsSame :
      (s : Session) (type : ℕ) (payload : List ℕ) (capacity : ℕ)
      → IsSame s (Packet.encode crypto s type payload capacity).0
  unfolding Packet.encode
  encode-IsSame s type payload capacity = ground arith

  note_counter-IsSame :
      (s s' : Session) (counter : ℕ) → note_counter s counter ≡ some s' → IsSame s s'
  unfolding note_counter
  note_counter-IsSame s s' counter e = ground arith

  pub decode-IsSame :
      (s : Session) (packet : List ℕ) (capacity : ℕ)
      → IsSame s (Packet.decode crypto s packet capacity).0
  unfolding Packet.decode
  decode-IsSame s packet capacity = elim (Option-cases (note_counter s (read32 (drop 4 packet)))) [
    | inl e ↦ ground arith
    | inr (s', e) ↦ ground (arith, note_counter-IsSame s s' (read32 (drop 4 packet)) e)
  ]
