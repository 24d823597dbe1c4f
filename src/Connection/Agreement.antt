-- ===== src/Connection/Agreement.antt =====
-- Any sequence of calls on a connection, and what two ends that hold the same nonces share.
use steelseries_apex_pro_min.Prelude.{
  ℕ, ◌≤◌, ◌==◌, ◌≡◌, ltb, ◌||◌, not, if◌then◌else◌, true, some, List, ◌++◌, arith, refl, ap, sym,
  ◌∙◌, inl, inr, length, drop, length-take, length-drop, same_bytes, Bool-cases, Option-cases,
}
use steelseries_apex_pro_min.Packet
use steelseries_apex_pro_min.Packet.{Crypto, Session, Result, ok, err, keyboard_role, receiver_role}
use steelseries_apex_pro_min.Packet.Delivery.{IsPaired}
use steelseries_apex_pro_min.Connection
use steelseries_apex_pro_min.Connection.{
  Connection, State, established, is_established, init, start,
}
use steelseries_apex_pro_min.Connection.Lasting.{IsSame, encode-IsSame, decode-IsSame}
use steelseries_apex_pro_min.Connection.Kept.{Keeps, receive-Keeps}
use steelseries_apex_pro_min.Connection.Keys.{
  IsMade, IsConsistent, has_session, derived, is_some, key_part, id_part, receive-IsConsistent,
}

module _ (crypto : Crypto) where
  -- A call that changes a connection, with the connection after it.
  pub data Step (c : Connection) : Connection → Type 0 where
    starts : (nonce : List ℕ) → Step c (start c nonce).0
    receives :
        (message : List ℕ) (capacity : ℕ) → Step c (Connection.receive crypto c message capacity).0
    encodes :
        (type : ℕ) (payload : List ℕ) (capacity : ℕ)
        → Step c (Connection.encode crypto c type payload capacity).0
    decodes :
        (packet : List ℕ) (capacity : ℕ) → Step c (Connection.decode crypto c packet capacity).0

  -- The connections that calls lead to from a configured one.
  pub data Reach (key id : List ℕ) (role : ℕ) : Connection → Type 0 where
    configured : Reach key id role (init key id role).0
    later : {c c' : Connection} → Reach key id role c → Step c c' → Reach key id role c'

  start-IsConsistent :
      (c : Connection) (nonce : List ℕ)
      → IsConsistent crypto c
      → IsConsistent crypto (start c nonce).0
  unfolding start
  start-IsConsistent c nonce k =
      let local = if c.role == keyboard_role then c.keyboard_nonce else c.receiver_nonce in
      elim (Bool-cases (not c.configured || ltb receiver_role c.role || same_bytes local nonce)) [
        | inl refused ↦ rw refused k
        | inr good ↦ rw good (elim (Bool-cases (c.role == keyboard_role)) [
          | inl e ↦ rw e (λ h. absurd (cc))
          | inr e ↦ rw e (λ h. absurd (cc))
        ])
      ]

  IsMade-IsSame :
      (c : Connection) (s : Session)
      → IsSame c.session s
      → IsMade crypto c c.role c.session
      → IsMade crypto (record c { session = s }) c.role s
  IsMade-IsSame c s same m = record {
    derives = m.derives;
    aes = same.aes ∙ m.aes;
    id = same.id ∙ m.id;
    role_is = same.role ∙ m.role_is;
    ready = same.ready ∙ m.ready;
    counter = omega (arith, same.counter, m.counter);
  }

  encode-IsConsistent :
      (c : Connection) (type : ℕ) (payload : List ℕ) (capacity : ℕ)
      → IsConsistent crypto c
      → IsConsistent crypto (Connection.encode crypto c type payload capacity).0
  unfolding Connection.encode
  encode-IsConsistent c type payload capacity k = elim (Bool-cases (is_established c.state)) [
    | inl e ↦ rw e (λ h.
        IsMade-IsSame c (Packet.encode crypto c.session type payload capacity).0
          (encode-IsSame crypto c.session type payload capacity) (k h))
    | inr e ↦ rw e k
  ]

  decode-IsConsistent :
      (c : Connection) (packet : List ℕ) (capacity : ℕ)
      → IsConsistent crypto c
      → IsConsistent crypto (Connection.decode crypto c packet capacity).0
  unfolding Connection.decode
  decode-IsConsistent c packet capacity k = elim (Bool-cases (is_established c.state)) [
    | inl e ↦ rw e (λ h.
        IsMade-IsSame c (Packet.decode crypto c.session packet capacity).0
          (decode-IsSame crypto c.session packet capacity) (k h))
    | inr e ↦ rw e k
  ]

  Step-IsConsistent :
      {c c' : Connection} → Step c c' → IsConsistent crypto c → IsConsistent crypto c'
  Step-IsConsistent {c} (starts nonce) k = start-IsConsistent c nonce k
  Step-IsConsistent {c} (receives message capacity) k =
      receive-IsConsistent crypto c message capacity k
  Step-IsConsistent {c} (encodes type payload capacity) k =
      encode-IsConsistent c type payload capacity k
  Step-IsConsistent {c} (decodes packet capacity) k = decode-IsConsistent c packet capacity k

  init-IsConsistent : (key id : List ℕ) (role : ℕ) → IsConsistent crypto (init key id role).0
  unfolding init
  init-IsConsistent key id role h = absurd (ground arith)

  Reach-IsConsistent :
      {key id : List ℕ} {role : ℕ} {c : Connection} → Reach key id role c → IsConsistent crypto c
  Reach-IsConsistent {key} {id} {role} configured = init-IsConsistent key id role
  Reach-IsConsistent (later r step) = Step-IsConsistent step (Reach-IsConsistent r)

  -- After any sequence of calls, a connection past its first handshake message holds the session
  -- that its key and both of its nonces give.
  pub Reach-IsMade :
      {key id : List ℕ} {role : ℕ} {c : Connection}
      → Reach key id role c
      → has_session crypto c.state ≡ true
      → IsMade crypto c c.role c.session
  Reach-IsMade r h = Reach-IsConsistent r h

  Step-Keeps : {c c' : Connection} → Step c c' → Keeps crypto c c'
  unfolding start Connection.encode Connection.decode
  Step-Keeps {c} (starts nonce) = ground arith
  Step-Keeps {c} (receives message capacity) = receive-Keeps crypto c message capacity
  Step-Keeps {c} (encodes type payload capacity) = ground arith
  Step-Keeps {c} (decodes packet capacity) = ground arith

  Reach-Keeps :
      {key id : List ℕ} {role : ℕ} {c : Connection}
      → role ≤ 1
      → Reach key id role c
      → (c.key ≡ key) × (c.role ≡ role)
  unfolding init
  Reach-Keeps le configured = ground arith
  Reach-Keeps le (later r step) = ground (arith, Step-Keeps step, Reach-Keeps le r)

  -- What the connection code relies on of HMAC-SHA256: a result has 32 bytes.
  pub record IsHmac : Type 0 where
    pub mac_length :
        (key message mac : List ℕ) → crypto.hmac key message ≡ some mac → length mac ≡ 32

  length-id_part :
      IsHmac
      → (c : Connection) → is_some crypto (derived crypto c) ≡ true
      → length (id_part crypto (derived crypto c)) ≡ 8
  length-id_part laws c h = elim (Option-cases (derived crypto c)) [
    | inl failed ↦ absurd (cc)
    | inr (d, made) ↦ rw made (
        omega (
          arith,
          laws.mac_length c.key (Packet.session_label ++ c.keyboard_nonce ++ c.receiver_nonce) d
              made,
          length-take {0} 8 (drop 16 d),
          length-drop {0} 16 d,
        ))
  ]

  -- A keyboard and a receiver with one pairing key whose calls have led both past their first
  -- handshake message with the same two nonces hold the two ends of one session, each way.
  pub agreement :
      {key id id' : List ℕ} {kb rx : Connection}
      → IsHmac
      → Reach key id keyboard_role kb
      → Reach key id' receiver_role rx
      → has_session crypto kb.state ≡ true
      → has_session crypto rx.state ≡ true
      → kb.keyboard_nonce ≡ rx.keyboard_nonce
      → kb.receiver_nonce ≡ rx.receiver_nonce
      → IsPaired kb.session rx.session × IsPaired rx.session kb.session
  agreement {kb} {rx} laws rk rr hk hr e₁ e₂ =
      let mk = Reach-IsConsistent rk hk in
      let mr = Reach-IsConsistent rr hr in
      let (key₁, role₁) = Reach-Keeps (omega arith) rk in
      let (key₂, role₂) = Reach-Keeps (omega arith) rr in
      let same : derived crypto kb ≡ derived crypto rx = rw (key₁, key₂, e₁, e₂) refl in
      let aes : kb.session.aes ≡ rx.session.aes = mk.aes ∙ ap (key_part crypto) same ∙ sym mr.aes in
      let ident : kb.session.id ≡ rx.session.id = mk.id ∙ ap (id_part crypto) same ∙ sym mr.id in
      let lk : length kb.session.id ≡ 8 = rw mk.id (length-id_part laws kb mk.derives) in
      let lr : length rx.session.id ≡ 8 = rw mr.id (length-id_part laws rx mr.derives) in
      (
        record {
          same_key = aes;
          same_id = ident;
          id_length = lk;
          opposite = rw (mk.role_is, role₁, mr.role_is, role₂) refl;
          usable = mr.ready;
        },
        record {
          same_key = sym aes;
          same_id = sym ident;
          id_length = lr;
          opposite = rw (mk.role_is, role₁, mr.role_is, role₂) refl;
          usable = mk.ready;
        },
      )
