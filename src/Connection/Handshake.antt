-- ===== src/Connection/Handshake.antt =====
-- The four messages between two configured ends with one key and pair id establish both.
use steelseries_apex_pro_min.Prelude.{
  ℕ, ◌==◌, ◌≤◌, ◌≡◌, ◌&&◌, true, false, List, [], ◌++◌, take, drop, byte_at, same_bytes,
  same_bytes_iff, arith, refl, ap, sym, ◌∙◌,
}
use steelseries_apex_pro_min.Packet
use steelseries_apex_pro_min.Packet.{
  Crypto, Result, ok, err, keyboard_role, receiver_role, protocol_version,
}
use steelseries_apex_pro_min.Connection
use steelseries_apex_pro_min.Connection.{
  Connection, State, wait_hello, wait_challenge, wait_confirm, wait_ready, established,
  handshake_size, hello, challenge, confirm, ready, zero_nonce, tag, message_of, emit, request,
  check, receive,
}
use steelseries_apex_pro_min.Connection.Messages.{
  ==_refl, not-ltb, IsWorking, IsConfigured, IsSent, emit-IsSent,
}

module _ (crypto : Crypto) (works : IsWorking crypto) where
  abbrev session_of : Connection → ℕ → Packet.Session
  session_of c role = (Packet.session_init crypto c.key c.keyboard_nonce c.receiver_nonce role).0

  session_init-ok :
      (key kn dn : List ℕ) (role : ℕ)
      → role ≤ receiver_role
      → (Packet.session_init crypto key kn dn role).1 ≡ ok tt
  unfolding Packet.session_init
  session_init-ok key kn dn role h =
      let (d, made, long) = works.digest key (Packet.session_label ++ kn ++ dn) in
      rw (made, works.schedules (take 16 d), not-ltb receiver_role role h) refl

  starts_session :
      (c : Connection) (role : ℕ) (state : State) (kind : ℕ)
      → role ≤ receiver_role
      → let c' = record c { session = session_of c role; state = state } in
        Connection.with_session crypto c role state kind ≡ (c', emit crypto c' kind handshake_size)
  unfolding Connection.with_session Connection.after_init
  starts_session c role state kind h =
      rw (session_init-ok c.key c.keyboard_nonce c.receiver_nonce role h) refl

  receive-accepted :
      (c : Connection) (message : List ℕ)
      → check crypto c message handshake_size ≡ ok tt
      → receive crypto c message handshake_size ≡ Connection.accepted crypto c message
  unfolding receive Connection.after_check
  receive-accepted c message e = ap (λ r. Connection.after_check crypto c message r) e

  accepted-hello :
      (c : Connection) (message : List ℕ)
      → c.role ≡ receiver_role
      → byte_at message 1 ≡ hello
      → Connection.accepted crypto c message ≡ Connection.on_hello crypto c message
  unfolding Connection.accepted
  accepted-hello c message r k =
      rw (==_refl c.role receiver_role r, ==_refl (byte_at message 1) hello k) refl

  accepted-challenge :
      (c : Connection) (message : List ℕ)
      → c.role ≡ keyboard_role
      → byte_at message 1 ≡ challenge
      → Connection.accepted crypto c message ≡ Connection.on_challenge crypto c message
  unfolding Connection.accepted
  accepted-challenge c message r k =
      let other : (c.role == receiver_role) ≡ false = ap (λ (n : ℕ). n == receiver_role) r in
      rw (other, ==_refl c.role keyboard_role r, ==_refl (byte_at message 1) challenge k) refl

  accepted-last :
      (c : Connection) (message : List ℕ) (kind : ℕ)
      → byte_at message 1 ≡ kind
      → confirm ≤ kind
      → take 16 (drop 10 message) ≡ c.keyboard_nonce
      → take 16 (drop 26 message) ≡ c.receiver_nonce
      → Connection.accepted crypto c message ≡ Connection.on_last crypto c kind
  unfolding Connection.accepted
  accepted-last c message kind k lo e₁ e₂ =
      let n₁ = (same_bytes_iff (take 16 (drop 10 message)) c.keyboard_nonce).1 e₁ in
      let n₂ = (same_bytes_iff (take 16 (drop 26 message)) c.receiver_nonce).1 e₂ in
      let no_hello : (c.role == receiver_role && byte_at message 1 == hello) ≡ false =
        ground arith in
      let no_challenge : (c.role == keyboard_role && byte_at message 1 == challenge) ≡ false =
        ground arith in
      rw (no_hello, no_challenge, n₁, n₂, k) refl

  -- The keyboard's first message at the receiver.
  receive-hello :
      (kb rx : Connection) (message : List ℕ)
      → rx.role ≡ receiver_role
      → rx.state ≡ wait_hello
      → IsSent crypto kb rx hello message
      → let c = record rx { keyboard_nonce = kb.keyboard_nonce } in
        let rx' = record c { session = session_of c receiver_role; state = wait_confirm } in
        receive crypto rx message handshake_size ≡ (rx', emit crypto rx' challenge handshake_size)
  unfolding Connection.on_hello Connection.hello_at
  receive-hello kb rx message role state m =
      let c = record rx { keyboard_nonce = kb.keyboard_nonce } in
      let zero_second : same_bytes (take 16 (drop 26 message)) zero_nonce ≡ true =
        (same_bytes_iff (take 16 (drop 26 message)) zero_nonce).1 m.receiver_is in
      let at_hello : Connection.on_hello crypto rx message
          ≡ Connection.hello_at crypto rx message rx.state =
        rw zero_second refl in
      receive-accepted rx message m.authentic
      ∙ accepted-hello rx message role m.kind_is
      ∙ at_hello
      ∙ ap (λ s. Connection.hello_at crypto rx message s) state
      ∙ ap
          (λ n.
            Connection.with_session crypto (record rx { keyboard_nonce = n }) receiver_role
              wait_confirm challenge)
          m.keyboard_is
      ∙ starts_session c receiver_role wait_confirm challenge (omega arith)

  -- The receiver's challenge at the keyboard.
  receive-challenge :
      (kb rx : Connection) (message : List ℕ)
      → kb.role ≡ keyboard_role
      → kb.state ≡ wait_challenge
      → rx.keyboard_nonce ≡ kb.keyboard_nonce
      → IsSent crypto rx kb challenge message
      → let c = record kb { receiver_nonce = rx.receiver_nonce } in
        let kb' = record c { session = session_of c keyboard_role; state = wait_ready } in
        receive crypto kb message handshake_size ≡ (kb', emit crypto kb' confirm handshake_size)
  unfolding Connection.on_challenge Connection.challenge_at
  receive-challenge kb rx message role state same m =
      let c = record kb { receiver_nonce = rx.receiver_nonce } in
      let nonce : same_bytes (take 16 (drop 10 message)) kb.keyboard_nonce ≡ true =
        (same_bytes_iff (take 16 (drop 10 message)) kb.keyboard_nonce).1 (m.keyboard_is ∙ same) in
      let at_challenge : Connection.on_challenge crypto kb message
          ≡ Connection.challenge_at crypto kb message kb.state =
        rw nonce refl in
      receive-accepted kb message m.authentic
      ∙ accepted-challenge kb message role m.kind_is
      ∙ at_challenge
      ∙ ap (λ s. Connection.challenge_at crypto kb message s) state
      ∙ ap
          (λ n.
            Connection.with_session crypto (record kb { receiver_nonce = n }) keyboard_role
              wait_ready confirm)
          m.receiver_is
      ∙ starts_session c keyboard_role wait_ready confirm (omega arith)

  -- The last two messages, once both ends hold both nonces.
  receive-confirm :
      (kb rx : Connection) (message : List ℕ)
      → rx.role ≡ receiver_role
      → rx.state ≡ wait_confirm
      → kb.keyboard_nonce ≡ rx.keyboard_nonce
      → kb.receiver_nonce ≡ rx.receiver_nonce
      → IsSent crypto kb rx confirm message
      → let rx' = record rx { state = established } in
        receive crypto rx message handshake_size ≡ (rx', emit crypto rx' ready handshake_size)
  unfolding Connection.on_last Connection.confirm_at
  receive-confirm kb rx message role state e₁ e₂ m =
      let last : Connection.on_last crypto rx confirm ≡ Connection.confirm_at crypto rx rx.state =
        rw (==_refl rx.role receiver_role role) refl in
      receive-accepted rx message m.authentic
      ∙ accepted-last rx message confirm m.kind_is (omega arith) (m.keyboard_is ∙ e₁)
          (m.receiver_is ∙ e₂)
      ∙ last
      ∙ ap (λ s. Connection.confirm_at crypto rx s) state

  receive-ready :
      (kb rx : Connection) (message : List ℕ)
      → kb.role ≡ keyboard_role
      → kb.state ≡ wait_ready
      → rx.keyboard_nonce ≡ kb.keyboard_nonce
      → rx.receiver_nonce ≡ kb.receiver_nonce
      → IsSent crypto rx kb ready message
      → receive crypto kb message handshake_size ≡ (record kb { state = established }, ok [])
  unfolding Connection.on_last Connection.ready_at
  receive-ready kb rx message role state e₁ e₂ m =
      let other : (kb.role == receiver_role) ≡ false = ap (λ (n : ℕ). n == receiver_role) role in
      let last : Connection.on_last crypto kb ready ≡ Connection.ready_at crypto kb kb.state =
        rw (other, ==_refl kb.role keyboard_role role) refl in
      receive-accepted kb message m.authentic
      ∙ accepted-last kb message ready m.kind_is (omega arith) (m.keyboard_is ∙ e₁)
          (m.receiver_is ∙ e₂)
      ∙ last
      ∙ ap (λ s. Connection.ready_at crypto kb s) state

  request-hello :
      (c : Connection)
      → c.configured ≡ true
      → c.state ≡ wait_challenge
      → request crypto c handshake_size ≡ emit crypto c hello handshake_size
  unfolding request
  request-hello c up state = simp (up, state) refl

  module _ (kb rx : Connection) where
    abbrev rx_with_nonces : Connection
    rx_with_nonces = record rx { keyboard_nonce = kb.keyboard_nonce }

    abbrev pub challenging : Connection
    challenging = record rx_with_nonces {
      session = session_of rx_with_nonces receiver_role;
      state = wait_confirm;
    }

    abbrev kb_with_nonces : Connection
    kb_with_nonces = record kb { receiver_nonce = rx.receiver_nonce }

    abbrev pub confirming : Connection
    confirming = record kb_with_nonces {
      session = session_of kb_with_nonces keyboard_role;
      state = wait_ready;
    }

    module _ (k : IsConfigured kb) (r : IsConfigured rx) (keys : kb.key ≡ rx.key)
        (ids : kb.pair_id ≡ rx.pair_id) (kb_role : kb.role ≡ keyboard_role)
        (rx_role : rx.role ≡ receiver_role) (kb_state : kb.state ≡ wait_challenge)
        (rx_state : rx.state ≡ wait_hello) where
      challenging-IsConfigured : IsConfigured challenging
      challenging-IsConfigured = record {
        set_up = r.set_up;
        id_length = r.id_length;
        keyboard_length = k.keyboard_length;
        receiver_length = r.receiver_length;
      }

      confirming-IsConfigured : IsConfigured confirming
      confirming-IsConfigured = record {
        set_up = k.set_up;
        id_length = k.id_length;
        keyboard_length = k.keyboard_length;
        receiver_length = r.receiver_length;
      }

      -- A keyboard and a receiver that are configured with one key and pair id and both started: each
      -- of the four messages is made and accepted, and the last two establish the two ends.
      pub receive-establishes :
          (m₁ : List ℕ) × (m₂ : List ℕ) × (m₃ : List ℕ) × (m₄ : List ℕ) × (request crypto kb
              handshake_size
            ≡ ok m₁)
          × (receive crypto rx m₁ handshake_size ≡ (challenging, ok m₂))
          × (receive crypto kb m₂ handshake_size ≡ (confirming, ok m₃))
          × (receive crypto challenging m₃ handshake_size
              ≡ (record challenging { state = established }, ok m₄))
          × (receive crypto confirming m₄ handshake_size
              ≡ (record confirming { state = established }, ok []))
      receive-establishes =
          let (m₁, s₁) =
            emit-IsSent crypto works kb rx hello k r.set_up keys ids (omega arith) (omega arith) in
          let (m₂, s₂) =
            emit-IsSent crypto works challenging kb challenge challenging-IsConfigured k.set_up
              (sym keys) (sym ids) (omega arith) (omega arith) in
          let (m₃, s₃) =
            emit-IsSent crypto works confirming challenging confirm confirming-IsConfigured r.set_up
              keys ids (omega arith) (omega arith) in
          let done = record challenging { state = established } in
          let done-IsConfigured : IsConfigured done = record {
            set_up = r.set_up;
            id_length = r.id_length;
            keyboard_length = k.keyboard_length;
            receiver_length = r.receiver_length;
          } in
          let (m₄, s₄) =
            emit-IsSent crypto works done confirming ready done-IsConfigured k.set_up (sym keys)
              (sym ids) (omega arith) (omega arith) in
          (
            m₁,
            m₂,
            m₃,
            m₄,
            request-hello kb k.set_up kb_state ∙ s₁.sent,
            receive-hello kb rx m₁ rx_role rx_state s₁ ∙ ap (λ o. (challenging, o)) s₂.sent,
            receive-challenge kb challenging m₂ kb_role kb_state refl s₂
                ∙ ap (λ o. (confirming, o)) s₃.sent,
            receive-confirm confirming challenging m₃ rx_role refl refl refl s₃
                ∙ ap (λ o. (done, o)) s₄.sent,
            receive-ready confirming done m₄ kb_role refl refl refl s₄,
          )
