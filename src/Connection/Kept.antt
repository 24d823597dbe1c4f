-- ===== src/Connection/Kept.antt =====
-- radio/src/apex_connection.c: the key, the pair and the role of a connection through a handshake.
use steelseries_apex_pro_min.Prelude.{ℕ, ◌≡◌, List, arith, refl, take, drop}
use steelseries_apex_pro_min.Packet
use steelseries_apex_pro_min.Packet.{Crypto, Session, Result, ok, err, keyboard_role, receiver_role}
use steelseries_apex_pro_min.Connection.{
  Connection, State, wait_hello, wait_challenge, wait_confirm, wait_ready, check, on_hello,
  on_challenge, on_last, receive, challenge, confirm, with_session, after_init, hello_at,
  challenge_at, confirm_at, ready_at, accepted, after_check,
}

module _ (crypto : Crypto) where
  -- The key, the pair and the role are set once.
  abbrev pub Keeps : Connection → Connection → Type 0
  Keeps c c' = (c'.key ≡ c.key) × (c'.role ≡ c.role) × (c'.pair_id ≡ c.pair_id)

  after_init-Keeps :
      (c : Connection) (s : Session) (state : State) (kind : ℕ) (r : Result (Unit {0}))
      → Keeps c (after_init crypto c s state kind r).0
  unfolding after_init
  after_init-Keeps c s state kind (ok _) = (refl, refl, refl)
  after_init-Keeps c s state kind (err _) = (refl, refl, refl)

  with_session-Keeps :
      (c : Connection) (role : ℕ) (state : State) (kind : ℕ)
      → Keeps c (with_session crypto c role state kind).0
  unfolding with_session
  with_session-Keeps c role state kind =
      let (s, r) = Packet.session_init crypto c.key c.keyboard_nonce c.receiver_nonce role in
      after_init-Keeps c s state kind r

  hello_at-Keeps :
      (c : Connection) (message : List ℕ) (state : State)
      → Keeps c (hello_at crypto c message state).0
  unfolding hello_at
  hello_at-Keeps c message wait_hello =
      with_session-Keeps (record c { keyboard_nonce = take 16 (drop 10 message) }) receiver_role
        wait_confirm challenge
  hello_at-Keeps c message wait_confirm = ground arith
  hello_at-Keeps c message _ = (refl, refl, refl)

  challenge_at-Keeps :
      (c : Connection) (message : List ℕ) (state : State)
      → Keeps c (challenge_at crypto c message state).0
  unfolding challenge_at
  challenge_at-Keeps c message wait_challenge =
      with_session-Keeps (record c { receiver_nonce = take 16 (drop 26 message) }) keyboard_role
        wait_ready confirm
  challenge_at-Keeps c message wait_ready = ground arith
  challenge_at-Keeps c message _ = (refl, refl, refl)

  confirm_at-Keeps : (c : Connection) (state : State) → Keeps c (confirm_at crypto c state).0
  unfolding confirm_at
  confirm_at-Keeps c wait_confirm = (refl, refl, refl)
  confirm_at-Keeps c _ = (refl, refl, refl)

  ready_at-Keeps : (c : Connection) (state : State) → Keeps c (ready_at crypto c state).0
  unfolding ready_at
  ready_at-Keeps c wait_ready = (refl, refl, refl)
  ready_at-Keeps c _ = (refl, refl, refl)

  accepted-Keeps : (c : Connection) (message : List ℕ) → Keeps c (accepted crypto c message).0
  unfolding accepted on_hello on_challenge on_last
  accepted-Keeps c message = ground (
    arith,
    hello_at-Keeps c message c.state,
    challenge_at-Keeps c message c.state,
    confirm_at-Keeps c c.state,
    ready_at-Keeps c c.state,
  )

  pub receive-Keeps :
      (c : Connection) (message : List ℕ) (capacity : ℕ)
      → Keeps c (receive crypto c message capacity).0
  unfolding receive
  receive-Keeps c message capacity = go (check crypto c message capacity)
    where
      go : (r : Result (Unit {0})) → Keeps c (after_check crypto c message r).0
      go (ok _) = accepted-Keeps c message
      go (err _) = (refl, refl, refl)
