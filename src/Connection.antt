-- ===== src/Connection.antt =====
-- radio/src/apex_connection.c: the four-message handshake that both ends run before a session, and
-- the packet functions behind it. Nonces come from the caller.
pub mod Agreement
pub mod Handshake
pub mod Kept
pub mod Keys
pub mod Lasting
pub mod Messages
mod Tests
use steelseries_apex_pro_min.Prelude.{
  ℕ, ◌+◌, ◌-◌, ◌==◌, ◌≡◌, ltb, leb, ◌||◌, ◌&&◌, not, if◌then◌else◌, Bool, true, false, Option, none,
  some, List, [], ◌∷◌, ◌++◌, length, take, drop, replicate, byte_at, same_bytes,
}
use steelseries_apex_pro_min.Packet.{
  protocol_version, keyboard_role, receiver_role, Error, invalid, auth_failed, state_error, Result,
  ok, err, Crypto, Session, session_clear,
}
use steelseries_apex_pro_min.Packet

abbrev pub handshake_size : ℕ
handshake_size = 58

abbrev pub hello : ℕ
hello = 0x80

abbrev pub challenge : ℕ
challenge = 0x81

abbrev pub confirm : ℕ
confirm = 0x82

abbrev pub ready : ℕ
ready = 0x83

-- `enum apex_connection_state`
pub data State : Type 0 where
  off wait_hello wait_challenge wait_confirm wait_ready established : State

abbrev pub is_established : State → Bool
is_established established = true
is_established _ = false

-- `struct apex_connection`
pub record Connection : Type 0 where
  pub session : Session
  pub key : List ℕ
  pub pair_id : List ℕ
  pub keyboard_nonce : List ℕ
  pub receiver_nonce : List ℕ
  pub role : ℕ
  pub state : State
  pub configured : Bool

abbrev pub zero_nonce : List ℕ
zero_nonce = replicate 16 0

abbrev pub clear : Connection
clear = record {
  session = session_clear;
  key = replicate 16 0;
  pair_id = replicate 8 0;
  keyboard_nonce = zero_nonce;
  receiver_nonce = zero_nonce;
  role = 0;
  state = off;
  configured = false;
}

unfoldable pub init : List ℕ → List ℕ → ℕ → Connection × Result (Unit {0})
init key id role =
    if ltb receiver_role role
    then (clear, err invalid)
    else (record clear { key = key; pair_id = id; role = role; configured = true }, ok tt)

unfoldable pub start : Connection → List ℕ → Connection × Result (Unit {0})
start c nonce =
    let keyboard = c.role == keyboard_role in
    let local = if keyboard then c.keyboard_nonce else c.receiver_nonce in
    if not c.configured || ltb receiver_role c.role || same_bytes local nonce
    then (c, err invalid)
    else (
      record c {
        session = session_clear;
        keyboard_nonce = if keyboard then nonce else zero_nonce;
        receiver_nonce = if keyboard then zero_nonce else nonce;
        state = if keyboard then wait_challenge else wait_hello;
      },
      ok tt,
    )

-- "apex-radio-v1-handshake"
abbrev pub domain : List ℕ
domain =
    b'a' ∷ b'p' ∷ b'e' ∷ b'x' ∷ b'-' ∷ b'r' ∷ b'a' ∷ b'd' ∷ b'i' ∷ b'o' ∷ b'-' ∷ b'v' ∷ b'1' ∷ b'-'
    ∷ b'h' ∷ b'a' ∷ b'n' ∷ b'd' ∷ b's' ∷ b'h' ∷ b'a' ∷ b'k' ∷ b'e' ∷ []

module _ (crypto : Crypto) where
  -- The tag of the first 42 bytes of a message.
  abbrev pub tag : Connection → List ℕ → Option (List ℕ)
  tag c message = crypto.hmac c.key (domain ++ take 42 message)

  -- The 42 bytes that a message authenticates.
  abbrev pub message_of : Connection → ℕ → List ℕ
  message_of c kind =
      protocol_version
      ∷ kind
      ∷ (c.pair_id ++ c.keyboard_nonce ++ (if kind == hello then zero_nonce else c.receiver_nonce))

  unfoldable pub emit : Connection → ℕ → ℕ → Result (List ℕ)
  emit c kind capacity =
      if ltb capacity handshake_size then err invalid else elim (tag c (message_of c kind)) [
        | none ↦ err auth_failed
        | some mac ↦ ok (message_of c kind ++ take 16 mac)
      ]

  unfoldable pub request : Connection → ℕ → Result (List ℕ)
  request c capacity = if not c.configured then err invalid else elim c.state [
    | wait_challenge ↦ emit c hello capacity
    | wait_ready ↦ emit c confirm capacity
    | _ ↦ err state_error
  ]

  -- The checks at the head of `receive`: the form of the message, then its tag.
  unfoldable pub check : Connection → List ℕ → ℕ → Result (Unit {0})
  check c message capacity =
      if not c.configured
        || ltb capacity handshake_size
        || not (length message == handshake_size)
        || not (byte_at message 0 == protocol_version)
        || ltb (byte_at message 1) hello
        || ltb ready (byte_at message 1)
        || not (same_bytes (take 8 (drop 2 message)) c.pair_id)
      then err invalid
      else elim (tag c message) [
        | none ↦ err auth_failed
        | some mac ↦ if same_bytes (take 16 mac) (drop 42 message) then ok tt else err auth_failed
      ]

  -- A new session, or the error with the session as it was left.
  unfoldable pub after_init :
      Connection → Session → State → ℕ → Result (Unit {0}) → Connection × Result (List ℕ)
  after_init c s state kind (ok _) =
      let c' = record c { session = s; state = state } in (c', emit c' kind handshake_size)
  after_init c s state kind (err e) = (record c { session = s }, err e)

  unfoldable pub with_session : Connection → ℕ → State → ℕ → Connection × Result (List ℕ)
  unfolding after_init
  with_session c role state kind =
      let (s, r) = Packet.session_init crypto c.key c.keyboard_nonce c.receiver_nonce role in
      after_init c s state kind r

  -- HELLO at the receiver, in each state.
  unfoldable pub hello_at : Connection → List ℕ → State → Connection × Result (List ℕ)
  hello_at c message wait_hello =
      with_session (record c { keyboard_nonce = take 16 (drop 10 message) }) receiver_role
        wait_confirm challenge
  hello_at c message wait_confirm =
      if same_bytes (take 16 (drop 10 message)) c.keyboard_nonce
      then (c, emit c challenge handshake_size)
      else (c, err state_error)
  hello_at c message _ = (c, err state_error)

  unfoldable pub on_hello : Connection → List ℕ → Connection × Result (List ℕ)
  unfolding hello_at
  on_hello c message =
      if not (same_bytes (take 16 (drop 26 message)) zero_nonce)
      then (c, err invalid)
      else hello_at c message c.state

  -- CHALLENGE at the keyboard.
  unfoldable pub challenge_at : Connection → List ℕ → State → Connection × Result (List ℕ)
  challenge_at c message wait_challenge =
      with_session (record c { receiver_nonce = take 16 (drop 26 message) }) keyboard_role
        wait_ready confirm
  challenge_at c message wait_ready =
      if same_bytes (take 16 (drop 26 message)) c.receiver_nonce
      then (c, emit c confirm handshake_size)
      else (c, err state_error)
  challenge_at c message _ = (c, err state_error)

  unfoldable pub on_challenge : Connection → List ℕ → Connection × Result (List ℕ)
  unfolding challenge_at
  on_challenge c message =
      if not (same_bytes (take 16 (drop 10 message)) c.keyboard_nonce)
      then (c, err state_error)
      else challenge_at c message c.state

  -- CONFIRM at the receiver and READY at the keyboard, once both nonces match.
  unfoldable pub confirm_at : Connection → State → Connection × Result (List ℕ)
  confirm_at c wait_confirm =
      let c' = record c { state = established } in (c', emit c' ready handshake_size)
  confirm_at c established = (c, emit c ready handshake_size)
  confirm_at c _ = (c, err state_error)

  unfoldable pub ready_at : Connection → State → Connection × Result (List ℕ)
  ready_at c wait_ready = (record c { state = established }, ok [])
  ready_at c established = (c, ok [])
  ready_at c _ = (c, err state_error)

  unfoldable pub on_last : Connection → ℕ → Connection × Result (List ℕ)
  unfolding confirm_at ready_at
  on_last c kind =
      if c.role == receiver_role && kind == confirm
      then confirm_at c c.state
      else if c.role == keyboard_role && kind == ready
      then ready_at c c.state
      else (c, err state_error)

  abbrev pub same_nonces : Connection → List ℕ → Bool
  same_nonces c message =
      same_bytes (take 16 (drop 10 message)) c.keyboard_nonce
      && same_bytes (take 16 (drop 26 message)) c.receiver_nonce

  -- What `receive` does with a message that passed the checks.
  unfoldable pub accepted : Connection → List ℕ → Connection × Result (List ℕ)
  unfolding on_hello on_challenge on_last
  accepted c message =
      if c.role == receiver_role && byte_at message 1 == hello
      then on_hello c message
      else if c.role == keyboard_role && byte_at message 1 == challenge
      then on_challenge c message
      else if not (same_nonces c message)
      then (c, err state_error)
      else on_last c (byte_at message 1)

  unfoldable pub after_check :
      Connection → List ℕ → Result (Unit {0}) → Connection × Result (List ℕ)
  unfolding accepted
  after_check c message (err e) = (c, err e)
  after_check c message (ok _) = accepted c message

  -- The reply to send; the empty reply is a result of 0. `capacity` is tested in `check`, so the
  -- replies are emitted into a buffer that is large enough.
  unfoldable pub receive : Connection → List ℕ → ℕ → Connection × Result (List ℕ)
  unfolding check after_check
  receive c message capacity = after_check c message (check c message capacity)

  unfoldable pub encode : Connection → ℕ → List ℕ → ℕ → Connection × Result (List ℕ)
  encode c type payload capacity =
      if not (is_established c.state)
      then (c, err state_error)
      else let (s, r) = Packet.encode crypto c.session type payload capacity in
        (record c { session = s }, r)

  unfoldable pub decode : Connection → List ℕ → ℕ → Connection × Result (ℕ × List ℕ)
  decode c packet capacity =
      if not (is_established c.state)
      then (c, err state_error)
      else let (s, r) = Packet.decode crypto c.session packet capacity in
        (record c { session = s }, r)
