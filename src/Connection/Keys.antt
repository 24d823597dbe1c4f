-- ===== src/Connection/Keys.antt =====
-- radio/src/apex_connection.c: the session of a connection, the pairing key and the nonces that it is
-- made from.
use steelseries_apex_pro_min.Prelude.{
  ℕ, ◌<◌, ◌==◌, ◌≡◌, ◌&&◌, ltb, Bool, true, false, Option, none, some, List, [], ◌++◌, arith, refl,
  sym, inl, inr, take, drop, byte_at, same_bytes, Option-cases, Bool-cases,
}
use mathlib.Core.Path.{subst}
use steelseries_apex_pro_min.Packet
use steelseries_apex_pro_min.Packet.{
  Crypto, Session, session_label, Result, ok, err, keyboard_role, receiver_role,
}
use steelseries_apex_pro_min.Connection
use steelseries_apex_pro_min.Connection.{
  Connection, State, wait_hello, wait_challenge, wait_confirm, wait_ready, established, check,
  on_hello, on_challenge, on_last, receive, hello, challenge, confirm, with_session, after_init,
  hello_at, challenge_at, confirm_at, ready_at, accepted, after_check, same_nonces, zero_nonce,
}

module _ (crypto : Crypto) where
  -- The key and identifier that the nonces give.
  abbrev pub derived : Connection → Option (List ℕ)
  derived c = crypto.hmac c.key (session_label ++ c.keyboard_nonce ++ c.receiver_nonce)

  abbrev pub is_some : Option (List ℕ) → Bool
  is_some none = false
  is_some (some d) = true

  abbrev pub key_part : Option (List ℕ) → List ℕ
  key_part none = []
  key_part (some d) = take 16 d

  abbrev pub id_part : Option (List ℕ) → List ℕ
  id_part none = []
  id_part (some d) = take 8 (drop 16 d)

  abbrev pub has_session : State → Bool
  has_session wait_confirm = true
  has_session wait_ready = true
  has_session established = true
  has_session _ = false

  -- A session that `session_init` made under the key and nonces of a connection.
  pub record IsMade (c : Connection) (role : ℕ) (s : Session) : Type 0 where
    pub derives : is_some (derived c) ≡ true
    pub aes : s.aes ≡ key_part (derived c)
    pub id : s.id ≡ id_part (derived c)
    pub role_is : s.role ≡ role
    pub ready : s.ready ≡ true
    pub counter : 0 < s.tx_counter

  abbrev MadeIf : Connection → ℕ → Session → Result (Unit {0}) → Type 0
  MadeIf c role s (ok _) = IsMade c role s
  MadeIf c role s (err _) = Unit

  session_init-MadeIf :
      (c : Connection) (role : ℕ)
      → let (s, r) = Packet.session_init crypto c.key c.keyboard_nonce c.receiver_nonce role in
        MadeIf c role s r
  unfolding Packet.session_init
  session_init-MadeIf c role = elim (Bool-cases (ltb receiver_role role)) [
    | inl bad ↦ rw bad tt
    | inr good ↦ rw good (elim (Option-cases (derived c)) [
      | inl failed ↦ rw failed tt
      | inr (d, made) ↦ rw made (elim (Bool-cases (crypto.aes_key_set (take 16 d))) [
        | inl set ↦ rw set (record {
          derives = rw made refl;
          aes = rw made refl;
          id = rw made refl;
          role_is = refl;
          ready = refl;
          counter = omega arith;
        })
        | inr unset ↦ rw unset tt
      ])
    ])
  ]

  abbrev pub IsConsistent : Connection → Type 0
  IsConsistent c = has_session c.state ≡ true → IsMade c c.role c.session

  after_init-IsConsistent :
      (c : Connection) (s : Session) (state : State) (kind : ℕ) (r : Result (Unit {0}))
      → has_session c.state ≡ false
      → MadeIf c c.role s r
      → IsConsistent (after_init crypto c s state kind r).0
  unfolding after_init
  after_init-IsConsistent c s state kind (ok _) idle m h = record {
    derives = m.derives;
    aes = m.aes;
    id = m.id;
    role_is = m.role_is;
    ready = m.ready;
    counter = m.counter;
  }
  after_init-IsConsistent c s state kind (err _) idle m h = absurd (cc)

  with_session-IsConsistent :
      (c : Connection) (role : ℕ) (state : State) (kind : ℕ)
      → c.role ≡ role
      → has_session c.state ≡ false
      → IsConsistent (with_session crypto c role state kind).0
  unfolding with_session
  with_session-IsConsistent c role state kind e idle =
      let (s, r) = Packet.session_init crypto c.key c.keyboard_nonce c.receiver_nonce role in
      after_init-IsConsistent c s state kind r idle
        (subst (λ k. MadeIf c k s r) (sym e) (session_init-MadeIf c role))

  -- A message leaves the connection consistent, in whatever state it arrives.
  hello_at-IsConsistent :
      (c : Connection) (message : List ℕ) (state : State)
      → c.state ≡ state
      → c.role ≡ receiver_role
      → IsConsistent c
      → IsConsistent (hello_at crypto c message state).0
  unfolding hello_at
  hello_at-IsConsistent c message wait_hello at e k =
      with_session-IsConsistent (record c { keyboard_nonce = take 16 (drop 10 message) })
        receiver_role wait_confirm challenge e (rw at refl)
  hello_at-IsConsistent c message wait_confirm at e k =
      elim (Bool-cases (same_bytes (take 16 (drop 10 message)) c.keyboard_nonce)) [
        | inl b ↦ rw b k
        | inr b ↦ rw b k
      ]
  hello_at-IsConsistent c message _ at e k = k

  challenge_at-IsConsistent :
      (c : Connection) (message : List ℕ) (state : State)
      → c.state ≡ state
      → c.role ≡ keyboard_role
      → IsConsistent c
      → IsConsistent (challenge_at crypto c message state).0
  unfolding challenge_at
  challenge_at-IsConsistent c message wait_challenge at e k =
      with_session-IsConsistent (record c { receiver_nonce = take 16 (drop 26 message) })
        keyboard_role wait_ready confirm e (rw at refl)
  challenge_at-IsConsistent c message wait_ready at e k =
      elim (Bool-cases (same_bytes (take 16 (drop 26 message)) c.receiver_nonce)) [
        | inl b ↦ rw b k
        | inr b ↦ rw b k
      ]
  challenge_at-IsConsistent c message _ at e k = k

  establish-IsConsistent :
      (c : Connection)
      → has_session c.state ≡ true
      → IsConsistent c
      → IsConsistent (record c { state = established })
  establish-IsConsistent c had k h =
      let m = k had in
      record {
        derives = m.derives;
        aes = m.aes;
        id = m.id;
        role_is = m.role_is;
        ready = m.ready;
        counter = m.counter;
      }

  confirm_at-IsConsistent :
      (c : Connection) (state : State)
      → c.state ≡ state
      → IsConsistent c
      → IsConsistent (confirm_at crypto c state).0
  unfolding confirm_at
  confirm_at-IsConsistent c wait_confirm at k = establish-IsConsistent c (rw at refl) k
  confirm_at-IsConsistent c _ at k = k

  ready_at-IsConsistent :
      (c : Connection) (state : State)
      → c.state ≡ state
      → IsConsistent c
      → IsConsistent (ready_at crypto c state).0
  unfolding ready_at
  ready_at-IsConsistent c wait_ready at k = establish-IsConsistent c (rw at refl) k
  ready_at-IsConsistent c _ at k = k

  on_last-IsConsistent :
      (c : Connection) (kind : ℕ) → IsConsistent c → IsConsistent (on_last crypto c kind).0
  unfolding on_last
  on_last-IsConsistent c kind k = elim (Bool-cases (c.role == receiver_role && kind == confirm)) [
    | inl a ↦ rw a (confirm_at-IsConsistent c c.state refl k)
    | inr a ↦ rw a (elim (Bool-cases (c.role == keyboard_role && kind == Connection.ready)) [
      | inl b ↦ rw b (ready_at-IsConsistent c c.state refl k)
      | inr b ↦ rw b k
    ])
  ]

  on_hello-IsConsistent :
      (c : Connection) (message : List ℕ)
      → c.role ≡ receiver_role
      → IsConsistent c
      → IsConsistent (on_hello crypto c message).0
  unfolding on_hello
  on_hello-IsConsistent c message e k =
      elim (Bool-cases (same_bytes (take 16 (drop 26 message)) zero_nonce)) [
        | inl a ↦ rw a (hello_at-IsConsistent c message c.state refl e k)
        | inr a ↦ rw a k
      ]

  on_challenge-IsConsistent :
      (c : Connection) (message : List ℕ)
      → c.role ≡ keyboard_role
      → IsConsistent c
      → IsConsistent (on_challenge crypto c message).0
  unfolding on_challenge
  on_challenge-IsConsistent c message e k =
      elim (Bool-cases (same_bytes (take 16 (drop 10 message)) c.keyboard_nonce)) [
        | inl a ↦ rw a (challenge_at-IsConsistent c message c.state refl e k)
        | inr a ↦ rw a k
      ]

  accepted-IsConsistent :
      (c : Connection) (message : List ℕ)
      → IsConsistent c
      → IsConsistent (accepted crypto c message).0
  unfolding accepted
  accepted-IsConsistent c message k =
      elim (Bool-cases (c.role == receiver_role && byte_at message 1 == hello)) [
        | inl a ↦ rw a (on_hello-IsConsistent c message (ground arith) k)
        | inr a ↦
            rw a (elim (Bool-cases (c.role == keyboard_role && byte_at message 1 == challenge)) [
              | inl b ↦ rw b (on_challenge-IsConsistent c message (ground arith) k)
              | inr b ↦ rw b (elim (Bool-cases (same_nonces crypto c message)) [
                | inl n ↦ rw n (on_last-IsConsistent c (byte_at message 1) k)
                | inr n ↦ rw n k
              ])
            ])
      ]

  pub receive-IsConsistent :
      (c : Connection) (message : List ℕ) (capacity : ℕ)
      → IsConsistent c
      → IsConsistent (receive crypto c message capacity).0
  unfolding receive
  receive-IsConsistent c message capacity k = go (check crypto c message capacity)
    where
      go : (r : Result (Unit {0})) → IsConsistent (after_check crypto c message r).0
      go (ok _) = accepted-IsConsistent c message k
      go (err _) = k
