-- ===== src/Packet/Replay.antt =====
-- Whole runs of one session: no counter is sealed twice, and none is accepted twice.
use steelseries_apex_pro_min.Prelude.{
  ℕ, ◌+◌, ◌≤◌, ◌<◌, ◌==◌, ◌≡◌, ◌||◌, false, List, [], ◌∷◌, ◌++◌, arith, refl, inl, inr, take, drop,
  read32, read32-write32, uint32_max, Option-cases, Bool-cases,
}
use steelseries_apex_pro_min.Packet.{
  Crypto, Session, Result, ok, err, Error, encode, decode, malformed, note_counter, header_size,
  make_nonce,
}
use steelseries_apex_pro_min.Packet.Window.{
  contains, IsTracking, fresh-IsTracking, note_counter_iff, note_counter-IsTracking,
}
use steelseries_apex_pro_min.Packet.Delivery.{encode_lem}

-- The counter that a packet carries.
abbrev pub counter_of : List ℕ → ℕ
counter_of packet = read32 (drop 4 packet)

-- No number stands twice in a list.
abbrev pub IsDistinct : List ℕ → Type 0
IsDistinct [] = Unit
IsDistinct (x ∷ xs) = (contains x xs ≡ false) × IsDistinct xs

-- The largest first, and all of them below the bound.
abbrev pub IsDescending : ℕ → List ℕ → Type 0
IsDescending bound [] = Unit
IsDescending bound (x ∷ xs) = (x < bound) × IsDescending x xs

-- One attempt of a caller to send or to receive.
pub record Sending : Type 0 where
  pub type : ℕ
  pub payload : List ℕ
  pub capacity : ℕ

-- A failed `decode` leaves the session alone; a delivered counter is new, and is remembered.
abbrev pub Tracks : Session → Session → ℕ → List ℕ → Result (ℕ × List ℕ) → Type 0
Tracks s s' counter accepted (ok _) =
    (contains counter accepted ≡ false) × IsTracking s' (counter ∷ accepted)
Tracks s s' counter accepted (err _) = s' ≡ s

-- What an `encode` call does to the counter, whatever its result.
abbrev Sends : Session → Session → Result (List ℕ) → Type 0
Sends s s' (ok packet) =
    (counter_of packet ≡ s.tx_counter)
    × (s'.tx_counter ≡ s.tx_counter + 1)
    × (s'.tx_counter ≤ uint32_max)
Sends s s' (err _) = (s.tx_counter ≤ s'.tx_counter) × (s'.tx_counter ≤ uint32_max)

IsDescending-weaken : {a b : ℕ} (xs : List ℕ) → a ≤ b → IsDescending a xs → IsDescending b xs
IsDescending-weaken [] le d = tt
IsDescending-weaken (x ∷ xs) le d = (omega arith, d.1)

module _ (crypto : Crypto) where
  -- Any sequence of `decode` calls, whatever the packets are; the counters of those delivered are
  -- put in front of `accepted`.
  unfoldable pub receive_all : Session → List ℕ → List (List ℕ × ℕ) → Session × List ℕ
  receive_all s accepted [] = (s, accepted)
  receive_all s accepted ((packet, capacity) ∷ packets) =
      let (s', r) = decode crypto s packet capacity in
      receive_all s' (elim r [ ok _ ↦ counter_of packet ∷ accepted | err _ ↦ accepted ]) packets

  -- Any sequence of `encode` calls; the counters of the packets that they made.
  unfoldable pub send_all : Session → List ℕ → List Sending → Session × List ℕ
  send_all s sent [] = (s, sent)
  send_all s sent (a ∷ more) =
      let (s', r) = encode crypto s a.type a.payload a.capacity in
      send_all s' (elim r [ ok packet ↦ counter_of packet ∷ sent | err _ ↦ sent ]) more

  pub decode-Tracks :
      (s : Session) (accepted packet : List ℕ) (capacity : ℕ)
      → IsTracking s accepted
      → let (s', r) = decode crypto s packet capacity in Tracks s s' (counter_of packet) accepted r
  unfolding decode
  decode-Tracks s accepted packet capacity t =
      let c = counter_of packet in
      elim (Bool-cases (malformed s packet capacity)) [
        | inl bad ↦ rw bad refl
        | inr well ↦ rw well (elim (Bool-cases (c == 0 || c == uint32_max)) [
          | inl bad ↦ rw bad refl
          | inr numbered ↦
              rw numbered
                (elim (Option-cases (
                  crypto.ccm_decrypt s.aes (make_nonce packet) (take header_size packet)
                    (drop header_size packet))) [
                      | inl failed ↦ rw failed refl
                      | inr (plain, opened) ↦ rw opened (elim (Option-cases (note_counter s c)) [
                        | inl seen ↦ rw seen refl
                        | inr (s', fresh) ↦ rw fresh (
                          ground (arith, note_counter_iff s accepted c t),
                          note_counter-IsTracking s accepted c t (ground arith) s' fresh,
                        )
                      ])
                    ])
        ])
      ]

  receive_all-IsDistinct_from :
      (packets : List (List ℕ × ℕ)) (s : Session) (accepted : List ℕ)
      → IsTracking s accepted
      → IsDistinct accepted
      → IsDistinct (receive_all s accepted packets).1
  unfolding receive_all
  receive_all-IsDistinct_from [] s accepted t d = d
  receive_all-IsDistinct_from ((packet, capacity) ∷ packets) s accepted t d =
      go (receive_all-IsDistinct_from packets) (decode crypto s packet capacity).1
        (decode-Tracks s accepted packet capacity t)
    where
      s' : Session
      s' = (decode crypto s packet capacity).0

      go :
          ((s' : Session) (accepted : List ℕ)
            → IsTracking s' accepted
            → IsDistinct accepted
            → IsDistinct (receive_all s' accepted packets).1)
          → (r : Result (ℕ × List ℕ)) → Tracks s s' (counter_of packet) accepted r
          → IsDistinct
              (receive_all s'
                (elim r [ ok _ ↦ counter_of packet ∷ accepted | err _ ↦ accepted ])
                packets).1
      go rest (ok _) h = rest s' (counter_of packet ∷ accepted) h.1 (h.0, d)
      go rest (err _) h = rest s' accepted (rw h t) d

  -- From a fresh session on, whatever arrives, no counter is delivered twice.
  pub receive_all-IsDistinct :
      (s : Session) (packets : List (List ℕ × ℕ))
      → s.rx_highest ≡ 0
      → s.rx_seen ≡ 0
      → IsDistinct (receive_all s [] packets).1
  receive_all-IsDistinct s packets highest seen =
      receive_all-IsDistinct_from packets s [] (fresh-IsTracking s highest seen) tt

  encode-err :
      (s s' : Session) (type : ℕ) (payload : List ℕ) (capacity : ℕ) (e : Error)
      → s.tx_counter ≤ uint32_max
      → encode crypto s type payload capacity ≡ (s', err e)
      → (s.tx_counter ≤ s'.tx_counter) × (s'.tx_counter ≤ uint32_max)
  unfolding encode
  encode-err s s' type payload capacity e h q = ground arith

  encode-Sends :
      (s : Session) (type : ℕ) (payload : List ℕ) (capacity : ℕ)
      → s.tx_counter ≤ uint32_max
      → let (s', r) = encode crypto s type payload capacity in Sends s s' r
  encode-Sends s type payload capacity h =
      go (encode crypto s type payload capacity).0 (encode crypto s type payload capacity).1 refl
    where
      go :
          (s' : Session) (r : Result (List ℕ))
          → encode crypto s type payload capacity ≡ (s', r)
          → Sends s s' r
      go s' (ok packet) e =
          let (sealed, is, made, next, below, typed, short) =
            encode_lem crypto s type payload capacity s' packet e in
          let number : counter_of packet ≡ s.tx_counter =
            rw is (read32-write32 s.tx_counter (s.id ++ sealed) (omega arith)) in
          ground (arith, number, next, below)
      go s' (err e) q = encode-err s s' type payload capacity e h q

  -- The counters of the packets that a session makes fall from the newest to the oldest, all below
  -- the next one, so no two of them are equal.
  pub send_all-IsDescending :
      (attempts : List Sending) (s : Session) (sent : List ℕ)
      → IsDescending s.tx_counter sent
      → s.tx_counter ≤ uint32_max
      → let (s', sent') = send_all s sent attempts in
        IsDescending s'.tx_counter sent' × (s'.tx_counter ≤ uint32_max)
  unfolding send_all
  send_all-IsDescending [] s sent d h = (d, h)
  send_all-IsDescending (a ∷ more) s sent d h =
      go (send_all-IsDescending more) (encode crypto s a.type a.payload a.capacity).1
        (encode-Sends s a.type a.payload a.capacity h)
    where
      s' : Session
      s' = (encode crypto s a.type a.payload a.capacity).0

      go :
          ((s' : Session) (sent : List ℕ)
            → IsDescending s'.tx_counter sent
            → s'.tx_counter ≤ uint32_max
            → IsDescending (send_all s' sent more).0.tx_counter (send_all s' sent more).1
              × ((send_all s' sent more).0.tx_counter ≤ uint32_max))
          → (r : Result (List ℕ)) → Sends s s' r
          → let end =
              send_all s' (elim r [ ok packet ↦ counter_of packet ∷ sent | err _ ↦ sent ]) more in
            IsDescending end.0.tx_counter end.1 × (end.0.tx_counter ≤ uint32_max)
      go rest (ok packet) q = rest s' (counter_of packet ∷ sent) (omega (arith, q), rw (q.0) d) q.2
      go rest (err _) q = rest s' sent (IsDescending-weaken sent q.0 d) q.1
