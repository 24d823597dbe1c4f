-- ===== src/Packet/Window.antt =====
-- The 64-entry replay window of `apex_packet_decode` against the plain list of the counters that
-- were accepted.
use steelseries_apex_pro_min.Prelude.{
  ℕ, ◌+◌, ◌-◌, ◌^◌, ◌≤◌, ◌<◌, ◌==◌, ◌≡◌, ◌↔◌, ltb, leb, ◌||◌, ◌&&◌, not, if◌then◌else◌, Bool, true,
  false, none, some, List, [], ◌∷◌, arith, refl, u64, bit_or, ◌<<<◌, bit, bit-le-one, bit-zero,
  bit-bit_or, bit_and_power, bit-shift, bit-mod, one_bit, ◌⊎◌,
}
use native.Mathlib.Nat.{one-le-pow}
use native.Mathlib.Decide.{dec_lt}
use steelseries_apex_pro_min.Packet.{Session, shift_window, seen_bit, note_counter}

pub contains : ℕ → List ℕ → Bool
contains c [] = false
contains c (x ∷ xs) = x == c || contains c xs

seen_bit-bit : (seen k : ℕ) → seen_bit seen k ≡ (bit seen k == 1)
unfolding seen_bit
seen_bit-bit seen k =
    let e : 1 <<< k ≡ 2 ^ k = omega arith in
    rw e (ground (arith, bit_and_power seen k, bit-le-one seen k, one-le-pow k 2))

seen_bit-note : (seen g k : ℕ) → seen_bit (bit_or seen (1 <<< g)) k ≡ (g == k || seen_bit seen k)
seen_bit-note seen g k =
    rw (seen_bit-bit, seen_bit-bit seen k)
      (ground (
        arith,
        bit-bit_or seen (1 <<< g) k,
        bit-shift 1 g k,
        one_bit (k - g),
        bit-le-one seen k,
        bit-le-one (1 <<< g) k,
      ))

seen_bit-shift_window :
    (seen gap k : ℕ)
    → k < 64
    → 0 < gap
    → seen_bit (shift_window seen gap) k ≡ (k == 0 || not (ltb k gap) && seen_bit seen (k - gap))
unfolding shift_window
seen_bit-shift_window seen gap k h pos =
    let shifted = if leb 64 gap then 0 else u64 (seen <<< gap) in
    rw (seen_bit-bit, seen_bit-bit seen (k - gap))
      (ground (
        arith,
        bit-bit_or shifted 1 k,
        one_bit k,
        bit-zero k,
        bit-mod (seen <<< gap) 64 k h,
        bit-shift seen gap k,
        bit-le-one seen (k - gap),
      ))

-- The session remembers the accepted counters: all are positive and at most `rx_highest`, and for
-- the last 64 counters up to it the window has exactly those.
pub record IsTracking (s : Session) (accepted : List ℕ) : Type 0 where
  pub below : (c : ℕ) → contains c accepted ≡ true → (0 < c) × (c ≤ s.rx_highest)
  pub window :
      (gap : ℕ)
      → gap < 64
      → gap ≤ s.rx_highest
      → seen_bit s.rx_seen gap ≡ contains (s.rx_highest - gap) accepted

-- A session that has received nothing.
pub fresh-IsTracking : (s : Session) → s.rx_highest ≡ 0 → s.rx_seen ≡ 0 → IsTracking s []
unfolding contains seen_bit
fresh-IsTracking s highest seen = record {
  below = λ c h. absurd (cc);
  window = λ gap small le. let zeroth : gap ≡ 0 = omega arith in rw (seen, zeroth) refl;
}

module _ (s : Session) (accepted : List ℕ) (counter : ℕ) (t : IsTracking s accepted)
    (pos : 0 < counter) where
  -- A counter is refused exactly if it was accepted before or is 64 or more behind the highest.
  pub note_counter_iff :
      (note_counter s counter ≡ none)
      ↔ ((contains counter accepted ≡ true) ⊎ (counter + 64 ≤ s.rx_highest))
  unfolding note_counter
  note_counter_iff =
      let back : counter ≤ s.rx_highest → s.rx_highest - (s.rx_highest - counter) ≡ counter =
        λ h. omega arith in
      ground (arith, back, t.below counter, t.window (s.rx_highest - counter))

  window_newer :
      (k : ℕ)
      → s.rx_highest < counter
      → k < 64
      → k ≤ counter
      → seen_bit (shift_window s.rx_seen (counter - s.rx_highest)) k
        ≡ contains (counter - k) (counter ∷ accepted)
  unfolding contains
  window_newer k newer small le =
      let gap = counter - s.rx_highest in
      let same : gap ≤ k → s.rx_highest - (k - gap) ≡ counter - k = λ h. omega arith in
      ground (
        arith,
        same,
        seen_bit-shift_window s.rx_seen gap k,
        t.below (counter - k),
        t.window (k - gap),
      )

  window_older :
      (k : ℕ)
      → counter ≤ s.rx_highest
      → k < 64
      → k ≤ s.rx_highest
      → seen_bit (bit_or s.rx_seen (1 <<< (s.rx_highest - counter))) k
        ≡ contains (s.rx_highest - k) (counter ∷ accepted)
  unfolding contains
  window_older k older small le =
      ground (arith, seen_bit-note s.rx_seen (s.rx_highest - counter) k, t.window k)

  -- What is accepted is remembered.
  pub note_counter-IsTracking :
      (s' : Session) → note_counter s counter ≡ some s' → IsTracking s' (counter ∷ accepted)
  unfolding note_counter contains
  note_counter-IsTracking s' e = elim (dec_lt s.rx_highest counter) [
    | yes newer ↦ record {
      below = λ c h. ground (arith, t.below c);
      window = λ k small le. ground (arith, window_newer k);
    }
    | no older ↦ record {
      below = λ c h. ground (arith, t.below c);
      window = λ k small le. ground (arith, window_older k);
    }
  ]
