-- ===== src/Stream/InStep.antt =====
-- The invariant of one direction of a stream, kept by every call at either end.
use steelseries_apex_pro_min.Prelude.{
  ℕ, ◌+◌, ◌==◌, ◌≤◌, ◌≡◌, ◌≢◌, List, [], ◌∷◌, ◌++◌, ◌⊎◌, inl, inr, length, length-append,
  uint16_max, arith, refl, ap, sym, ◌∙◌, Bool-cases,
}
use steelseries_apex_pro_min.Stream.{Stream, put, get, pack}
use steelseries_apex_pro_min.Stream.Wire.{
  sequence_of, ack_of, fragment_of, unacked, sequence_of-pack, ack_of-pack, fragment_of-pack,
  receive_tx, receive_rx, put_tx,
}
use steelseries_apex_pro_min.Stream.Network.{
  End, fresh, puts, gets, packs, takes, In, Step, putting, getting, packing, taking, Reach, start,
  left, right, taken,
}

-- A packet with a number carries the fragment with that number.
abbrev Carries : List (List ℕ) → List ℕ → Type 0
Carries sent p =
    (sequence_of p ≡ 0)
    ⊎ ((newer : List (List ℕ)) × (older : List (List ℕ)) × (sent ≡ newer ++ (fragment_of p ∷ older))
        × (sequence_of p ≡ length older + 1))

-- The direction from `a` to `b`.
pub record IsInStep (a b : End) : Type 0 where
  pub number : a.stream.tx_sequence ≡ length a.sent
  pub fits : a.stream.tx_sequence ≤ uint16_max
  pub took : b.stream.rx_sequence ≡ length (taken b)
  pub order :
      (a.sent ≡ taken b) ⊎ ((a.stream.tx_length ≢ 0) × (f : List ℕ) × (a.sent ≡ f ∷ taken b))
  pub front :
      (a.stream.tx_length ≡ 0) ⊎ ((rest : List (List ℕ)) × (a.sent ≡ unacked a.stream ∷ rest))
  pub carried : (p : List ℕ) → In p a.wire → Carries a.sent p
  pub acked : (p : List ℕ) → In p b.wire → ack_of p ≤ b.stream.rx_sequence

-- `took` and `order` bound the receiver's number by the sender's.
rx_fits : {a b : End} → IsInStep a b → b.stream.rx_sequence ≤ a.stream.tx_sequence
rx_fits k = elim k.order [
  | inl e ↦ omega (arith, k.number, k.took, ap (λ (l : List (List ℕ)). length l) e)
  | inr (n, f, e) ↦ omega (arith, k.number, k.took, ap (λ (l : List (List ℕ)). length l) e)
]

Carries-put : (sent : List (List ℕ)) (f p : List ℕ) → Carries sent p → Carries (f ∷ sent) p
Carries-put sent f p (inl e) = inl e
Carries-put sent f p (inr (newer, older, e, n)) = inr (f ∷ newer, older, ap (λ l. f ∷ l) e, n)

Carries-pack :
    (s : Stream) (sent : List (List ℕ))
    → s.tx_sequence ≡ length sent
    → s.tx_sequence ≤ uint16_max
    → s.rx_sequence ≤ uint16_max
    → (s.tx_length ≡ 0) ⊎ ((rest : List (List ℕ)) × (sent ≡ unacked s ∷ rest))
    → Carries sent (pack s)
Carries-pack s sent number fits fits' (inl empty) =
    inl (ground (arith, sequence_of-pack s fits fits'))
Carries-pack s sent number fits fits' (inr (rest, e)) = elim (Bool-cases (s.tx_length == 0)) [
  | inl empty ↦ inl (ground (arith, sequence_of-pack s fits fits'))
  | inr full ↦ inr (
    [],
    rest,
    rw (fragment_of-pack s fits fits') e,
    (let n = rw full at (sequence_of-pack s fits fits') in
        omega (arith, n, number, ap (λ (l : List (List ℕ)). length l) e)),
  )
]

-- Of two views of one list, one with nothing newer if the tails have one length.
one_newer :
    {sent : List (List ℕ)} (newer older rest : List (List ℕ)) (f g : List ℕ)
    → sent ≡ newer ++ (f ∷ older)
    → sent ≡ g ∷ rest
    → length older ≡ length rest
    → sent ≡ f ∷ rest
one_newer [] older rest f g e e' n = ground (arith, e, e')
one_newer (x ∷ newer) older rest f g e e' n = absurd (
    omega (
      arith,
      n,
      ap (λ (l : List (List ℕ)). length l) (sym e ∙ e'),
      length-append newer (f ∷ older),
    ))

puts_lem :
    (a : End) (bytes : List ℕ)
    → a.stream.tx_sequence ≤ uint16_max
    → let a' = puts a bytes in
      (a'.read ≡ a.read)
      × (a'.wire ≡ a.wire)
      × (a'.stream.rx ≡ a.stream.rx)
      × (a'.stream.rx_sequence ≡ a.stream.rx_sequence)
      × (a'.stream.rx_length ≡ a.stream.rx_length)
      × (((a'.stream ≡ a.stream) × (a'.sent ≡ a.sent))
          ⊎ ((a.stream.tx_length ≡ 0)
              × (a'.stream.tx_length ≢ 0)
              × (a'.sent ≡ bytes ∷ a.sent)
              × (a'.stream.tx_sequence ≡ a.stream.tx_sequence + 1)
              × (a'.stream.tx_sequence ≤ uint16_max)
              × (unacked a'.stream ≡ bytes)))
unfolding put
puts_lem a bytes fits = ground (arith, put_tx a.stream bytes fits)

-- The sending half after a call at the sender.
module _ {a b : End} (k : IsInStep a b) (back : IsInStep b a) where
  puts-IsInStep : (bytes : List ℕ) → IsInStep (puts a bytes) b
  puts-IsInStep bytes =
      let (e₁, e₂, e₃, e₄, e₅, cases) = puts_lem a bytes k.fits in
      elim cases [
        | inl (s, sent) ↦ record {
          number = ground (arith, k.number);
          fits = ground (arith, k.fits);
          took = k.took;
          order = ground (arith, k.order);
          front = ground (arith, k.front);
          carried = λ p i. rw sent (k.carried p (rw e₂ at i));
          acked = k.acked;
        }
        | inr (empty, full, sent, next, fits, newest) ↦ record {
          number = ground (arith, k.number);
          fits = fits;
          took = k.took;
          order = ground (arith, k.order);
          front = inr (a.sent, rw newest sent);
          carried = λ p i. rw sent (Carries-put a.sent bytes p (k.carried p (rw e₂ at i)));
          acked = k.acked;
        }
      ]

  gets-IsInStep : IsInStep (gets a) b
  unfolding get
  gets-IsInStep = record {
    number = k.number;
    fits = k.fits;
    took = k.took;
    order = k.order;
    front = k.front;
    carried = k.carried;
    acked = k.acked;
  }

  packs-IsInStep : IsInStep (packs a) b
  packs-IsInStep = record {
    number = k.number;
    fits = k.fits;
    took = k.took;
    order = k.order;
    front = k.front;
    carried = λ p i. elim i [
      | inl e ↦ rw e (
          Carries-pack a.stream a.sent k.number k.fits (omega (arith, rx_fits back, back.fits))
            k.front)
      | inr old ↦ k.carried p old
    ];
    acked = k.acked;
  }

  takes-IsInStep : (packet : List ℕ) → In packet b.wire → IsInStep (takes a packet) b
  takes-IsInStep packet i =
      let (e₁, e₂, cases) = receive_tx a.stream packet in
      let ack = k.acked packet i in
      elim cases [
        | inl same ↦ record {
          number = ground (arith, k.number);
          fits = ground (arith, k.fits);
          took = k.took;
          order = ground (arith, k.order);
          front = ground (arith, k.front);
          carried = k.carried;
          acked = k.acked;
        }
        | inr (cleared, newest) ↦ record {
          number = ground (arith, k.number);
          fits = ground (arith, k.fits);
          took = k.took;
          order = elim k.order [
            | inl e ↦ inl e
            | inr (n, f, e) ↦ absurd (
                omega
                  (arith, ack, newest, k.number, k.took, ap (λ (l : List (List ℕ)). length l) e))
          ];
          front = inl cleared;
          carried = k.carried;
          acked = k.acked;
        }
      ]

-- The receiving half after a call at the receiver.
module _ {a b : End} (k : IsInStep a b) (back : IsInStep b a) where
  IsInStep-puts : (bytes : List ℕ) → IsInStep a (puts b bytes)
  IsInStep-puts bytes =
      let (e₁, e₂, e₃, e₄, e₅, cases) = puts_lem b bytes back.fits in
      let same : taken (puts b bytes) ≡ taken b = rw (e₁, e₃, e₅) refl in
      record {
        number = k.number;
        fits = k.fits;
        front = k.front;
        carried = k.carried;
        took = rw (e₄, same) k.took;
        order = rw same k.order;
        acked = λ p i. rw e₄ (k.acked p (rw e₂ at i));
      }

  IsInStep-gets : IsInStep a (gets b)
  unfolding get
  IsInStep-gets = record {
    number = k.number;
    fits = k.fits;
    front = k.front;
    carried = k.carried;
    acked = k.acked;
    took = k.took;
    order = k.order;
  }

  IsInStep-packs : IsInStep a (packs b)
  IsInStep-packs = record {
    number = k.number;
    fits = k.fits;
    front = k.front;
    carried = k.carried;
    took = k.took;
    order = k.order;
    acked = λ p i. elim i [
      | inl e ↦
          rw (e, ack_of-pack b.stream back.fits (omega (arith, rx_fits k, k.fits))) (omega arith)
      | inr old ↦ k.acked p old
    ];
  }

  -- The packet accepted next carries the newest fragment sent.
  next_fragment :
      (packet : List ℕ)
      → In packet a.wire
      → sequence_of packet ≡ b.stream.rx_sequence + 1
      → a.sent ≡ fragment_of packet ∷ taken b
  next_fragment packet i next = elim (k.carried packet i) [
    | inl none_carried ↦ absurd (omega arith)
    | inr (newer, older, e, n) ↦ elim k.order [
      | inl all ↦ absurd (
          omega (
            arith,
            k.took,
            ap (λ (l : List (List ℕ)). length l) (sym all ∙ e),
            length-append newer (fragment_of packet ∷ older),
          ))
      | inr (full, f, all) ↦
          one_newer newer older (taken b) (fragment_of packet) f e all (omega (arith, k.took))
    ]
  ]

  IsInStep-takes : (packet : List ℕ) → In packet a.wire → IsInStep a (takes b packet)
  IsInStep-takes packet i = elim (receive_rx b.stream packet) [
    | inl (e₁, e₂, e₃) ↦
        let same : taken (takes b packet) ≡ taken b = rw (e₁, e₃) refl in
        record {
          number = k.number;
          fits = k.fits;
          front = k.front;
          carried = k.carried;
          took = rw (e₂, same) k.took;
          order = rw same k.order;
          acked = λ p j. rw e₂ (k.acked p j);
        }
    | inr (next, e₂, empty, full, fragment) ↦
        let e = next_fragment packet i next in
        let more : taken (takes b packet) ≡ fragment_of packet ∷ taken b = ground arith in
        record {
          number = k.number;
          fits = k.fits;
          front = k.front;
          carried = k.carried;
          took = rw (e₂, more) (omega (arith, k.took));
          order = inl (rw more e);
          acked = λ p j. omega (arith, k.acked p j, e₂);
        }
  ]

fresh-IsInStep : IsInStep fresh fresh
fresh-IsInStep = record {
  number = refl;
  fits = omega arith;
  took = refl;
  order = inl refl;
  front = inl refl;
  carried = λ p i. absurd i;
  acked = λ p i. absurd i;
}

Step-IsInStep :
    {a b a' : End} → Step a b.wire a' → IsInStep a b → IsInStep b a → IsInStep a' b × IsInStep b a'
Step-IsInStep (putting bytes) k back = (puts-IsInStep k back bytes, IsInStep-puts back k bytes)
Step-IsInStep getting k back = (gets-IsInStep k back, IsInStep-gets back k)
Step-IsInStep packing k back = (packs-IsInStep k back, IsInStep-packs back k)
Step-IsInStep (taking packet i) k back =
    (takes-IsInStep k back packet i, IsInStep-takes back k packet i)

pub Reach-IsInStep : {a b : End} → Reach a b → IsInStep a b × IsInStep b a
Reach-IsInStep start = (fresh-IsInStep, fresh-IsInStep)
Reach-IsInStep (left r step) = let (k, back) = Reach-IsInStep r in Step-IsInStep step k back
Reach-IsInStep (right r step) =
    let (k, back) = Reach-IsInStep r in let (back', k') = Step-IsInStep step back k in (k', back')
