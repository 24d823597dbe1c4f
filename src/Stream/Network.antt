-- ===== src/Stream/Network.antt =====
-- Two ends of a stream over a network that may lose, repeat and reorder packets.
use steelseries_apex_pro_min.Prelude.{ℕ, ◌==◌, ◌≡◌, if◌then◌else◌, none, some, List, [], ◌∷◌, ◌⊎◌}
use steelseries_apex_pro_min.Stream.{Stream, reset, put, get, pack, receive}
use steelseries_apex_pro_min.Stream.Wire.{unread}

-- One end: its stream, the fragments that `put` took and that `get` gave, newest first, and all
-- packets it ever sent.
pub record End : Type 0 where
  pub stream : Stream
  pub sent : List (List ℕ)
  pub read : List (List ℕ)
  pub wire : List (List ℕ)

abbrev pub fresh : End
fresh = record { stream = reset; sent = []; read = []; wire = [] }

-- `put` gives back the length of the fragment exactly if it takes it.
abbrev pub puts : End → List ℕ → End
puts a bytes =
    let (s, r) = put a.stream bytes in
    record a {
      stream = s;
      sent = elim r [ none ↦ a.sent | some n ↦ if n == 0 then a.sent else bytes ∷ a.sent ];
    }

abbrev pub gets : End → End
gets a =
    let (s, bytes) = get a.stream in
    record a { stream = s; read = if a.stream.rx_length == 0 then a.read else bytes ∷ a.read }

abbrev pub packs : End → End
packs a = record a { wire = pack a.stream ∷ a.wire }

abbrev pub takes : End → List ℕ → End
takes a packet = record a { stream = (receive a.stream packet).0 }

abbrev pub In : List ℕ → List (List ℕ) → Type 0
In packet [] = ⊥
In packet (p ∷ ps) = (packet ≡ p) ⊎ In packet ps

-- A call at one end, whose peer has sent the packets given.
pub data Step (a : End) (incoming : List (List ℕ)) : End → Type 0 where
  putting : (bytes : List ℕ) → Step a incoming (puts a bytes)
  getting : Step a incoming (gets a)
  packing : Step a incoming (packs a)
  taking : (packet : List ℕ) → In packet incoming → Step a incoming (takes a packet)

-- The pairs of ends that calls lead to; a packet may be taken any number of times, or never.
pub data Reach : End → End → Type 0 where
  start : Reach fresh fresh
  left : {a b a' : End} → Reach a b → Step a b.wire a' → Reach a' b
  right : {a b b' : End} → Reach a b → Step b a.wire b' → Reach a b'

-- The fragments that an end took from its peer, read or not.
abbrev pub taken : End → List (List ℕ)
taken b = if b.stream.rx_length == 0 then b.read else unread b.stream ∷ b.read
