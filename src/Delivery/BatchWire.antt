-- ===== src/Delivery/BatchWire.antt =====
-- Batches of up to three reports on the wire.
use steelseries_apex_pro_min.Prelude.{
  ℕ, suc, ◌+◌, ◌-◌, ◌≤◌, ◌<◌, ◌≡◌, false, Option, none, some, List, [], ◌∷◌, ◌++◌, length, take,
  drop, length-append, arith, refl, byte_at,
}
use steelseries_apex_pro_min.Prelude.{take-append, drop-append}
use steelseries_apex_pro_min.Input.{Frame, size, pack, unpack}
use steelseries_apex_pro_min.Input.Wire.{IsFrame, unpack-pack}
use steelseries_apex_pro_min.Delivery.{
  version, batch_max, breaks_run, pack_frames, batch_pack, unpack_frames, batch_unpack,
}

-- Well-formed reports with consecutive numbers, following the one given if there is one.
abbrev pub IsChain : Option Frame → List Frame → Type 0
IsChain previous [] = Unit
IsChain previous (f ∷ fs) = (breaks_run previous f ≡ false) × IsFrame f × IsChain (some f) fs

abbrev pub wire_size : List Frame → ℕ
wire_size [] = 0
wire_size (f ∷ fs) = size f.type + 6 + wire_size fs

-- The type byte of a packed report.
pack_type :
    (f : Frame) (room : ℕ) (wire rest : List ℕ)
    → pack f room ≡ some wire
    → byte_at (wire ++ rest) 5 ≡ f.type
unfolding pack
pack_type f room wire rest e = ground arith

unpack_frames_step :
    (previous : Option Frame) (f : Frame) (left : ℕ) (w rest : List ℕ) (fs : List Frame)
    → byte_at (w ++ rest) 5 ≡ f.type
    → length w ≡ size f.type + 6
    → unpack w ≡ some f
    → breaks_run previous f ≡ false
    → unpack_frames (some f) left rest ≡ some fs
    → unpack_frames previous (suc left) (w ++ rest) ≡ some (f ∷ fs)
unfolding unpack_frames
unpack_frames_step previous f left w rest fs t n back chain ih =
    let split₀ = take-append (6 + size f.type) w rest (omega (arith, n)) in
    let split₁ = drop-append (6 + size f.type) w rest (omega (arith, n)) in
    let bytes = w ++ rest in
    let first : take (6 + size (byte_at bytes 5)) bytes ≡ w = rw t split₀ in
    let last : drop (6 + size (byte_at bytes 5)) bytes ≡ rest = rw t split₁ in
    let long : 6 + size (byte_at bytes 5) ≤ length bytes =
      rw t (omega (arith, n, length-append w rest)) in
    ground (arith, first, last, long)

unpack_frames-pack_frames :
    (previous : Option Frame) (fs : List Frame) (room : ℕ)
    → IsChain previous fs
    → wire_size fs ≤ room
    → (wire : List ℕ) × (pack_frames previous fs room ≡ some wire)
      × (length wire ≡ wire_size fs)
      × (unpack_frames previous (length fs) wire ≡ some fs)
unfolding pack_frames unpack_frames
unpack_frames-pack_frames previous [] room h fits = ([], refl, refl, refl)
unpack_frames-pack_frames previous (f ∷ fs) room h fits =
    let (w, packed, n, back) = unpack-pack f room h.1 (omega arith) in
    let (rest, packed', n', back') =
      unpack_frames-pack_frames (some f) fs (room - length w) h.2 (omega (arith, n)) in
    let total : length (w ++ rest) ≡ length w + length rest = length-append w rest in
    (
      w ++ rest,
      rw (h.0, packed, packed') refl,
      omega (arith, total, n, n'),
      unpack_frames_step previous f (length fs) w rest fs (pack_type f room w rest packed) n back
          h.0 back',
    )

-- Packing one to three well-formed consecutive reports succeeds wherever they fit, and unpacking
-- the bytes gives exactly those reports.
pub batch_unpack-batch_pack :
    (fs : List Frame) (room : ℕ)
    → IsChain none fs
    → 0 < length fs
    → length fs ≤ batch_max
    → wire_size fs + 2 ≤ room
    → (wire : List ℕ) × (batch_pack fs room ≡ some wire)
      × (length wire ≡ wire_size fs + 2)
      × (batch_unpack wire ≡ some fs)
unfolding batch_pack batch_unpack
batch_unpack-batch_pack fs room h pos few fits =
    let (w, packed, n, back) = unpack_frames-pack_frames none fs (room - 2) h (omega arith) in
    (version ∷ length fs ∷ w, rw packed (ground arith), omega (arith, n), ground (arith, back))
