-- ===== src/Input/Wire.antt =====
-- The wire form of one report, `apex_input_pack` and `apex_input_unpack`: version, sequence number,
-- type, and the 8 or 12 bytes of the report.
use steelseries_apex_pro_min.Prelude.{
  ℕ, ◌+◌, ◌-◌, ◌≤◌, ◌<◌, ◌≡◌, ap, sym, ◌∙◌, ◌≢◌, some, List, ◌∷◌, ◌++◌, length, arith, take,
  replicate, length-take, length-append, length-replicate, IsBytes, uint32_max, read32, write32,
  read32-write32, write32-read32,
}
use steelseries_apex_pro_min.Prelude.{take-append, take_all, take-take}
use steelseries_apex_pro_min.Input.{Frame, size, copy_payload, version, pack, unpack, consumer_size}

pub size-le : (type : ℕ) → size type ≤ consumer_size
unfolding size
size-le type = ground arith

-- A report as the queue holds it: a sequence number from 1, a known type, 12 payload bytes of which
-- those past the size of the type are zero.
pub record IsFrame (f : Frame) : Type 0 where
  pub numbered : 0 < f.sequence
  pub fits : f.sequence ≤ uint32_max
  pub typed : size f.type ≢ 0
  pub full_length : length f.payload ≡ consumer_size
  pub padded : copy_payload f.payload (size f.type) ≡ f.payload

pub copy_payload-IsFrame :
    (sequence type : ℕ) (bytes : List ℕ)
    → 0 < sequence
    → sequence ≤ uint32_max
    → size type ≢ 0
    → length bytes ≡ size type
    → IsFrame
        (record { sequence = sequence; type = type; payload = copy_payload bytes (size type) })
copy_payload-IsFrame sequence type bytes pos fits typed e =
    let n = size type in
    let whole : take n bytes ≡ bytes = take_all n bytes e in
    record {
      numbered = pos;
      fits = fits;
      typed = typed;
      full_length = omega (
        arith,
        length-append {0} (take n bytes) (replicate (consumer_size - n) 0),
        length-take {0} n bytes,
        length-replicate {0} {A = ℕ} (consumer_size - n) 0,
        size-le type,
      );
      padded =
          ap (λ l. l ++ replicate (consumer_size - n) 0)
            (ap (λ l. take n (l ++ replicate (consumer_size - n) 0)) whole
              ∙ take-append n bytes (replicate (consumer_size - n) 0) e
              ∙ sym whole);
    }

-- What `pack` writes for a report, `unpack` reads as that report, from any buffer that has room.
pub unpack-pack :
    (f : Frame) (capacity : ℕ)
    → IsFrame f
    → size f.type + 6 ≤ capacity
    → (wire : List ℕ) × (pack f capacity ≡ some wire)
      × (length wire ≡ size f.type + 6)
      × (unpack wire ≡ some f)
unfolding pack unpack
unpack-pack f capacity v room =
    let body = take (size f.type) f.payload in
    let wire : List ℕ = version ∷ (write32 f.sequence ++ (f.type ∷ body)) in
    let n : length body ≡ size f.type =
      omega (arith, v.full_length, length-take {0} (size f.type) f.payload, size-le f.type) in
    (
      wire,
      ground (arith, v.typed, v.numbered),
      ground (arith, n),
      ground (
        arith,
        n,
        v.typed,
        v.numbered,
        v.fits,
        v.padded,
        take-take (size f.type) f.payload,
        read32-write32 f.sequence (f.type ∷ body) (omega (arith, v.fits)),
      ),
    )

-- `unpack` accepts one wire form of a report only: packing what it returns gives the bytes back.
pub pack-unpack :
    (wire : List ℕ) (f : Frame)
    → IsBytes wire
    → unpack wire ≡ some f
    → IsFrame f × (pack f (length wire) ≡ some wire)
unfolding unpack pack
pack-unpack (v ∷ a ∷ b ∷ c ∷ d ∷ t ∷ rest) f h e =
    let w = write32-read32 a b c d (t ∷ rest) (omega arith) in
    let kept : IsFrame f =
      ground (arith, w, copy_payload-IsFrame (read32 (a ∷ b ∷ c ∷ d ∷ t ∷ rest)) t rest) in
    (
      kept,
      ground (
        arith,
        w,
        kept.typed,
        take-append (size t) rest (replicate (consumer_size - size t) 0),
        take_all (size t) rest,
      ),
    )
pack-unpack _ f h e = absurd (ground arith)
