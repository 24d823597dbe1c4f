-- ===== src/Delivery/AckWire.antt =====
-- The eleven bytes of an acknowledgement.
use steelseries_apex_pro_min.Prelude.{
  ℕ, ◌≤◌, ◌≡◌, true, some, List, [], ◌∷◌, ◌++◌, length, arith, refl, IsBytes, write32,
  read32-write32, write32-read32, uint32_max,
}
use steelseries_apex_pro_min.Delivery.{Ack, ack_pack, ack_unpack, ack_size, valid_ack, Rx, status}
use steelseries_apex_pro_min.Delivery.Receiver.{IsSound, valid_ack-status}

-- Packing and unpacking a consistent acknowledgement gives it back.
pub ack_unpack-ack_pack :
    (ack : Ack)
    → valid_ack ack ≡ true
    → ack.accepted ≤ uint32_max
    → (length (ack_pack ack) ≡ ack_size) × (ack_unpack (ack_pack ack) ≡ some ack)
unfolding ack_pack ack_unpack
ack_unpack-ack_pack ack v h =
    let tail : List ℕ = ack.free ∷ ack.leds ∷ [] in
    (
      refl,
      ground (
        arith,
        read32-write32 ack.accepted (write32 ack.completed ++ tail),
        read32-write32 ack.completed tail,
      ),
    )

-- An acknowledgement that is accepted has one encoding, and its positions and room agree.
pub ack_pack-ack_unpack :
    (bytes : List ℕ) (ack : Ack)
    → IsBytes bytes
    → ack_unpack bytes ≡ some ack
    → (ack_pack ack ≡ bytes) × (valid_ack ack ≡ true)
unfolding ack_pack ack_unpack
ack_pack-ack_unpack (v ∷ a ∷ b ∷ c ∷ d ∷ e ∷ f ∷ g ∷ h ∷ free ∷ leds ∷ []) ack k eq = ground (
  arith,
  write32-read32 a b c d (e ∷ f ∷ g ∷ h ∷ free ∷ leds ∷ []),
  write32-read32 e f g h (free ∷ leds ∷ []),
)
ack_pack-ack_unpack _ ack k eq = absurd (ground arith)

-- What the receiver sends about a sound queue is read back by the sender as it was.
pub ack_unpack-status :
    (rx : Rx) (leds : ℕ)
    → IsSound rx
    → ack_unpack (ack_pack (status rx leds)) ≡ some (status rx leds)
unfolding status
ack_unpack-status rx leds s =
    (ack_unpack-ack_pack (status rx leds) (valid_ack-status s leds) s.bound).1
