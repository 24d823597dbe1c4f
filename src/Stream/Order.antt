-- ===== src/Stream/Order.antt =====
-- The fragments that each end reads are those that the other put, once each and in order.
use steelseries_apex_pro_min.Prelude.{
  ℕ, ◌==◌, ◌≤◌, ◌≡◌, if◌then◌else◌, List, [], ◌∷◌, ◌++◌, inl, inr, length, arith, Bool-cases,
}
use steelseries_apex_pro_min.Stream.Wire.{unread}
use steelseries_apex_pro_min.Stream.Network.{End, Reach}
use steelseries_apex_pro_min.Stream.InStep.{IsInStep, Reach-IsInStep}

-- What one end has read of what the other put.
abbrev IsPrefix : End → End → Type 0
IsPrefix a b = (missing : List (List ℕ)) × (a.sent ≡ missing ++ b.read) × (length missing ≤ 2)

IsInStep-IsPrefix : {a b : End} → IsInStep a b → IsPrefix a b
IsInStep-IsPrefix {a} {b} k = elim (Bool-cases (b.stream.rx_length == 0)) [
  | inl empty ↦ elim (rw empty at k.order) [
    | inl e ↦ ([], e, omega arith)
    | inr (n, f, e) ↦ (f ∷ [], e, omega arith)
  ]
  | inr full ↦ elim (rw full at k.order) [
    | inl e ↦ (unread b.stream ∷ [], e, omega arith)
    | inr (n, f, e) ↦ (f ∷ unread b.stream ∷ [], e, omega arith)
  ]
]

-- From reset on, whatever packets the network loses, repeats or reorders, in both directions: the
-- fragments that one end has read are the ones that the other put, once each and in order, but for
-- at most the newest two.
pub Reach-in_order :
    {a b : End}
    → Reach a b
    → ((missing : List (List ℕ)) × (a.sent ≡ missing ++ b.read) × (length missing ≤ 2))
      × ((missing : List (List ℕ)) × (b.sent ≡ missing ++ a.read) × (length missing ≤ 2))
Reach-in_order r = let (k, back) = Reach-IsInStep r in (IsInStep-IsPrefix k, IsInStep-IsPrefix back)

-- Whenever an end has no fragment left to be acknowledged, its peer has taken every fragment that
-- it put.
pub Reach-acknowledged :
    {a b : End}
    → Reach a b
    → a.stream.tx_length ≡ 0
    → a.sent ≡ (if b.stream.rx_length == 0 then b.read else unread b.stream ∷ b.read)
Reach-acknowledged r empty = elim (Reach-IsInStep r).0.order [
  | inl e ↦ e
  | inr (full, f, e) ↦ absurd (full empty)
]
