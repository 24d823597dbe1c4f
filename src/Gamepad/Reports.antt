-- ===== src/Gamepad/Reports.antt =====
-- What the host can see of a gamepad, after any interleaving of the steps.
use steelseries_apex_pro_min.Prelude.{
  ℕ, ◌+◌, ◌-◌, ◌^◌, ◌≤◌, ◌<◌, ◌≡◌, ◌&&◌, not, if◌then◌else◌, Bool, true, false, ◌⊎◌, inl, inr, List,
  arith, refl, u32,
}
use steelseries_apex_pro_min.Gamepad.{
  Gamepad, neutral, zero_gamepad, init, receive, release, iface_ready, report_done, poll,
  submit_failed,
}

-- One step under the lock.
pub data Step (g : Gamepad) : Gamepad → Type 0 where
  receives : (on : Bool) (report : List ℕ) (now : ℕ) → Step g (receive g on report now)
  releases : Step g (release g)
  readies : (on : Bool) → Step g (iface_ready g on)
  finishes : (failed : Bool) → Step g (report_done g failed)
  polls : (now : ℕ) → Step g (poll g now).0
  fails : Step g (submit_failed g)

pub data Reach : Gamepad → Type 0 where
  started : Reach (init zero_gamepad)
  later : {g g' : Gamepad} → Reach g → Step g g' → Reach g'

-- A gamepad that is not live is neutral; what was submitted last is current unless marked.
record IsShown (g : Gamepad) : Type 0 where
  idle : (g.live ≡ true) ⊎ (g.current ≡ neutral)
  shown : (g.ready ≡ false) ⊎ (g.dirty ≡ true) ⊎ (g.tx ≡ g.current)

Step-IsShown : {g g' : Gamepad} → Step g g' → IsShown g → IsShown g'
unfolding receive release iface_ready report_done poll submit_failed
Step-IsShown (receives true report now) k = record {
  idle = inl refl;
  shown = ground (arith, k.shown);
}
Step-IsShown (receives false report now) k = record {
  idle = inr refl;
  shown = ground (arith, k.shown);
}
Step-IsShown releases k = record { idle = inr refl; shown = ground (arith, k.shown) }
Step-IsShown (readies on) k = record { idle = k.idle; shown = ground (arith, k.shown) }
Step-IsShown (finishes true) k = record { idle = k.idle; shown = ground (arith, k.shown) }
Step-IsShown (finishes false) k = record { idle = k.idle; shown = k.shown }
Step-IsShown {g} (polls now) k = record {
  idle = ground (arith, k.idle);
  shown = ground (arith, k.shown);
}
Step-IsShown fails k = record { idle = k.idle; shown = ground (arith, k.shown) }

Reach-IsShown : {g : Gamepad} → Reach g → IsShown g
Reach-IsShown started = record { idle = inr refl; shown = inl refl }
Reach-IsShown (later r step) = Step-IsShown step (Reach-IsShown r)

-- After any steps: a gamepad that is not live holds the neutral report; and while the endpoint is
-- ready, the report submitted last is the current one, unless one is marked to be submitted.
pub Reach-shown :
    {g : Gamepad}
    → Reach g
    → ((g.live ≡ true) ⊎ (g.current ≡ neutral))
      × ((g.ready ≡ false) ⊎ (g.dirty ≡ true) ⊎ (g.tx ≡ g.current))
Reach-shown r = ((Reach-IsShown r).idle, (Reach-IsShown r).shown)

-- A poll 100 ms or more after the last report of a live gamepad makes it neutral, and submits that
-- report if the endpoint is free.
pub poll-stale :
    (g : Gamepad) (now : ℕ)
    → g.live ≡ true
    → g.received_at < 2 ^ 32
    → 100 ≤ u32 (now + 2 ^ 32 - g.received_at)
    → let (g', submits) = poll g now in
      (g'.live ≡ false)
      × (g'.current ≡ neutral)
      × (submits ≡ (g.ready && not g.busy))
      × (g'.tx ≡ (if submits then neutral else g.tx))
unfolding poll
poll-stale g now live word stale = ground arith
