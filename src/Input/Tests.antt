-- ===== src/Input/Tests.antt =====
-- The input theorems at a short run: connect, press a key, the first report is acknowledged.
use mathlib.Core.Bool.{Bool}
use steelseries_apex_pro_min.Prelude.{
  ℕ, ◌+◌, ◌≡◌, true, some, List, [], ◌∷◌, ◌++◌, arith, refl, replicate, length, read32, IsBytes,
  same_bytes,
}
use steelseries_apex_pro_min.Input.{
  Frame, Status, size, pack, unpack, push, enqueue, session, ack, keyboard_type,
}
use steelseries_apex_pro_min.Input.Fifo.{IsSound, view}
use steelseries_apex_pro_min.Input.Wire.{IsFrame, unpack-pack, pack-unpack}
use steelseries_apex_pro_min.Input.Runs.{
  Op, Reply, run, run_view, step, run_refines, run-IsOrdered, IsOrdered, zero_queue,
}

abbrev press : List ℕ
press = 0 ∷ 0 ∷ 4 ∷ 0 ∷ 0 ∷ 0 ∷ 0 ∷ 0 ∷ []

abbrev calls : List Op
calls =
    Op.connected
    ∷ Op.report keyboard_type press
    ∷ Op.report keyboard_type press
    ∷ Op.acked 1
    ∷ Op.acked 1
    ∷ []

-- The second, equal report is not queued, and the second acknowledgement is refused.
replies :
    (run zero_queue calls).1
    ≡ Reply.nothing
      ∷ Reply.status Status.ok
      ∷ Reply.status Status.ok
      ∷ Reply.flag true
      ∷ Reply.flag Bool.false
      ∷ []
unfolding run step push enqueue session ack size same_bytes
replies = refl

zero_queue-IsSound : IsSound zero_queue
zero_queue-IsSound = record { slots = refl; head_in = omega arith; count_in = omega arith }

run_refines_example :
    let (q', rs) = run zero_queue calls in
    ((view q', rs) ≡ run_view (view zero_queue) calls) × IsSound q'
run_refines_example = run_refines calls zero_queue zero_queue-IsSound

run-IsOrdered_example : let q = (run zero_queue calls).0 in IsSound q × IsOrdered (view q)
run-IsOrdered_example = run-IsOrdered calls

abbrev press_frame : Frame
press_frame = record { sequence = 3; type = keyboard_type; payload = press ++ replicate 4 0 }

press_frame-IsFrame : IsFrame press_frame
unfolding size
press_frame-IsFrame = record {
  numbered = omega arith;
  fits = omega arith;
  typed = omega arith;
  full_length = refl;
  padded = refl;
}

unpack-pack_example :
    (wire : List ℕ) × (pack press_frame 18 ≡ some wire)
    × (length wire ≡ size keyboard_type + 6)
    × (unpack wire ≡ some press_frame)
unfolding size
unpack-pack_example = unpack-pack press_frame 18 press_frame-IsFrame (omega arith)

abbrev press_wire : List ℕ
press_wire = 2 ∷ 3 ∷ 0 ∷ 0 ∷ 0 ∷ 1 ∷ press

press_wire-IsBytes : IsBytes press_wire
press_wire-IsBytes = omega arith

pack-unpack_test : IsFrame press_frame × (pack press_frame 14 ≡ some press_wire)
unfolding unpack size read32
pack-unpack_test = pack-unpack press_wire press_frame press_wire-IsBytes refl
