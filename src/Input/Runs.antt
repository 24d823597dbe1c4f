-- ===== src/Input/Runs.antt =====
-- Whole runs of the input queue: any sequence of calls behaves as on the FIFO, and what waits is
-- always a gapless run of well-formed reports that ends below the next sequence number.
use steelseries_apex_pro_min.Prelude.{
  ℕ, ◌+◌, ◌-◌, ◌≤◌, ◌<◌, ◌==◌, ◌||◌, inl, inr, not, if◌then◌else◌, ◌≡◌, refl, ap, Bool, true, false,
  List, [], ◌∷◌, ◌++◌, length, arith, same_bytes, uint32_max, suc, ◌≢◌, replicate, length-append,
  Bool-cases,
}
use mathlib.Core.Path.{subst}
use steelseries_apex_pro_min.Input.{
  Frame, zero_frame, Queue, Status, size, copy_payload, enqueue, disconnect, session, push, ack,
  queue_size, keyboard_type, consumer_type, keyboard_size, consumer_size,
}
use steelseries_apex_pro_min.Input.Fifo.{
  IsSound, View, view, append_report, take_first, drop_report, enqueue_refines, ack_refines,
}
use steelseries_apex_pro_min.Input.Wire.{IsFrame, copy_payload-IsFrame}

-- The calls that change a queue.
pub data Op : Type 0 where
  report : ℕ → List ℕ → Op
  acked : ℕ → Op
  connected dropped : Op

-- What a call returns: a status, a Boolean or nothing.
pub data Reply : Type 0 where
  status : Status → Reply
  flag : Bool → Reply
  nothing : Reply

unfoldable pub step : Queue → Op → Queue × Reply
step q (report type bytes) = let (q', r) = push q type bytes in (q', status r)
step q (acked sequence) = let (q', r) = ack q sequence in (q', flag r)
step q connected = (session q, nothing)
step q dropped = (disconnect q, nothing)

-- The same calls on the FIFO. A new session starts with the last report of each type as reports 1
-- and 2; a disconnection forgets what waits and keeps those.
pub push_view : View → ℕ → List ℕ → View × Status
push_view v type bytes =
    if size type == 0 || not (length bytes == size type)
    then (v, Status.invalid)
    else let old = if type == keyboard_type then v.keyboard else v.consumer in
      if same_bytes old bytes
      then (v, Status.ok)
      else let v' : View =
          if type == keyboard_type
          then record v { keyboard = bytes }
          else record v { consumer = bytes } in
        if v.online then append_report v' type bytes else (v', Status.ok)

pub first_reports : List ℕ → List ℕ → List Frame
first_reports keyboard consumer =
    record { sequence = 1; type = keyboard_type; payload = copy_payload keyboard keyboard_size }
    ∷ record { sequence = 2; type = consumer_type; payload = copy_payload consumer consumer_size }
    ∷ []

pub step_view : View → Op → View × Reply
step_view v (report type bytes) = let (v', r) = push_view v type bytes in (v', status r)
step_view v (acked sequence) = let (v', r) = drop_report v sequence in (v', flag r)
step_view v connected = (
  record v { pending = first_reports v.keyboard v.consumer; next_sequence = 3; online = true },
  nothing,
)
step_view v dropped = (record v { pending = []; online = false }, nothing)

module _ {q : Queue} (s : IsSound q) where
  push_refines :
      (type : ℕ) (bytes : List ℕ)
      → let (q', r) = push q type bytes in
        ((view q', r) ≡ push_view (view q) type bytes) × IsSound q'
  unfolding push push_view
  push_refines type bytes = elim (Bool-cases (type == keyboard_type)) [
    | inl k ↦
        let t : IsSound (record q { keyboard = bytes }) = record {
          slots = s.slots;
          head_in = s.head_in;
          count_in = s.count_in;
        } in
        ground (arith, enqueue_refines t type bytes)
    | inr c ↦
        let t : IsSound (record q { consumer = bytes }) = record {
          slots = s.slots;
          head_in = s.head_in;
          count_in = s.count_in;
        } in
        ground (arith, enqueue_refines t type bytes)
  ]

  session_refines :
      ((view (session q), nothing) ≡ step_view (view q) connected) × IsSound (session q)
  unfolding session enqueue append_report step_view size first_reports
  session_refines =
      let q₁ : Queue = record q { head = 0; count = 0; online = true; next_sequence = 1 } in
      let s₁ : IsSound q₁ = record {
        slots = s.slots;
        head_in = omega arith;
        count_in = omega arith;
      } in
      let r₁ = enqueue_refines s₁ keyboard_type q.keyboard in
      let r₂ = enqueue_refines r₁.1 consumer_type q.consumer in (ground (arith, r₁, r₂), r₂.1)

  step_refines :
      (op : Op) → let (q', r) = step q op in ((view q', r) ≡ step_view (view q) op) × IsSound q'
  unfolding step step_view
  step_refines (report type bytes) = ground (arith, push_refines type bytes)
  step_refines (acked sequence) = ground (arith, ack_refines s sequence)
  step_refines connected = session_refines
  step_refines dropped = unfold disconnect in ground arith

unfoldable pub run : Queue → List Op → Queue × List Reply
run q [] = (q, [])
run q (op ∷ ops) = let (q', r) = step q op in let (q'', rs) = run q' ops in (q'', r ∷ rs)

pub run_view : View → List Op → View × List Reply
run_view v [] = (v, [])
run_view v (op ∷ ops) =
    let (v', r) = step_view v op in let (v'', rs) = run_view v' ops in (v'', r ∷ rs)

-- No sequence of calls tells the ring of 32 slots from the FIFO: replies and final state agree.
pub run_refines :
    (ops : List Op) (q : Queue)
    → IsSound q
    → let (q', rs) = run q ops in ((view q', rs) ≡ run_view (view q) ops) × IsSound q'
unfolding run run_view
run_refines [] q s = (refl, s)
run_refines (op ∷ ops) q s =
    let (e, s') = step_refines s op in ground (arith, e, run_refines ops (step q op).0 s')

-- Reports with consecutive sequence numbers, the first one given.
abbrev pub IsRun : ℕ → List Frame → Type 0
IsRun first [] = Unit
IsRun first (f ∷ fs) = IsFrame f × (f.sequence ≡ first) × IsRun (first + 1) fs

pub IsRun-append :
    (first : ℕ) (fs : List Frame) (f : Frame)
    → IsRun first fs
    → IsFrame f
    → f.sequence ≡ first + length fs
    → IsRun first (fs ++ (f ∷ []))
IsRun-append first [] f h k e = (k, omega arith, tt)
IsRun-append first (g ∷ fs) f h k e = (h.0, h.1, IsRun-append (first + 1) fs f h.2 k (omega arith))

-- What waits are the reports below `next_sequence`, all of them well formed.
pub record IsOrdered (v : View) : Type 0 where
  pub keyboard_length : length v.keyboard ≡ keyboard_size
  pub consumer_length : length v.consumer ≡ consumer_size
  pub bound : v.next_sequence ≤ uint32_max
  pub run_of : IsRun (v.next_sequence - length v.pending) v.pending
  pub behind : v.online ≡ true → length v.pending < v.next_sequence
  pub quiet : v.online ≡ false → v.pending ≡ []

append_report-IsOrdered :
    (v : View) (type : ℕ) (bytes : List ℕ)
    → IsOrdered v
    → v.online ≡ true
    → size type ≢ 0
    → length bytes ≡ size type
    → IsOrdered (append_report v type bytes).0
unfolding append_report
append_report-IsOrdered v type bytes o on typed fits =
    let f : Frame = record {
      sequence = v.next_sequence;
      type = type;
      payload = copy_payload bytes (size type);
    } in
    ground (
      arith,
      o.behind on,
      o.run_of,
      length-append v.pending (f ∷ []),
      copy_payload-IsFrame v.next_sequence type bytes,
      IsRun-append (v.next_sequence - length v.pending) v.pending f,
    )

push_view-IsOrdered :
    (v : View) (type : ℕ) (bytes : List ℕ) → IsOrdered v → IsOrdered (push_view v type bytes).0
unfolding push_view size
push_view-IsOrdered v type bytes o = elim (Bool-cases (type == keyboard_type)) [
  | inl k ↦
      let w : View = record v { keyboard = bytes } in
      ground (arith, append_report-IsOrdered w type bytes, o.behind, o.run_of, o.quiet)
  | inr c ↦
      let w : View = record v { consumer = bytes } in
      ground (arith, append_report-IsOrdered w type bytes, o.behind, o.run_of, o.quiet)
]

drop_report-IsOrdered :
    (v : View) (sequence : ℕ) → IsOrdered v → IsOrdered (drop_report v sequence).0
unfolding drop_report
drop_report-IsOrdered v sequence o = go v.pending refl
  where
    go : (fs : List Frame) → v.pending ≡ fs → IsOrdered (take_first v fs sequence).0
    go [] e = o
    go (f ∷ fs) e =
        let suffix : IsRun (v.next_sequence - length (f ∷ fs)) (f ∷ fs) = rw e at o.run_of in
        let size_of : length v.pending ≡ suc (length fs) = ap length e in
        let on : v.online ≡ true = ground (arith, o.quiet, e) in
        let rest : IsOrdered (record v { pending = fs }) = record {
          keyboard_length = o.keyboard_length;
          consumer_length = o.consumer_length;
          bound = o.bound;
          run_of = subst (λ k. IsRun k fs) (omega (arith, o.behind on, size_of)) suffix.2;
          behind = λ h. omega (arith, o.behind on, size_of);
          quiet = λ h. absurd (ground arith);
        } in
        elim (Bool-cases (f.sequence == sequence)) [ inl h ↦ rw h rest | inr h ↦ rw h o ]

step_view-IsOrdered : (v : View) (op : Op) → IsOrdered v → IsOrdered (step_view v op).0
unfolding step_view first_reports size
step_view-IsOrdered v (report type bytes) o = push_view-IsOrdered v type bytes o
step_view-IsOrdered v (acked sequence) o = drop_report-IsOrdered v sequence o
step_view-IsOrdered v connected o = ground (
  arith,
  o.behind,
  o.run_of,
  o.quiet,
  copy_payload-IsFrame 1 keyboard_type v.keyboard,
  copy_payload-IsFrame 2 consumer_type v.consumer,
)
step_view-IsOrdered v dropped o = ground (arith, o.behind, o.quiet)

pub run_view-IsOrdered : (ops : List Op) (v : View) → IsOrdered v → IsOrdered (run_view v ops).0
unfolding run_view
run_view-IsOrdered [] v o = o
run_view-IsOrdered (op ∷ ops) v o =
    run_view-IsOrdered ops (step_view v op).0 (step_view-IsOrdered v op o)

-- The queue after reset: all bytes zero.
abbrev pub zero_queue : Queue
zero_queue = record {
  frames = replicate queue_size zero_frame;
  keyboard = replicate keyboard_size 0;
  consumer = replicate consumer_size 0;
  next_sequence = 0;
  head = 0;
  count = 0;
  online = false;
}

-- From reset on, after any sequence of calls, the waiting reports are well formed and numbered
-- without a gap up to `next_sequence`, and none waits while offline.
pub run-IsOrdered :
    (ops : List Op) → let q = (run zero_queue ops).0 in IsSound q × IsOrdered (view q)
run-IsOrdered ops =
    let (e, s) =
      run_refines ops zero_queue
        (record { slots = refl; head_in = omega arith; count_in = omega arith }) in
    let start : IsOrdered (view zero_queue) = record {
      keyboard_length = refl;
      consumer_length = refl;
      bound = omega arith;
      run_of = tt;
      behind = λ h. absurd (cc);
      quiet = λ h. refl;
    } in
    (s, rw (ap (λ p. p.0) e) (run_view-IsOrdered ops (view zero_queue) start))
