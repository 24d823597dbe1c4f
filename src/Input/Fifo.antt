-- ===== src/Input/Fifo.antt =====
-- The input queue of radio/src/apex_input.c against a FIFO of reports: what each operation does to
-- the reports that wait, oldest first.
use steelseries_apex_pro_min.Prelude.{
  ℕ, ◌+◌, ◌-◌, ◌%◌, ◌≤◌, ◌<◌, ◌==◌, ◌||◌, if◌then◌else◌, ◌≡◌, Bool, true, false, List, [], ◌∷◌,
  ◌++◌, length, arith, window, window-set, window_next, window_pos, length-window, length-set,
  uint32_max,
}
use steelseries_apex_pro_min.Input.{
  Frame, zero_frame, Queue, Status, size, copy_payload, enqueue, ack, queue_size,
}

-- The representation: 32 slots, and the indices inside them.
pub record IsSound (q : Queue) : Type 0 where
  pub slots : length q.frames ≡ queue_size
  pub head_in : q.head < queue_size
  pub count_in : q.count ≤ queue_size

abbrev pub contents : Queue → List Frame
contents q = window zero_frame queue_size q.frames q.head q.count

pub length-contents : (q : Queue) → length (contents q) ≡ q.count
length-contents q = length-window zero_frame queue_size q.frames q.head q.count

-- The queue without its representation.
pub record View : Type 0 where
  pub pending : List Frame
  pub keyboard : List ℕ
  pub consumer : List ℕ
  pub next_sequence : ℕ
  pub online : Bool

abbrev pub view : Queue → View
view q = record {
  pending = contents q;
  keyboard = q.keyboard;
  consumer = q.consumer;
  next_sequence = q.next_sequence;
  online = q.online;
}

-- The operations on a FIFO of at most 32 reports.
unfoldable pub append_report : View → ℕ → List ℕ → View × Status
append_report v type bytes =
    if length v.pending == queue_size || v.next_sequence == uint32_max then (v, Status.full) else (
      record v {
        pending =
            v.pending
            ++ (record {
              sequence = v.next_sequence;
              type = type;
              payload = copy_payload bytes (size type);
            }
                ∷ []);
        next_sequence = v.next_sequence + 1;
      },
      Status.ok,
    )

abbrev pub take_first : View → List Frame → ℕ → View × Bool
take_first v [] sequence = (v, false)
take_first v (f ∷ fs) sequence =
    if f.sequence == sequence then (record v { pending = fs }, true) else (v, false)

unfoldable pub drop_report : View → ℕ → View × Bool
drop_report v sequence = take_first v v.pending sequence

module _ {q : Queue} (s : IsSound q) where
  -- `enqueue` appends the report under the next sequence number, or refuses and changes nothing.
  pub enqueue_refines :
      (type : ℕ) (bytes : List ℕ)
      → let (q', r) = enqueue q type bytes in
        ((view q', r) ≡ append_report (view q) type bytes) × IsSound q'
  unfolding enqueue append_report
  enqueue_refines type bytes =
      let f : Frame = record {
        sequence = q.next_sequence;
        type = type;
        payload = copy_payload bytes (size type);
      } in
      ground (
        arith,
        length-contents q,
        window-set zero_frame queue_size q.frames f q.head q.count,
        length-set q.frames ((q.head + q.count) % queue_size) f,
      )

  -- `ack` removes the oldest report if it has that sequence number, and else changes nothing.
  pub ack_refines :
      (sequence : ℕ)
      → let (q', r) = ack q sequence in ((view q', r) ≡ drop_report (view q) sequence) × IsSound q'
  unfolding ack drop_report
  ack_refines sequence = ground (
    arith,
    window_pos zero_frame queue_size q.frames q.head q.count,
    window_next zero_frame queue_size q.frames q.head (q.count - 1),
  )
