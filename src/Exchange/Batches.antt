-- ===== src/Exchange/Batches.antt =====
-- A batch adds to the receiver's queue exactly its reports that were not accepted before.
use steelseries_apex_pro_min.Prelude.{
  ℕ, suc, ◌+◌, ◌-◌, ◌==◌, ◌≤◌, ◌<◌, ◌≡◌, ◌≢◌, leb, ◌||◌, not, if◌then◌else◌, Bool, true, false,
  List, [], ◌∷◌, ◌++◌, inl, inr, length, length-append, take, drop, take-nil, drop-nil, uint32_max,
  arith, refl, ap, sym, ◌∙◌, Bool-cases,
}
use mathlib.Core.List.{append_assoc, append-nil}
use native.Mathlib.Decide.{dec_le}
use steelseries_apex_pro_min.Input.{Frame, size}
use steelseries_apex_pro_min.Delivery.{Rx, capacity, queued, full, receive}
use steelseries_apex_pro_min.Delivery.Receiver.{
  IsSound, IsRun, waiting, length-waiting, verdict, receive-verdict, receive-queued, receive-other,
}
use steelseries_apex_pro_min.Exchange.{deliver_all}

-- The report after the accepted ones is queued or, in a full queue, has to wait.
next-verdict :
    {rx : Rx} (s : IsSound rx) (f : Frame)
    → size f.type ≢ 0
    → f.sequence ≡ rx.accepted + 1
    → f.sequence ≤ uint32_max
    → (receive rx f).1 ≡ (if rx.count == capacity then full else queued)
unfolding verdict
next-verdict s f typed next fits = receive-verdict s f ∙ ground (arith, s.positions, s.count_in)

-- What a batch leaves behind, `fresh` being its reports that the queue has room for.
pub record IsDelivered (rx : Rx) (fresh : List Frame) (end : Rx × ℕ × Bool) : Type 0 where
  pub good : end.2 ≡ true
  pub sound : IsSound end.0
  pub last : end.1 ≡ end.0.accepted
  pub completed : end.0.completed ≡ rx.completed
  pub joined : waiting end.0 ≡ waiting rx ++ fresh

nothing-IsDelivered : (rx : Rx) → IsSound rx → IsDelivered rx [] (rx, rx.accepted, true)
nothing-IsDelivered rx s = record {
  good = refl;
  sound = s;
  last = refl;
  completed = refl;
  joined = sym (append-nil (waiting rx));
}

-- One new report queued, and the rest of the batch after it.
joins-IsDelivered :
    {rx rx' : Rx} {end : Rx × ℕ × Bool} (f : Frame) (fresh : List Frame)
    → waiting rx' ≡ waiting rx ++ (f ∷ [])
    → rx'.completed ≡ rx.completed
    → IsDelivered rx' fresh end
    → IsDelivered rx (f ∷ fresh) end
joins-IsDelivered {rx} f fresh joined kept d = record {
  good = d.good;
  sound = d.sound;
  last = d.last;
  completed = d.completed ∙ kept;
  joined = d.joined ∙ ap (λ l. l ++ fresh) joined ∙ append_assoc (waiting rx) (f ∷ []) fresh;
}

-- For a sound queue whose accepted position is the `rx_sequence` that the loop starts with, and a run of
-- typed reports that begins at most one after it, with numbers of 32 bits: the loop reports no error, and the queue takes exactly the reports not accepted before, as many as it has room for.
pub deliver_all_lem :
    (fs : List Frame) (first : ℕ) (rx : Rx)
    → IsSound rx
    → IsRun first fs
    → first ≤ rx.accepted + 1
    → first + length fs ≤ uint32_max + 1
    → IsDelivered rx
        (take (capacity - rx.count) (drop (rx.accepted + 1 - first) fs))
        (deliver_all rx rx.accepted fs)
unfolding deliver_all
deliver_all_lem [] first rx s run le fits = rw (drop-nil, take-nil) (nothing-IsDelivered rx s)
deliver_all_lem (f ∷ fs) first rx s run le fits = elim (dec_le f.sequence rx.accepted) [
  | yes old ↦
      let shift : rx.accepted + 1 - first ≡ suc (rx.accepted + 1 - (first + 1)) =
        omega (arith, run.1) in
      let seen : leb f.sequence rx.accepted ≡ true = ground arith in
      rw (shift, seen)
        (deliver_all_lem fs (first + 1) rx s run.2 (omega (arith, run.1)) (omega arith))
  | no new ↦
      let here : rx.accepted + 1 - first ≡ 0 = omega (arith, run.1) in
      let next : f.sequence ≡ rx.accepted + 1 = omega (arith, run.1) in
      let unseen : leb f.sequence rx.accepted ≡ false = ground arith in
      let goes_on : (rx.accepted == uint32_max || not (f.sequence == rx.accepted + 1)) ≡ false =
        ground (arith, run.1) in
      let answer = next-verdict s f run.0 next (omega (arith, run.1)) in
      elim (Bool-cases (rx.count == capacity)) [
        | inl no_room ↦
            let is_full : (receive rx f).1 ≡ full = rw no_room at answer in
            let zero_room : capacity - rx.count ≡ 0 = ground arith in
            rw (here, zero_room, unseen, goes_on, is_full, receive-other s f (rw is_full (λ h. cc)))
              (nothing-IsDelivered rx s)
        | inr room ↦
            let is_queued : (receive rx f).1 ≡ queued = rw room at answer in
            let (joined, up, number, kept, typed, sound) = receive-queued s f is_queued in
            let rx' = (receive rx f).0 in
            let one_more : rx'.count ≡ rx.count + 1 = omega (
              arith,
              length-waiting rx,
              length-waiting rx',
              length-append (waiting rx) (f ∷ []),
              ap (λ (l : List Frame). length l) joined,
            ) in
            let count_in : rx.count < capacity = ground (arith, s.count_in) in
            let room_is : capacity - rx.count ≡ suc (capacity - rx'.count) = omega arith in
            let start_is : rx'.accepted + 1 - (first + 1) ≡ 0 = omega (arith, run.1) in
            let ih =
              deliver_all_lem fs (first + 1) rx' sound run.2 (omega (arith, run.1)) (omega arith) in
            let same : rx'.accepted ≡ f.sequence = omega arith in
            rw (here, room_is, unseen, goes_on, is_queued)
              (joins-IsDelivered f (take (capacity - rx'.count) fs) joined kept
                (rw (start_is, same) at ih))
      ]
]
