-- ===== src/Exchange.antt =====
-- radio/src/apex_radio_probe.c, `input_packet`, with dongle/src/hid.c, `apex_radio_deliver`: what the
-- receiver does with a batch of reports. The counters kept for diagnosis are left out.
pub mod Batches
mod Tests
use steelseries_apex_pro_min.Prelude.{
  ℕ, ◌+◌, ◌==◌, leb, ◌||◌, not, if◌then◌else◌, Bool, true, false, List, [], ◌∷◌, uint32_max,
}
use steelseries_apex_pro_min.Input.{Frame}
use steelseries_apex_pro_min.Delivery.{Rx, Received, queued, duplicate, invalid, full, receive}

-- The results 0, -EAGAIN and -EINVAL of `apex_radio_deliver`.
pub data Delivered : Type 0 where
  taken waits refused : Delivered

unfoldable pub deliver : Rx → Frame → Rx × Delivered
deliver rx frame =
    let (rx', r) = receive rx frame in
    (rx', elim r [ queued ↦ taken | duplicate ↦ taken | full ↦ waits | invalid ↦ refused ])

-- The loop over a batch, with `rx_sequence` as `last`: the queue, `rx_sequence`, and whether the
-- loop ends without an error.
unfoldable pub deliver_all : Rx → ℕ → List Frame → Rx × ℕ × Bool
unfolding deliver
deliver_all rx last [] = (rx, last, true)
deliver_all rx last (f ∷ fs) =
    let (rx', d) = deliver rx f in
    let skip = deliver_all rx last fs in
    let rest = deliver_all rx' f.sequence fs in
    if leb f.sequence last
    then skip
    else if last == uint32_max || not (f.sequence == last + 1)
    then (rx, last, true)
    else elim d [ taken ↦ rest | waits ↦ (rx', last, true) | refused ↦ (rx', last, false) ]
