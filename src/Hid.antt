-- ===== src/Hid.antt =====
-- dongle/src/hid.c: the receiver's HID endpoint between the queue of reports and USB. One function for
-- each time the lock is held; the USB stack's answers are arguments. The counters and times kept for
-- diagnosis are left out.
pub mod Steps
pub mod Arrivals
pub mod Invariant
pub mod Order
mod Tests
use steelseries_apex_pro_min.Prelude.{
  ℕ, ◌+◌, ◌==◌, ltb, leb, ◌||◌, ◌&&◌, not, if◌then◌else◌, Bool, true, false, Option, none, some,
  List, [], ◌∷◌, ◌++◌, length, take, replicate, byte_at, u32, bit_and,
}
use steelseries_apex_pro_min.Input.{Frame, keyboard_type, consumer_type, size}
use steelseries_apex_pro_min.Delivery.{Rx, Ack, rx_reset, receive, front, complete, status}
use steelseries_apex_pro_min.Exchange.{Delivered, deliver}

abbrev pub protocol_boot : ℕ
protocol_boot = 0

abbrev pub protocol_report : ℕ
protocol_report = 1

-- The static variables. The two bits of `release_mask` are `release_keyboard` and `release_consumer`.
pub record Hid : Type 0 where
  pub ready : Bool
  pub busy : Bool
  pub release_keyboard : Bool
  pub release_consumer : Bool
  pub protocol : ℕ
  pub generation : ℕ
  pub pending_generation : ℕ
  pub pending_sequence : ℕ
  pub delivered_sequence : ℕ
  pub pending_type : ℕ
  pub keyboard : List ℕ
  pub consumer : List ℕ
  pub leds : ℕ
  pub hold_until : ℕ
  pub delivery : Rx

abbrev pub start : Hid
start = record {
  ready = false;
  busy = false;
  release_keyboard = true;
  release_consumer = true;
  protocol = protocol_report;
  generation = 0;
  pending_generation = 0;
  pending_sequence = 0;
  delivered_sequence = 0;
  pending_type = 0;
  keyboard = replicate 8 0;
  consumer = replicate 12 0;
  leds = 0;
  hold_until = 0;
  delivery = rx_reset;
}

-- `release_mask` is not 0
abbrev pub releasing : Hid → Bool
releasing h = h.release_keyboard || h.release_consumer

-- `apex_radio_delivery_status` and `apex_radio_completed`
abbrev pub delivery_status : Hid → Ack
delivery_status h = status h.delivery h.leds

abbrev pub completed_sequence : Hid → ℕ
completed_sequence h = if releasing h then 0 else h.delivered_sequence

-- `apex_radio_release`
unfoldable pub release : Hid → Hid
release h = record h {
  generation = u32 (h.generation + 1);
  delivered_sequence = 0;
  delivery = rx_reset;
  release_keyboard = true;
  release_consumer = true;
  keyboard = replicate 8 0;
  consumer = replicate 12 0;
}

abbrev pub set_ready : Hid → Bool → Hid
set_ready h on = record h { ready = on }

abbrev pub protocol_as : Hid → ℕ → Hid
protocol_as h value = record h { protocol = value }

-- `iface_ready` and `set_protocol` store under the lock, and then release.
abbrev pub iface_ready : Hid → Bool → Hid
iface_ready h on = release (set_ready h on)

abbrev pub set_protocol : Hid → ℕ → Hid
set_protocol h value = release (protocol_as h value)

-- `release_mask &= ~(1u << (type - 1))`
abbrev pub clear_release : Hid → ℕ → Hid
clear_release h type =
    if type == keyboard_type
    then record h { release_keyboard = false }
    else if type == consumer_type
    then record h { release_consumer = false }
    else h

-- What `report_done` does for the transfer of the current generation.
unfoldable pub account : Hid → Hid
account h =
    if h.pending_sequence == 0
    then clear_release (record h { delivered_sequence = 0 }) h.pending_type
    else record h {
      delivered_sequence = h.pending_sequence;
      delivery = (complete h.delivery h.pending_sequence).0;
    }

unfoldable pub report_done : Hid → Bool → Hid
unfolding account
report_done h failed =
    let h' =
      if not failed && h.busy && h.pending_generation == h.generation then account h else h in
    record h' { busy = false }

-- The results of `get_report`: its bytes, -ENOTSUP or -EINVAL.
pub data Report : Type 0 where
  bytes : List ℕ → Report
  unsupported invalid : Report

unfoldable pub get_report : Hid → Bool → ℕ → ℕ → Report
get_report h input id room =
    let boot = h.protocol == protocol_boot in
    let id' = if boot && id == 0 then keyboard_type else id in
    let prefix = if boot then [] else id' ∷ [] in
    if not input || size id' == 0
    then unsupported
    else if ltb room (size id' + length prefix) || (boot && not (id' == keyboard_type))
    then invalid
    else bytes (prefix ++ (if id' == keyboard_type then h.keyboard else h.consumer))

-- `set_report`: the lights, or -EINVAL
unfoldable pub set_report : Hid → Bool → ℕ → List ℕ → Hid × Bool
set_report h output id buf =
    if not output || (not (id == 1) && not (id == 0)) || not (length buf == 1)
    then (h, false)
    else (record h { leds = bit_and (byte_at buf 0) 0x1f }, true)

-- What a poll has chosen; the number 0 is a release.
pub record Choice : Type 0 where
  pub sequence : ℕ
  pub type : ℕ
  pub payload : List ℕ
  pub expected : ℕ

-- The results of `submit`: -ECANCELED, -EAGAIN, 0 and 0 in the boot protocol; or a report is handed to
-- USB, whose answer `submit_failed` takes if it is an error.
pub data Outcome : Type 0 where
  cancelled again already skipped : Outcome
  submitted : List ℕ → Outcome

abbrev pub store : Hid → ℕ → List ℕ → Hid
store h type body =
    if type == keyboard_type then record h { keyboard = body } else record h { consumer = body }

-- A consumer report in the boot protocol is not sent, and counts as sent.
unfoldable pub skip : Hid → Choice → Hid
skip h c =
    if c.sequence == 0
    then record h { release_consumer = false }
    else record h { delivered_sequence = c.sequence; delivery = (complete h.delivery c.sequence).0 }

unfoldable pub submit : Hid → Choice → ℕ → Hid × Outcome
unfolding skip
submit h c now =
    let body = take (size c.type) c.payload in
    let boot = h.protocol == protocol_boot in
    if not (c.expected == h.generation)
    then (h, cancelled)
    else if ltb now h.hold_until
    then (h, again)
    else if not (c.sequence == 0) && c.sequence == h.delivered_sequence && not (releasing h)
    then (h, already)
    else if not h.ready || h.busy || (not (c.sequence == 0) && releasing h)
    then (h, again)
    else if boot && c.type == consumer_type
    then (skip h c, skipped)
    else (
      record (store h c.type body) {
        pending_sequence = c.sequence;
        pending_type = c.type;
        pending_generation = h.generation;
        busy = true;
      },
      submitted ((if boot then [] else c.type ∷ []) ++ body),
    )

abbrev pub submit_failed : Hid → Hid
submit_failed h = record h { busy = false }

-- `apex_radio_deliver`
unfoldable pub deliver_report : Hid → Frame → Hid × Delivered
unfolding deliver
deliver_report h frame = let (rx, r) = deliver h.delivery frame in (record h { delivery = rx }, r)

abbrev pub zero_report : Hid → ℕ → Choice
zero_report h type = record {
  sequence = 0;
  type = type;
  payload = replicate 12 0;
  expected = h.generation;
}

abbrev pub choose : Hid → Option Frame → Option Choice
choose h none = none
choose h (some f) =
    some (record {
      sequence = f.sequence;
      type = f.type;
      payload = f.payload;
      expected = h.generation;
    })

-- What `receiver_hid_poll` chooses to submit.
unfoldable pub poll : Hid → Option Choice
poll h =
    if h.release_keyboard
    then some (zero_report h keyboard_type)
    else if h.release_consumer
    then some (zero_report h consumer_type)
    else choose h (front h.delivery)

-- `receiver_hid_test_hold`
abbrev pub test_hold : Hid → ℕ → Hid
test_hold h now = release (record h { hold_until = now + 500 })
