-- ===== src/Gamepad.antt =====
-- radio/include/apex_gamepad.h and dongle/src/gamepad.c: the receiver's gamepad report and its USB
-- endpoint. Each function under the lock is one step; `receiver_gamepad_poll` takes the lock twice,
-- so it is two. The time and the result of `hid_device_submit_report` are arguments.
pub mod Reports
mod Tests
use steelseries_apex_pro_min.Prelude.{
  ℕ, ◌+◌, ◌-◌, ◌%◌, ◌^◌, ◌==◌, ltb, leb, ◌||◌, ◌&&◌, not, if◌then◌else◌, Bool, true, false, Option,
  none, some, List, [], ◌∷◌, length, replicate, byte_at, u32,
}

abbrev pub report_size : ℕ
report_size = 11

abbrev pub payload_size : ℕ
payload_size = 13

abbrev pub version : ℕ
version = 1

-- Bytes 1, 3 and 9 are 0x40.
abbrev pub neutral : List ℕ
neutral = 0 ∷ 0x40 ∷ 0 ∷ 0x40 ∷ 0 ∷ 0 ∷ 0 ∷ 0 ∷ 0 ∷ 0x40 ∷ 0 ∷ []

-- The loop over the high bytes of the five axes is written out; a byte below 0x80 has bit 7 clear.
unfoldable pub valid : List ℕ → Bool
valid payload =
    length payload == payload_size
    && byte_at payload 0 == version
    && leb (byte_at payload 1) 1
    && ltb (byte_at payload 3) 0x80
    && ltb (byte_at payload 5) 0x80
    && ltb (byte_at payload 7) 0x80
    && ltb (byte_at payload 9) 0x80
    && ltb (byte_at payload 11) 0x80

-- The new `last_counter` and the result.
unfoldable pub newer : ℕ → ℕ → ℕ × Bool
newer counter last = if leb counter last then (last, false) else (counter, true)

-- The static variables of gamepad.c.
pub record Gamepad : Type 0 where
  pub current : List ℕ
  pub ready : Bool
  pub busy : Bool
  pub dirty : Bool
  pub enabled : Bool
  pub live : Bool
  pub received_at : ℕ
  pub reports : ℕ
  pub errors : ℕ
  pub tx : List ℕ

abbrev pub zero_gamepad : Gamepad
zero_gamepad = record {
  current = replicate report_size 0;
  ready = false;
  busy = false;
  dirty = false;
  enabled = false;
  live = false;
  received_at = 0;
  reports = 0;
  errors = 0;
  tx = replicate report_size 0;
}

abbrev pub init : Gamepad → Gamepad
init g = record g { current = neutral }

unfoldable pub receive : Gamepad → Bool → List ℕ → ℕ → Gamepad
receive g on report now = record g {
  enabled = on;
  live = on;
  received_at = now;
  current = if on then report else neutral;
  dirty = true;
}

unfoldable pub release : Gamepad → Gamepad
release g = record g { live = false; current = neutral; dirty = true }

unfoldable pub iface_ready : Gamepad → Bool → Gamepad
iface_ready g on = record g { ready = on; dirty = true }

-- `failed` is a status other than 0.
unfoldable pub report_done : Gamepad → Bool → Gamepad
report_done g failed =
    if failed
    then record g { busy = false; errors = u32 (g.errors + 1); dirty = true }
    else record g { busy = false; reports = u32 (g.reports + 1) }

-- `k_uptime_get_32() - received_at` is a difference of 32-bit words.
abbrev pub expire : Gamepad → ℕ → Gamepad
expire g now =
    if g.live && leb 100 (u32 (now + 2 ^ 32 - g.received_at))
    then record g { current = neutral; dirty = true; live = false }
    else g

-- Under the first lock: the state, and whether the report in `tx` is to be submitted.
unfoldable pub poll : Gamepad → ℕ → Gamepad × Bool
poll g now =
    let g' = expire g now in
    if not g'.ready || g'.busy || not g'.dirty
    then (g', false)
    else (record g' { tx = g'.current; busy = true; dirty = false }, true)

-- Under the second lock, when the submission failed.
unfoldable pub submit_failed : Gamepad → Gamepad
submit_failed g = record g { busy = false; dirty = true; errors = u32 (g.errors + 1) }

-- `input` is whether the type is HID_REPORT_TYPE_INPUT; `none` is -ENOTSUP.
unfoldable pub get_report : Gamepad → Bool → ℕ → ℕ → Option (List ℕ)
get_report g input id length =
    if not input || not (id == 0) || ltb length report_size then none else some g.current
