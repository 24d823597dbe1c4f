-- ===== src/Spinor/Bench.antt =====
-- A chip that is made of functions, for the tests.
use steelseries_apex_pro_min.Prelude.{
  ℕ, ◌+◌, ◌*◌, ◌%◌, ◌^◌, ◌==◌, ◌<◌, ◌≡◌, if◌then◌else◌, ◌-◌, not, Bool, true, false, inl, inr, [],
  Bool-cases, some, List, ◌∷◌, ◌++◌, length, replicate, byte_at, u32, arith, refl, sym, ap, ◌∙◌,
}
use mathlib.Core.Path.{fun_ext}
use mathlib.Core.Option.{some_inj}
use steelseries_apex_pro_min.Flash.Bench.{
  patch, erased, patch_else, erased_else, erased_at, patch_at,
}
use steelseries_apex_pro_min.Flash.Laws.{region}
use steelseries_apex_pro_min.Flash.Stores.{region-bytes, byte_at-mod}
use steelseries_apex_pro_min.Promote.{address_bytes}
use steelseries_apex_pro_min.Promote.Bench.{sent_address}
use steelseries_apex_pro_min.Spinor.{Spim}
use steelseries_apex_pro_min.Spinor.Chip.{IsChip}
use steelseries_apex_pro_min.Spinor.Wait.{IsClock}

-- The NOR flash, the application, the cycles so far, how many status reads still find the chip busy, and
-- its write enable latch.
abbrev pub Bus : Type 0
Bus = (ℕ → ℕ) × (ℕ → ℕ) × ℕ × ℕ × Bool

abbrev pub busy_of : Bus → Bool
busy_of d = not (d.3 == 0)

abbrev pub nor_of : Bus → ℕ → ℕ
nor_of d i = d.0 i % 256

abbrev pub app_of : Bus → ℕ → ℕ
app_of d i = d.1 i % 256

-- What a command does to the flash of a chip that obeys it.
abbrev pub obeyed : List ℕ → (ℕ → ℕ) → ℕ → ℕ
obeyed (c ∷ x ∷ y ∷ z ∷ bs) f =
    let a = x * 2 ^ 16 + y * 2 ^ 8 + z in
    if c == 2 then patch f a bs else if c == 0x20 then erased f a 0x1000 else f
obeyed _ f = f

abbrev pub answer : List ℕ → ℕ → Bus → List ℕ
answer cmd n d =
    if byte_at cmd 0 == 3 then region (nor_of d) (sent_address cmd) n else replicate n 0

-- A chip that is busy, or whose latch is not set, ignores a command, and one that obeys is then busy.
abbrev pub sent : List ℕ → Bus → Bus
sent cmd d =
    if busy_of d
    then d
    else if byte_at cmd 0 == 6
    then (d.0, d.1, d.2, d.3, true)
    else if d.4
    then (obeyed cmd d.0, d.1, d.2, 2, false)
    else d

-- A busy chip gives no bytes of the flash, and a status read finds it busy once less.
abbrev pub answered : List ℕ → ℕ → Bus → Bus × List ℕ
answered cmd n d =
    if byte_at cmd 0 == 5
    then ((d.0, d.1, d.2, d.3 - 1, d.4), replicate n (if d.3 - 1 == 0 then 0 else 1))
    else (d, if busy_of d then replicate n 0 else answer cmd n d)

abbrev pub bench : Spim Bus
bench = record {
  xfer = λ cmd n d. ((answered cmd n d).0, some (answered cmd n d).1);
  tx = λ cmd d. (sent cmd d, true);
  cyccnt = λ d. ((d.0, d.1, d.2 + 1, d.3, d.4), u32 (d.2 + 1));
  nor_enable = λ d. d;
  nor_disable = λ d. d;
  extbus_lock = λ d. d;
  extbus_unlock = λ d. d;
  wait_replay = λ d. d;
  app_bytes = λ a n d. region (app_of d) a n;
}

pub whole_address : (c a : ℕ) → a < 2 ^ 24 → sent_address (c ∷ address_bytes a) ≡ a
whole_address c a below = omega arith

pub obeyed_program :
    (f : ℕ → ℕ) (a : ℕ) (bs : List ℕ)
    → a < 2 ^ 24
    → obeyed (2 ∷ (address_bytes a ++ bs)) f ≡ patch f a bs
obeyed_program f a bs below = ap (λ a'. patch f a' bs) (whole_address 2 a below)

pub obeyed_erase :
    (f : ℕ → ℕ) (a : ℕ) → a < 2 ^ 24 → obeyed (0x20 ∷ address_bytes a) f ≡ erased f a 0x1000
obeyed_erase f a below = ap (λ a'. erased f a' 0x1000) (whole_address 0x20 a below)

-- A chip that is not busy and whose latch is set obeys.
pub sent_obeyed :
    (cmd : List ℕ) (d : Bus)
    → (byte_at cmd 0 == 6) ≡ false
    → busy_of d ≡ false
    → d.4 ≡ true
    → nor_of (sent cmd d) ≡ (λ b. obeyed cmd d.0 b % 256)
sent_obeyed cmd d other idle set = rw (idle, other, set) refl

pub status-idle :
    (left : ℕ) (bs : List ℕ)
    → some (replicate 1 (if left == 0 then 0 else 1)) ≡ some bs
    → (byte_at bs 0 % 2 == 0) ≡ true
    → not (left == 0) ≡ false
status-idle left bs e even = elim (Bool-cases (left == 0)) [
  | inl z ↦ rw z refl
  | inr more ↦
      let one : byte_at bs 0 ≡ 1 =
        ap (λ l. byte_at l 0) (sym (some_inj.0 e)) ∙ ap (λ c. if c then 0 else 1) more in
      absurd (ground (arith, one))
]

-- A command changes the flash as it does on a chip that obeys it, or not at all.
pub sent_nor :
    (cmd : List ℕ) (d : Bus) (b : ℕ)
    → (obeyed cmd d.0 b % 256 ≡ nor_of d b)
    → nor_of (sent cmd d) b ≡ nor_of d b
sent_nor cmd d b same = elim (Bool-cases (busy_of d)) [
  | inl busy ↦ rw busy refl
  | inr idle ↦ rw idle (elim (Bool-cases (byte_at cmd 0 == 6)) [
    | inl wren ↦ rw wren refl
    | inr other ↦
        rw other (elim (Bool-cases d.4) [ inl set ↦ rw set same | inr unset ↦ rw unset refl ])
  ])
]

pub sent_app : (cmd : List ℕ) (d : Bus) → app_of (sent cmd d) ≡ app_of d
sent_app cmd d = elim (Bool-cases (busy_of d)) [
  | inl busy ↦ rw busy refl
  | inr idle ↦ rw idle (elim (Bool-cases (byte_at cmd 0 == 6)) [
    | inl wren ↦ rw wren refl
    | inr other ↦
        rw other (elim (Bool-cases d.4) [ inl set ↦ rw set refl | inr unset ↦ rw unset refl ])
  ])
]

pub answered_app : (cmd : List ℕ) (n : ℕ) (d : Bus) → app_of (answered cmd n d).0 ≡ app_of d
answered_app cmd n d = elim (Bool-cases (byte_at cmd 0 == 5)) [
  | inl status ↦ rw status refl
  | inr other ↦ rw other refl
]

pub sent-wren : (d : Bus) → busy_of d ≡ false → sent (6 ∷ []) d ≡ (d.0, d.1, d.2, d.3, true)
sent-wren d idle = rw idle refl

abbrev pub bench_chip : IsChip bench nor_of app_of
bench_chip = record {
  busy = busy_of;
  latched = λ d. d.4;
  nor_byte = λ d i. omega arith;
  status_idle = λ d bs e even. status-idle (d.3 - 1) bs e even;
  read_idle = λ a n d idle. idle;
  wren_idle = λ d idle. ap busy_of (sent-wren d idle) ∙ idle;
  wren_latches = λ d idle good. ap (λ (d' : Bus). d'.4) (sent-wren d idle);
  wren_completes = λ cmd d good. refl;
  enable_idle = λ d idle. idle;
  disable_idle = λ d idle. idle;
  lock_idle = λ d idle. idle;
  unlock_idle = λ d idle. idle;
  replay_idle = λ d idle. idle;
  read_gives = λ a n d bs idle below e.
      sym (some_inj.0 e)
      ∙ ap (λ (c : Bool). if c then replicate n 0 else answer (3 ∷ address_bytes a) n d) idle
      ∙ ap (λ a'. region (nor_of d) a' n) (whole_address 3 a below);
  read_nor = λ a n d. refl;
  status_nor = λ d. refl;
  xfer_app = λ cmd n d. answered_app cmd n d;
  wren_nor = λ d. fun_ext (λ b. sent_nor (6 ∷ []) d b refl);
  tx_app = λ bytes d. sent_app bytes d;
  program_else = λ a bs d b page inside out. sent_nor (2 ∷ (address_bytes a ++ bs)) d b (
      ap (λ f. f b % 256) (obeyed_program d.0 a bs (omega arith))
      ∙ ap (λ v. v % 256) (patch_else d.0 a bs b out));
  program_stores = λ a bs d idle set page inside good blank e.
      ap (λ f. region f a (length bs)) (sent_obeyed (2 ∷ (address_bytes a ++ bs)) d refl idle set)
      ∙ ap (λ f. region (λ b. f b % 256) a (length bs)) (obeyed_program d.0 a bs (omega arith))
      ∙ region-bytes (λ b. patch d.0 a bs b % 256) bs a
          (λ i lt. ap (λ v. v % 256) (patch_at d.0 a bs i lt) ∙ byte_at-mod bs i good);
  erase_else = λ a d b aligned inside out. sent_nor (0x20 ∷ address_bytes a) d b (
      ap (λ f. f b % 256) (obeyed_erase d.0 a (omega arith))
      ∙ ap (λ v. v % 256) (erased_else d.0 a 0x1000 b out));
  erase_clears = λ a d b idle set aligned inside good le lt.
      ap (λ f. f b) (sent_obeyed (0x20 ∷ address_bytes a) d refl idle set)
      ∙ ap (λ f. f b % 256) (obeyed_erase d.0 a (omega arith))
      ∙ ap (λ v. v % 256) (erased_at d.0 a 0x1000 b le lt);
  cyccnt_At = λ nor app d at. at;
  enable_At = λ nor app d at. at;
  disable_At = λ nor app d at. at;
  lock_At = λ nor app d at. at;
  unlock_At = λ nor app d at. at;
  replay_At = λ nor app d at. at;
  app_gives = λ a n d. refl;
}

pub bench-IsClock : IsClock bench (λ d. d.2)
bench-IsClock = record {
  reading = λ d. refl;
  advances = λ d. omega arith;
  status_forward = λ d. omega arith;
  bounded = λ d. omega arith;
}

abbrev pub blank : Bus
blank = (λ _. 0xff, λ i. i, 0, 0, false)
