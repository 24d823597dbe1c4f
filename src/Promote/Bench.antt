-- ===== src/Promote/Bench.antt =====
-- Hardware that is made of functions, for the tests.
use steelseries_apex_pro_min.Prelude.{
  ℕ, ◌+◌, ◌-◌, ◌*◌, ◌%◌, ◌^◌, ◌<◌, ◌≡◌, none, some, List, ◌∷◌, drop, byte_at, arith, refl, sym, ap,
  ap₂, ◌∙◌,
}
use mathlib.Core.Option.{some_inj}
use steelseries_apex_pro_min.Flash.Bench.{patch, erased}
use steelseries_apex_pro_min.Flash.Laws.{region, region_ext}
use steelseries_apex_pro_min.Update.{capacity}
use steelseries_apex_pro_min.Promote.{Build, Board, address_bytes}
use steelseries_apex_pro_min.Promote.Hardware.{IsBoard, IsShown}

-- The NOR flash and the internal one.
abbrev pub Flashes : Type 0
Flashes = (ℕ → ℕ) × (ℕ → ℕ)

-- The NOR flash, the internal flash as memory shows it, and as it is with the writes that the driver holds.
abbrev pub Cached : Type 0
Cached = (ℕ → ℕ) × (ℕ → ℕ) × (ℕ → ℕ)

abbrev pub cached : Flashes → Cached
cached d = (d.0, d.1, d.1)

abbrev pub seen_nor : Cached → ℕ → ℕ
seen_nor d i = d.0 i % 256

abbrev pub seen_app : Cached → ℕ → ℕ
seen_app d = d.2

abbrev pub nor_of : Flashes → ℕ → ℕ
nor_of d i = d.0 i % 256

abbrev pub app_of : Flashes → ℕ → ℕ
app_of d = d.1

abbrev pub sent_address : List ℕ → ℕ
sent_address tx = byte_at tx 1 * 2 ^ 16 + byte_at tx 2 * 2 ^ 8 + byte_at tx 3

abbrev pub bench : Board Cached
bench = record {
  transfer = λ tx n d. (d, some (0 ∷ 0 ∷ 0 ∷ 0 ∷ region (seen_nor d) (sent_address tx) (n - 4)));
  flash_write = λ a bs d. (d.0, d.1, patch d.2 a bs);
  flash_erase = λ a n d. (d.0, erased d.1 a n, erased d.2 a n);
  flash_flush = λ d. (d.0, d.2, d.2);
  flash_bytes = λ a n d. region d.1 a n;
  set_gpregret = λ v d. d;
  resetreas = λ d. 0;
  watchdog = λ d. d;
  settings_address = 0xff000;
  code_page_size = 4096;
}

byte_shown : (f g : ℕ → ℕ) (i : ℕ) → region f i 1 ≡ region g i 1 → f i ≡ g i
unfolding region
byte_shown f g i e = ap (λ bs. byte_at bs 0) e

bench-read :
    (f : ℕ → ℕ) (a n : ℕ) (rx : List ℕ)
    → a < 2 ^ 24
    → some (0 ∷ 0 ∷ 0 ∷ 0 ∷ region f (sent_address (3 ∷ address_bytes a)) (4 + n - 4)) ≡ some rx
    → drop 4 rx ≡ region f a n
bench-read f a n rx below e =
    let whole : sent_address (3 ∷ address_bytes a) ≡ a = omega arith in
    let size : 4 + n - 4 ≡ n = omega arith in
    sym (ap (drop 4) (some_inj.0 e)) ∙ ap₂ (λ a' n'. region f a' n') whole size

erased-IsShown :
    (a n : ℕ) (d : Cached)
    → IsShown bench seen_app d
    → IsShown bench seen_app (bench.flash_erase a n d)
erased-IsShown a n d shown b m =
    region_ext (erased d.1 a n) (erased d.2 a n) b b m (λ i lt. same (b + i))
  where
    same : (i : ℕ) → erased d.1 a n i ≡ erased d.2 a n i
    same i = let e = byte_shown d.1 d.2 i (shown i 1) in ground arith

pub bench-IsBoard : IsBoard bench seen_nor seen_app
bench-IsBoard = record {
  read_gives = λ a n d rx below e. bench-read (seen_nor d) a n rx below e;
  nor_byte = λ d i. omega arith;
  read_nor = λ a n d. refl;
  transfer_app = λ tx n d. refl;
  flush_nor = λ d. refl;
  watchdog_nor = λ d. refl;
  watchdog_app = λ d. refl;
  flush_shows = λ d a n. refl;
  erase_shows = λ a n d shown. erased-IsShown a n d shown;
  gpregret_bytes = λ v a n d. refl;
  write_else = λ a bs d b out. ground arith;
  write_nor = λ a bs d. refl;
  erase_else = λ a n d b out. ground arith;
  erase_nor = λ a n d. refl;
  flush_app = λ d. refl;
  gpregret_nor = λ v d. refl;
  gpregret_app = λ v d. refl;
}

abbrev pub plain : Build
plain = record { app_maxlen = capacity; restored_magic = none }
