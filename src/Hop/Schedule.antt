-- ===== src/Hop/Schedule.antt =====
-- The hop sequence: `install` finds a stride prime to the number of channels, so every channel of
-- the map is used once in each lap.
use steelseries_apex_pro_min.Prelude.{
  ℕ, zero, suc, ◌+◌, ◌-◌, ◌*◌, ◌/◌, ◌%◌, ◌==◌, ◌≤◌, ◌<◌, ◌≡◌, ◌≢◌, ltb, leb, ◌||◌, ◌&&◌, not, Bool,
  true, Option, none, some, List, [], ◌∷◌, ◌++◌, length, drop, replicate, byte_at, read32, arith,
  refl, ap, sym, ◌∙◌, ◌↔◌,
}
use native.Mathlib.Nat.{div-add-mod, mul-mod_left, mod-lt, mod-eq_of_lt}
use native.Mathlib.Decide.{dec_lt, dec_le}
use steelseries_apex_pro_min.Hop.{
  Hop, channels_max, gcd, stride_loop, install, valid_map, spaced, channel_of,
}

-- A test at every number of a range, by evaluation: `next` is the first, `left` how many follow.
holds_from : ℕ → (ℕ → Bool) → ℕ → Bool
holds_from zero test next = true
holds_from (suc left) test next = test next && holds_from left test (next + 1)

holds_at :
    (left : ℕ) (test : ℕ → Bool) (next n : ℕ)
    → holds_from left test next ≡ true
    → next ≤ n
    → n < next + left
    → test n ≡ true
unfolding holds_from
holds_at zero test next n all lo hi = absurd (omega arith)
holds_at (suc left) test next n all lo hi = elim (dec_le n next) [
  | yes here ↦ let same : n ≡ next = omega arith in rw same (ground arith)
  | no later ↦ holds_at left test (next + 1) n (ground arith) (omega arith) (omega arith)
]

abbrev all_below : ℕ → (ℕ → Bool) → Bool
all_below bound test = holds_from bound test 0

all_below_at :
    (bound : ℕ) (test : ℕ → Bool) (n : ℕ) → all_below bound test ≡ true → n < bound → test n ≡ true
all_below_at bound test n all hi = holds_at bound test 0 n all (omega arith) (omega arith)

-- For every count up to 16 and every first stride below it, the loop ends at a stride prime to the
-- count, still from 1 to count - 1.
abbrev stride_good : ℕ → ℕ → Bool
stride_good count stride =
    let s = stride_loop count count stride in
    ltb count 4
    || stride == 0
    || leb count stride
    || gcd s count == 1 && not (s == 0) && ltb s count

stride_table : all_below 17 (λ count. all_below 16 (stride_good count)) ≡ true
unfolding holds_from stride_loop gcd
stride_table = refl

-- A stride prime to the count comes back to the start after a whole lap only.
abbrev lap_good : ℕ → ℕ → ℕ → Bool
lap_good count stride d =
    ltb count 4
    || not (gcd stride count == 1)
    || d == 0
    || leb count d
    || not (d * stride % count == 0)

lap_table :
    all_below 17 (λ count. all_below 17 (λ stride. all_below 17 (lap_good count stride))) ≡ true
unfolding holds_from gcd
lap_table = refl

pub stride_loop_lem :
    (count stride : ℕ)
    → 4 ≤ count
    → count ≤ channels_max
    → 0 < stride
    → stride < count
    → let s = stride_loop count count stride in (gcd s count ≡ 1) × (0 < s) × (s < count)
stride_loop_lem count stride lo hi pos lt =
    let row =
      all_below_at 17 (λ count. all_below 16 (stride_good count)) count stride_table
        (omega arith) in
    let entry = all_below_at 16 (stride_good count) stride row (omega arith) in
    ground (arith, entry)

lap-ne-zero :
    (count stride d : ℕ)
    → 4 ≤ count
    → count ≤ channels_max
    → stride < count
    → gcd stride count ≡ 1
    → 0 < d
    → d < count
    → d * stride % count ≢ 0
lap-ne-zero count stride d lo hi lt prime pos below =
    let row =
      all_below_at 17 (λ count. all_below 17 (λ stride. all_below 17 (lap_good count stride))) count
        lap_table (omega arith) in
    let column =
      all_below_at 17 (λ stride. all_below 17 (lap_good count stride)) stride row (omega arith) in
    let entry = all_below_at 17 (lap_good count stride) d column (omega arith) in
    ground (arith, entry)

-- Two sums with one remainder differ by a multiple.
mod-cancel : (a b c : ℕ) → 0 < c → (a + b) % c ≡ a % c → b % c ≡ 0
mod-cancel a b c pos e =
    let q₁ = (a + b) / c in
    let q₂ = a / c in
    let more : b + c * q₂ ≡ c * q₁ = omega (arith, div-add-mod (a + b) c, div-add-mod a c) in
    elim (dec_le q₂ q₁) [
      | yes le ↦
          let apart : q₁ ≡ q₂ + (q₁ - q₂) = omega arith in
          let is : b ≡ (q₁ - q₂) * c = omega (arith, more, ap (λ (t : ℕ). c * t) apart) in
          rw is (mul-mod_left (q₁ - q₂) c)
      | no gt ↦
          let apart : q₂ ≡ q₁ + 1 + (q₂ - q₁ - 1) = omega arith in
          let zeroth : b ≡ 0 = omega (arith, more, ap (λ (t : ℕ). c * t) apart) in
          rw zeroth (mod-eq_of_lt pos)
    ]

-- The entries of an accepted map: from 2 to 80, each at least 2 above the one before.
spaced_entry :
    (cs : List ℕ) (p i : ℕ)
    → spaced (some p) cs ≡ true
    → i < length cs
    → (p + 2 ≤ byte_at cs i) × (byte_at cs i ≤ 80)
unfolding spaced
spaced_entry [] p i h lt = absurd (omega arith)
spaced_entry (c ∷ cs) p zero h lt = ground arith
spaced_entry (c ∷ cs) p (suc i) h lt = ground (arith, spaced_entry cs c i)

spaced_pair :
    (previous : Option ℕ) (cs : List ℕ) (i j : ℕ)
    → spaced previous cs ≡ true
    → i < j
    → j < length cs
    → byte_at cs i + 2 ≤ byte_at cs j
unfolding spaced
spaced_pair previous [] i j h lt below = absurd (omega arith)
spaced_pair previous (c ∷ cs) i zero h lt below = absurd (omega arith)
spaced_pair previous (c ∷ cs) zero (suc j) h lt below = ground (arith, spaced_entry cs c j)
spaced_pair previous (c ∷ cs) (suc i) (suc j) h lt below =
    ground (arith, spaced_pair (some c) cs i j)

pub spaced_range :
    (previous : Option ℕ) (cs : List ℕ) (i : ℕ)
    → spaced previous cs ≡ true
    → i < length cs
    → (2 ≤ byte_at cs i) × (byte_at cs i ≤ 80)
unfolding spaced
spaced_range previous [] i h lt = absurd (omega arith)
spaced_range previous (c ∷ cs) zero h lt = ground arith
spaced_range previous (c ∷ cs) (suc i) h lt = ground (arith, spaced_range (some c) cs i)

byte_at-append : (xs ys : List ℕ) (i : ℕ) → i < length xs → byte_at (xs ++ ys) i ≡ byte_at xs i
byte_at-append [] ys i h = absurd (omega arith)
byte_at-append (x ∷ xs) ys zero h = refl
byte_at-append (x ∷ xs) ys (suc i) h = byte_at-append xs ys i (omega arith)

-- What `install` leaves of an accepted map.
pub record IsInstalled (h : Hop) (channels : List ℕ) : Type 0 where
  pub map_ok : spaced none channels ≡ true
  pub count_is : h.count ≡ length channels
  pub count_lo : 4 ≤ h.count
  pub count_hi : h.count ≤ channels_max
  pub offset_lt : h.offset < h.count
  pub stride_pos : 0 < h.stride
  pub stride_lt : h.stride < h.count
  pub prime : gcd h.stride h.count ≡ 1
  pub stored : h.channels ≡ channels ++ replicate (channels_max - length channels) 0

-- A valid map installs: the search for a stride ends within as many rounds as there are channels,
-- at a stride from 1 to count - 1 that is prime to the count.
pub install-IsInstalled :
    (h : Hop) (channels : List ℕ) (generation : ℕ)
    → valid_map channels generation ≡ true
    → IsInstalled (install h channels generation) channels
unfolding install valid_map
install-IsInstalled h channels generation v =
    let n = length channels in
    let first = 1 + read32 (drop 4 h.session_id) % (n - 1) in
    let lo : 4 ≤ n = ground arith in
    let hi : n ≤ channels_max = ground arith in
    let r = mod-lt (read32 (drop 4 h.session_id)) {m = n - 1} (omega arith) in
    let s = stride_loop_lem n first lo hi (omega arith) (omega (arith, r)) in
    record {
      map_ok = ground arith;
      count_is = refl;
      count_lo = lo;
      count_hi = hi;
      offset_lt = mod-lt (read32 h.session_id) {m = n} (omega arith);
      stride_pos = s.1;
      stride_lt = s.2;
      prime = s.0;
      stored = refl;
    }

module _ {h : Hop} {channels : List ℕ} (k : IsInstalled h channels) where
  abbrev index : ℕ → ℕ
  index slot = (h.offset + slot % h.count * h.stride) % h.count

  index-lt : (slot : ℕ) → index slot < h.count
  index-lt slot =
      mod-lt (h.offset + slot % h.count * h.stride) {m = h.count} (omega (arith, k.count_lo))

  channel_of-index : (slot : ℕ) → channel_of h slot ≡ byte_at channels (index slot)
  channel_of-index slot = rw (ap (λ l. byte_at l (index slot)) k.stored) (
      byte_at-append channels (replicate (channels_max - length channels) 0) (index slot)
        (omega (arith, index-lt slot, k.count_is)))

  index-ne :
      (a b : ℕ)
      → a < b
      → b < h.count
      → (h.offset + a * h.stride) % h.count ≢ (h.offset + b * h.stride) % h.count
  index-ne a b lt below e =
      let far : b ≡ a + (b - a) = omega arith in
      let sum : h.offset + a * h.stride + (b - a) * h.stride ≡ h.offset + b * h.stride =
        omega (arith, ap (λ (t : ℕ). t * h.stride) far) in
      let zeroth =
        mod-cancel (h.offset + a * h.stride) ((b - a) * h.stride) h.count
          (omega (arith, k.count_lo)) (ap (λ t. t % h.count) sum ∙ sym e) in
      lap-ne-zero h.count h.stride (b - a) k.count_lo k.count_hi k.stride_lt k.prime (omega arith)
        (omega arith) zeroth

  same_entry :
      (i j : ℕ) → i < h.count → j < h.count → byte_at channels i ≡ byte_at channels j → i ≡ j
  same_entry i j hi hj e =
      ground
        (arith, k.count_is, k.map_ok, spaced_pair none channels i j, spaced_pair none channels j i)

  -- Every slot has a channel of the map, from 2 to 80 MHz above 2400, and two slots share a channel
  -- exactly if they have the same place in their laps of `count` slots: in each lap every channel of
  -- the map comes once.
  pub channel_of_lem :
      (s t : ℕ)
      → (2 ≤ channel_of h s)
        × (channel_of h s ≤ 80)
        × ((channel_of h s ≡ channel_of h t) ↔ (s % h.count ≡ t % h.count))
  channel_of_lem s t =
      let a = s % h.count in
      let b = t % h.count in
      let pos : 0 < h.count = omega (arith, k.count_lo) in
      let la = mod-lt s {m = h.count} pos in
      let lb = mod-lt t {m = h.count} pos in
      let range =
        spaced_range none channels (index s) k.map_ok (omega (arith, index-lt s, k.count_is)) in
      let es = channel_of-index s in
      let back : channel_of h s ≡ channel_of h t → a ≡ b = λ e.
        let same =
          same_entry (index s) (index t) (index-lt s) (index-lt t)
            (sym es ∙ e ∙ channel_of-index t) in
        elim (dec_lt a b) [
          | yes lt ↦ absurd (index-ne a b lt lb same)
          | no ge ↦ elim (dec_lt b a) [
            | yes gt ↦ absurd (index-ne b a gt la (sym same))
            | no le ↦ omega arith
          ]
        ] in
      (
        omega (arith, es, range),
        omega (arith, es, range),
        (back, λ e. ap (λ p. byte_at h.channels ((h.offset + p * h.stride) % h.count)) e),
      )
