-- ===== src/Prelude/Ring.antt =====
-- A C array used as a ring: the `n` entries from an index on, taken modulo the capacity.
use Prim.Native.Nat.{ℕ, zero, suc, ◌+◌, ◌-◌, ◌%◌, ◌≤◌, ◌<◌}
use mathlib.Core.Path.{◌≡◌, refl, sym, ◌∙◌, ap, ap₂}
use mathlib.Core.Logic.{◌≢◌}
use mathlib.Core.List.{List, [], ◌∷◌, ◌++◌}
use native.Mathlib.Nat.{mod-add-mod, mod-eq_of_lt, mod-eq-sub-mod, mod-lt, add-zero}
use native.Mathlib.Decide.{dec_lt}
use native.Mathlib.Omega.{arith}
use steelseries_apex_pro_min.Prelude.Lists.{length, get_or, set}

module _ {ℓ} {A : Type ℓ} where
  pub get_or-set_self :
      (xs : List A) (i : ℕ) (v d : A) → i < length xs → get_or (set xs i v) i d ≡ v
  get_or-set_self [] i v d h = absurd (omega arith)
  get_or-set_self (x ∷ xs) zero v d h = refl
  get_or-set_self (x ∷ xs) (suc i) v d h = get_or-set_self xs i v d (omega arith)

  pub get_or-set_ne :
      (xs : List A) (i j : ℕ) (v d : A) → i ≢ j → get_or (set xs i v) j d ≡ get_or xs j d
  get_or-set_ne [] i j v d h = refl
  get_or-set_ne (x ∷ xs) zero zero v d h = absurd (h refl)
  get_or-set_ne (x ∷ xs) zero (suc j) v d h = refl
  get_or-set_ne (x ∷ xs) (suc i) zero v d h = refl
  get_or-set_ne (x ∷ xs) (suc i) (suc j) v d h = get_or-set_ne xs i j v d (λ e. h (ap suc e))

-- Indices less than a lap apart are different slots.
pub mod-ne-mod-add : (capacity h m : ℕ) → 0 < m → m < capacity → (h + m) % capacity ≢ h % capacity
mod-ne-mod-add capacity h m pos below = elim (dec_lt (h % capacity + m) capacity) [
  | yes p ↦ omega (arith, mod-add-mod h capacity m, mod-eq_of_lt p)
  | no p ↦ omega (
    arith,
    mod-add-mod h capacity m,
    mod-eq-sub-mod {n = h % capacity + m} {m = capacity} (omega arith),
    mod-eq_of_lt {n = h % capacity + m - capacity} {m = capacity} (omega arith),
  )
]

pub suc-mod_cong :
    (capacity a b : ℕ) → a % capacity ≡ b % capacity → (a + 1) % capacity ≡ (b + 1) % capacity
suc-mod_cong capacity a b e =
    sym (mod-add-mod a capacity 1) ∙ ap (λ k. (k + 1) % capacity) e ∙ mod-add-mod b capacity 1

module _ {ℓ} {A : Type ℓ} (d : A) (capacity : ℕ) where
  abbrev pub window : List A → ℕ → ℕ → List A
  window buf h zero = []
  window buf h (suc n) = get_or buf (h % capacity) d ∷ window buf (h + 1) n

  pub length-window : (buf : List A) (h n : ℕ) → length (window buf h n) ≡ n
  length-window buf h zero = refl
  length-window buf h (suc n) = ap suc (length-window buf (h + 1) n)

  -- The start counts modulo the capacity only.
  pub window_cong :
      (buf : List A) (n a b : ℕ) → a % capacity ≡ b % capacity → window buf a n ≡ window buf b n
  window_cong buf zero a b e = refl
  window_cong buf (suc n) a b e =
      ap₂ ◌∷◌ (ap (λ k. get_or buf k d) e)
        (window_cong buf n (a + 1) (b + 1) (suc-mod_cong capacity a b e))

  pub window_next :
      (buf : List A) (h n : ℕ)
      → 0 < capacity
      → window buf ((h + 1) % capacity) n ≡ window buf (h + 1) n
  window_next buf h n pos =
      window_cong buf n ((h + 1) % capacity) (h + 1) (mod-eq_of_lt (mod-lt (h + 1) pos))

  -- The code tests `count == 0`, `window` matches on `suc`.
  pub window_pos :
      (buf : List A) (h n : ℕ)
      → 0 < n
      → window buf h n ≡ get_or buf (h % capacity) d ∷ window buf (h + 1) (n - 1)
  window_pos buf h zero pos = absurd (omega arith)
  window_pos buf h (suc n) pos = ap (λ k. window buf h (suc k)) (omega arith)

  window_snoc :
      (buf : List A) (h n : ℕ)
      → window buf h (suc n) ≡ window buf h n ++ (get_or buf ((h + n) % capacity) d ∷ [])
  window_snoc buf h zero = ap (λ k. get_or buf (k % capacity) d ∷ []) (sym (add-zero h))
  window_snoc buf h (suc n) =
      ap (λ l. get_or buf (h % capacity) d ∷ l)
        (window_snoc buf (h + 1) n
          ∙ ap (λ k. window buf (h + 1) n ++ (get_or buf (k % capacity) d ∷ [])) (omega arith))

  -- A write behind the window does not show in it.
  window-set_ne :
      (buf : List A) (x : A) (n h m : ℕ)
      → n ≤ m
      → m < capacity
      → window (set buf ((h + m) % capacity) x) h n ≡ window buf h n
  window-set_ne buf x zero h m le lt = refl
  window-set_ne buf x (suc n) h m le lt =
      ap₂ ◌∷◌
        (get_or-set_ne buf ((h + m) % capacity) (h % capacity) x d
          (mod-ne-mod-add capacity h m (omega arith) lt))
        (ap (λ k. window (set buf (k % capacity) x) (h + 1) n) (omega arith)
          ∙ window-set_ne buf x n (h + 1) (m - 1) (omega arith) (omega arith))

  -- A write just behind the window extends it.
  pub window-set :
      (buf : List A) (x : A) (h n : ℕ)
      → capacity ≤ length buf
      → n < capacity
      → window (set buf ((h + n) % capacity) x) h (suc n) ≡ window buf h n ++ (x ∷ [])
  window-set buf x h n fits lt =
      window_snoc (set buf ((h + n) % capacity) x) h n
      ∙ ap₂ (λ l y. l ++ (y ∷ [])) (window-set_ne buf x n h n (omega arith) lt)
          (get_or-set_self buf ((h + n) % capacity) x d
            (omega (arith, mod-lt (h + n) {m = capacity} (omega arith))))

  pub get_or-window :
      (buf : List A) (h n i : ℕ)
      → i < n
      → get_or (window buf h n) i d ≡ get_or buf ((h + i) % capacity) d
  get_or-window buf h zero i lt = absurd (omega arith)
  get_or-window buf h (suc n) zero lt = ap (λ k. get_or buf (k % capacity) d) (sym (add-zero h))
  get_or-window buf h (suc n) (suc i) lt =
      get_or-window buf (h + 1) n i (omega arith)
      ∙ ap (λ k. get_or buf (k % capacity) d) (omega arith)
