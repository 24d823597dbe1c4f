-- ===== src/Rollback/Tally.antt =====
-- The tally of boots that were not healthy: `g4b_ab_boot_pending`, and what the bootloader counts.
use steelseries_apex_pro_min.Prelude.{
  ℕ, zero, suc, ◌+◌, ◌==◌, ◌<◌, ◌≡◌, ◌≢◌, inl, inr, if◌then◌else◌, Bool, true, false, Option, none,
  some, List, [], ◌∷◌, arith, refl, ap, sym, ◌∙◌, Bool-cases,
}
use steelseries_apex_pro_min.Flash.Laws.{region}
use steelseries_apex_pro_min.Flash.Stores.{region_all}
use steelseries_apex_pro_min.Promote.{tally_addr, ab_sector}
use steelseries_apex_pro_min.Promote.Records.{count_zeros}
use steelseries_apex_pro_min.Rollback.{find_free}

count_zeros-suc : (l : List ℕ) (n : ℕ) → count_zeros l (n + 1) ≡ suc (count_zeros l n)
unfolding count_zeros
count_zeros-suc [] n = omega arith
count_zeros-suc (b ∷ l) n = elim (Bool-cases (b == 0)) [
  | inl e ↦ rw e (count_zeros-suc l (n + 1))
  | inr e ↦ rw e (count_zeros-suc l n)
]

-- A byte that becomes zero is counted, and nothing else changes.
pub count_zeros-mark :
    (f g : ℕ → ℕ) (n a i acc : ℕ)
    → i < n
    → f (a + i) ≡ 0xff
    → g (a + i) ≡ 0
    → ((b : ℕ) → b ≢ a + i → g b ≡ f b)
    → count_zeros (region g a n) acc ≡ suc (count_zeros (region f a n) acc)
unfolding count_zeros region
count_zeros-mark f g zero a i acc lt full clear else_ = absurd (omega arith)
count_zeros-mark f g (suc n) a zero acc lt full clear else_ =
    let e : a + 0 ≡ a = omega arith in
    let full' : f a ≡ 0xff = rw e at full in
    let clear' : g a ≡ 0 = rw e at clear in
    let same : region g (a + 1) n ≡ region f (a + 1) n =
      region_all g f (a + 1) n (λ b le _. else_ b (omega arith)) in
    rw (full', clear', same) (count_zeros-suc (region f (a + 1) n) acc)
count_zeros-mark f g (suc n) a (suc i) acc lt full clear else_ =
    let e : a + suc i ≡ a + 1 + i = omega arith in
    let same : g a ≡ f a = else_ a (omega arith) in
    rw same (
      count_zeros-mark f g n (a + 1) i (if f a == 0 then acc + 1 else acc) (omega arith)
        (ap f (sym e) ∙ full) (ap g (sym e) ∙ clear) (λ b ne. else_ b (omega arith)))

-- What the scan of a buffer has found.
abbrev pub FoundIn : (ℕ → ℕ) → ℕ → ℕ → Option ℕ → Type 0
FoundIn f a n none = (i : ℕ) → i < n → f (a + i) ≢ 0xff
FoundIn f a n (some i) = (i < n) × (f (a + i) ≡ 0xff)

pub find_free-FoundIn : (f : ℕ → ℕ) (n a : ℕ) → FoundIn f a n (find_free (region f a n))
unfolding find_free region
find_free-FoundIn f zero a = λ i lt. absurd (omega arith)
find_free-FoundIn f (suc n) a =
    go (f a == 0xff) (λ e. ground arith) (λ e. ground arith) (find_free (region f (a + 1) n))
      (find_free-FoundIn f n (a + 1))
  where
    go :
        (test : Bool)
        → (test ≡ true → f a ≡ 0xff)
        → (test ≡ false → f a ≢ 0xff)
        → (r : Option ℕ) → FoundIn f (a + 1) n r
        → FoundIn f a (suc n) (
            if test
            then some 0
            else (elim r as (λ _. Option ℕ) [ none ↦ none | some i ↦ some (i + 1) ]))
    go true full empty r h = let e : a + 0 ≡ a = omega arith in (omega arith, ap f e ∙ full refl)
    go false full empty none h = others
      where
        others : (i : ℕ) → i < suc n → f (a + i) ≢ 0xff
        others zero lt e = let e' : a + 0 ≡ a = omega arith in empty refl (ap f (sym e') ∙ e)
        others (suc i) lt e =
            let e' : a + 1 + i ≡ a + suc i = omega arith in h i (omega arith) (ap f e' ∙ e)
    go false full empty (some i) h =
        let e : a + (i + 1) ≡ a + 1 + i = omega arith in (omega (arith, h.0), ap f e ∙ h.1)

-- The count that the bootloader compares with the threshold.
unfoldable pub failures : (ℕ → ℕ) → ℕ
failures nor = count_zeros (region nor tally_addr ab_sector) 0
