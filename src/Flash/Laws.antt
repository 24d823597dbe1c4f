-- ===== src/Flash/Laws.antt =====
-- What is relied on of the two flashes, and how an action ends.
use steelseries_apex_pro_min.Prelude.{
  ℕ, zero, suc, ◌+◌, ◌^◌, ◌≤◌, ◌<◌, ◌≡◌, ◌⊎◌, Bool, true, false, Option, none, some, List, [], ◌∷◌,
  ◌++◌, length, if◌then◌else◌, arith, refl, ap,
}
use steelseries_apex_pro_min.Flash.{Io, Result, ok, err, Error, after, read, run, check}

-- `n` bytes of a memory from an address on.
unfoldable pub region : (ℕ → ℕ) → ℕ → ℕ → List ℕ
region f a zero = []
region f a (suc n) = f a ∷ region f (a + 1) n

pub length-region : (f : ℕ → ℕ) (a n : ℕ) → length (region f a n) ≡ n
unfolding region
length-region f a zero = refl
length-region f a (suc n) = omega (arith, length-region f (a + 1) n)

pub region-add : (f : ℕ → ℕ) (a m n : ℕ) → region f a (m + n) ≡ region f a m ++ region f (a + m) n
unfolding region
region-add f a zero n =
    let e : 0 + n ≡ n = omega arith in let e' : a + 0 ≡ a = omega arith in rw (e, e') refl
region-add f a (suc m) n =
    let e : suc m + n ≡ suc (m + n) = omega arith in
    let e' : a + suc m ≡ a + 1 + m = omega arith in
    rw (e, e') (ap (λ l. f a ∷ l) (region-add f (a + 1) m n))

-- Two memories that agree give the same bytes.
pub region_ext :
    (f g : ℕ → ℕ) (a b n : ℕ)
    → ((i : ℕ) → i < n → f (a + i) ≡ g (b + i))
    → region f a n ≡ region g b n
unfolding region
region_ext f g a b zero h = refl
region_ext f g a b (suc n) h =
    let e : a + 0 ≡ a = omega arith in
    let e' : b + 0 ≡ b = omega arith in
    let first : f a ≡ g b = rw (e, e') at (h 0 (omega arith)) in
    let rest = region_ext f g (a + 1) (b + 1) n (λ i lt.
      let s : a + 1 + i ≡ a + suc i = omega arith in
      let s' : b + 1 + i ≡ b + suc i = omega arith in rw (s, s') (h (suc i) (omega arith))) in
    rw (first, rest) refl

module _ {D : Type 0} (io : Io D) (nor_at app_at : D → ℕ → ℕ) where
  -- Reads, of the NOR flash at 24-bit addresses, give what is stored and change nothing; operations on one flash leave the other alone. The
  -- bytes of `app_at` are those of the application area, which `app_finish` does not touch.
  pub record IsFaithful : Type 0 where
    pub nor_read_gives :
        (a n : ℕ) (d : D) (bs : List ℕ)
        → a < 2 ^ 24
        → (io.nor_read a n d).1 ≡ some bs
        → bs ≡ region (nor_at d) a n
    pub app_read_gives :
        (a n : ℕ) (d : D) (bs : List ℕ)
        → (io.app_read a n d).1 ≡ some bs
        → bs ≡ region (app_at d) a n
    pub nor_read_nor : (a n : ℕ) (d : D) → nor_at (io.nor_read a n d).0 ≡ nor_at d
    pub nor_read_app : (a n : ℕ) (d : D) → app_at (io.nor_read a n d).0 ≡ app_at d
    pub app_read_nor : (a n : ℕ) (d : D) → nor_at (io.app_read a n d).0 ≡ nor_at d
    pub app_read_app : (a n : ℕ) (d : D) → app_at (io.app_read a n d).0 ≡ app_at d
    pub nor_write_app : (a : ℕ) (bs : List ℕ) (d : D) → app_at (io.nor_write a bs d).0 ≡ app_at d
    pub app_finish_app : (d : D) → app_at (io.app_finish d).0 ≡ app_at d

  -- Writing and erasing, also when they fail, change nothing but the bytes that they are given.
  pub record IsLocal : Type 0 where
    pub nor_write_else :
        (a : ℕ) (bs : List ℕ) (d : D) (b : ℕ)
        → (b < a) ⊎ (a + length bs ≤ b)
        → nor_at (io.nor_write a bs d).0 b ≡ nor_at d b
    pub nor_erase_else :
        (a n : ℕ) (d : D) (b : ℕ)
        → (b < a) ⊎ (a + n ≤ b)
        → nor_at (io.nor_erase a n d).0 b ≡ nor_at d b
    pub nor_erase_app : (a n : ℕ) (d : D) → app_at (io.nor_erase a n d).0 ≡ app_at d

-- The bytes of the two flashes in a state.
abbrev pub At : {D : Type 0} → (D → ℕ → ℕ) → (D → ℕ → ℕ) → (ℕ → ℕ) → (ℕ → ℕ) → D → Type 0
At nor_at app_at nor app d = (nor_at d ≡ nor) × (app_at d ≡ app)

-- How an action ends: in a state and with a result as `Q` says, or failed in a state as `E` says.
abbrev pub Ends : {D A : Type 0} → D × Result A → (D → A → Type 0) → (D → Type 0) → Type 0
Ends (d, ok a) Q E = Q d a
Ends (d, err e) Q E = E d

module _ {D A B : Type 0} (Q : D → A → Type 0) (E : D → Type 0) where
  pub Ends-after :
      (R : D → B → Type 0) (F : D → Type 0) (p : D × Result A) (f : A → D → D × Result B)
      → Ends p Q E
      → ((d : D) (a : A) → Q d a → Ends (f a d) R F)
      → ((d : D) → E d → F d)
      → Ends (after p f) R F
  Ends-after R F (d, ok a) f h k l = k d a h
  Ends-after R F (d, err e) f h k l = l d h

module _ {D A : Type 0} (Q : D → A → Type 0) (E : D → Type 0) where
  pub Ends_mono :
      (R : D → A → Type 0) (F : D → Type 0) (p : D × Result A)
      → Ends p Q E
      → ((d : D) (a : A) → Q d a → R d a)
      → ((d : D) → E d → F d)
      → Ends p R F
  Ends_mono R F (d, ok a) h k l = k d a h
  Ends_mono R F (d, err e) h k l = l d h

  pub Ends-if :
      (b : Bool) (m k : D → D × Result A) (d : D)
      → (b ≡ true → Ends (m d) Q E)
      → (b ≡ false → Ends (k d) Q E)
      → Ends ((if b then m else k) d) Q E
  Ends-if true m k d then_ else_ = then_ refl
  Ends-if false m k d then_ else_ = else_ refl

  -- What holds when the action gives `a`.
  pub Ends_ok : (p : D × Result A) (a : A) → Ends p Q E → p.1 ≡ ok a → Q p.0 a
  Ends_ok (d, ok a') a h e = coe 0 1 (i. Ends (d, e i) Q E) h
  Ends_ok (d, err x) a h e = coe 0 1 (i. Ends (d, e i) Q E) h

-- What holds of the state however the action ends.
pub Ends_state : {D A : Type 0} (E : D → Type 0) (p : D × Result A) → Ends p (λ d _. E d) E → E p.0
Ends_state E (d, ok a) h = h
Ends_state E (d, err e) h = h

module _ {D : Type 0} (E : D → Type 0) where
  -- A read, given what is so of the bytes when it succeeds.
  pub Ends-read :
      (Q : D → List ℕ → Type 0) (m : D → D × Option (List ℕ)) (d : D)
      → ((bs : List ℕ) → (m d).1 ≡ some bs → Q (m d).0 bs)
      → E (m d).0
      → Ends (read m d) Q E
  Ends-read Q m d good bad = go (m d).0 (m d).1 good bad
    where
      go :
          (d' : D) (r : Option (List ℕ))
          → ((bs : List ℕ) → r ≡ some bs → Q d' bs)
          → E d'
          → Ends (read (λ _. (d', r)) d') Q E
      go d' none good bad = bad
      go d' (some bs) good bad = good bs refl

  pub Ends-run :
      (Q : D → Unit {0} → Type 0) (m : D → D × Bool) (d : D)
      → Q (m d).0 tt
      → E (m d).0
      → Ends (run m d) Q E
  Ends-run Q m d good bad = go (m d).0 (m d).1 good bad
    where
      go : (d' : D) (r : Bool) → Q d' tt → E d' → Ends (run (λ _. (d', r)) d') Q E
      go d' true good bad = good
      go d' false good bad = bad

  pub Ends-check :
      (Q : D → Unit {0} → Type 0) (test : Bool) (e : Error) (d : D)
      → (test ≡ true → Q d tt)
      → E d
      → Ends (check test e d) Q E
  Ends-check Q true e d good bad = good refl
  Ends-check Q false e d good bad = bad
