-- ===== src/Flash.antt =====
-- update/apex_update.h, `struct apx_update_io`: the operations on the external NOR flash and on the
-- internal flash, over an unknown device state; and actions on that state that may fail.
pub mod Laws
pub mod Stores
pub mod Bench
use steelseries_apex_pro_min.Prelude.{ℕ, Bool, true, false, Option, none, some, List}

-- A read that fails is `none`; the other operations say whether they succeed, a result of 0.
pub record Io (D : Type 0) : Type 0 where
  pub nor_read : ℕ → ℕ → D → D × Option (List ℕ)
  pub nor_write : ℕ → List ℕ → D → D × Bool
  pub nor_erase : ℕ → ℕ → D → D × Bool
  pub app_read : ℕ → ℕ → D → D × Option (List ℕ)
  pub app_write : ℕ → List ℕ → D → D × Bool
  pub app_erase : ℕ → ℕ → D → D × Bool
  pub app_finish : D → D × Bool

-- The results -1, -2 and -3.
pub data Error : Type 0 where
  failed invalid pending : Error

pub data Result {ℓ} (A : Type ℓ) : Type ℓ where
  ok : A → Result A
  err : Error → Result A

-- An action takes the device to its next state and a result.
abbrev pub Action : Type 0 → Type 0 → Type 0
Action D A = D → D × Result A

module _ {D : Type 0} where
  abbrev pub after : {A B : Type 0} → D × Result A → (A → D → D × Result B) → D × Result B
  after (d, ok a) f = f a d
  after (d, err e) f = (d, err e)

  infixl 5 ◌>>=◌ ◌>>◌
  abbrev pub ◌>>=◌ : {A B : Type 0} → (D → D × Result A) → (A → D → D × Result B) → D → D × Result B
  ◌>>=◌ m f d = after (m d) f

  abbrev pub ◌>>◌ : {A B : Type 0} → (D → D × Result A) → (D → D × Result B) → D → D × Result B
  m >> k = m >>= λ _. k

  abbrev pub pure : {A : Type 0} → A → D → D × Result A
  pure a d = (d, ok a)

  abbrev pub fail : {A : Type 0} → Error → D → D × Result A
  fail e d = (d, err e)

  abbrev pub check : Bool → Error → D → D × Result (Unit {0})
  check true e d = (d, ok tt)
  check false e d = (d, err e)

  -- `if (read(...)) return -1`
  abbrev pub read : (D → D × Option (List ℕ)) → D → D × Result (List ℕ)
  read m d = let (d', r) = m d in elim r [ none ↦ (d', err failed) | some bytes ↦ (d', ok bytes) ]

  -- `if (operation(...)) return -1`
  abbrev pub run : (D → D × Bool) → D → D × Result (Unit {0})
  run m d = let (d', good) = m d in elim good [ true ↦ (d', ok tt) | false ↦ (d', err failed) ]
