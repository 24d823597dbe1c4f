-- ===== src/Promote/Access.antt =====
-- The bootloader's access to the flashes is what the update relies on.
use steelseries_apex_pro_min.Prelude.{
  ℕ, zero, suc, ◌+◌, ◌-◌, ◌^◌, ◌%◌, ◌≤◌, ◌<◌, ◌==◌, ◌≡◌, inl, inr, ltb, leb, not, ◌||◌,
  if◌then◌else◌, Bool, true, false, Option, none, some, List, [], ◌∷◌, ◌++◌, length, byte_at, arith,
  refl, sym, ap, ◌∙◌, Bool-cases,
}
use mathlib.Core.Path.{fun_ext}
use mathlib.Core.Option.{some_inj}
use steelseries_apex_pro_min.Flash.Laws.{region, region_ext, IsFaithful}
use steelseries_apex_pro_min.Update.{journal}
use steelseries_apex_pro_min.Promote.{
  Build, Board, app_base, address_bytes, out_of_app, update_nor_read, update_nor_command, wait_loop,
  update_nor_wait, update_nor_write, update_app_read, update_app_finish, all_erased, update_io,
}
use steelseries_apex_pro_min.Promote.Hardware.{IsBoard, nor_read-At, nor_read-region}

module _ {D : Type 0} (build : Build) (board : Board D) (nor_at app_at : D → ℕ → ℕ)
    (ok_board : IsBoard board nor_at app_at) where
  -- The internal flash below the settings.
  pub area : D → ℕ → ℕ
  area d i = if ltb i board.settings_address then app_at d i else 0

  pub area-cong : (d d' : D) → app_at d' ≡ app_at d → area d' ≡ area d
  unfolding area
  area-cong d d' e = ap (λ (f : ℕ → ℕ). λ i. if ltb i board.settings_address then f i else 0) e

  command-app : (tx : List ℕ) (d : D) → app_at (update_nor_command build board tx d).0 ≡ app_at d
  unfolding update_nor_command
  command-app tx d = elim (Bool-cases (ltb 8 (length tx))) [
    | inl long ↦ rw long refl
    | inr short ↦ rw short (go (board.transfer tx (length tx) d).1)
  ]
    where
      go :
          (r : Option (List ℕ))
          → app_at
              (elim r as (λ _. D × Option ℕ) [
                | none ↦ ((board.transfer tx (length tx) d).0, none)
                | some response ↦
                    ((board.transfer tx (length tx) d).0, some (byte_at response (length tx - 1)))
              ]).0
            ≡ app_at d
      go none = ok_board.transfer_app tx (length tx) d
      go (some response) = ok_board.transfer_app tx (length tx) d

  pub wait-app : (left : ℕ) (d : D) → app_at (wait_loop build board left d).0 ≡ app_at d
  unfolding wait_loop
  wait-app zero d = refl
  wait-app (suc left) d =
      go (update_nor_command build board (5 ∷ 0xff ∷ []) (board.watchdog d)).1
        (command-app (5 ∷ 0xff ∷ []) (board.watchdog d) ∙ ok_board.watchdog_app d)
        (wait-app left (update_nor_command build board (5 ∷ 0xff ∷ []) (board.watchdog d)).0)
    where
      d1 : D
      d1 = (update_nor_command build board (5 ∷ 0xff ∷ []) (board.watchdog d)).0

      go :
          (r : Option ℕ)
          → app_at d1 ≡ app_at d
          → app_at (wait_loop build board left d1).0 ≡ app_at d1
          → app_at
              (elim r as (λ _. D × Bool) [
                | none ↦ (d1, false)
                | some status ↦ elim (status % 2 == 0) as (λ _. D × Bool) [
                  | true ↦ (d1, true)
                  | false ↦ wait_loop build board left d1
                ]
              ]).0
            ≡ app_at d
      go none here ih = here
      go (some status) here ih = elim (Bool-cases (status % 2 == 0)) [
        | inl e ↦ rw e here
        | inr e ↦ rw e (ih ∙ here)
      ]

  write-app :
      (a : ℕ) (bytes : List ℕ) (d : D)
      → app_at (update_nor_write build board a bytes d).0 ≡ app_at d
  unfolding update_nor_write
  write-app a bytes d = elim (Bool-cases (not (a == journal + 52) || not (length bytes == 4))) [
    | inl bad ↦ rw bad refl
    | inr fine ↦ rw fine (
        go (update_nor_command build board (6 ∷ []) d).1
          (update_nor_command build board (2 ∷ (address_bytes a ++ bytes)) d1).1)
  ]
    where
      d1 : D
      d1 = (update_nor_command build board (6 ∷ []) d).0

      d2 : D
      d2 = (update_nor_command build board (2 ∷ (address_bytes a ++ bytes)) d1).0

      here : app_at d2 ≡ app_at d
      here = command-app (2 ∷ (address_bytes a ++ bytes)) d1 ∙ command-app (6 ∷ []) d

      go :
          (r r' : Option ℕ)
          → app_at
              (elim r as (λ _. D × Bool) [
                | none ↦ (d1, false)
                | some _ ↦ elim r' as (λ _. D × Bool) [
                  | none ↦ (d2, false)
                  | some _ ↦ update_nor_wait build board d2
                ]
              ]).0
            ≡ app_at d
      go none r' = command-app (6 ∷ []) d
      go (some x) none = here
      go (some x) (some y) = wait-app 100000 d2 ∙ here

  area_below :
      (d d' : D)
      → ((i : ℕ) → i < board.settings_address → app_at d' i ≡ app_at d i)
      → area d' ≡ area d
  unfolding area
  area_below d d' h = fun_ext (λ i. elim (Bool-cases (ltb i board.settings_address)) [
    | inl lt ↦ rw lt (h i (ground arith))
    | inr ge ↦ rw ge refl
  ])

  finish-area : (d : D) → area (update_app_finish build board d).0 ≡ area d
  unfolding update_app_finish
  finish-area d =
      area_below d (update_app_finish build board d).0
        (λ i lt. ap (λ (f : ℕ → ℕ). f i) marked ∙ below i lt)
    where
      d2 : D
      d2 = board.flash_flush (board.flash_erase board.settings_address board.code_page_size d)

      below : (i : ℕ) → i < board.settings_address → app_at d2 i ≡ app_at d i
      below i lt =
          ap (λ f. f i)
            (ok_board.flush_app (board.flash_erase board.settings_address board.code_page_size d))
          ∙ ok_board.erase_else board.settings_address board.code_page_size d i (inl lt)

      go :
          (m : Option ℕ)
          → app_at
              (elim m as (λ _. D × Bool) [
                | none ↦ (d2, true)
                | some value ↦ (board.set_gpregret value d2, true)
              ]).0
            ≡ app_at d2
      go none = refl
      go (some value) = ok_board.gpregret_app value d2

      marked : app_at (update_app_finish build board d).0 ≡ app_at d2
      marked =
          elim (Bool-cases (
            not (
              all_erased build board
                (board.flash_bytes board.settings_address board.code_page_size d2)))) [
                  | inl bad ↦ rw bad refl
                  | inr fine ↦ rw fine (go build.restored_magic)
                ]

  read-At :
      (a n : ℕ) (d : D)
      → (nor_at (update_nor_read build board a n d).0 ≡ nor_at d)
        × (app_at (update_nor_read build board a n d).0 ≡ app_at d)
  unfolding update_nor_read
  read-At a n d = elim (Bool-cases (leb n 256)) [
    | inl fits ↦ rw fits (
        nor_read-At board nor_at app_at build ok_board (nor_at d) (app_at d) a n (board.watchdog d)
          (ok_board.watchdog_nor d, ok_board.watchdog_app d))
    | inr long ↦ rw long (ok_board.watchdog_nor d, ok_board.watchdog_app d)
  ]

  read-region :
      (a n : ℕ) (d : D) (bs : List ℕ)
      → a < 2 ^ 24
      → (update_nor_read build board a n d).1 ≡ some bs
      → bs ≡ region (nor_at d) a n
  unfolding update_nor_read
  read-region a n d bs below e = elim (Bool-cases (leb n 256)) [
    | inl fits ↦
        nor_read-region board nor_at app_at build ok_board (nor_at d) a n (board.watchdog d) bs
          (ok_board.watchdog_nor d) below (rw fits at e)
    | inr long ↦ let bad = rw long at e in absurd cc
  ]

  app_read-At :
      (a n : ℕ) (d : D)
      → (nor_at (update_app_read build board a n d).0 ≡ nor_at d)
        × (app_at (update_app_read build board a n d).0 ≡ app_at d)
  unfolding update_app_read
  app_read-At a n d = elim (Bool-cases (out_of_app build board a n)) [
    | inl out ↦ rw out (refl, refl)
    | inr fine ↦ rw fine (ok_board.flush_nor d, ok_board.flush_app d)
  ]

  app_read-region :
      (a n : ℕ) (d : D) (bs : List ℕ)
      → app_base + build.app_maxlen ≤ board.settings_address
      → (update_app_read build board a n d).1 ≡ some bs
      → bs ≡ region (area d) a n
  unfolding update_app_read area
  app_read-region a n d bs apart e = elim (Bool-cases (out_of_app build board a n)) [
    | inl out ↦ let bad = rw out at e in absurd cc
    | inr fine ↦
        let inside : a + n ≤ board.settings_address = ground arith in
        let got : some (board.flash_bytes a n (board.flash_flush d)) ≡ some bs = rw fine at e in
        sym (some_inj.0 got)
        ∙ ok_board.flush_shows d a n
        ∙ ap (λ f. region f a n) (ok_board.flush_app d)
        ∙ region_ext (app_at d) (λ i. if ltb i board.settings_address then app_at d i else 0) a a n
            (λ i lt.
              let test : ltb (a + i) board.settings_address ≡ true = ground arith in rw test refl)
  ]

  -- The access has the laws that the installation relies on.
  pub update_io-IsFaithful :
      app_base + build.app_maxlen ≤ board.settings_address
      → IsFaithful (update_io build board) nor_at area
  update_io-IsFaithful apart = record {
    nor_read_gives = λ a n d bs below e. read-region a n d bs below e;
    app_read_gives = λ a n d bs e. app_read-region a n d bs apart e;
    nor_read_nor = λ a n d. (read-At a n d).0;
    nor_read_app = λ a n d. area-cong d (update_nor_read build board a n d).0 (read-At a n d).1;
    app_read_nor = λ a n d. (app_read-At a n d).0;
    app_read_app = λ a n d. area-cong d (update_app_read build board a n d).0 (app_read-At a n d).1;
    nor_write_app =
        λ a bs d. area-cong d (update_nor_write build board a bs d).0 (write-app a bs d);
    app_finish_app = finish-area;
  }
