-- ===== src/Spinor/Driver.antt =====
-- The driver fills the interface of the flashes that the update and the rollback run on.
use steelseries_apex_pro_min.Prelude.{
  ℕ, ◌+◌, ◌-◌, ◌≡◌, ◌||◌, inl, inr, ltb, some, List, refl, sym, ◌∙◌, Bool-cases,
}
use mathlib.Core.Option.{some_inj}
use steelseries_apex_pro_min.Flash.Laws.{region, IsLocal, At}
use steelseries_apex_pro_min.Flash.Stores.{IsPassive, IsServing}
use steelseries_apex_pro_min.Update.{base, capacity}
use steelseries_apex_pro_min.Spinor.{Spim, app_read, firmware_io}
use steelseries_apex_pro_min.Spinor.Chip.{IsChip}
use steelseries_apex_pro_min.Spinor.Device.{dev_read-Reads, dev_program-Programs, dev_erase-Erases}

module _ {D : Type 0} (spim : Spim D) (nor_at app_at : D → ℕ → ℕ)
    (chip : IsChip spim nor_at app_at) where
  app_read-gives :
      (a n : ℕ) (d : D)
      → At nor_at app_at (nor_at d) (app_at d) (app_read spim a n d).0
        × ((bs : List ℕ) → (app_read spim a n d).1 ≡ some bs → bs ≡ region (app_at d) a n)
  unfolding app_read
  app_read-gives a n d =
      elim (Bool-cases (ltb a base || ltb (base + capacity) a || ltb (base + capacity - a) n)) [
        | inl out ↦ rw out ((refl, refl), λ bs e. absurd cc)
        | inr inside ↦ rw inside ((refl, refl), λ bs e. sym (some_inj.0 e) ∙ chip.app_gives a n d)
      ]

  -- On a chip and a bus that do what is relied on: the driver's operations change nothing but the bytes
  -- that they are given, also when they fail and whether or not the chip is busy. From a chip that is not
  -- busy, reads that succeed give what is stored, writes that succeed store their bytes where the flash was
  -- erased and erases that succeed leave ones, and the chip is not busy after these and after any read.
  pub firmware_io-implements :
      IsPassive (firmware_io spim) nor_at app_at
      × IsLocal (firmware_io spim) nor_at app_at
      × IsServing (firmware_io spim) nor_at app_at chip.busy
  firmware_io-implements = (
    record {
      app_read_gives = λ a n d bs e. (app_read-gives a n d).1 bs e;
      nor_read_nor = λ a n d. (dev_read-Reads spim nor_at app_at chip a n d).0.0.0;
      nor_read_app = λ a n d. (dev_read-Reads spim nor_at app_at chip a n d).0.0.1;
      app_read_nor = λ a n d. (app_read-gives a n d).0.0;
      app_read_app = λ a n d. (app_read-gives a n d).0.1;
      nor_write_app = λ a bs d. (dev_program-Programs spim nor_at app_at chip a bs d).0.0;
    },
    record {
      nor_write_else =
          λ a bs d b out. (dev_program-Programs spim nor_at app_at chip a bs d).0.1 b out;
      nor_erase_else = λ a n d b out. (dev_erase-Erases spim nor_at app_at chip a n d).0.1 b out;
      nor_erase_app = λ a n d. (dev_erase-Erases spim nor_at app_at chip a n d).0.0;
    },
    record {
      nor_read_gives =
          λ a n d bs idle e. (dev_read-Reads spim nor_at app_at chip a n d).1 bs e idle;
      nor_read_idle = λ a n d idle. (dev_read-Reads spim nor_at app_at chip a n d).0.1 idle;
      nor_write_stores = λ a bs d idle bytes blank good.
          ((dev_program-Programs spim nor_at app_at chip a bs d).1 good).0.1 idle bytes blank;
      nor_write_idle =
          λ a bs d idle good. ((dev_program-Programs spim nor_at app_at chip a bs d).1 good).1 idle;
      nor_erase_clears = λ a n d b idle good le lt.
          ((dev_erase-Erases spim nor_at app_at chip a n d).1 good).0.1 idle b le lt;
      nor_erase_idle =
          λ a n d idle good. ((dev_erase-Erases spim nor_at app_at chip a n d).1 good).1 idle;
    },
  )
