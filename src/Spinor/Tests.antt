-- ===== src/Spinor/Tests.antt =====
-- The driver on a chip that is made of functions.
use steelseries_apex_pro_min.Prelude.{◌-◌, ◌<◌, ◌≡◌, ◌≢◌, false, some, [], ◌∷◌, arith, refl}
use steelseries_apex_pro_min.Flash.{err, failed, pending}
use steelseries_apex_pro_min.Flash.Laws.{region, IsLocal}
use steelseries_apex_pro_min.Flash.Stores.{IsPassive, IsServing}
use steelseries_apex_pro_min.Spinor.{
  firmware_io, wait_wip, nor_wait_wip, nor_page_program, program_loop, dev_program, dev_read,
  nor_read, dev_erase,
}
use steelseries_apex_pro_min.Spinor.Driver.{firmware_io-implements}
use steelseries_apex_pro_min.Spinor.Wait.{nor_wait_wip-returns}
use steelseries_apex_pro_min.Spinor.Bench.{
  nor_of, app_of, busy_of, bench, bench_chip, bench-IsClock, blank,
}

-- A write over the end of a page.
write_test :
    (dev_read bench 254 4 (dev_program bench 254 (1 ∷ 2 ∷ 3 ∷ 4 ∷ []) blank).0).1
    ≡ some (1 ∷ 2 ∷ 3 ∷ 4 ∷ [])
unfolding dev_read dev_program program_loop nor_page_program nor_wait_wip wait_wip nor_read region
write_test = refl

past_test : (dev_program bench 0xfffff (1 ∷ 2 ∷ []) blank).1 ≡ false
unfolding dev_program
past_test = refl

erase_test : (dev_erase bench 0x800 0x1000 blank).1 ≡ false
unfolding dev_erase
erase_test = refl

firmware_io-implements_example :
    IsPassive (firmware_io bench) nor_of app_of
    × IsLocal (firmware_io bench) nor_of app_of
    × IsServing (firmware_io bench) nor_of app_of busy_of
firmware_io-implements_example = firmware_io-implements bench nor_of app_of bench_chip

nor_wait_wip-returns_example :
    let p = nor_wait_wip bench 1000 blank in
    (p.1 ≢ err pending) × (p.1 ≡ err failed → 1000 < p.0.2 - 1)
nor_wait_wip-returns_example =
    nor_wait_wip-returns bench (λ d. d.2) bench-IsClock 1000 blank (omega arith)
