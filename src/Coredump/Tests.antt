-- ===== src/Coredump/Tests.antt =====
-- Two crashes on a chip that is made of functions.
use steelseries_apex_pro_min.Prelude.{
  zero, suc, ◌≡◌, true, false, none, some, replicate, read32, u16, arith, refl,
}
use steelseries_apex_pro_min.Flash.Laws.{region}
use steelseries_apex_pro_min.Promote.Records.{dump_valid}
use steelseries_apex_pro_min.Spinor.{
  coredump_read, fault_write, nor_read, nor_sector_erase, nor_page_program, nor_wait_wip, wait_wip,
}
use steelseries_apex_pro_min.Spinor.Bench.{Bus, nor_of, app_of, bench, bench_chip, blank}
use steelseries_apex_pro_min.Coredump.{
  Fault, fault_record, record_valid, read_last, fatal_error_handler, coredump_scan, body, fields,
  stack_of,
}
use steelseries_apex_pro_min.Coredump.Wire.{IsReadable}
use steelseries_apex_pro_min.Coredump.Newest.{IsAnswered}
use steelseries_apex_pro_min.Coredump.Blank.{IsBlank}
use steelseries_apex_pro_min.Coredump.Crashes.{Crashes, none_yet, crash, crash-newest}

bench-IsAnswered : IsAnswered bench
unfolding coredump_read nor_read
bench-IsAnswered zero d lt = λ e. absurd cc
bench-IsAnswered (suc zero) d lt = λ e. absurd cc
bench-IsAnswered (suc (suc zero)) d lt = λ e. absurd cc
bench-IsAnswered (suc (suc (suc zero))) d lt = λ e. absurd cc
bench-IsAnswered (suc (suc (suc (suc s)))) d lt = absurd (omega arith)

blank-IsBlank : IsBlank (nor_of blank)
unfolding record_valid region read32
blank-IsBlank zero lt = refl
blank-IsBlank (suc zero) lt = refl
blank-IsBlank (suc (suc zero)) lt = refl
blank-IsBlank (suc (suc (suc zero))) lt = refl
blank-IsBlank (suc (suc (suc (suc s)))) lt = absurd (omega arith)

-- A fault without a frame.
abbrev oops : Fault
oops = record {
  reason = 4;
  resetreas = 0;
  esf = none;
  cfsr = 0x400;
  hfsr = 0x40000000;
  bfar = 0;
  mmfar = 0;
  stack_at = λ sp. replicate 128 0xaa;
}

oops-IsReadable : IsReadable oops
oops-IsReadable sp = (refl, omega arith)

abbrev once : Bus
once = (fatal_error_handler bench (coredump_scan bench blank).1 oops blank).0

written_test : (fatal_error_handler bench (coredump_scan bench blank).1 oops blank).1 ≡ true
unfolding fatal_error_handler fault_write nor_wait_wip wait_wip nor_sector_erase nor_page_program
    fault_record body fields stack_of
written_test = refl

one_crash : Crashes bench nor_of blank 1 once
one_crash = crash oops blank once none_yet oops-IsReadable (λ s lt. refl) written_test refl

-- A fault while the chip is busy.
abbrev interrupted : Bus
interrupted = (once.0, once.1, once.2, 3, false)

again_test : (fatal_error_handler bench (coredump_scan bench once).1 oops interrupted).1 ≡ true
unfolding fatal_error_handler fault_write nor_wait_wip wait_wip nor_sector_erase nor_page_program
    fault_record body fields stack_of
again_test = refl

crash-newest_example :
    let p = fatal_error_handler bench (coredump_scan bench once).1 oops interrupted in
    let written = fault_record oops (u16 2) in
    (read_last (coredump_scan bench p.0).1 ≡ some written) × (dump_valid written ≡ true)
crash-newest_example =
    crash-newest bench nor_of app_of bench_chip bench-IsAnswered 1 oops blank once interrupted refl
      blank-IsBlank one_crash oops-IsReadable (λ s lt. refl) again_test
