-- ===== src/Examples/Timers.antt =====
-- The timers of src/scripting/function_blocks/timers.rs at concrete readings.
use sens.Common.{ℕ, ◌+◌, ◌*◌, ◌≡◌, refl, Bool, true, false, none, List, [], ◌∷◌, arith, Readings}
use sens.FunctionBlocks.Timers.Ton
use sens.FunctionBlocks.Timers.Ton.{Ton, wall_clock, scan_cycle}
use sens.FunctionBlocks.Timers.Ton.WallClock.{on_delay}
use sens.FunctionBlocks.Timers.Ton.ScanCycle.{scan_timing}
use sens.FunctionBlocks.Timers.Tof
use sens.FunctionBlocks.Timers.Tof.{Tof}
use sens.FunctionBlocks.Timers.Tof.OffDelay.{off_delay}
use sens.FunctionBlocks.Timers.Tp
use sens.FunctionBlocks.Timers.Tp.{Tp}
use sens.FunctionBlocks.Timers.Tp.Pulse.{pulse_lasts}

-- A scan `ms` milliseconds after the clock's start.
abbrev at_ms : ℕ → Readings
at_ms ms = record { at_start = ms * 1000000; at_elapsed = ms * 1000000 + 500 }

abbrev delay_100 : Ton
delay_100 = record {
  pt_ms = 100;
  et_ms = 0;
  input = true;
  output = false;
  start_instant = none;
  prev_input = false;
  mode = wall_clock;
  scan_count = 0;
  cycle_time_ms = 10;
}

on_delay_example :
    let t' = Ton.scans (at_ms 5 ∷ at_ms 50 ∷ at_ms 105 ∷ []) delay_100 in
    (t'.output ≡ true) × (t'.et_ms ≡ 100)
on_delay_example =
    on_delay (at_ms 5) (at_ms 50 ∷ at_ms 105 ∷ []) delay_100 refl refl refl refl (omega arith)
      (omega arith, omega arith, (omega arith, omega arith, tt)) (omega arith)

abbrev three_scans : Ton
three_scans = record delay_100 { pt_ms = 30; mode = scan_cycle }

scan_timing_example :
    let t' = Ton.scans (at_ms 5 ∷ at_ms 6 ∷ at_ms 7 ∷ []) three_scans in
    (t'.output ≡ true) × (t'.et_ms ≡ 30) × (t'.scan_count ≡ 3)
scan_timing_example =
    scan_timing (at_ms 5) (at_ms 6 ∷ at_ms 7 ∷ []) three_scans refl refl refl refl (omega arith)
      (omega arith)

abbrev linger_100 : Tof
linger_100 = record {
  pt_ms = 100;
  et_ms = 0;
  input = true;
  output = false;
  start_instant = none;
  prev_input = false;
}

off_delay_example :
    (Tof.scans
      (at_ms 5 ∷ at_ms 50 ∷ [])
      (record (Tof.execute (at_ms 1) linger_100) { input = false })).output
    ≡ true
off_delay_example =
    off_delay (at_ms 1) (at_ms 5) (at_ms 50 ∷ []) linger_100 refl (omega arith)
      (omega arith, omega arith, tt) (omega arith)

abbrev pulse_100 : Tp
pulse_100 = record {
  pt_ms = 100;
  et_ms = 0;
  input = true;
  output = false;
  start_instant = none;
  prev_input = false;
  pulse_active = false;
}

abbrev toggles : List (Bool × Readings)
toggles = (false, at_ms 20) ∷ (true, at_ms 60) ∷ []

pulse_lasts_example :
    let t' = Tp.scans toggles (Tp.execute (at_ms 5) pulse_100) in
    (t'.output ≡ true) × (t'.et_ms ≡ 55)
pulse_lasts_example =
    pulse_lasts (at_ms 5) toggles pulse_100 refl refl refl (omega arith)
      (omega arith, omega arith, (omega arith, omega arith, tt)) (omega arith) (omega arith)
