-- ===== src/Examples/Restarts.antt =====
-- The function blocks across a restart, with JSON documents as data.
use sens.Common.{ℕ, ◌≡◌, refl, true, false, some, [], ◌∷◌, arith, Readings}
use sens.Examples.Document.{documents, documents-laws}
use sens.FunctionBlocks.Timers.Ton
use sens.FunctionBlocks.Timers.Ton.{Ton, wall_clock}
use sens.FunctionBlocks.Timers.Ton.Restore.{ton_resumes, ton_at_zero_stalls}
use sens.FunctionBlocks.Timers.Tof.{Tof}
use sens.FunctionBlocks.Timers.Tp.{Tp}

abbrev boot : Readings
boot = record { at_start = 500000000; at_elapsed = 500000000 }

abbrev later_100 : Readings
later_100 = record { at_start = 600000000; at_elapsed = 600000000 }

abbrev timing : ℕ → Ton
timing elapsed = record {
  pt_ms = 100;
  et_ms = elapsed;
  input = true;
  output = false;
  start_instant = some 7;
  prev_input = true;
  mode = wall_clock;
  scan_count = 0;
  cycle_time_ms = 10;
}

timing-IsWord : Ton.Restore.IsWord (timing 40)
timing-IsWord = record {
  preset = omega arith;
  elapsed = omega arith;
  scans_fit = omega arith;
  cycle_fit = omega arith;
  cycle_pos = omega arith;
}

timing-IsWord_zero : Ton.Restore.IsWord (timing 0)
timing-IsWord_zero = record {
  preset = omega arith;
  elapsed = omega arith;
  scans_fit = omega arith;
  cycle_fit = omega arith;
  cycle_pos = omega arith;
}

ton_at_zero_stalls_example :
    (Ton.scans
      (later_100 ∷ later_100 ∷ [])
      (Ton.deserialize_state documents boot
        (Ton.serialize_state documents (timing 0))
        (Ton.new 100)).0).output
    ≡ false
ton_at_zero_stalls_example =
    ton_at_zero_stalls documents documents-laws boot (later_100 ∷ later_100 ∷ []) (timing 0)
      timing-IsWord_zero refl refl refl refl refl (omega arith)

abbrev lingering : ℕ → Tof
lingering elapsed = record {
  pt_ms = 100;
  et_ms = elapsed;
  input = false;
  output = true;
  start_instant = some 7;
  prev_input = false;
}

abbrev pulsing : ℕ → Tp
pulsing elapsed = record {
  pt_ms = 100;
  et_ms = elapsed;
  input = false;
  output = true;
  start_instant = some 7;
  prev_input = true;
  pulse_active = true;
}
