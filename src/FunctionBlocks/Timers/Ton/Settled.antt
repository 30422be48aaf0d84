-- ===== src/FunctionBlocks/Timers/Ton/Settled.antt =====
-- What holds of a TON after every scan (timers.rs, `execute` of TON).
use sens.Common.{if◌then◌else◌, ◌&&◌, ◌≤◌, ◌≡◌, none, arith, Readings}
use sens.FunctionBlocks.Timers.Ton.{Ton, execute}

pub record IsSettled (t : Ton) : Type 0 where
  pub followed : t.prev_input ≡ t.input
  pub capped : t.et_ms ≤ t.pt_ms
  pub output : t.output ≡ (t.output && t.input)
  pub elapsed : t.et_ms ≡ (if t.input then t.et_ms else 0)
  pub started : t.start_instant ≡ (if t.input then t.start_instant else none)

-- After a scan of a TON in any state, the previous input is the input, the elapsed time is at most
-- the preset time, and with the input off the output is off, the elapsed time 0 and no start kept.
pub execute-IsSettled : (r : Readings) (t : Ton) → IsSettled (execute r t)
unfolding execute
execute-IsSettled r t = ground arith

-- A scan keeps the input, the preset time, the mode and the cycle time.
pub record Keeps (t t' : Ton) : Type 0 where
  pub input : t'.input ≡ t.input
  pub preset : t'.pt_ms ≡ t.pt_ms
  pub mode : t'.mode ≡ t.mode
  pub cycle : t'.cycle_time_ms ≡ t.cycle_time_ms

pub execute-Keeps : (r : Readings) (t : Ton) → Keeps t (execute r t)
unfolding execute
execute-Keeps r t = ground arith
