-- ===== src/FunctionBlocks/Timers/Ton/WallClock.antt =====
-- A TON under the wall clock, with its input held on (timers.rs, `execute` of TON).
use sens.Common.{
  ℕ, ◌-◌, ◌/◌, ◌≤◌, ◌<◌, min, ◌≡◌, true, false, some, List, [], ◌∷◌, arith, leb, Readings,
  elapsed_ms, IsChain, last_reading, le-last_reading, max_instant,
}
use sens.FunctionBlocks.Timers.Ton.{Ton, wall_clock, execute, scans}

-- The timer runs since the instant `s`, and its last scan read the clock at `now`.
pub record IsRunning (pt s now : ℕ) (t : Ton) : Type 0 where
  pub preset : t.pt_ms ≡ pt
  pub on : t.input ≡ true
  pub seen : t.prev_input ≡ true
  pub by_clock : t.mode ≡ wall_clock
  pub started : t.start_instant ≡ some s
  pub output : t.output ≡ leb pt (elapsed_ms now s)
  pub elapsed : t.et_ms ≡ min pt (elapsed_ms now s)

execute-IsRunning :
    {pt s now : ℕ} {t : Ton} (r : Readings)
    → s ≤ now
    → now ≤ r.at_elapsed
    → r.at_elapsed < max_instant
    → IsRunning pt s now t
    → IsRunning pt s r.at_elapsed (execute r t)
unfolding execute
execute-IsRunning r a b c h = ground arith

-- The rising edge starts the timer.
edge-IsRunning :
    (r : Readings) (t : Ton)
    → t.input ≡ true
    → t.prev_input ≡ false
    → t.output ≡ false
    → t.mode ≡ wall_clock
    → IsRunning t.pt_ms r.at_start r.at_elapsed (execute r t)
unfolding execute
edge-IsRunning r t a b c d = ground arith

scans-IsRunning :
    {pt s : ℕ} (now : ℕ) (rs : List Readings) (t : Ton)
    → s ≤ now
    → IsChain now rs
    → last_reading now rs < max_instant
    → IsRunning pt s now t
    → IsRunning pt s (last_reading now rs) (scans rs t)
unfolding scans
scans-IsRunning now [] t a c b h = h
scans-IsRunning now (r ∷ rs) t a c b h =
    scans-IsRunning r.at_elapsed rs (execute r t) (omega arith) c.2 b
      (execute-IsRunning r a (omega arith) (omega (arith, le-last_reading r.at_elapsed rs c.2)) h)

-- On-delay: a wall-clock TON whose output is off sees a rising edge of its input at one scan and
-- has the input held on over any further scans, with clock readings in order and in range. Then
-- the output is on exactly if the milliseconds from the edge to the last reading have reached the
-- preset time, and the elapsed time is those milliseconds, capped at the preset time.
pub on_delay :
    (r : Readings) (rs : List Readings) (t : Ton)
    → t.input ≡ true
    → t.prev_input ≡ false
    → t.output ≡ false
    → t.mode ≡ wall_clock
    → r.at_start ≤ r.at_elapsed
    → IsChain r.at_elapsed rs
    → last_reading r.at_elapsed rs < max_instant
    → let now = last_reading r.at_elapsed rs in
      let t' = scans (r ∷ rs) t in
      (t'.output ≡ leb t.pt_ms ((now - r.at_start) / 1000000))
      × (t'.et_ms ≡ min t.pt_ms ((now - r.at_start) / 1000000))
unfolding scans
on_delay r rs t i p o m a c b =
    ground (arith, scans-IsRunning r.at_elapsed rs (execute r t) a c b (edge-IsRunning r t i p o m))
