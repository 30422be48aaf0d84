-- ===== src/FunctionBlocks/Timers/Tof/OffDelay.antt =====
-- A TOF with its input held off after a falling edge (timers.rs, `execute` of TOF).
use sens.Common.{
  ℕ, ◌-◌, ◌/◌, ◌≤◌, ◌<◌, ◌≡◌, refl, true, false, none, some, List, [], ◌∷◌, arith, ltb, Readings,
  elapsed_ms, IsChain, last_reading, le-last_reading, max_instant,
}
use sens.FunctionBlocks.Timers.Tof.{Tof, execute, scans}

-- The input fell at the instant `s`, and the last scan read the clock at `now`.
pub record IsFalling (pt s now : ℕ) (t : Tof) : Type 0 where
  pub preset : t.pt_ms ≡ pt
  pub off : t.input ≡ false
  pub seen : t.prev_input ≡ false
  pub output : t.output ≡ ltb (elapsed_ms now s) pt
  pub running : elapsed_ms now s < pt → (t.start_instant ≡ some s) × (t.et_ms ≡ elapsed_ms now s)
  pub over : pt ≤ elapsed_ms now s → t.start_instant ≡ none

execute-IsFalling :
    {pt s now : ℕ} {t : Tof} (r : Readings)
    → s ≤ now
    → now ≤ r.at_elapsed
    → r.at_elapsed < max_instant
    → IsFalling pt s now t
    → IsFalling pt s r.at_elapsed (execute r t)
unfolding execute
execute-IsFalling r a b c h = ground arith

-- The falling edge starts the timer.
edge-IsFalling :
    (r : Readings) (t : Tof)
    → t.input ≡ false
    → t.prev_input ≡ true
    → t.output ≡ true
    → IsFalling t.pt_ms r.at_start r.at_elapsed (execute r t)
unfolding execute
edge-IsFalling r t a b c = ground arith

scans-IsFalling :
    {pt s : ℕ} (now : ℕ) (rs : List Readings) (t : Tof)
    → s ≤ now
    → IsChain now rs
    → last_reading now rs < max_instant
    → IsFalling pt s now t
    → IsFalling pt s (last_reading now rs) (scans rs t)
unfolding scans
scans-IsFalling now [] t a c b h = h
scans-IsFalling now (r ∷ rs) t a c b h =
    scans-IsFalling r.at_elapsed rs (execute r t) (omega arith) c.2 b
      (execute-IsFalling r a (omega arith) (omega (arith, le-last_reading r.at_elapsed rs c.2)) h)

-- While the input is on, a scan has the output on, the elapsed time at 0 and no start kept, in
-- whatever state the timer was.
pub on_while_input :
    (r : Readings) (t : Tof)
    → t.input ≡ true
    → ((execute r t).output ≡ true) × ((execute r t).et_ms ≡ 0) × ((execute r t).prev_input ≡ true)
unfolding execute
on_while_input r t h = ground arith

-- Off-delay: a TOF is scanned with its input on, then the input falls at one scan and is held off
-- over any further scans, with clock readings in order and in range. Then the output is on exactly
-- if fewer milliseconds than the preset time have passed from the scan of the falling edge to the
-- last reading.
pub off_delay :
    (before r : Readings) (rs : List Readings) (t : Tof)
    → t.input ≡ true
    → r.at_start ≤ r.at_elapsed
    → IsChain r.at_elapsed rs
    → last_reading r.at_elapsed rs < max_instant
    → let held = execute before t in
      (scans (r ∷ rs) (record held { input = false })).output
      ≡ ltb ((last_reading r.at_elapsed rs - r.at_start) / 1000000) t.pt_ms
unfolding scans
off_delay before r rs t i a c b = ground (
  arith,
  (scans-IsFalling r.at_elapsed rs (execute r fallen) a c b (
      edge-IsFalling r fallen refl (on_while_input before t i).2
        (on_while_input before t i).0)).output,
  pt-execute before t,
)
  where
    fallen : Tof
    fallen = record (execute before t) { input = false }

    pt-execute : (r : Readings) (t : Tof) → (execute r t).pt_ms ≡ t.pt_ms
    pt-execute r t = unfold execute in ground arith
