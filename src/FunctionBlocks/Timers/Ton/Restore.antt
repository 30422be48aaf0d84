-- ===== src/FunctionBlocks/Timers/Ton/Restore.antt =====
-- TON across a restart: what `deserialize_state` makes of what `serialize_state` wrote
-- (timers.rs, TON).
use sens.Common.{
  ◌+◌, ◌-◌, ◌/◌, ◌≤◌, ◌<◌, min, max, ◌≡◌, refl, true, false, none, List, [], ◌∷◌, arith, leb,
  Readings, from_millis, max_instant,
}
use sens.Common.Json.{entry, Json, JsonLaws}
use sens.FunctionBlocks.Timers.Ton.{
  new, state_fields, Ton, TimerMode, wall_clock, scan_cycle, execute, scans, serialize_state,
  deserialize_state, restart, mode_name, restore_mode, restore_fields,
}

-- The numbers of a timer fit their `u64` fields, and the cycle time is at least 1.
pub record IsWord (t : Ton) : Type 0 where
  pub preset : t.pt_ms < 18446744073709551616
  pub elapsed : t.et_ms < 18446744073709551616
  pub scans_fit : t.scan_count < 18446744073709551616
  pub cycle_fit : t.cycle_time_ms < 18446744073709551616
  pub cycle_pos : 0 < t.cycle_time_ms

restore-mode_name : (m : TimerMode) → restore_mode (mode_name m) ≡ m
unfolding restore_mode
restore-mode_name wall_clock = refl
restore-mode_name scan_cycle = refl

-- The timer waits for an instant that it does not have.
record IsStalled (t : Ton) : Type 0 where
  by_clock : t.mode ≡ wall_clock
  on : t.input ≡ true
  seen : t.prev_input ≡ true
  unstarted : t.start_instant ≡ none
  at_zero : t.et_ms ≡ 0
  output : t.output ≡ false
  preset : 0 < t.pt_ms

execute-IsStalled : (r : Readings) (t : Ton) → IsStalled t → IsStalled (execute r t)
unfolding execute
execute-IsStalled r t h = ground arith

scans-IsStalled : (rs : List Readings) (t : Ton) → IsStalled t → IsStalled (scans rs t)
unfolding scans
scans-IsStalled [] t h = h
scans-IsStalled (r ∷ rs) t h = scans-IsStalled rs (execute r t) (execute-IsStalled r t h)

module _ {Value : Type 0} (json : Json Value) (laws : JsonLaws json) where
  restore-state_fields :
      (t u : Ton)
      → IsWord t
      → restore_fields json (entry (state_fields json t)) u
        ≡ record t { start_instant = u.start_instant }
  unfolding restore_fields
  restore-state_fields t u w = simp (
    laws.as_bool-bool,
    laws.as_str-string,
    laws.as_u64-number t.pt_ms w.preset,
    laws.as_u64-number t.et_ms w.elapsed,
    laws.as_u64-number t.scan_count w.scans_fit,
    laws.as_u64-number t.cycle_time_ms w.cycle_fit,
    restore-mode_name,
    positive,
  )
    where
      positive : max t.cycle_time_ms 1 ≡ t.cycle_time_ms
      positive = omega (arith, w.cycle_pos)

  -- Reading into any timer `u` what was written for a timer `t` whose numbers fit gives `t` again,
  -- but for the start instant: that is what `restart` makes of it.
  pub ton_round_trip :
      (r : Readings) (t u : Ton)
      → IsWord t
      → deserialize_state json r (serialize_state json t) u
        ≡ (restart r (record t { start_instant = u.start_instant }), true)
  unfolding deserialize_state serialize_state
  ton_round_trip r t u w = rw (laws.as_object-object, restore-state_fields t u w)

  -- A wall-clock TON that was saved while timing (input on and seen, output off, elapsed time
  -- between 0 and the preset time, both excluded) resumes where it stopped: restored at one instant
  -- and scanned at a later one, its elapsed time is the saved one plus the milliseconds since the
  -- restore, capped at the preset time, and its output is on exactly if that sum has reached the
  -- preset time.
  pub ton_resumes :
      (r r' : Readings) (t u : Ton)
      → IsWord t
      → t.mode ≡ wall_clock
      → t.input ≡ true
      → t.prev_input ≡ true
      → t.output ≡ false
      → 0 < t.et_ms
      → t.et_ms < t.pt_ms
      → from_millis t.et_ms ≤ r.at_start
      → r.at_start ≤ r'.at_elapsed
      → r'.at_elapsed < max_instant
      → let t' = execute r' (deserialize_state json r (serialize_state json t) u).0 in
        let elapsed = t.et_ms + (r'.at_elapsed - r.at_start) / 1000000 in
        (t'.et_ms ≡ min t.pt_ms elapsed) × (t'.output ≡ leb t.pt_ms elapsed)
  unfolding execute restart
  ton_resumes r r' t u w m i p o pos under from later fits =
      rw (ton_round_trip r t u w) (ground arith)

  -- A wall-clock TON that was saved with its input on and seen, its output off and an elapsed time
  -- of 0 milliseconds, as it is within a millisecond of the rising edge, is not started again when
  -- it is restored into a new timer: while the input stays on, its output never comes on, however
  -- long it is scanned.
  pub ton_at_zero_stalls :
      (r : Readings) (rs : List Readings) (t : Ton)
      → IsWord t
      → t.mode ≡ wall_clock
      → t.input ≡ true
      → t.prev_input ≡ true
      → t.output ≡ false
      → t.et_ms ≡ 0
      → 0 < t.pt_ms
      → (scans rs (deserialize_state json r (serialize_state json t) (new t.pt_ms)).0).output
        ≡ false
  unfolding restart new
  ton_at_zero_stalls r rs t w m i p o z pos =
      rw (ton_round_trip r t (new t.pt_ms) w) (scans-IsStalled rs _ (ground arith)).output
