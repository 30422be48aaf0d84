-- ===== src/FunctionBlocks/Timers/Tof/Restore.antt =====
-- TOF across a restart: what `deserialize_state` makes of what `serialize_state` wrote
-- (timers.rs, TOF).
use sens.Common.{
  ◌+◌, ◌-◌, ◌/◌, ◌≤◌, ◌<◌, ◌≡◌, true, false, none, List, [], ◌∷◌, arith, ltb, Readings, from_millis,
  max_instant,
}
use sens.Common.Json.{Json, JsonLaws, entry}
use sens.FunctionBlocks.Timers.Tof.{
  Tof, new, execute, scans, state_fields, serialize_state, deserialize_state, restart,
  restore_fields,
}

-- The numbers of a timer fit their `u64` fields.
pub record IsWord (t : Tof) : Type 0 where
  pub preset : t.pt_ms < 18446744073709551616
  pub elapsed : t.et_ms < 18446744073709551616

-- The input is off, and the output waits for an instant that the timer does not have.
record IsStuckOn (t : Tof) : Type 0 where
  off : t.input ≡ false
  seen : t.prev_input ≡ false
  unstarted : t.start_instant ≡ none
  output : t.output ≡ true

execute-IsStuckOn : (r : Readings) (t : Tof) → IsStuckOn t → IsStuckOn (execute r t)
unfolding execute
execute-IsStuckOn r t h = ground arith

scans-IsStuckOn : (rs : List Readings) (t : Tof) → IsStuckOn t → IsStuckOn (scans rs t)
unfolding scans
scans-IsStuckOn [] t h = h
scans-IsStuckOn (r ∷ rs) t h = scans-IsStuckOn rs (execute r t) (execute-IsStuckOn r t h)

module _ {Value : Type 0} (json : Json Value) (laws : JsonLaws json) where
  restore-state_fields :
      (t u : Tof)
      → IsWord t
      → restore_fields json (entry (state_fields json t)) u
        ≡ record t { start_instant = u.start_instant }
  unfolding restore_fields
  restore-state_fields t u w =
      simp (
        laws.as_bool-bool,
        laws.as_u64-number t.pt_ms w.preset,
        laws.as_u64-number t.et_ms w.elapsed,
      )

  -- Reading into any timer `u` what was written for a timer `t` whose numbers fit gives `t` again,
  -- but for the start instant: that is what `restart` makes of it.
  pub tof_round_trip :
      (r : Readings) (t u : Tof)
      → IsWord t
      → deserialize_state json r (serialize_state json t) u
        ≡ (restart r (record t { start_instant = u.start_instant }), true)
  unfolding deserialize_state serialize_state
  tof_round_trip r t u w = rw (laws.as_object-object, restore-state_fields t u w)

  -- A TOF that was saved while it timed the delay (input off and seen, output on, elapsed time
  -- between 0 and the preset time, both excluded) resumes where it stopped: restored at one instant
  -- and scanned at a later one, its output is on exactly if the saved elapsed time and the
  -- milliseconds since the restore together are less than the preset time.
  pub tof_resumes :
      (r r' : Readings) (t u : Tof)
      → IsWord t
      → t.input ≡ false
      → t.prev_input ≡ false
      → t.output ≡ true
      → 0 < t.et_ms
      → t.et_ms < t.pt_ms
      → from_millis t.et_ms ≤ r.at_start
      → r.at_start ≤ r'.at_elapsed
      → r'.at_elapsed < max_instant
      → (execute r' (deserialize_state json r (serialize_state json t) u).0).output
        ≡ ltb (t.et_ms + (r'.at_elapsed - r.at_start) / 1000000) t.pt_ms
  unfolding execute restart
  tof_resumes r r' t u w i p o pos under from later fits =
      rw (tof_round_trip r t u w) (ground arith)

  -- A TOF that was saved with its input off and seen, its output on and an elapsed time of 0
  -- milliseconds, as it is within a millisecond of the falling edge, is not started again when it
  -- is restored into a new timer: while the input stays off, the output never goes off, however
  -- long it is scanned.
  pub tof_at_zero_stays_on :
      (r : Readings) (rs : List Readings) (t : Tof)
      → IsWord t
      → t.input ≡ false
      → t.prev_input ≡ false
      → t.output ≡ true
      → t.et_ms ≡ 0
      → (scans rs (deserialize_state json r (serialize_state json t) (new t.pt_ms)).0).output ≡ true
  unfolding restart new
  tof_at_zero_stays_on r rs t w i p o z =
      rw (tof_round_trip r t (new t.pt_ms) w) (scans-IsStuckOn rs _ (ground arith)).output
