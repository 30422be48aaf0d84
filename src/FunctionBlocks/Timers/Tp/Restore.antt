-- ===== src/FunctionBlocks/Timers/Tp/Restore.antt =====
-- TP across a restart: what `deserialize_state` makes of what `serialize_state` wrote
-- (timers.rs, TP).
use sens.Common.{
  refl, some, ◌+◌, ◌-◌, ◌/◌, ◌≤◌, ◌<◌, ◌≡◌, Bool, true, none, List, [], ◌∷◌, arith, ltb, Readings,
  from_millis, max_instant,
}
use sens.Common.Json.{Json, JsonLaws, entry}
use sens.FunctionBlocks.Timers.Tp.{
  Tp, new, execute, scans, state_fields, serialize_state, deserialize_state, restart,
  restore_fields,
}

-- The numbers of a timer fit their `u64` fields.
pub record IsWord (t : Tp) : Type 0 where
  pub preset : t.pt_ms < 18446744073709551616
  pub elapsed : t.et_ms < 18446744073709551616

-- The pulse waits for an instant that the timer does not have.
record IsStuckOn (t : Tp) : Type 0 where
  active : t.pulse_active ≡ true
  unstarted : t.start_instant ≡ none
  output : t.output ≡ true

execute-IsStuckOn :
    (r : Readings) (i : Bool) (t : Tp)
    → IsStuckOn t
    → IsStuckOn (execute r (record t { input = i }))
unfolding execute
execute-IsStuckOn r i t h = ground arith

scans-IsStuckOn : (xs : List (Bool × Readings)) (t : Tp) → IsStuckOn t → IsStuckOn (scans xs t)
unfolding scans
scans-IsStuckOn [] t h = h
scans-IsStuckOn ((i, r) ∷ xs) t h =
    scans-IsStuckOn xs (execute r (record t { input = i })) (execute-IsStuckOn r i t h)

restart-started :
    (r : Readings) (t : Tp)
    → t.pulse_active ≡ true
    → 0 < t.et_ms
    → t.et_ms < t.pt_ms
    → restart r t ≡ record t { start_instant = some (r.at_start - from_millis t.et_ms) }
unfolding restart
restart-started r t a pos under = ground arith

execute-started :
    (r r' : Readings) (t : Tp)
    → t.pulse_active ≡ true
    → t.output ≡ true
    → from_millis t.et_ms ≤ r.at_start
    → r.at_start ≤ r'.at_elapsed
    → r'.at_elapsed < max_instant
    → t.start_instant ≡ some (r.at_start - from_millis t.et_ms)
    → (execute r' t).output ≡ ltb (t.et_ms + (r'.at_elapsed - r.at_start) / 1000000) t.pt_ms
unfolding execute
execute-started r r' t a o from later fits s = ground arith

module _ {Value : Type 0} (json : Json Value) (laws : JsonLaws json) where
  restore-state_fields :
      (t u : Tp)
      → IsWord t
      → restore_fields json (entry (state_fields json t)) u
        ≡ record t { start_instant = u.start_instant }
  unfolding restore_fields
  restore-state_fields t u w =
      simp (
        laws.as_bool-bool,
        laws.as_u64-number t.pt_ms w.preset,
        laws.as_u64-number t.et_ms w.elapsed,
      )

  -- Reading into any timer `u` what was written for a timer `t` whose numbers fit gives `t` again,
  -- but for the start instant: that is what `restart` makes of it.
  pub tp_round_trip :
      (r : Readings) (t u : Tp)
      → IsWord t
      → deserialize_state json r (serialize_state json t) u
        ≡ (restart r (record t { start_instant = u.start_instant }), true)
  unfolding deserialize_state serialize_state
  tp_round_trip r t u w = rw (laws.as_object-object, restore-state_fields t u w)

  -- A TP that was saved in a pulse (output on, elapsed time between 0 and the preset time, both
  -- excluded) resumes where it stopped: restored at one instant and scanned at a later one, its
  -- output is on exactly if the saved elapsed time and the milliseconds since the restore together
  -- are less than the preset time.
  pub tp_resumes :
      (r r' : Readings) (t u : Tp)
      → IsWord t
      → t.pulse_active ≡ true
      → t.output ≡ true
      → 0 < t.et_ms
      → t.et_ms < t.pt_ms
      → from_millis t.et_ms ≤ r.at_start
      → r.at_start ≤ r'.at_elapsed
      → r'.at_elapsed < max_instant
      → (execute r' (deserialize_state json r (serialize_state json t) u).0).output
        ≡ ltb (t.et_ms + (r'.at_elapsed - r.at_start) / 1000000) t.pt_ms
  tp_resumes r r' t u w a o pos under from later fits = rw (tp_round_trip r t u w) (
      rw (restart-started r (record t { start_instant = u.start_instant }) a pos under) (
        execute-started r r' (record t { start_instant = some (r.at_start - from_millis t.et_ms) })
          a o from later fits refl))

  -- A TP that was saved in a pulse with an elapsed time of 0 milliseconds, as it is within a
  -- millisecond of the edge, is not started again when it is restored into a new timer: its output
  -- stays on for ever, whatever its input does and however long it is scanned.
  pub tp_at_zero_stays_on :
      (r : Readings) (xs : List (Bool × Readings)) (t : Tp)
      → IsWord t
      → t.pulse_active ≡ true
      → t.output ≡ true
      → t.et_ms ≡ 0
      → (scans xs (deserialize_state json r (serialize_state json t) (new t.pt_ms)).0).output ≡ true
  unfolding restart new
  tp_at_zero_stays_on r xs t w a o z =
      rw (tp_round_trip r t (new t.pt_ms) w) (scans-IsStuckOn xs _ (ground arith)).output
