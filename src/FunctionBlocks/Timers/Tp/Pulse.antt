-- ===== src/FunctionBlocks/Timers/Tp/Pulse.antt =====
-- A TP from a rising edge on, whatever its input does (timers.rs, `execute` of TP).
use sens.Common.{
  ℕ, ◌-◌, ◌/◌, ◌≤◌, ◌<◌, ◌≡◌, Bool, true, false, none, some, List, [], ◌∷◌, map, arith, Readings,
  elapsed_ms, IsChain, last_reading, le-last_reading, max_instant,
}
use sens.FunctionBlocks.Timers.Tp.{Tp, execute, scans}

-- The pulse runs since the instant `s`, and its last scan read the clock at `now`.
pub record IsPulsing (pt s now : ℕ) (t : Tp) : Type 0 where
  pub preset : t.pt_ms ≡ pt
  pub output : t.output ≡ true
  pub active : t.pulse_active ≡ true
  pub started : t.start_instant ≡ some s
  pub elapsed : t.et_ms ≡ elapsed_ms now s

abbrev readings : List (Bool × Readings) → List Readings
readings = map (λ e. e.1)

-- Before the preset time is reached, a scan keeps the pulse, with any input.
execute-IsPulsing :
    {pt s now : ℕ} {t : Tp} (r : Readings) (i : Bool)
    → s ≤ now
    → now ≤ r.at_elapsed
    → elapsed_ms r.at_elapsed s < pt
    → IsPulsing pt s now t
    → IsPulsing pt s r.at_elapsed (execute r (record t { input = i }))
unfolding execute
execute-IsPulsing r i a b c h = ground arith

edge-IsPulsing :
    (r : Readings) (t : Tp)
    → t.input ≡ true
    → t.prev_input ≡ false
    → t.pulse_active ≡ false
    → elapsed_ms r.at_elapsed r.at_start < t.pt_ms
    → IsPulsing t.pt_ms r.at_start r.at_elapsed (execute r t)
unfolding execute
edge-IsPulsing r t i p a c = ground arith

scans-IsPulsing :
    {pt s : ℕ} (now : ℕ) (xs : List (Bool × Readings)) (t : Tp)
    → s ≤ now
    → IsChain now (readings xs)
    → last_reading now (readings xs) < max_instant
    → elapsed_ms (last_reading now (readings xs)) s < pt
    → IsPulsing pt s now t
    → IsPulsing pt s (last_reading now (readings xs)) (scans xs t)
unfolding scans
scans-IsPulsing now [] t a c b e h = h
scans-IsPulsing now ((i, r) ∷ xs) t a c b e h =
    scans-IsPulsing r.at_elapsed xs (execute r (record t { input = i })) (omega arith) c.2 b e (
      execute-IsPulsing r i a (omega arith)
        (omega (arith, le-last_reading r.at_elapsed (readings xs) c.2)) h)

-- Once the preset time is reached, a scan ends the pulse, with any input.
execute-ends :
    {pt s now : ℕ} {t : Tp} (r : Readings) (i : Bool)
    → pt ≤ elapsed_ms r.at_elapsed s
    → IsPulsing pt s now t
    → let t' = execute r (record t { input = i }) in
      (t'.output ≡ false) × (t'.pulse_active ≡ false) × (t'.et_ms ≡ pt) × (t'.start_instant ≡ none)
unfolding execute
execute-ends r i c h = ground arith

-- A pulse lasts its preset time: a TP outside a pulse sees a rising edge at one scan and is scanned
-- further with any inputs, with clock readings in order and in range. While the milliseconds from
-- the edge to the last reading are less than the preset time, the output is on and the elapsed time
-- is those milliseconds: no input ends the pulse or starts it again.
pub pulse_lasts :
    (r : Readings) (xs : List (Bool × Readings)) (t : Tp)
    → t.input ≡ true
    → t.prev_input ≡ false
    → t.pulse_active ≡ false
    → r.at_start ≤ r.at_elapsed
    → IsChain r.at_elapsed (map (λ e. e.1) xs)
    → last_reading r.at_elapsed (map (λ e. e.1) xs) < max_instant
    → (last_reading r.at_elapsed (map (λ e. e.1) xs) - r.at_start) / 1000000 < t.pt_ms
    → let t' = scans xs (execute r t) in
      (t'.output ≡ true)
      × (t'.et_ms ≡ (last_reading r.at_elapsed (map (λ e. e.1) xs) - r.at_start) / 1000000)
pulse_lasts r xs t i p a m c b e =
    let pulse =
      scans-IsPulsing r.at_elapsed xs (execute r t) m c b (omega arith)
        (edge-IsPulsing r t i p a (omega (arith, le-last_reading r.at_elapsed (readings xs) c))) in
    (pulse.output, omega (arith, pulse.elapsed))

-- A pulse ends at its preset time: under the same conditions, at the first further scan at which
-- the milliseconds from the edge have reached the preset time, the output goes off, the pulse is
-- over and the elapsed time is the preset time, whatever the input is.
pub pulse_ends :
    (r : Readings) (xs : List (Bool × Readings)) (last : Readings) (i' : Bool) (t : Tp)
    → t.input ≡ true
    → t.prev_input ≡ false
    → t.pulse_active ≡ false
    → r.at_start ≤ r.at_elapsed
    → IsChain r.at_elapsed (map (λ e. e.1) xs)
    → last_reading r.at_elapsed (map (λ e. e.1) xs) < max_instant
    → (last_reading r.at_elapsed (map (λ e. e.1) xs) - r.at_start) / 1000000 < t.pt_ms
    → last.at_elapsed < max_instant
    → t.pt_ms ≤ (last.at_elapsed - r.at_start) / 1000000
    → let t' = execute last (record (scans xs (execute r t)) { input = i' }) in
      (t'.output ≡ false) × (t'.pulse_active ≡ false) × (t'.et_ms ≡ t.pt_ms)
pulse_ends r xs last i' t i p a m c b e fits reached =
    let pulse =
      scans-IsPulsing r.at_elapsed xs (execute r t) m c b (omega arith)
        (edge-IsPulsing r t i p a (omega (arith, le-last_reading r.at_elapsed (readings xs) c))) in
    let over = execute-ends last i' (omega arith) pulse in (over.0, over.1, over.2)
