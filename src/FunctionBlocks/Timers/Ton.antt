-- ===== src/FunctionBlocks/Timers/Ton.antt =====
-- TON, the on-delay timer of src/scripting/function_blocks/timers.rs. Instants and durations are
-- nanoseconds; `&mut self` methods return the new timer.
pub mod Settled
pub mod WallClock
pub mod ScanCycle
pub mod Restore
use mathlib.Core.Option
use sens.Common.{
  unwrap_or, ℕ, ◌+◌, ◌-◌, ◌*◌, String, Bool, true, false, ◌&&◌, Option, none, some, List, [], ◌∷◌,
  ltb, leb, if◌then◌else◌, is_any, set_if, and_then, max, wrap64, elapsed_ms, from_millis, Readings,
}
use sens.Common.Int.{pos}
use sens.Common.Json.{Json, u64_field, bool_field}

pub data TimerMode : Type 0 where
  wall_clock scan_cycle : TimerMode

abbrev pub default_cycle_time_ms : ℕ
default_cycle_time_ms = 10

pub record Ton : Type 0 where
  pub pt_ms : ℕ
  pub et_ms : ℕ
  pub input : Bool
  pub output : Bool
  pub start_instant : Option ℕ
  pub prev_input : Bool
  pub mode : TimerMode
  pub scan_count : ℕ
  pub cycle_time_ms : ℕ

unfoldable pub new : ℕ → Ton
new preset_ms = record {
  pt_ms = preset_ms;
  et_ms = 0;
  input = false;
  output = false;
  start_instant = none;
  prev_input = false;
  mode = wall_clock;
  scan_count = 0;
  cycle_time_ms = default_cycle_time_ms;
}

unfoldable pub with_scan_cycle : ℕ → ℕ → Ton
unfolding new
with_scan_cycle preset_ms cycle_time_ms = record (new preset_ms) {
  mode = scan_cycle;
  cycle_time_ms = max cycle_time_ms 1;
}

unfoldable pub set_mode : TimerMode → Ton → Ton
set_mode m t = record t { mode = m }

unfoldable pub set_cycle_time : ℕ → Ton → Ton
set_cycle_time ms t = record t { cycle_time_ms = max ms 1 }

-- The rising edge: the timer starts in its mode.
start : Readings → Ton → Ton
start r t = elim t.mode [
  | wall_clock ↦ record t { start_instant = some r.at_start; et_ms = 0 }
  | scan_cycle ↦ record t { scan_count = 0; et_ms = 0 }
]

-- The elapsed time by the mode. The `u64` sum and product wrap in a release build.
advance : Readings → Ton → Ton
advance r t = elim t.mode [
  | wall_clock ↦ elim t.start_instant [
    | none ↦ t
    | some s ↦ record t { et_ms = elapsed_ms r.at_elapsed s }
  ]
  | scan_cycle ↦ record t {
    scan_count = wrap64 (t.scan_count + 1);
    et_ms = wrap64 (wrap64 (t.scan_count + 1) * t.cycle_time_ms);
  }
]

-- The preset time is reached.
expire : Ton → Ton
expire t = if leb t.pt_ms t.et_ms then record t { output = true; et_ms = t.pt_ms } else t

-- The input is off.
stop : Ton → Ton
stop t = record t { start_instant = none; scan_count = 0; et_ms = 0; output = false }

unfoldable pub execute : Readings → Ton → Ton
unfolding start advance expire stop
execute r t =
    let started = if t.prev_input then t else start r t in
    let t' = if t.input then expire (advance r started) else stop t in
    record t' { prev_input = t.input }

-- The scan cycle's calls of `execute`, each with its readings, between which no input changes.
unfoldable pub scans : List Readings → Ton → Ton
scans [] t = t
scans (r ∷ rs) t = scans rs (execute r t)

unfoldable pub reset : Ton → Ton
reset t = record t {
  et_ms = 0;
  output = false;
  start_instant = none;
  scan_count = 0;
  input = false;
  prev_input = false;
}

abbrev pub input_names : List String
input_names = "IN" ∷ "PT" ∷ "MODE" ∷ "CYCLE_TIME" ∷ []

abbrev pub output_names : List String
output_names = "Q" ∷ "ET" ∷ []

-- How serde writes a mode.
abbrev pub mode_name : TimerMode → String
mode_name wall_clock = "wall_clock"
mode_name scan_cycle = "scan_cycle"

-- The spellings that the `MODE` input takes.
pub parse_mode : String → Option TimerMode
parse_mode s =
    if is_any s ("wall_clock" ∷ "wallclock" ∷ [])
    then some wall_clock
    else if is_any s ("scan_cycle" ∷ "scancycle" ∷ [])
    then some scan_cycle
    else none

-- A restored state takes any other name for the wall clock.
restore_mode : String → TimerMode
restore_mode s = if is_any s ("scan_cycle" ∷ []) then scan_cycle else wall_clock

-- A running wall-clock timer starts again so as to keep its elapsed time.
pub restart : Readings → Ton → Ton
restart r t = elim t.mode [
  | wall_clock ↦
      if t.input && (ltb 0 t.et_ms && ltb t.et_ms t.pt_ms)
      then record t { start_instant = some (r.at_start - from_millis t.et_ms) }
      else t
  | scan_cycle ↦ t
]

module _ {Value : Type 0} (json : Json Value) where
  open json use {bool, number, string, object, as_bool, as_u64, as_str, as_object}

  unfoldable pub get_output : String → Ton → Option Value
  get_output name t =
      if is_any name ("Q" ∷ "q" ∷ "output" ∷ [])
      then some (bool t.output)
      else if is_any name ("ET" ∷ "et" ∷ "elapsed" ∷ [])
      then some (number (pos t.et_ms))
      else none

  unfoldable pub set_input : String → Value → Ton → Ton × Bool
  unfolding parse_mode
  set_input name value t =
      if is_any name ("IN" ∷ "in" ∷ "input" ∷ [])
      then set_if (as_bool value) (λ v. (record t { input = v }, true)) (t, false)
      else if is_any name ("PT" ∷ "pt" ∷ "preset" ∷ [])
      then set_if (as_u64 value) (λ v. (record t { pt_ms = v }, true)) (t, false)
      else if is_any name ("MODE" ∷ "mode" ∷ [])
      then set_if (and_then (as_str value) parse_mode) (λ m. (record t { mode = m }, true))
          (t, false)
      else if is_any name ("CYCLE_TIME" ∷ "cycle_time" ∷ [])
      then set_if (as_u64 value) (λ v. (record t { cycle_time_ms = max v 1 }, true)) (t, false)
      else (t, false)

  abbrev pub state_fields : Ton → List (String × Value)
  state_fields t =
      ("pt_ms", number (pos t.pt_ms))
      ∷ ("et_ms", number (pos t.et_ms))
      ∷ ("input", bool t.input)
      ∷ ("output", bool t.output)
      ∷ ("prev_input", bool t.prev_input)
      ∷ ("mode", string (mode_name t.mode))
      ∷ ("scan_count", number (pos t.scan_count))
      ∷ ("cycle_time_ms", number (pos t.cycle_time_ms))
      ∷ []

  unfoldable pub serialize_state : Ton → Value
  serialize_state t = object (state_fields t)

  -- Each field that the object holds.
  restore_fields : (String → Option Value) → Ton → Ton
  unfolding restore_mode
  restore_fields obj t = record t {
    pt_ms = u64_field json obj "pt_ms" t.pt_ms;
    et_ms = u64_field json obj "et_ms" t.et_ms;
    input = bool_field json obj "input" t.input;
    output = bool_field json obj "output" t.output;
    prev_input = bool_field json obj "prev_input" t.prev_input;
    mode = unwrap_or (Option.map restore_mode (and_then (obj "mode") as_str)) t.mode;
    scan_count = u64_field json obj "scan_count" t.scan_count;
    cycle_time_ms =
        unwrap_or (Option.map (λ v. max v 1) (and_then (obj "cycle_time_ms") as_u64))
          t.cycle_time_ms;
  }

  unfoldable pub deserialize_state : Readings → Value → Ton → Ton × Bool
  unfolding restore_fields
  deserialize_state r state t =
      set_if (as_object state) (λ obj. (restart r (restore_fields obj t), true)) (t, false)
