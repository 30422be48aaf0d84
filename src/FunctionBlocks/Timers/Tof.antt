-- ===== src/FunctionBlocks/Timers/Tof.antt =====
-- TOF, the off-delay timer of src/scripting/function_blocks/timers.rs.
pub mod OffDelay
pub mod Restore
use sens.Common.{
  ℕ, ◌-◌, String, Bool, true, false, not, ◌&&◌, Option, none, some, List, [], ◌∷◌, ltb, leb,
  if◌then◌else◌, is_any, set_if, elapsed_ms, from_millis, Readings,
}
use sens.Common.Int.{pos}
use sens.Common.Json.{Json, u64_field, bool_field}

pub record Tof : Type 0 where
  pub pt_ms : ℕ
  pub et_ms : ℕ
  pub input : Bool
  pub output : Bool
  pub start_instant : Option ℕ
  pub prev_input : Bool

unfoldable pub new : ℕ → Tof
new preset_ms = record {
  pt_ms = preset_ms;
  et_ms = 0;
  input = false;
  output = false;
  start_instant = none;
  prev_input = false;
}

-- The input is on.
hold : Tof → Tof
hold t = record t { output = true; start_instant = none; et_ms = 0 }

-- The falling edge starts the timer.
start : Readings → Tof → Tof
start r t = record t { start_instant = some r.at_start; et_ms = 0 }

-- The elapsed time of a running timer, and the end of the delay.
advance : Readings → Tof → Tof
advance r t = elim t.start_instant [
  | none ↦ if not t.output then record t { et_ms = 0 } else t
  | some s ↦
      if leb t.pt_ms (elapsed_ms r.at_elapsed s)
      then record t { output = false; et_ms = t.pt_ms; start_instant = none }
      else record t { et_ms = elapsed_ms r.at_elapsed s }
]

unfoldable pub execute : Readings → Tof → Tof
unfolding hold start advance
execute r t =
    let started = if t.prev_input then start r t else t in
    let t' = if t.input then hold t else advance r started in record t' { prev_input = t.input }

-- Scans with the readings in order, between which no input changes.
unfoldable pub scans : List Readings → Tof → Tof
scans [] t = t
scans (r ∷ rs) t = scans rs (execute r t)

unfoldable pub reset : Tof → Tof
reset t = record t {
  et_ms = 0;
  output = false;
  start_instant = none;
  input = false;
  prev_input = false;
}

abbrev pub input_names : List String
input_names = "IN" ∷ "PT" ∷ []

abbrev pub output_names : List String
output_names = "Q" ∷ "ET" ∷ []

-- A running timer starts again so as to keep its elapsed time.
pub restart : Readings → Tof → Tof
restart r t =
    if not t.input && (t.output && (ltb 0 t.et_ms && ltb t.et_ms t.pt_ms))
    then record t { start_instant = some (r.at_start - from_millis t.et_ms) }
    else t

module _ {Value : Type 0} (json : Json Value) where
  open json use {bool, number, object, as_bool, as_u64, as_object}

  unfoldable pub get_output : String → Tof → Option Value
  get_output name t =
      if is_any name ("Q" ∷ "q" ∷ "output" ∷ [])
      then some (bool t.output)
      else if is_any name ("ET" ∷ "et" ∷ "elapsed" ∷ [])
      then some (number (pos t.et_ms))
      else none

  unfoldable pub set_input : String → Value → Tof → Tof × Bool
  set_input name value t =
      if is_any name ("IN" ∷ "in" ∷ "input" ∷ [])
      then set_if (as_bool value) (λ v. (record t { input = v }, true)) (t, false)
      else if is_any name ("PT" ∷ "pt" ∷ "preset" ∷ [])
      then set_if (as_u64 value) (λ v. (record t { pt_ms = v }, true)) (t, false)
      else (t, false)

  abbrev pub state_fields : Tof → List (String × Value)
  state_fields t =
      ("pt_ms", number (pos t.pt_ms))
      ∷ ("et_ms", number (pos t.et_ms))
      ∷ ("input", bool t.input)
      ∷ ("output", bool t.output)
      ∷ ("prev_input", bool t.prev_input)
      ∷ []

  unfoldable pub serialize_state : Tof → Value
  serialize_state t = object (state_fields t)

  -- Each field that the object holds.
  restore_fields : (String → Option Value) → Tof → Tof
  restore_fields obj t = record t {
    pt_ms = u64_field json obj "pt_ms" t.pt_ms;
    et_ms = u64_field json obj "et_ms" t.et_ms;
    input = bool_field json obj "input" t.input;
    output = bool_field json obj "output" t.output;
    prev_input = bool_field json obj "prev_input" t.prev_input;
  }

  unfoldable pub deserialize_state : Readings → Value → Tof → Tof × Bool
  unfolding restore_fields
  deserialize_state r state t =
      set_if (as_object state) (λ obj. (restart r (restore_fields obj t), true)) (t, false)
