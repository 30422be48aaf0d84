-- ===== src/FunctionBlocks/Timers/Tp.antt =====
-- TP, the pulse timer of src/scripting/function_blocks/timers.rs.
pub mod Pulse
pub mod Restore
use sens.Common.{
  ℕ, ◌-◌, String, Bool, true, false, not, ◌&&◌, Option, none, some, List, [], ◌∷◌, ltb, leb,
  if◌then◌else◌, is_any, set_if, Readings, elapsed_ms, from_millis,
}
use sens.Common.Int.{pos}
use sens.Common.Json.{Json, u64_field, bool_field}

pub record Tp : Type 0 where
  pub pt_ms : ℕ
  pub et_ms : ℕ
  pub input : Bool
  pub output : Bool
  pub start_instant : Option ℕ
  pub prev_input : Bool
  pub pulse_active : Bool

unfoldable pub new : ℕ → Tp
new preset_ms = record {
  pt_ms = preset_ms;
  et_ms = 0;
  input = false;
  output = false;
  start_instant = none;
  prev_input = false;
  pulse_active = false;
}

-- A rising edge outside a pulse starts one.
trigger : Readings → Tp → Tp
trigger r t =
    if t.input && (not t.prev_input && not t.pulse_active)
    then record t { start_instant = some r.at_start; pulse_active = true; output = true; et_ms = 0 }
    else t

-- The elapsed time of the pulse, and its end.
advance : Readings → Tp → Tp
advance r t =
    if t.pulse_active
    then (elim t.start_instant [
      | none ↦ t
      | some s ↦
          if leb t.pt_ms (elapsed_ms r.at_elapsed s)
          then record t {
            output = false;
            et_ms = t.pt_ms;
            pulse_active = false;
            start_instant = none;
          }
          else record t { et_ms = elapsed_ms r.at_elapsed s }
    ])
    else record t { et_ms = 0 }

unfoldable pub execute : Readings → Tp → Tp
unfolding trigger advance
execute r t = let t' = advance r (trigger r t) in record t' { prev_input = t'.input }

-- Scans in order, before each of which the input is set.
unfoldable pub scans : List (Bool × Readings) → Tp → Tp
scans [] t = t
scans ((i, r) ∷ rs) t = scans rs (execute r (record t { input = i }))

unfoldable pub reset : Tp → Tp
reset t = record t {
  et_ms = 0;
  output = false;
  start_instant = none;
  input = false;
  prev_input = false;
  pulse_active = false;
}

abbrev pub input_names : List String
input_names = "IN" ∷ "PT" ∷ []

abbrev pub output_names : List String
output_names = "Q" ∷ "ET" ∷ []

-- An active pulse starts again so as to keep its elapsed time.
pub restart : Readings → Tp → Tp
restart r t =
    if t.pulse_active && (ltb 0 t.et_ms && ltb t.et_ms t.pt_ms)
    then record t { start_instant = some (r.at_start - from_millis t.et_ms) }
    else t

module _ {Value : Type 0} (json : Json Value) where
  open json use {bool, number, object, as_bool, as_u64, as_object}

  unfoldable pub get_output : String → Tp → Option Value
  get_output name t =
      if is_any name ("Q" ∷ "q" ∷ "output" ∷ [])
      then some (bool t.output)
      else if is_any name ("ET" ∷ "et" ∷ "elapsed" ∷ [])
      then some (number (pos t.et_ms))
      else none

  unfoldable pub set_input : String → Value → Tp → Tp × Bool
  set_input name value t =
      if is_any name ("IN" ∷ "in" ∷ "input" ∷ [])
      then set_if (as_bool value) (λ v. (record t { input = v }, true)) (t, false)
      else if is_any name ("PT" ∷ "pt" ∷ "preset" ∷ [])
      then set_if (as_u64 value) (λ v. (record t { pt_ms = v }, true)) (t, false)
      else (t, false)

  abbrev pub state_fields : Tp → List (String × Value)
  state_fields t =
      ("pt_ms", number (pos t.pt_ms))
      ∷ ("et_ms", number (pos t.et_ms))
      ∷ ("input", bool t.input)
      ∷ ("output", bool t.output)
      ∷ ("prev_input", bool t.prev_input)
      ∷ ("pulse_active", bool t.pulse_active)
      ∷ []

  unfoldable pub serialize_state : Tp → Value
  serialize_state t = object (state_fields t)

  -- Each field that the object holds.
  restore_fields : (String → Option Value) → Tp → Tp
  restore_fields obj t = record t {
    pt_ms = u64_field json obj "pt_ms" t.pt_ms;
    et_ms = u64_field json obj "et_ms" t.et_ms;
    input = bool_field json obj "input" t.input;
    output = bool_field json obj "output" t.output;
    prev_input = bool_field json obj "prev_input" t.prev_input;
    pulse_active = bool_field json obj "pulse_active" t.pulse_active;
  }

  unfoldable pub deserialize_state : Readings → Value → Tp → Tp × Bool
  unfolding restore_fields
  deserialize_state r state t =
      set_if (as_object state) (λ obj. (restart r (restore_fields obj t), true)) (t, false)
