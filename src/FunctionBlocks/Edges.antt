-- ===== src/FunctionBlocks/Edges.antt =====
-- src/scripting/function_blocks/edge_triggers.rs: R_TRIG and F_TRIG, which share a state.
pub mod Laws
use sens.Common.{
  String, Bool, true, false, not, ◌&&◌, Option, none, some, List, [], ◌∷◌, if◌then◌else◌, is_any,
  set_if,
}
use sens.Common.Json.{Json, bool_field}

-- `R_TRIG` and `F_TRIG` have the same fields.
pub record Trig : Type 0 where
  pub clk : Bool
  pub q : Bool
  pub prev_clk : Bool

unfoldable pub new : Trig
new = record { clk = false; q = false; prev_clk = false }

unfoldable pub execute_r_trig : Trig → Trig
execute_r_trig t = record t { q = t.clk && not t.prev_clk; prev_clk = t.clk }

unfoldable pub execute_f_trig : Trig → Trig
execute_f_trig t = record t { q = not t.clk && t.prev_clk; prev_clk = t.clk }

unfoldable pub reset : Trig → Trig
reset t = record t { clk = false; q = false; prev_clk = false }

abbrev pub input_names : List String
input_names = "CLK" ∷ []

abbrev pub output_names : List String
output_names = "Q" ∷ []

module _ {Value : Type 0} (json : Json Value) where
  open json use {bool, object, as_bool, as_object}

  unfoldable pub get_output : String → Trig → Option Value
  get_output name t = if is_any name ("Q" ∷ "q" ∷ "output" ∷ []) then some (bool t.q) else none

  unfoldable pub set_input : String → Value → Trig → Trig × Bool
  set_input name value t =
      if is_any name ("CLK" ∷ "clk" ∷ "clock" ∷ "IN" ∷ "in" ∷ "input" ∷ [])
      then set_if (as_bool value) (λ v. (record t { clk = v }, true)) (t, false)
      else (t, false)

  abbrev pub state_fields : Trig → List (String × Value)
  state_fields t = ("clk", bool t.clk) ∷ ("q", bool t.q) ∷ ("prev_clk", bool t.prev_clk) ∷ []

  unfoldable pub serialize_state : Trig → Value
  serialize_state t = object (state_fields t)

  restore_fields : (String → Option Value) → Trig → Trig
  restore_fields obj t = record t {
    clk = bool_field json obj "clk" t.clk;
    q = bool_field json obj "q" t.q;
    prev_clk = bool_field json obj "prev_clk" t.prev_clk;
  }

  unfoldable pub deserialize_state : Value → Trig → Trig × Bool
  unfolding restore_fields
  deserialize_state state t =
      set_if (as_object state) (λ obj. (restore_fields obj t, true)) (t, false)
