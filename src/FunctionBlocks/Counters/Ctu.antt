-- ===== src/FunctionBlocks/Counters/Ctu.antt =====
-- CTU, the up counter of src/scripting/function_blocks/counters.rs. An `i32` is an integer.
pub mod Laws
use sens.Common.{
  String, Bool, true, false, not, ◌&&◌, Option, none, some, List, [], ◌∷◌, if◌then◌else◌, is_any,
  set_if,
}
use sens.Common.Int.{sub_ℕ, ℤ, pos, ◌+ℤ◌, ltb_ℤ, leb_ℤ, i32_max, as_i32}
use sens.Common.Json.{Json, i64_field, bool_field}

pub record Ctu : Type 0 where
  pub pv : ℤ
  pub cv : ℤ
  pub cu : Bool
  pub reset : Bool
  pub q : Bool
  pub prev_cu : Bool

unfoldable pub new : ℤ → Ctu
new preset = record {
  pv = preset;
  cv = pos 0;
  cu = false;
  reset = false;
  q = false;
  prev_cu = false;
}

-- The count after a scan: a reset goes before a rising edge, and the count stops at the maximum.
next_cv : Ctu → ℤ
unfolding sub_ℕ
next_cv c =
    if c.reset
    then pos 0
    else if c.cu && not c.prev_cu
    then (if ltb_ℤ c.cv i32_max then c.cv +ℤ pos 1 else c.cv)
    else c.cv

unfoldable pub execute : Ctu → Ctu
unfolding next_cv
execute c = record c { cv = next_cv c; q = leb_ℤ c.pv (next_cv c); prev_cu = c.cu }

unfoldable pub reset_counter : Ctu → Ctu
reset_counter c = record c { cv = pos 0; q = false; cu = false; reset = false; prev_cu = false }

abbrev pub input_names : List String
input_names = "CU" ∷ "R" ∷ "PV" ∷ []

abbrev pub output_names : List String
output_names = "Q" ∷ "CV" ∷ []

module _ {Value : Type 0} (json : Json Value) where
  open json use {bool, number, object, as_bool, as_i64, as_object}

  unfoldable pub get_output : String → Ctu → Option Value
  get_output name c =
      if is_any name ("Q" ∷ "q" ∷ "output" ∷ [])
      then some (bool c.q)
      else if is_any name ("CV" ∷ "cv" ∷ "count" ∷ [])
      then some (number c.cv)
      else none

  unfoldable pub set_input : String → Value → Ctu → Ctu × Bool
  set_input name value c =
      if is_any name ("CU" ∷ "cu" ∷ "count_up" ∷ [])
      then set_if (as_bool value) (λ v. (record c { cu = v }, true)) (c, false)
      else if is_any name ("R" ∷ "r" ∷ "reset" ∷ [])
      then set_if (as_bool value) (λ v. (record c { reset = v }, true)) (c, false)
      else if is_any name ("PV" ∷ "pv" ∷ "preset" ∷ [])
      then set_if (as_i64 value) (λ v. (record c { pv = as_i32 v }, true)) (c, false)
      else (c, false)

  abbrev pub state_fields : Ctu → List (String × Value)
  state_fields c =
      ("pv", number c.pv)
      ∷ ("cv", number c.cv)
      ∷ ("cu", bool c.cu)
      ∷ ("reset", bool c.reset)
      ∷ ("q", bool c.q)
      ∷ ("prev_cu", bool c.prev_cu)
      ∷ []

  unfoldable pub serialize_state : Ctu → Value
  serialize_state c = object (state_fields c)

  restore_fields : (String → Option Value) → Ctu → Ctu
  restore_fields obj c = record c {
    pv = i64_field json obj "pv" as_i32 c.pv;
    cv = i64_field json obj "cv" as_i32 c.cv;
    cu = bool_field json obj "cu" c.cu;
    reset = bool_field json obj "reset" c.reset;
    q = bool_field json obj "q" c.q;
    prev_cu = bool_field json obj "prev_cu" c.prev_cu;
  }

  unfoldable pub deserialize_state : Value → Ctu → Ctu × Bool
  unfolding restore_fields
  deserialize_state state c =
      set_if (as_object state) (λ obj. (restore_fields obj c, true)) (c, false)
