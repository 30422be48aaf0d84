-- ===== src/FunctionBlocks/Counters/Ctud.antt =====
-- CTUD, the up and down counter of src/scripting/function_blocks/counters.rs.
pub mod Laws
use sens.Common.{
  String, Bool, true, false, not, ◌&&◌, Option, none, some, List, [], ◌∷◌, if◌then◌else◌, is_any,
  set_if,
}
use sens.Common.Int.{sub_ℕ, ℤ, pos, ◌+ℤ◌, ◌-ℤ◌, ltb_ℤ, leb_ℤ, i32_min, i32_max, as_i32}
use sens.Common.Json.{Json, i64_field, bool_field}

pub record Ctud : Type 0 where
  pub pv : ℤ
  pub cv : ℤ
  pub cu : Bool
  pub cd : Bool
  pub reset : Bool
  pub load : Bool
  pub qu : Bool
  pub qd : Bool
  pub prev_cu : Bool
  pub prev_cd : Bool

unfoldable pub new : ℤ → Ctud
new preset = record {
  pv = preset;
  cv = pos 0;
  cu = false;
  cd = false;
  reset = false;
  load = false;
  qu = false;
  qd = true;
  prev_cu = false;
  prev_cd = false;
}

-- A rising edge of CU, and then one of CD, each up to the limit of an `i32`.
count_up : Ctud → ℤ → ℤ
unfolding sub_ℕ
count_up c cv = if c.cu && not c.prev_cu then (if ltb_ℤ cv i32_max then cv +ℤ pos 1 else cv) else cv

count_down : Ctud → ℤ → ℤ
unfolding sub_ℕ
count_down c cv =
    if c.cd && not c.prev_cd then (if ltb_ℤ i32_min cv then cv -ℤ pos 1 else cv) else cv

-- The count after a scan: a reset goes first, then a load, then the edges.
next_cv : Ctud → ℤ
unfolding count_up count_down
next_cv c = if c.reset then pos 0 else if c.load then c.pv else count_down c (count_up c c.cv)

unfoldable pub execute : Ctud → Ctud
unfolding next_cv
execute c = record c {
  cv = next_cv c;
  qu = leb_ℤ c.pv (next_cv c);
  qd = leb_ℤ (next_cv c) (pos 0);
  prev_cu = c.cu;
  prev_cd = c.cd;
}

unfoldable pub reset_counter : Ctud → Ctud
reset_counter c = record c {
  cv = pos 0;
  qu = false;
  qd = true;
  cu = false;
  cd = false;
  reset = false;
  load = false;
  prev_cu = false;
  prev_cd = false;
}

abbrev pub input_names : List String
input_names = "CU" ∷ "CD" ∷ "R" ∷ "LD" ∷ "PV" ∷ []

abbrev pub output_names : List String
output_names = "QU" ∷ "QD" ∷ "CV" ∷ []

module _ {Value : Type 0} (json : Json Value) where
  open json use {bool, number, object, as_bool, as_i64, as_object}

  unfoldable pub get_output : String → Ctud → Option Value
  get_output name c =
      if is_any name ("QU" ∷ "qu" ∷ "up_output" ∷ [])
      then some (bool c.qu)
      else if is_any name ("QD" ∷ "qd" ∷ "down_output" ∷ [])
      then some (bool c.qd)
      else if is_any name ("CV" ∷ "cv" ∷ "count" ∷ [])
      then some (number c.cv)
      else none

  unfoldable pub set_input : String → Value → Ctud → Ctud × Bool
  set_input name value c =
      if is_any name ("CU" ∷ "cu" ∷ "count_up" ∷ [])
      then set_if (as_bool value) (λ v. (record c { cu = v }, true)) (c, false)
      else if is_any name ("CD" ∷ "cd" ∷ "count_down" ∷ [])
      then set_if (as_bool value) (λ v. (record c { cd = v }, true)) (c, false)
      else if is_any name ("R" ∷ "r" ∷ "reset" ∷ [])
      then set_if (as_bool value) (λ v. (record c { reset = v }, true)) (c, false)
      else if is_any name ("LD" ∷ "ld" ∷ "load" ∷ [])
      then set_if (as_bool value) (λ v. (record c { load = v }, true)) (c, false)
      else if is_any name ("PV" ∷ "pv" ∷ "preset" ∷ [])
      then set_if (as_i64 value) (λ v. (record c { pv = as_i32 v }, true)) (c, false)
      else (c, false)

  abbrev pub state_fields : Ctud → List (String × Value)
  state_fields c =
      ("pv", number c.pv)
      ∷ ("cv", number c.cv)
      ∷ ("cu", bool c.cu)
      ∷ ("cd", bool c.cd)
      ∷ ("reset", bool c.reset)
      ∷ ("load", bool c.load)
      ∷ ("qu", bool c.qu)
      ∷ ("qd", bool c.qd)
      ∷ ("prev_cu", bool c.prev_cu)
      ∷ ("prev_cd", bool c.prev_cd)
      ∷ []

  unfoldable pub serialize_state : Ctud → Value
  serialize_state c = object (state_fields c)

  restore_fields : (String → Option Value) → Ctud → Ctud
  restore_fields obj c = record c {
    pv = i64_field json obj "pv" as_i32 c.pv;
    cv = i64_field json obj "cv" as_i32 c.cv;
    cu = bool_field json obj "cu" c.cu;
    cd = bool_field json obj "cd" c.cd;
    reset = bool_field json obj "reset" c.reset;
    load = bool_field json obj "load" c.load;
    qu = bool_field json obj "qu" c.qu;
    qd = bool_field json obj "qd" c.qd;
    prev_cu = bool_field json obj "prev_cu" c.prev_cu;
    prev_cd = bool_field json obj "prev_cd" c.prev_cd;
  }

  unfoldable pub deserialize_state : Value → Ctud → Ctud × Bool
  unfolding restore_fields
  deserialize_state state c =
      set_if (as_object state) (λ obj. (restore_fields obj c, true)) (c, false)
