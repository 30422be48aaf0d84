-- ===== src/FunctionBlocks/Counters/Ctd.antt =====
-- CTD, the down counter of src/scripting/function_blocks/counters.rs.
pub mod Laws
use sens.Common.{
  String, Bool, true, false, not, ◌&&◌, Option, none, some, List, [], ◌∷◌, if◌then◌else◌, is_any,
  set_if,
}
use sens.Common.Int.{sub_ℕ, ℤ, pos, ◌-ℤ◌, ltb_ℤ, leb_ℤ, i32_min, as_i32}
use sens.Common.Json.{Json, i64_field, bool_field}

pub record Ctd : Type 0 where
  pub pv : ℤ
  pub cv : ℤ
  pub cd : Bool
  pub load : Bool
  pub q : Bool
  pub prev_cd : Bool

unfoldable pub new : ℤ → Ctd
new preset = record {
  pv = preset;
  cv = preset;
  cd = false;
  load = false;
  q = false;
  prev_cd = false;
}

-- The count after a scan: a load goes before a rising edge, and the count stops at the minimum.
next_cv : Ctd → ℤ
unfolding sub_ℕ
next_cv c =
    if c.load
    then c.pv
    else if c.cd && not c.prev_cd
    then (if ltb_ℤ i32_min c.cv then c.cv -ℤ pos 1 else c.cv)
    else c.cv

unfoldable pub execute : Ctd → Ctd
unfolding next_cv
execute c = record c { cv = next_cv c; q = leb_ℤ (next_cv c) (pos 0); prev_cd = c.cd }

unfoldable pub reset_counter : Ctd → Ctd
reset_counter c = record c { cv = c.pv; q = false; cd = false; load = false; prev_cd = false }

abbrev pub input_names : List String
input_names = "CD" ∷ "LD" ∷ "PV" ∷ []

abbrev pub output_names : List String
output_names = "Q" ∷ "CV" ∷ []

module _ {Value : Type 0} (json : Json Value) where
  open json use {bool, number, object, as_bool, as_i64, as_object}

  unfoldable pub get_output : String → Ctd → Option Value
  get_output name c =
      if is_any name ("Q" ∷ "q" ∷ "output" ∷ [])
      then some (bool c.q)
      else if is_any name ("CV" ∷ "cv" ∷ "count" ∷ [])
      then some (number c.cv)
      else none

  unfoldable pub set_input : String → Value → Ctd → Ctd × Bool
  set_input name value c =
      if is_any name ("CD" ∷ "cd" ∷ "count_down" ∷ [])
      then set_if (as_bool value) (λ v. (record c { cd = v }, true)) (c, false)
      else if is_any name ("LD" ∷ "ld" ∷ "load" ∷ [])
      then set_if (as_bool value) (λ v. (record c { load = v }, true)) (c, false)
      else if is_any name ("PV" ∷ "pv" ∷ "preset" ∷ [])
      then set_if (as_i64 value) (λ v. (record c { pv = as_i32 v }, true)) (c, false)
      else (c, false)

  abbrev pub state_fields : Ctd → List (String × Value)
  state_fields c =
      ("pv", number c.pv)
      ∷ ("cv", number c.cv)
      ∷ ("cd", bool c.cd)
      ∷ ("load", bool c.load)
      ∷ ("q", bool c.q)
      ∷ ("prev_cd", bool c.prev_cd)
      ∷ []

  unfoldable pub serialize_state : Ctd → Value
  serialize_state c = object (state_fields c)

  restore_fields : (String → Option Value) → Ctd → Ctd
  restore_fields obj c = record c {
    pv = i64_field json obj "pv" as_i32 c.pv;
    cv = i64_field json obj "cv" as_i32 c.cv;
    cd = bool_field json obj "cd" c.cd;
    load = bool_field json obj "load" c.load;
    q = bool_field json obj "q" c.q;
    prev_cd = bool_field json obj "prev_cd" c.prev_cd;
  }

  unfoldable pub deserialize_state : Value → Ctd → Ctd × Bool
  unfolding restore_fields
  deserialize_state state c =
      set_if (as_object state) (λ obj. (restore_fields obj c, true)) (c, false)
