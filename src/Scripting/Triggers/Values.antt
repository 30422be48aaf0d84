-- ===== src/Scripting/Triggers/Values.antt =====
-- The operators `Between` and `In` of src/scripting/triggers.rs.
use sens.Common.{
  String, ◌≡◌, refl, sym, ◌∙◌, inl, inr, Bool, false, Option, none, some, List, arith, Option-cases,
}
use sens.Common.Json.{Json}
use sens.Scripting.Context.{JsonNumbers}
use sens.Scripting.Triggers.{
  Floats, ComparisonOperator, between, is_in, compare_values, compare_numbers, compare_strings,
  compare_bools, both,
}

-- An array of `serde_json` is no number.
abbrev pub ArraysAreNoNumbers : {Value F : Type 0} → JsonNumbers Value F → Type 0
ArraysAreNoNumbers {Value} numbers =
    (v : Value) (vs : List Value) → numbers.as_array v ≡ some vs → numbers.as_f64 v ≡ none

module _ {Value F : Type 0} (json : Json Value) (numbers : JsonNumbers Value F) (floats : Floats F)
    (no_numbers : ArraysAreNoNumbers numbers) where
  -- No array stands where a number does.
  numbers_never :
      (l r : F) (right : Value)
      → numbers.as_f64 right ≡ some r
      → (compare_numbers json numbers floats l between r right ≡ false)
        × (compare_numbers json numbers floats l is_in r right ≡ false)
  unfolding compare_numbers
  numbers_never l r right number = elim (Option-cases (numbers.as_array right)) [
    | inl no_array ↦ (rw (no_array, compare_numbers) refl, rw (no_array, compare_numbers) refl)
    | inr (vs, array) ↦ absurd (cc (sym number ∙ no_numbers right vs array))
  ]

  abbrev texts_or_flags :
      Option (String × String) → Option (Bool × Bool) → ComparisonOperator → Bool
  texts_or_flags strings bools op = elim strings [
    | some (l, r) ↦ compare_strings json numbers floats l op r
    | none ↦ elim bools [ some (l, r) ↦ compare_bools json numbers floats l op r | none ↦ false ]
  ]

  rest_never :
      (strings : Option (String × String)) (bools : Option (Bool × Bool))
      → (texts_or_flags strings bools between ≡ false)
        × (texts_or_flags strings bools is_in ≡ false)
  unfolding compare_strings compare_bools
  rest_never (some (l, r)) bools = (refl, refl)
  rest_never none (some (l, r)) = (refl, refl)
  rest_never none none = (refl, refl)

  abbrev strings : Value → Value → Option (String × String)
  strings left right = both (json.as_str left) (json.as_str right)

  abbrev bools : Value → Value → Option (Bool × Bool)
  bools left right = both (json.as_bool left) (json.as_bool right)

  abbrev operands : Value → Value → Option (F × F)
  operands left right = both (numbers.as_f64 left) (numbers.as_f64 right)

  operands-right :
      (left right : Value) (l r : F)
      → operands left right ≡ some (l, r)
      → numbers.as_f64 right ≡ some r
  operands-right left right l r h = ground arith

  -- The arrays that `Between` and `In` compare with are looked for only when both operands are
  -- numbers, so no value is between any two limits or in any list.
  pub between_and_in_never_match :
      (left right : Value)
      → (compare_values json numbers floats left between right ≡ false)
        × (compare_values json numbers floats left is_in right ≡ false)
  unfolding compare_values compare_numbers compare_strings compare_bools
  between_and_in_never_match left right = elim (Option-cases (operands left right)) [
    | inl none_found ↦ (
      rw (none_found, compare_values) (rest_never (strings left right) (bools left right)).0,
      rw (none_found, compare_values) (rest_never (strings left right) (bools left right)).1,
    )
    | inr ((l, r), found) ↦ (
      rw (found, compare_values) (numbers_never l r right (operands-right left right l r found)).0,
      rw (found, compare_values) (numbers_never l r right (operands-right left right l r found)).1,
    )
  ]
