-- ===== src/Common/Json.antt =====
-- `serde_json::Value`, which the repository only uses: its constructors and readers are
-- parameters, and what the code relies on are the laws of `JsonLaws`.
use Prim.Native.Nat.{ℕ, ◌<◌}
use Prim.Native.String.{String}
use mathlib.Core.Path.{◌≡◌}
use mathlib.Core.Bool.{Bool}
use mathlib.Core.Option.{Option, none, some}
use mathlib.Core.List.{List, [], ◌∷◌}
use sens.Common.Tests.{and_then, unwrap_or, str_eq, if◌then◌else◌}
use mathlib.Core.Option
use sens.Common.Int.{ℤ, pos, IsI32}

pub record Json (Value : Type 0) : Type 0 where
  pub bool : Bool → Value
  pub number : ℤ → Value
  pub string : String → Value
  pub object : List (String × Value) → Value
  pub as_bool : Value → Option Bool
  pub as_u64 : Value → Option ℕ
  pub as_i64 : Value → Option ℤ
  pub as_str : Value → Option String
  -- an object is what its `get` finds
  pub as_object : Value → Option (String → Option Value)

-- The entry of a key in what `json!({ … })` lists: a repeated key is overwritten.
abbrev pub entry {ℓ} : {V : Type ℓ} → List (String × V) → String → Option V
entry [] k = none
entry ((j, v) ∷ m) k = elim (entry m k) [
  | some w ↦ some w
  | none ↦ if str_eq j k then some v else none
]

pub record JsonLaws {Value : Type 0} (json : Json Value) : Type 0 where
  pub as_bool-bool : (b : Bool) → json.as_bool (json.bool b) ≡ some b
  pub as_u64-number :
      (n : ℕ) → n < 18446744073709551616 → json.as_u64 (json.number (pos n)) ≡ some n
  pub as_i64-number : (z : ℤ) → IsI32 z → json.as_i64 (json.number z) ≡ some z
  pub as_str-string : (s : String) → json.as_str (json.string s) ≡ some s
  pub as_object-object :
      (fs : List (String × Value)) → json.as_object (json.object fs) ≡ some (entry fs)

-- `if let Some(v) = obj.get(key).and_then(|v| v.as_…()) { self.field = v; }`, as the value that the
-- field then has, `old` being the one that it had.
module _ {Value : Type 0} (json : Json Value) where
  abbrev pub u64_field : (String → Option Value) → String → ℕ → ℕ
  u64_field obj key old = unwrap_or (and_then (obj key) json.as_u64) old

  abbrev pub i64_field : (String → Option Value) → String → (ℤ → ℤ) → ℤ → ℤ
  i64_field obj key cast old = unwrap_or (Option.map cast (and_then (obj key) json.as_i64)) old

  abbrev pub bool_field : (String → Option Value) → String → Bool → Bool
  bool_field obj key old = unwrap_or (and_then (obj key) json.as_bool) old
