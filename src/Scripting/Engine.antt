-- ===== src/Scripting/Engine.antt =====
-- src/scripting/engine.rs: how the engine runs a script. The storage of scripts, the devices, the
-- persistence and `interpolate` are parameters, `Agent`, as are the clock and the limits. How long
-- a run took and its timestamp are left out of `ExecutionResult`.
pub mod Steps
pub mod Execution
pub mod Returning
pub mod Callers
pub mod ScanCycle
pub mod Wiring
pub mod Retained
use sens.Common.{
  ℕ, suc, ◌+◌, String, Bool, true, false, not, ◌&&◌, Option, none, some, List, [], ◌∷◌, str_eq,
  if◌then◌else◌,
}
use sens.Common.Map.{string_key}
use sens.Common.Json.{Json}
use sens.Common.Result.{Result, err}
use sens.Scripting.Context.{ScriptContext, JsonNumbers, UtcNow, get_value}
use sens.Scripting.Triggers.{ComparisonOperator, Floats, both, contains_text, is_between}
use sens.Scripting.Triggers
use sens.Scripting.Limits.{
  ScriptLimits, ScriptRateLimiter, LimitError, action_limit_exceeded, ExecutionContext,
}
use sens.Scripting.Actions.{
  ActionType, VariableScope, Condition, Action, ActionResult, success, failure, ScriptDefinition,
}
use sens.Scripting.Actions

-- What the engine calls: the storage's `get`, `set_running` and `update_result`, the persistence
-- with its `save`, which gives its error, the three actions on devices, which know the script
-- that asks and its priority, and the texts of `interpolate`, `{:?}` of a value and of a scope.
pub record Agent (Value F W : Type 0) : Type 0 where
  pub load : W → String → Option (ScriptDefinition Value)
  pub set_running : String → W → W
  pub update_result : String → Bool → String → W → W
  pub persistence : Option (String → String → Value → W → W × Option String)
  pub on_device :
      ActionType
      → Action Value
      → Option String
      → ℕ
      → ScriptContext Value F
      → W
      → W × ActionResult Value
  pub interpolate : ScriptContext Value F → String → String
  pub debug : Value → String
  pub scope_text : VariableScope → String

pub record ScriptEngine (Value F W : Type 0) : Type 0 where
  pub context : ScriptContext Value F
  pub rate_limiter : ScriptRateLimiter
  pub current_script_id : Option String
  pub current_script_priority : ℕ
  -- how often a clock was read
  pub reads : ℕ
  pub world : W

pub record ExecutionResult (Value : Type 0) : Type 0 where
  pub script_id : String
  pub success : Bool
  pub actions_executed : ℕ
  pub actions_failed : ℕ
  pub results : List (ActionResult Value)

-- The variables of the loops of `execute_with_depth`.
pub record Run (Value F W : Type 0) : Type 0 where
  pub engine : ScriptEngine Value F W
  pub exec_ctx : ExecutionContext
  pub results : List (ActionResult Value)
  pub actions_executed : ℕ
  pub actions_failed : ℕ

abbrev pub tick : {Value F W : Type 0} → ℕ → ScriptEngine Value F W → ScriptEngine Value F W
tick k e = record e { reads = e.reads + k }

unfoldable pub is_retained : VariableScope → Bool
is_retained Actions.retain = true
is_retained Actions.persistent = true
is_retained _ = false

abbrev pub is_action_limit : Result (Unit {0}) LimitError → Bool
is_action_limit (err action_limit_exceeded) = true
is_action_limit _ = false

abbrev pub first_message : {Value : Type 0} → List (ActionResult Value) → String
first_message [] = "Unknown error"
first_message (r ∷ rs) = r.message

module _ {Value F : Type 0} (json : Json Value) (numbers : JsonNumbers Value F)
    (floats : Floats F) where
  abbrev distance : F → F → F
  distance l r = floats.abs (floats.sub l r)

  unfoldable pub compare_numbers : F → ComparisonOperator → F → Value → Bool
  unfolding is_between
  compare_numbers l Triggers.eq r right = floats.lt (distance l r) floats.epsilon
  compare_numbers l Triggers.ne r right = floats.le floats.epsilon (distance l r)
  compare_numbers l Triggers.gt r right = floats.lt r l
  compare_numbers l Triggers.gte r right = floats.le r l
  compare_numbers l Triggers.lt r right = floats.lt l r
  compare_numbers l Triggers.lte r right = floats.le l r
  compare_numbers l Triggers.between r right = elim (numbers.as_array right) [
    | some arr ↦ is_between json numbers floats l arr
    | none ↦ false
  ]
  compare_numbers l _ r right = false

  unfoldable pub compare_bools : Bool → ComparisonOperator → Bool → Bool
  compare_bools l Triggers.eq r = if l then r else not r
  compare_bools l Triggers.ne r = if l then not r else r
  compare_bools l _ r = false

  unfoldable pub compare_strings : String → ComparisonOperator → String → Bool
  unfolding contains_text
  compare_strings l Triggers.eq r = str_eq l r
  compare_strings l Triggers.ne r = not (str_eq l r)
  compare_strings l Triggers.contains r = contains_text l r
  compare_strings l _ r = false

  unfoldable pub compare_values : Value → ComparisonOperator → Value → Bool
  unfolding compare_numbers compare_bools compare_strings
  compare_values left op right = elim (both (numbers.as_f64 left) (numbers.as_f64 right)) [
    | some (l, r) ↦ compare_numbers l op r right
    | none ↦ elim (both (json.as_bool left) (json.as_bool right)) [
      | some (l, r) ↦ compare_bools l op r
      | none ↦ elim (both (json.as_str left) (json.as_str right)) [
        | some (l, r) ↦ compare_strings l op r
        | none ↦ false
      ]
    ]
  ]

  unfoldable pub evaluate_condition : UtcNow → ScriptContext Value F → Condition Value → Bool
  unfolding compare_values
  evaluate_condition now ctx c = elim (get_value json numbers now ctx c.source) [
    | some v ↦ compare_values v c.operator c.value
    | none ↦ false
  ]

  -- The conditions in order, each with a reading of the calendar of its own.
  unfoldable pub evaluate_conditions :
      (ℕ → UtcNow) → ScriptContext Value F → List (Condition Value) → Bool
  unfolding evaluate_condition
  evaluate_conditions now ctx [] = true
  evaluate_conditions now ctx (c ∷ cs) =
      evaluate_condition (now 0) ctx c && evaluate_conditions (λ k. now (suc k)) ctx cs
