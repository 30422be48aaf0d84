-- ===== src/Scripting/Actions.antt =====
-- src/scripting/actions.rs, and of src/scripting/mod.rs the parts of a script that the engine
-- reads: a condition's type, and a script's description, version, flag and triggers, are left out.
use sens.Common.{ℕ, String, Bool, true, false, Option, none, List}
use sens.Scripting.Triggers.{ComparisonOperator}

pub data ActionType : Type 0 where
  set_gpio : ActionType
  write_modbus : ActionType
  write_coil : ActionType
  alert : ActionType
  set_variable : ActionType
  log : ActionType
  delay : ActionType
  call_script : ActionType
  publish_mqtt : ActionType
  noop : ActionType

pub data AlertLevel : Type 0 where
  info : AlertLevel
  warning : AlertLevel
  error : AlertLevel
  critical : AlertLevel

pub data VariableScope : Type 0 where
  local : VariableScope
  global : VariableScope
  retain : VariableScope
  persistent : VariableScope

-- `Condition`, and `ActionCondition`, which has the same three fields.
pub record Condition (Value : Type 0) : Type 0 where
  pub source : String
  pub operator : ComparisonOperator
  pub value : Value

pub record Action (Value : Type 0) : Type 0 where
  pub action_type : ActionType
  pub target : String
  pub value : Option Value
  pub message : Option String
  pub level : Option AlertLevel
  pub delay_ms : Option ℕ
  pub device : Option String
  pub address : Option ℕ
  pub script_id : Option String
  pub condition : Option (Condition Value)
  pub scope : Option VariableScope

pub record ActionResult (Value : Type 0) : Type 0 where
  pub success : Bool
  pub action_type : ActionType
  pub message : String
  pub details : Option Value

unfoldable pub success : {Value : Type 0} → ActionType → String → ActionResult Value
success t message = record { success = true; action_type = t; message = message; details = none }

unfoldable pub failure : {Value : Type 0} → ActionType → String → ActionResult Value
failure t message = record { success = false; action_type = t; message = message; details = none }

pub data ScriptPriority : Type 0 where
  low : ScriptPriority
  normal : ScriptPriority
  high : ScriptPriority
  critical : ScriptPriority
  emergency : ScriptPriority

unfoldable pub value : ScriptPriority → ℕ
value low = 0
value normal = 50
value high = 100
value critical = 200
value emergency = 255

pub record ScriptDefinition (Value : Type 0) : Type 0 where
  pub id : String
  pub name : String
  pub priority : ScriptPriority
  pub conditions : List (Condition Value)
  pub actions : List (Action Value)
  pub on_error : List (Action Value)
