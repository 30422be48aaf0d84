-- ===== src/Scripting/Engine/Steps.antt =====
-- src/scripting/engine.rs: the actions of a script. `call` executes the scripts that they
-- call.
use sens.Common.{ℕ, ◌+◌, String, Option, none, some, ltb, str_eq, if◌then◌else◌, unwrap_or}
use sens.Common.Json.{Json}
use sens.Common.Result.{Result, ok, err}
use sens.Common.Text.{◌⧺◌, show}
use sens.Scripting.Context.{JsonNumbers, UtcNow, set_variable}
use sens.Scripting.Triggers.{Floats}
use sens.Scripting.Limits.{ScriptLimits}
use sens.Scripting.Actions.{
  Condition, ActionType, VariableScope, Action, ActionResult, success, failure, value,
}
use sens.Scripting.Actions
use sens.Scripting.Engine.{
  Agent, ScriptEngine, ExecutionResult, tick, is_retained, first_message, evaluate_condition,
}
use mathlib.Core.Option

abbrev pub Answer : Type 0 → Type 0 → Type 0 → Type 0
Answer Value F W = ScriptEngine Value F W × ActionResult Value

abbrev pub Outcome : Type 0 → Type 0 → Type 0 → Type 0
Outcome Value F W = ScriptEngine Value F W × Result (ExecutionResult Value) String

-- How a script is executed at a depth.
abbrev pub Call : Type 0 → Type 0 → Type 0 → Type 0
Call Value F W = String → ℕ → ScriptEngine Value F W → Option (Outcome Value F W)

module _ {Value F W : Type 0} (json : Json Value) (numbers : JsonNumbers Value F)
    (floats : Floats F) (agent : Agent Value F W) (limits : ScriptLimits)
    (utc : ℕ → ℕ → UtcNow) where
  -- An action that has a message.
  unfoldable pub with_message :
      ActionType
      → (String → ActionResult Value)
      → Action Value
      → ScriptEngine Value F W
      → ActionResult Value
  unfolding failure
  with_message t done action e = elim action.message [
    | none ↦ failure t "Missing message"
    | some m ↦ done (agent.interpolate e.context m)
  ]

  unfoldable pub action_alert : Action Value → ScriptEngine Value F W → ActionResult Value
  unfolding with_message success
  action_alert = with_message Actions.alert (λ m. success Actions.alert ("Alert sent: " ⧺ m))

  unfoldable pub action_log : Action Value → ScriptEngine Value F W → ActionResult Value
  unfolding with_message success
  action_log = with_message Actions.log (success Actions.log)

  unfoldable pub action_publish_mqtt : Action Value → ScriptEngine Value F W → ActionResult Value
  unfolding with_message success
  action_publish_mqtt action e =
      let topic =
        if str_eq action.target ""
        then "scripts/output"
        else agent.interpolate e.context action.target in
      with_message Actions.publish_mqtt
        (λ m. success Actions.publish_mqtt ("Published to " ⧺ topic)) action e

  unfoldable pub action_delay : Action Value → ActionResult Value
  unfolding success failure show
  action_delay action =
      let delay_ms = unwrap_or action.delay_ms 1000 in
      if ltb limits.max_delay_ms delay_ms
      then failure Actions.delay (
          "Delay "
          ⧺ show delay_ms
          ⧺ "ms exceeds maximum allowed ("
          ⧺ show limits.max_delay_ms
          ⧺ "ms)")
      else success Actions.delay ("Delayed " ⧺ show delay_ms ⧺ "ms")

  abbrev set_done : Action Value → Value → VariableScope → ActionResult Value
  set_done action v scope =
      success Actions.set_variable (
        "Set " ⧺ action.target ⧺ " = " ⧺ agent.debug v ⧺ " (scope: " ⧺ agent.scope_text scope ⧺ ")")

  -- "Persist RETAIN variables to SQLite", where there is a persistence.
  unfoldable pub persist :
      Option (String → String → Value → W → W × Option String)
      → String
      → Action Value
      → Value
      → VariableScope
      → ScriptEngine Value F W
      → Answer Value F W
  unfolding success failure
  persist none script_id action v scope e = (e, set_done action v scope)
  persist (some save) script_id action v scope e =
      let (w, failed) = save script_id action.target v e.world in
      (
        record e { world = w },
        elim failed [
          | none ↦ set_done action v scope
          | some m ↦
              failure Actions.set_variable
                ("Set " ⧺ action.target ⧺ " but persistence failed: " ⧺ m)
        ],
      )

  -- A variable of scope retain or persistent, under the name of the running script.
  unfoldable pub set_retained :
      Action Value → Value → VariableScope → ScriptEngine Value F W → Answer Value F W
  unfolding set_variable persist
  set_retained action v scope e =
      let script_id = unwrap_or e.current_script_id "global" in
      persist agent.persistence script_id action v scope
        (record e { context = set_variable (script_id ⧺ ":" ⧺ action.target) v e.context })

  -- `action_set_variable` of the action's value and scope.
  unfoldable pub set_in_scope :
      Option Value → VariableScope → Action Value → ScriptEngine Value F W → Answer Value F W
  unfolding set_variable failure success is_retained set_retained
  set_in_scope none scope action e = (e, failure Actions.set_variable "Missing value")
  set_in_scope (some v) scope action e =
      if is_retained scope
      then set_retained action v scope e
      else (record e { context = set_variable action.target v e.context }, set_done action v scope)

  unfoldable pub action_set_variable : Action Value → ScriptEngine Value F W → Answer Value F W
  unfolding set_in_scope
  action_set_variable action e =
      set_in_scope action.value (unwrap_or action.scope Actions.local) action e

  -- The answer of an action that called a script.
  unfoldable pub call_result : String → ℕ → Outcome Value F W → Answer Value F W
  unfolding success failure show
  call_result script_id next_depth (e, ok result) = (
    e,
    if result.success
        then success Actions.call_script
            ("Called script " ⧺ script_id ⧺ " [depth=" ⧺ show next_depth ⧺ "]")
        else failure Actions.call_script
            ("Script " ⧺ script_id ⧺ " failed: " ⧺ first_message result.results),
  )
  call_result script_id next_depth (e, err m) =
      (e, failure Actions.call_script ("Failed to call script: " ⧺ m))

  unfoldable pub action_call_script_with_depth :
      Call Value F W → Action Value → ℕ → ScriptEngine Value F W → Option (Answer Value F W)
  unfolding failure call_result
  action_call_script_with_depth call action depth e = elim action.script_id [
    | none ↦ some (e, failure Actions.call_script "Missing script_id")
    | some script_id ↦ Option.map (call_result script_id (depth + 1)) (call script_id (depth + 1) e)
  ]

  abbrev on_device : ActionType → Action Value → ScriptEngine Value F W → Answer Value F W
  on_device t action e =
      let (w, r) =
        agent.on_device t action e.current_script_id e.current_script_priority e.context e.world in
      (record e { world = w }, r)

  -- The `match` of `execute_action_with_depth`.
  unfoldable pub perform :
      Call Value F W
      → Action Value
      → ℕ
      → ActionType
      → ScriptEngine Value F W
      → Option (Answer Value F W)
  unfolding action_alert action_set_variable action_log action_delay action_publish_mqtt
      action_call_script_with_depth success
  perform call action depth Actions.set_gpio e = some (on_device Actions.set_gpio action e)
  perform call action depth Actions.write_modbus e = some (on_device Actions.write_modbus action e)
  perform call action depth Actions.write_coil e = some (on_device Actions.write_coil action e)
  perform call action depth Actions.alert e = some (e, action_alert action e)
  perform call action depth Actions.set_variable e = some (action_set_variable action e)
  perform call action depth Actions.log e = some (e, action_log action e)
  perform call action depth Actions.delay e = some (e, action_delay action)
  perform call action depth Actions.publish_mqtt e = some (e, action_publish_mqtt action e)
  perform call action depth Actions.call_script e =
      action_call_script_with_depth call action depth e
  perform call action depth Actions.noop e = some (e, success Actions.noop "No operation")

  -- "Check inline condition if present", and what is done if it is met.
  unfoldable pub when_met :
      Option (Condition Value)
      → (ScriptEngine Value F W → Option (Answer Value F W))
      → ScriptEngine Value F W
      → Option (Answer Value F W)
  unfolding evaluate_condition success
  when_met none run e = run e
  when_met (some c) run e =
      if evaluate_condition json numbers floats (utc e.reads 0) e.context c
      then run (tick 1 e)
      else some (tick 1 e, success Actions.noop "Condition not met - skipped")

  unfoldable pub execute_action_with_depth :
      Call Value F W → Action Value → ℕ → ScriptEngine Value F W → Option (Answer Value F W)
  unfolding perform when_met
  execute_action_with_depth call action depth =
      when_met action.condition (perform call action depth action.action_type)
