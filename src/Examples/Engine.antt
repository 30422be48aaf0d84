-- ===== src/Examples/Engine.antt =====
-- src/scripting/engine.rs: concrete runs of scripts.
use sens.Common.{ℕ, String, ◌≡◌, refl, ◌⊎◌, true, none, some, List, [], ◌∷◌, arith, is_some}
use sens.Common.Map.{get, insert, string_key}
use sens.Common.Result.{Result, ok}
use sens.Common.Text.{has_char, ◌⧺◌, show, split}
use sens.Scripting.Context.{get_value, value_of_parts, typed_value}
use sens.Scripting.Triggers.{ComparisonOperator}
use sens.Scripting.Triggers
use sens.Scripting.Limits.{default, check, is_time_exceeded, record_action, new}
use sens.Scripting.Actions.{Action, Condition, ScriptDefinition, success, failure, value}
use sens.Scripting.Actions
use sens.Scripting.Engine.{
  ExecutionResult, Agent, ScriptEngine, evaluate_conditions, evaluate_condition, compare_values,
  compare_numbers,
}
use sens.Scripting.Engine.Steps.{
  set_retained, call_result, action_set_variable, perform, when_met, action_call_script_with_depth,
  execute_action_with_depth,
}
use sens.Scripting.Engine.Execution.{
  run_actions, handle_errors, first_run, run_script, finish, execute_once, execute_with_depth,
  skipped,
}
use sens.Scripting.Engine.Returning.{execution_returns}
use sens.Scripting.Engine.Retained.{retained_unread}
use sens.Scripting.Engine.Callers.{caller_restored, skipped_call_renames}
use sens.Examples.Triggers.{
  Datum, whole, data_json, data_numbers, whole_floats, at_night, with_temperature,
}

abbrev pub nothing_done : Action Datum
nothing_done = record {
  action_type = Actions.noop;
  target = "";
  value = none;
  message = none;
  level = none;
  delay_ms = none;
  device = none;
  address = none;
  script_id = none;
  condition = none;
  scope = none;
}

abbrev call_of : String → Action Datum
call_of id = record nothing_done { action_type = Actions.call_script; script_id = some id }

abbrev keep_mode : Action Datum
keep_mode = record nothing_done {
  action_type = Actions.set_variable;
  target = "mode";
  value = some (whole 2);
  scope = some Actions.retain;
}

-- Runs one action that does nothing.
abbrev beat : ScriptDefinition Datum
beat = record {
  id = "beat";
  name = "Beat";
  priority = Actions.high;
  conditions = [];
  actions = nothing_done ∷ [];
  on_error = [];
}

-- Calls itself.
abbrev again : ScriptDefinition Datum
again = record beat { id = "again"; actions = call_of "again" ∷ [] }

-- Runs only where it is warm.
abbrev cool : ScriptDefinition Datum
cool = record beat {
  id = "cool";
  conditions = record { source = "sensor:temp"; operator = Triggers.gt; value = whole 28 } ∷ [];
}

-- The world is what the storage was told, the last first.
abbrev agent : Agent Datum ℕ (List String)
agent = record {
  load = λ w id. get id (("beat", beat) ∷ ("again", again) ∷ ("cool", cool) ∷ []);
  set_running = λ id w. id ∷ w;
  update_result = λ id b m w. m ∷ w;
  persistence = none;
  on_device = λ t a id p c w. (w, success t "done");
  interpolate = λ c s. s;
  debug = λ v. "value";
  scope_text = λ s. "scope";
}

abbrev main_engine : ScriptEngine Datum ℕ (List String)
main_engine = record {
  context = with_temperature 20;
  rate_limiter = record { windows = []; default_limit = 60 };
  current_script_id = some "main";
  current_script_priority = 50;
  reads = 0;
  world = [];
}

abbrev after_beat : ScriptEngine Datum ℕ (List String)
after_beat = record main_engine {
  rate_limiter = record {
    windows = ("beat", record { count = 1; window_start = 0 }) ∷ [];
    default_limit = 60;
  };
  reads = 6;
  world = "Completed 1 actions" ∷ "beat" ∷ [];
}

abbrev after_cool : ScriptEngine Datum ℕ (List String)
after_cool = record main_engine {
  rate_limiter = record {
    windows = ("cool", record { count = 1; window_start = 0 }) ∷ [];
    default_limit = 60;
  };
  current_script_id = some "cool";
  current_script_priority = 100;
  reads = 4;
  world = "Conditions not met - skipped" ∷ "cool" ∷ [];
}

execution_returns_example :
    is_some (
      execute_with_depth data_json data_numbers whole_floats agent default
        (λ k. k)
        (λ k i. at_night)
        6
        "again"
        0
        main_engine)
    ≡ true
execution_returns_example =
    execution_returns data_json data_numbers whole_floats agent default (λ k. k) (λ k i. at_night) 5
      "again" 0 main_engine (omega arith)

abbrev beat_result : Result (ExecutionResult Datum) String
beat_result = ok (record {
  script_id = "beat";
  success = true;
  actions_executed = 1;
  actions_failed = 0;
  results = success Actions.noop "No operation" ∷ [];
})

caller_restored_example :
    ((after_beat.current_script_id ≡ main_engine.current_script_id)
      × (after_beat.current_script_priority ≡ main_engine.current_script_priority))
    ⊎ ((after_beat.current_script_id ≡ some "beat") × (beat_result ≡ ok (skipped "beat")))
unfolding execute_with_depth execute_once check run_script evaluate_conditions first_run run_actions
    handle_errors finish is_time_exceeded record_action execute_action_with_depth when_met perform
    success value new show get insert
caller_restored_example =
    caller_restored data_json data_numbers whole_floats agent default (λ k. k) (λ k i. at_night) 2
      "beat" 1 main_engine after_beat beat_result refl

skipped_call_renames_example :
    (true ≡ true)
    × (get
          ("cool" ⧺ ":" ⧺ "mode")
          (action_set_variable data_json data_numbers whole_floats agent default
            (λ k i. at_night)
            keep_mode
            after_cool).0.context.variables
        ≡ some (whole 2))
unfolding execute_with_depth execute_once check run_script evaluate_conditions evaluate_condition
    compare_values compare_numbers get_value value_of_parts typed_value split success value show get
    insert action_call_script_with_depth call_result
skipped_call_renames_example =
    skipped_call_renames data_json data_numbers whole_floats agent default (λ k. k)
      (λ k i. at_night) 1 0 "cool" (call_of "cool") keep_mode (whole 2) cool main_engine after_cool
      (success Actions.call_script "Called script cool [depth=1]") refl refl refl refl refl refl
      refl refl

retained_unread_example :
    get_value data_json data_numbers at_night
      (set_retained data_json data_numbers whole_floats agent default
        (λ k i. at_night)
        keep_mode
        (whole 2)
        Actions.retain
        after_cool).0.context
      ("var:" ⧺ "cool" ⧺ ":" ⧺ "mode")
    ≡ none
unfolding get has_char
retained_unread_example =
    retained_unread data_json data_numbers whole_floats agent default (λ k i. at_night) at_night
      keep_mode (whole 2) Actions.retain after_cool "cool" refl refl
