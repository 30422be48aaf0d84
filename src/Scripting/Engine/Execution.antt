-- ===== src/Scripting/Engine/Execution.antt =====
-- src/scripting/engine.rs: `execute_with_depth`. A run that is out of fuel has no
-- result; the fuel bounds how deep scripts call each other.
use sens.Common.{
  ℕ, zero, suc, ◌+◌, String, true, false, Option, none, some, List, [], ◌∷◌, ◌++◌, ltb, leb, ◌==◌,
  if◌then◌else◌, and_then,
}
use sens.Common.Json.{Json}
use sens.Common.Result.{is_ok, ok, err}
use sens.Common.Text.{◌⧺◌, show}
use sens.Scripting.Context.{JsonNumbers, UtcNow}
use sens.Scripting.Triggers.{Floats}
use sens.Scripting.Limits.{
  ExecutionContext, Ticks, check, is_time_exceeded, record_action, ScriptLimits,
}
use sens.Scripting.Actions.{
  ActionType, Action, ActionResult, success, failure, ScriptDefinition, value,
}
use sens.Scripting.Limits
use sens.Scripting.Actions
use sens.Scripting.Engine.{
  evaluate_conditions, is_action_limit, Agent, ScriptEngine, ExecutionResult, Run, tick,
}
use mathlib.Core.Option
use sens.Scripting.Engine.Steps.{Outcome, Call, execute_action_with_depth}

-- The result of a script whose conditions are not met.
abbrev pub skipped : {Value : Type 0} → String → ExecutionResult Value
skipped script_id = record {
  script_id = script_id;
  success = true;
  actions_executed = 0;
  actions_failed = 0;
  results = [];
}

module _ {Value F W : Type 0} (json : Json Value) (numbers : JsonNumbers Value F)
    (floats : Floats F) (agent : Agent Value F W) (limits : ScriptLimits) (clock : ℕ → ℕ)
    (utc : ℕ → ℕ → UtcNow) where
  abbrev limit_message : String
  limit_message = "Action limit (" ⧺ show limits.max_actions_per_run ⧺ ") exceeded"

  abbrev depth_message : String
  depth_message = "Max call depth (" ⧺ show limits.max_call_depth ⧺ ") exceeded"

  abbrev rate_message : String
  rate_message = "Rate limit exceeded (" ⧺ show limits.rate_limit_per_minute ⧺ "/min)"

  -- The loop's end by a limit, with the failure that it adds.
  abbrev stop :
      ScriptEngine Value F W → ExecutionContext → ActionResult Value → Run Value F W → Run Value F W
  stop e ctx failed r = record r {
    engine = e;
    exec_ctx = ctx;
    results = r.results ++ (failed ∷ []);
    actions_failed = r.actions_failed + 1;
  }

  -- The loop after an action.
  abbrev push :
      ScriptEngine Value F W → ExecutionContext → ActionResult Value → Run Value F W → Run Value F W
  push e ctx result r = record {
    engine = e;
    exec_ctx = ctx;
    results = r.results ++ (result ∷ []);
    actions_executed = if result.success then r.actions_executed + 1 else r.actions_executed;
    actions_failed = if result.success then r.actions_failed else r.actions_failed + 1;
  }

  -- A run that a limit refuses.
  abbrev refused : String → ActionType → String → ExecutionResult Value
  refused script_id t m = record {
    script_id = script_id;
    success = false;
    actions_executed = 0;
    actions_failed = 1;
    results = failure t m ∷ [];
  }

  -- The running script in the caller's place.
  abbrev pub enter :
      String → ScriptDefinition Value → ScriptEngine Value F W → ScriptEngine Value F W
  enter script_id definition caller = record caller {
    current_script_id = some script_id;
    current_script_priority = value definition.priority;
    world = agent.set_running script_id caller.world;
  }

  -- The engine after a script whose conditions are not met.
  abbrev skip : String → ScriptEngine Value F W → ScriptEngine Value F W
  skip script_id running = record running {
    reads = running.reads + 1;
    world = agent.update_result script_id true "Conditions not met - skipped" running.world;
  }

  abbrev pub ticks : ℕ → Ticks
  ticks k = record { at_entry = clock k; at_elapsed = clock (k + 1); at_reset = clock (k + 2) }

  unfoldable pub run_actions :
      Call Value F W → ℕ → List (Action Value) → Run Value F W → Option (Run Value F W)
  unfolding is_time_exceeded record_action execute_action_with_depth failure show
  run_actions call depth [] r = some r
  run_actions call depth (a ∷ later) r =
      let e = r.engine in
      if is_time_exceeded (clock e.reads) r.exec_ctx
      then some
          (stop (tick 1 e) r.exec_ctx (failure Actions.noop "Execution time limit exceeded") r)
      else (let (ctx, recorded) = record_action (clock (e.reads + 1)) r.exec_ctx in
          if is_action_limit recorded
          then some (stop (tick 2 e) ctx (failure Actions.noop limit_message) r)
          else and_then
              (execute_action_with_depth json numbers floats agent limits utc call a depth
                (tick 2 e))
              (λ x. run_actions call depth later (push x.0 ctx x.1 r)))

  -- The handlers of errors, which are not counted.
  unfoldable pub run_on_error :
      Call Value F W → ℕ → List (Action Value) → Run Value F W → Option (Run Value F W)
  unfolding record_action execute_action_with_depth
  run_on_error call depth [] r = some r
  run_on_error call depth (a ∷ later) r =
      let e = r.engine in
      let (ctx, recorded) = record_action (clock e.reads) r.exec_ctx in
      if is_ok recorded
      then and_then
          (execute_action_with_depth json numbers floats agent limits utc call a depth (tick 1 e))
          (λ x.
            run_on_error call depth later
              (record r { engine = x.0; exec_ctx = ctx; results = r.results ++ (x.1 ∷ []) }))
      else some (record r { engine = tick 1 e; exec_ctx = ctx })

  -- "Handle errors if any actions failed"
  unfoldable pub handle_errors :
      Call Value F W → ℕ → List (Action Value) → Run Value F W → Option (Run Value F W)
  unfolding run_on_error
  handle_errors call depth on_error r =
      if ltb 0 r.actions_failed then run_on_error call depth on_error r else some r

  -- The end of `execute_with_depth`, `caller` being the engine before the script.
  unfoldable pub finish : String → ScriptEngine Value F W → Run Value F W → Outcome Value F W
  unfolding show
  finish script_id caller r =
      let succeeded = r.actions_failed == 0 in
      let result_msg =
        if succeeded
        then "Completed " ⧺ show r.actions_executed ⧺ " actions"
        else show r.actions_failed ⧺ " actions failed" in
      let e = r.engine in
      (
        record e {
          world = agent.update_result script_id succeeded result_msg e.world;
          current_script_id = caller.current_script_id;
          current_script_priority = caller.current_script_priority;
        },
        ok (record {
          script_id = script_id;
          success = succeeded;
          actions_executed = r.actions_executed;
          actions_failed = r.actions_failed;
          results = r.results;
        }),
      )

  -- "Create execution context for tracking limits"
  unfoldable pub first_run : ℕ → ScriptEngine Value F W → Run Value F W
  unfolding Limits.new
  first_run depth running =
      let ctx = Limits.new (clock running.reads) limits in
      record {
        engine = tick 1 running;
        exec_ctx = record ctx { call_depth = depth };
        results = [];
        actions_executed = 0;
        actions_failed = 0;
      }

  -- `execute_with_depth` from the point where the script has been found.
  unfoldable pub run_script :
      Call Value F W
      → String
      → ℕ
      → ScriptDefinition Value
      → ScriptEngine Value F W
      → Option (Outcome Value F W)
  unfolding value evaluate_conditions first_run run_actions handle_errors finish
  run_script call script_id depth definition caller =
      let running = enter script_id definition caller in
      if evaluate_conditions json numbers floats (utc running.reads) running.context
        definition.conditions
      then and_then (run_actions call depth definition.actions (first_run depth running)) (λ r.
        Option.map (finish script_id caller) (handle_errors call depth definition.on_error r))
      else some (skip script_id running, ok (skipped script_id))

  -- From the checks on: `call` executes the scripts that this one calls.
  unfoldable pub execute_once : Call Value F W → Call Value F W
  unfolding check run_script failure show
  execute_once call script_id depth e =
      if leb limits.max_call_depth depth
      then some (e, ok (refused script_id Actions.call_script depth_message))
      else (let (limiter, allowed) = check (ticks e.reads) script_id e.rate_limiter in
          let checked = record e { rate_limiter = limiter; reads = e.reads + 3 } in
          if allowed
          then elim (agent.load checked.world script_id) [
            | none ↦ some (checked, err ("Script not found: " ⧺ script_id))
            | some definition ↦ run_script call script_id depth definition checked
          ]
          else some (checked, ok (refused script_id Actions.noop rate_message)))

  -- With fuel for the scripts that call each other.
  unfoldable pub execute_with_depth : ℕ → Call Value F W
  unfolding execute_once
  execute_with_depth zero script_id depth e = none
  execute_with_depth (suc fuel) script_id depth e =
      execute_once (execute_with_depth fuel) script_id depth e
