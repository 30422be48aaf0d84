-- ===== src/Scripting/Engine/Callers.antt =====
-- src/scripting/engine.rs: the name under which a script runs, when it calls another script.
use sens.Common.{
  OnSome-map, OnSome-and_then, if-P, OnSome-some, OnSome, ℕ, zero, suc, ◌+◌, String, ◌≡◌, refl, ap,
  ◌∙◌, ◌⊎◌, inl, inr, true, false, some, leb, unwrap_or, Option-cases,
}
use sens.Common.Map.{get, get-insert, beq_refl, string_key}
use sens.Common.Result.{Result, ok}
use sens.Common.Text.{◌⧺◌}
use sens.Common.Json.{Json}
use sens.Scripting.Context.{JsonNumbers, UtcNow, set_variable}
use sens.Scripting.Triggers.{Floats}
use sens.Scripting.Limits.{ScriptLimits, check}
use sens.Scripting.Actions
use sens.Scripting.Actions.{Action, VariableScope, ActionResult, ScriptDefinition, success}
use sens.Scripting.Engine.{Agent, ScriptEngine, ExecutionResult, evaluate_conditions, is_retained}
use mathlib.Core.Option
use mathlib.Core.Path.{subst}
use sens.Scripting.Engine.Steps.{
  set_in_scope, Outcome, Answer, Call, call_result, set_retained, action_set_variable,
  action_call_script_with_depth,
}
use sens.Scripting.Engine.Retained.{persist-context}
use sens.Scripting.Engine.Execution.{
  skipped, ticks, run_script, finish, execute_once, execute_with_depth, run_actions, handle_errors,
  first_run, enter,
}

module _ {Value F W : Type 0} (json : Json Value) (numbers : JsonNumbers Value F)
    (floats : Floats F) (agent : Agent Value F W) (limits : ScriptLimits) (clock : ℕ → ℕ)
    (utc : ℕ → ℕ → UtcNow) where
  -- The engine runs under the name and the priority that it had, or under the script's name, which
  -- then was skipped.
  abbrev Restores : String → ScriptEngine Value F W → Outcome Value F W → Type 0
  Restores id e x =
      ((x.0.current_script_id ≡ e.current_script_id)
        × (x.0.current_script_priority ≡ e.current_script_priority))
      ⊎ ((x.0.current_script_id ≡ some id) × (x.1 ≡ ok (skipped id)))

  run_script-Restores :
      (call : Call Value F W) (id : String) (depth : ℕ) (d : ScriptDefinition Value)
      (e : ScriptEngine Value F W)
      → OnSome
          (Restores id e)
          (run_script json numbers floats agent limits clock utc call id depth d e)
  unfolding run_script finish
  run_script-Restores call id depth d e =
      if-P (OnSome (Restores id e))
        (evaluate_conditions json numbers floats (utc e.reads) e.context d.conditions)
        (λ met.
          OnSome-and_then (Restores id e)
            (run_actions json numbers floats agent limits clock utc call depth d.actions (
              first_run json numbers floats agent limits clock utc depth
                (enter json numbers floats agent limits clock utc id d e)))
            (λ r.
              Option.map (finish json numbers floats agent limits clock utc id e)
                (handle_errors json numbers floats agent limits clock utc call depth d.on_error r))
            (λ r.
              OnSome-map (Restores id e)
                (handle_errors json numbers floats agent limits clock utc call depth d.on_error r)
                (finish json numbers floats agent limits clock utc id e) (λ s. inl (refl, refl))))
        (λ unmet. inr (refl, refl))

  execute_once-Restores :
      (call : Call Value F W) (id : String) (depth : ℕ) (e : ScriptEngine Value F W)
      → OnSome
          (Restores id e)
          (execute_once json numbers floats agent limits clock utc call id depth e)
  unfolding execute_once
  execute_once-Restores call id depth e =
      if-P (OnSome (Restores id e)) (leb limits.max_call_depth depth) (λ deep. inl (refl, refl))
        (λ shallow.
          if-P (OnSome (Restores id e))
            (check (ticks json numbers floats agent limits clock utc e.reads) id e.rate_limiter).1
            (λ allowed. elim (Option-cases (agent.load e.world id)) [
              | inl missing ↦ rw missing (inl (refl, refl))
              | inr (d, found) ↦ rw found (run_script-Restores call id depth d _)
            ])
            (λ limited. inl (refl, refl)))

  execute_with_depth-Restores :
      (fuel : ℕ) (id : String) (depth : ℕ) (e : ScriptEngine Value F W)
      → OnSome
          (Restores id e)
          (execute_with_depth json numbers floats agent limits clock utc fuel id depth e)
  unfolding execute_with_depth
  execute_with_depth-Restores zero id depth e = tt
  execute_with_depth-Restores (suc fuel) id depth e =
      execute_once-Restores (execute_with_depth json numbers floats agent limits clock utc fuel) id
        depth e

  -- After a script the engine runs under the script's name and the priority that it had before,
  -- or else the script was skipped for its conditions and the engine runs under its name.
  pub caller_restored :
      (fuel : ℕ) (id : String) (depth : ℕ) (e e1 : ScriptEngine Value F W)
      (r : Result (ExecutionResult Value) String)
      → execute_with_depth json numbers floats agent limits clock utc fuel id depth e ≡ some (e1, r)
      → ((e1.current_script_id ≡ e.current_script_id)
          × (e1.current_script_priority ≡ e.current_script_priority))
        ⊎ ((e1.current_script_id ≡ some id) × (r ≡ ok (skipped id)))
  caller_restored fuel id depth e e1 r returned =
      OnSome-some (Restores id e) _ (execute_with_depth-Restores fuel id depth e) returned

  -- What `get` finds of a retained variable after it was set.
  get-set_retained :
      (action : Action Value) (v : Value) (scope : VariableScope) (e : ScriptEngine Value F W)
      → get
          (unwrap_or e.current_script_id "global" ⧺ ":" ⧺ action.target)
          (set_retained json numbers floats agent limits utc action v scope e).0.context.variables
        ≡ some v
  unfolding set_retained set_variable
  get-set_retained action v scope e =
      let key = unwrap_or e.current_script_id "global" ⧺ ":" ⧺ action.target in
      ap (λ c. get key c.variables)
        (persist-context json numbers floats agent limits utc agent.persistence _ action v scope _)
      ∙ get-insert key key v e.context.variables
      ∙ rw (beq_refl key) refl

  -- A retained variable stands under the name that the engine runs under.
  get-action_set_variable :
      (id : String) (set : Action Value) (v : Value) (e : ScriptEngine Value F W)
      → e.current_script_id ≡ some id
      → set.value ≡ some v
      → set.scope ≡ some Actions.retain
      → get
          (id ⧺ ":" ⧺ set.target)
          (action_set_variable json numbers floats agent limits utc set e).0.context.variables
        ≡ some v
  unfolding action_set_variable set_in_scope is_retained
  get-action_set_variable id set v e named valued retained =
      let scoped = set_in_scope json numbers floats agent limits utc in
      let found = λ (x : Answer Value F W). get (id ⧺ ":" ⧺ set.target) x.0.context.variables in
      ap (λ o. found (scoped o (unwrap_or set.scope Actions.local) set e)) valued
      ∙ ap (λ o. found (scoped (some v) (unwrap_or o Actions.local) set e)) retained
      ∙ subst
          (λ o.
            get (unwrap_or o "global" ⧺ ":" ⧺ set.target)
              (set_retained json numbers floats agent limits utc set v Actions.retain
                e).0.context.variables
            ≡ some v)
          named (get-set_retained set v Actions.retain e)

  -- A script calls one that exists and that the limits allow, and whose conditions are not met: the
  -- call succeeds, and the retained variable that the caller sets next is kept under the name of
  -- the script that it called.
  pub skipped_call_renames :
      (fuel depth : ℕ) (id : String) (call set : Action Value) (v : Value)
      (d : ScriptDefinition Value) (e e1 : ScriptEngine Value F W) (r : ActionResult Value)
      → call.script_id ≡ some id
      → leb limits.max_call_depth (depth + 1) ≡ false
      → (check (ticks json numbers floats agent limits clock utc e.reads) id e.rate_limiter).1
        ≡ true
      → agent.load e.world id ≡ some d
      → evaluate_conditions json numbers floats (utc (e.reads + 3)) e.context d.conditions ≡ false
      → set.value ≡ some v
      → set.scope ≡ some Actions.retain
      → action_call_script_with_depth json numbers floats agent limits utc
          (execute_with_depth json numbers floats agent limits clock utc (suc fuel))
          call
          depth
          e
        ≡ some (e1, r)
      → (r.success ≡ true)
        × (get
              (id ⧺ ":" ⧺ set.target)
              (action_set_variable json numbers floats agent limits utc set e1).0.context.variables
            ≡ some v)
  unfolding action_call_script_with_depth execute_with_depth execute_once run_script call_result
      success
  skipped_call_renames fuel depth id call set v d e e1 r named shallow allowed found unmet valued
        retained returned =
      OnSome-some
        (λ (x : Answer Value F W).
          (x.1.success ≡ true)
          × (get (id ⧺ ":" ⧺ set.target)
                (action_set_variable json numbers floats agent limits utc set
                  x.0).0.context.variables
              ≡ some v))
        _
        (rw (named, shallow, allowed, found, unmet)
          (refl, get-action_set_variable id set v _ refl valued retained))
        returned
