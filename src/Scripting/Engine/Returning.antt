-- ===== src/Scripting/Engine/Returning.antt =====
-- src/scripting/engine.rs: scripts that call each other come to an end.
use sens.Common.{
  is_some-and_then, if-P, ℕ, zero, suc, ◌+◌, ◌≤◌, String, ◌≡◌, refl, ◌∙◌, inl, inr, true, false,
  Option, none, some, List, [], ◌∷◌, arith, ltb, leb, is_some, Option-cases,
}
use sens.Common.Map.{is_some-map}
use sens.Common.Result.{is_ok}
use sens.Common.Json.{Json}
use sens.Scripting.Context.{JsonNumbers, UtcNow}
use sens.Scripting.Triggers.{Floats}
use sens.Scripting.Limits.{ScriptLimits, check, is_time_exceeded, record_action}
use sens.Scripting.Actions.{Condition, Action, ActionType, ScriptDefinition}
use sens.Scripting.Actions
use sens.Scripting.Engine.{
  Agent, ScriptEngine, Run, is_action_limit, evaluate_condition, evaluate_conditions, tick,
}
use sens.Scripting.Engine.Steps.{
  Answer, when_met, Outcome, Call, perform, action_call_script_with_depth,
  execute_action_with_depth,
}
use sens.Scripting.Engine.Execution.{
  run_actions, run_on_error, ticks, handle_errors, run_script, execute_once, execute_with_depth,
}

-- A result is there.
abbrev HasResult : {A : Type 0} → Option A → Type 0
HasResult o = is_some o ≡ true

module _ {Value F W : Type 0} (json : Json Value) (numbers : JsonNumbers Value F)
    (floats : Floats F) (agent : Agent Value F W) (limits : ScriptLimits) (clock : ℕ → ℕ)
    (utc : ℕ → ℕ → UtcNow) where
  -- Every script that is called at the depth has a result.
  abbrev Answers : Call Value F W → ℕ → Type 0
  Answers call depth = (id : String) (e : ScriptEngine Value F W) → HasResult (call id depth e)

  perform-HasResult :
      (call : Call Value F W) (a : Action Value) (depth : ℕ)
      → Answers call (depth + 1)
      → (t : ActionType) (e : ScriptEngine Value F W)
      → HasResult (perform json numbers floats agent limits utc call a depth t e)
  unfolding perform action_call_script_with_depth
  perform-HasResult call a depth h Actions.call_script e = elim (Option-cases a.script_id) [
    | inl missing ↦ rw missing refl
    | inr (id, found) ↦ rw found (is_some-map _ _ ∙ h id e)
  ]
  perform-HasResult call a depth h Actions.set_gpio e = refl
  perform-HasResult call a depth h Actions.write_modbus e = refl
  perform-HasResult call a depth h Actions.write_coil e = refl
  perform-HasResult call a depth h Actions.alert e = refl
  perform-HasResult call a depth h Actions.set_variable e = refl
  perform-HasResult call a depth h Actions.log e = refl
  perform-HasResult call a depth h Actions.delay e = refl
  perform-HasResult call a depth h Actions.publish_mqtt e = refl
  perform-HasResult call a depth h Actions.noop e = refl

  when_met-HasResult :
      (condition : Option (Condition Value))
      → (run : ScriptEngine Value F W → Option (Answer Value F W))
      → ((e : ScriptEngine Value F W) → HasResult (run e))
      → (e : ScriptEngine Value F W)
      → HasResult (when_met json numbers floats agent limits utc condition run e)
  unfolding when_met
  when_met-HasResult none run h e = h e
  when_met-HasResult (some c) run h e =
      if-P HasResult (evaluate_condition json numbers floats (utc e.reads 0) e.context c)
        (λ met. h (tick 1 e)) (λ unmet. refl)

  action-HasResult :
      (call : Call Value F W) (a : Action Value) (depth : ℕ)
      → Answers call (depth + 1)
      → (e : ScriptEngine Value F W)
      → HasResult (execute_action_with_depth json numbers floats agent limits utc call a depth e)
  unfolding execute_action_with_depth
  action-HasResult call a depth h =
      when_met-HasResult a.condition _ (perform-HasResult call a depth h a.action_type)

  run_actions-HasResult :
      (call : Call Value F W) (depth : ℕ)
      → Answers call (depth + 1)
      → (actions : List (Action Value)) (r : Run Value F W)
      → HasResult (run_actions json numbers floats agent limits clock utc call depth actions r)
  unfolding run_actions
  run_actions-HasResult call depth h [] r = refl
  run_actions-HasResult call depth h (a ∷ later) r =
      if-P HasResult (is_time_exceeded (clock r.engine.reads) r.exec_ctx) (λ late. refl)
        (λ early.
          if-P HasResult (is_action_limit (record_action (clock (r.engine.reads + 1)) r.exec_ctx).1)
            (λ full. refl)
            (λ free.
              is_some-and_then _ _ (action-HasResult call a depth h (tick 2 r.engine))
                (λ x. run_actions-HasResult call depth h later _)))

  handle_errors-HasResult :
      (call : Call Value F W) (depth : ℕ)
      → Answers call (depth + 1)
      → (actions : List (Action Value)) (r : Run Value F W)
      → HasResult (run_on_error json numbers floats agent limits clock utc call depth actions r)
  unfolding run_on_error
  handle_errors-HasResult call depth h [] r = refl
  handle_errors-HasResult call depth h (a ∷ later) r =
      if-P HasResult (is_ok (record_action (clock r.engine.reads) r.exec_ctx).1)
        (λ free.
          is_some-and_then _ _ (action-HasResult call a depth h (tick 1 r.engine))
            (λ x. handle_errors-HasResult call depth h later _))
        (λ full. refl)

  run_script-HasResult :
      (call : Call Value F W) (id : String) (depth : ℕ)
      → Answers call (depth + 1)
      → (d : ScriptDefinition Value) (e : ScriptEngine Value F W)
      → HasResult (run_script json numbers floats agent limits clock utc call id depth d e)
  unfolding run_script handle_errors
  run_script-HasResult call id depth h d e =
      if-P (HasResult {A = Outcome Value F W})
        (evaluate_conditions json numbers floats (utc e.reads) e.context d.conditions)
        (λ met. is_some-and_then _ _ (run_actions-HasResult call depth h d.actions _) (λ r.
          is_some-map _ _
          ∙ if-P HasResult (ltb 0 r.actions_failed)
              (λ failed. handle_errors-HasResult call depth h d.on_error r) (λ fine. refl)))
        (λ unmet. refl)

  execute_once-HasResult :
      (call : Call Value F W) (id : String) (depth : ℕ)
      → (leb limits.max_call_depth depth ≡ false → Answers call (depth + 1))
      → (e : ScriptEngine Value F W)
      → HasResult (execute_once json numbers floats agent limits clock utc call id depth e)
  unfolding execute_once
  execute_once-HasResult call id depth h e =
      if-P HasResult (leb limits.max_call_depth depth) (λ deep. refl)
        (λ shallow.
          if-P (HasResult {A = Outcome Value F W})
            (check (ticks json numbers floats agent limits clock utc e.reads) id e.rate_limiter).1
            (λ allowed. elim (Option-cases (agent.load e.world id)) [
              | inl missing ↦ rw missing refl
              | inr (d, found) ↦ rw found (run_script-HasResult call id depth (h shallow) d _)
            ])
            (λ limited. refl))

  -- With more fuel than there are depths left below the limit, every script has a result, whatever
  -- the stored scripts call, themselves included.
  pub execution_returns :
      (fuel : ℕ) (id : String) (depth : ℕ) (e : ScriptEngine Value F W)
      → limits.max_call_depth ≤ depth + fuel
      → is_some
          (execute_with_depth json numbers floats agent limits clock utc (suc fuel) id depth e)
        ≡ true
  unfolding execute_with_depth
  execution_returns zero id depth e h =
      execute_once-HasResult (execute_with_depth json numbers floats agent limits clock utc zero) id
        depth (λ shallow. ground arith) e
  execution_returns (suc fuel) id depth e h =
      execute_once-HasResult
        (execute_with_depth json numbers floats agent limits clock utc (suc fuel)) id depth
        (λ shallow j s. execution_returns fuel j (depth + 1) s (omega arith)) e
