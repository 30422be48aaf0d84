-- ===== src/Scripting/Limits/Laws.antt =====
-- What the limits of src/scripting/limits.rs bound.
use sens.Common.{ℕ, ◌+◌, ◌≤◌, ◌≡◌, refl, List, [], ◌∷◌, arith, if◌then◌else◌}
use sens.Common.Result.{is_ok}
use sens.Scripting.Limits.{
  ScriptLimits, ExecutionContext, new, record_action, enter_nested, exit_nested,
}

-- A call of the execution context.
pub data Op : Type 0 where
  act : ℕ → Op
  enter : Op
  exit : Op

pub run_op : Op → ExecutionContext → ExecutionContext
run_op (act now) c = (record_action now c).0
run_op enter c = (enter_nested c).0
run_op exit c = exit_nested c

pub run : List Op → ExecutionContext → ExecutionContext
run [] c = c
run (op ∷ ops) c = run ops (run_op op c)

-- How many of the actions are allowed.
pub allowed : List Op → ExecutionContext → ℕ
allowed [] c = 0
allowed (act now ∷ ops) c =
    let (c', result) = record_action now c in (if is_ok result then 1 else 0) + allowed ops c'
allowed (enter ∷ ops) c = allowed ops (enter_nested c).0
allowed (exit ∷ ops) c = allowed ops (exit_nested c)

record IsWithin (limits : ScriptLimits) (c : ExecutionContext) : Type 0 where
  same : c.limits ≡ limits
  depth : c.call_depth ≤ limits.max_call_depth
  actions : c.actions_executed ≤ limits.max_actions_per_run

run_op-IsWithin :
    {limits : ScriptLimits} (op : Op) (c : ExecutionContext)
    → IsWithin limits c
    → IsWithin limits (run_op op c)
unfolding run_op record_action enter_nested exit_nested
run_op-IsWithin (act now) c h = ground arith
run_op-IsWithin enter c h = ground arith
run_op-IsWithin exit c h = ground arith

run-IsWithin :
    {limits : ScriptLimits} (ops : List Op) (c : ExecutionContext)
    → IsWithin limits c
    → IsWithin limits (run ops c)
unfolding run
run-IsWithin [] c h = h
run-IsWithin (op ∷ ops) c h = run-IsWithin ops (run_op op c) (run_op-IsWithin op c h)

record_action-count :
    (now : ℕ) (c : ExecutionContext)
    → (record_action now c).0.actions_executed
      ≡ c.actions_executed + (if is_ok (record_action now c).1 then 1 else 0)
unfolding record_action
record_action-count now c = ground arith

enter_nested-count :
    (c : ExecutionContext) → (enter_nested c).0.actions_executed ≡ c.actions_executed
unfolding enter_nested
enter_nested-count c = ground arith

exit_nested-count : (c : ExecutionContext) → (exit_nested c).actions_executed ≡ c.actions_executed
unfolding exit_nested
exit_nested-count c = ground arith

allowed-count :
    (ops : List Op) (c : ExecutionContext)
    → (run ops c).actions_executed ≡ c.actions_executed + allowed ops c
unfolding run run_op allowed
allowed-count [] c = omega arith
allowed-count (act now ∷ ops) c =
    let rest = allowed-count ops (record_action now c).0 in
    let one = record_action-count now c in omega arith
allowed-count (enter ∷ ops) c =
    let rest = allowed-count ops (enter_nested c).0 in
    let kept = enter_nested-count c in omega arith
allowed-count (exit ∷ ops) c =
    let rest = allowed-count ops (exit_nested c) in let kept = exit_nested-count c in omega arith

-- A run keeps its limits: from a new context, whatever actions, nested calls and returns follow at
-- whatever times, the call depth stays within its limit, and the actions that are allowed are
-- counted one by one and are no more than the limit.
pub limits_hold :
    (now : ℕ) (limits : ScriptLimits) (ops : List Op)
    → let c = run ops (new now limits) in
      (c.call_depth ≤ limits.max_call_depth)
      × (c.actions_executed ≡ allowed ops (new now limits))
      × (allowed ops (new now limits) ≤ limits.max_actions_per_run)
limits_hold now limits ops =
    let within =
      run-IsWithin {limits = limits} ops (new now limits)
        (unfold new in record { same = refl; depth = omega arith; actions = omega arith }) in
    let counted = allowed-count ops (new now limits) in
    let none_yet : (new now limits).actions_executed ≡ 0 = unfold new in refl in
    let bounded = within.actions in (within.depth, omega arith, omega arith)
