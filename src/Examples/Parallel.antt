-- ===== src/Examples/Parallel.antt =====
-- src/scripting/parallel.rs: concrete parallel blocks.
use sens.Common.{ℕ, zero, suc, ◌*◌, ◌≡◌, refl, true, none, some, [], ◌∷◌, length}
use sens.Common.Tables.{all, count}
use sens.Scripting.Actions.{success, failure}
use sens.Scripting.Actions
use sens.Scripting.Parallel.{
  ParallelBranch, ParallelDivergence, Task, is_success, execute, execute_branch, run_branch, nth,
}
use sens.Scripting.Parallel
use sens.Scripting.Parallel.Outcomes.{branch_complete}
use sens.Scripting.Parallel.Blocks.{succeeded, arrivals_decide}
use sens.Examples.Triggers.{Datum}
use sens.Examples.Engine.{nothing_done}

abbrev log_task : Task Datum
log_task = record { clock = λ k. k * 1000000; execute = λ k a. success Actions.log "done" }

abbrev two_steps : ParallelBranch Datum
two_steps = record {
  id = "a";
  actions = nothing_done ∷ nothing_done ∷ [];
  timeout_ms = none;
  priority = 0;
}

abbrev two_branches : ParallelDivergence Datum
two_branches = record {
  id = "block";
  branches = two_steps ∷ record two_steps { id = "b" } ∷ [];
  sync_type = Parallel.and;
  timeout_ms = some 1000;
}

branch_complete_example :
    (length (execute_branch log_task two_steps 500).results ≡ 2)
    × (all (λ r. r.success) (execute_branch log_task two_steps 500).results ≡ true)
unfolding execute_branch run_branch success
branch_complete_example = branch_complete log_task two_steps 500 refl

-- The first task fails, the second one does not.
abbrev two_tasks : ℕ → Task Datum
two_tasks zero = record log_task { execute = λ k a. failure Actions.log "no message" }
two_tasks (suc i) = log_task

-- The failure arrives first; no task has the number 7.
arrivals_decide_example :
    (is_success (
        execute Parallel.default two_tasks
          (0 ∷ 7 ∷ 1 ∷ [])
          50
          (record two_branches { sync_type = Parallel.or }))
      ≡ true)
    × (count succeeded
          (execute Parallel.default two_tasks
            (0 ∷ 7 ∷ 1 ∷ [])
            50
            (record two_branches { sync_type = Parallel.or })).branch_results
        ≡ 1)
unfolding count nth execute_branch run_branch success failure
arrivals_decide_example =
    arrivals_decide Parallel.default two_tasks (0 ∷ 7 ∷ 1 ∷ []) 50
      (record two_branches { sync_type = Parallel.or })
