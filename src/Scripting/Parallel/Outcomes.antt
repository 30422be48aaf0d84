-- ===== src/Scripting/Parallel/Outcomes.antt =====
-- src/scripting/parallel.rs: when a branch and when a parallel block succeeds.
use sens.Common.{
  if-P, ℕ, suc, ◌+◌, String, ◌≡◌, refl, sym, ap, ◌∙◌, Bool, true, ◌&&◌, List, [], ◌∷◌, ◌++◌, arith,
  leb, length, length-append, from_millis,
}
use sens.Common.Tables.{all}
use sens.Scripting.Actions.{Action, ActionResult}
use sens.Scripting.Parallel.{ParallelBranch, BranchResult, Task, run_branch, execute_branch}

module _ {Value : Type 0} where
  abbrev all_good : List (ActionResult Value) → Bool
  all_good = all (λ r. r.success)

  all_good-append :
      (rs : List (ActionResult Value)) (r : ActionResult Value)
      → all_good (rs ++ (r ∷ [])) ≡ (all_good rs && r.success)
  unfolding all
  all_good-append [] r = ground arith
  all_good-append (x ∷ rs) r = ground (arith, all_good-append rs r)

  -- A branch that succeeds has results of the actions done before and of all those left, all good.
  abbrev Complete : ℕ → List (Action Value) → BranchResult Value → Type 0
  Complete n actions r =
      r.success ≡ true → (length r.results ≡ n + length actions) × (all_good r.results ≡ true)

  run_branch-Complete :
      (task : Task Value) (id : String) (start deadline k : ℕ) (actions : List (Action Value))
      (good : Bool) (rs : List (ActionResult Value))
      → good ≡ all_good rs
      → Complete (length rs) actions (run_branch task id start deadline k actions good rs)
  unfolding run_branch
  run_branch-Complete task id start deadline k [] good rs so_far =
      λ h. (omega arith, sym so_far ∙ h)
  run_branch-Complete task id start deadline k (a ∷ later) good rs so_far =
      let r = task.execute k a in
      let rest =
        run_branch-Complete task id start deadline (suc k) later (good && r.success)
          (rs ++ (r ∷ [])) (ap (λ b. b && r.success) so_far ∙ sym (all_good-append rs r)) in
      if-P (Complete (length rs) (a ∷ later)) (leb deadline (task.clock k)) (λ late h. cc h)
        (λ early h. (
          (rest h).0 ∙ ap (λ n. n + length later) (length-append rs (r ∷ [])) ∙ omega arith,
          (rest h).1,
        ))

  -- A branch that succeeds has one result for each of its actions, and each is a success.
  pub branch_complete :
      (task : Task Value) (branch : ParallelBranch Value) (timeout_ms : ℕ)
      → (execute_branch task branch timeout_ms).success ≡ true
      → (length (execute_branch task branch timeout_ms).results ≡ length branch.actions)
        × (all (λ r. r.success) (execute_branch task branch timeout_ms).results ≡ true)
  unfolding execute_branch all
  branch_complete task branch timeout_ms h =
      let done =
        run_branch-Complete task branch.id (task.clock 0) (task.clock 0 + from_millis timeout_ms) 1
          branch.actions true [] refl h in
      (done.0 ∙ omega arith, done.1)
