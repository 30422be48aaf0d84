-- ===== src/Scripting/Parallel.antt =====
-- src/scripting/parallel.rs. The tasks of the branches have clocks and calls of the executor of
-- their own; which of them answer before the deadline, and in what order, is an argument.
pub mod Outcomes
pub mod Blocks
use sens.Common.{
  ℕ, zero, suc, ◌+◌, max, String, Bool, true, false, ◌&&◌, ◌||◌, Option, none, some, List, [], ◌∷◌,
  ◌++◌, leb, if◌then◌else◌, unwrap_or, elapsed_ms, from_millis,
}
use sens.Common.Tables.{all}
use sens.Scripting.Actions.{Action, ActionResult}

pub data SyncType : Type 0 where
  and : SyncType
  or : SyncType
  all_settled : SyncType

pub record ParallelBranch (Value : Type 0) : Type 0 where
  pub id : String
  pub actions : List (Action Value)
  pub timeout_ms : Option ℕ
  pub priority : ℕ

pub record ParallelDivergence (Value : Type 0) : Type 0 where
  pub id : String
  pub branches : List (ParallelBranch Value)
  pub sync_type : SyncType
  pub timeout_ms : Option ℕ

pub record BranchResult (Value : Type 0) : Type 0 where
  pub branch_id : String
  pub success : Bool
  pub results : List (ActionResult Value)
  pub duration_ms : ℕ
  pub timed_out : Bool
  pub cancelled : Bool

pub record ParallelResult (Value : Type 0) : Type 0 where
  pub divergence_id : String
  pub sync_type : SyncType
  pub branch_results : List (BranchResult Value)
  pub total_duration_ms : ℕ
  pub all_success : Bool
  pub any_success : Bool

pub record ParallelExecutor : Type 0 where
  pub max_concurrent : ℕ
  pub default_timeout_ms : ℕ

abbrev pub default : ParallelExecutor
default = record { max_concurrent = 10; default_timeout_ms = 30000 }

unfoldable pub with_settings : ℕ → ℕ → ParallelExecutor
with_settings max_concurrent default_timeout_ms = record {
  max_concurrent = max max_concurrent 1;
  default_timeout_ms = default_timeout_ms;
}

-- What a task reads of the clock and gets of the executor, by the number of the call.
pub record Task (Value : Type 0) : Type 0 where
  pub clock : ℕ → ℕ
  pub execute : ℕ → Action Value → ActionResult Value

-- `o.or(p)`
abbrev or_else : Option ℕ → Option ℕ → Option ℕ
or_else (some a) o = some a
or_else none o = o

-- An element before a list, if there is one.
abbrev pub push_some {ℓ} : {A : Type ℓ} → Option A → List A → List A
push_some none xs = xs
push_some (some x) xs = x ∷ xs

-- The element of a list with the number, from 0.
unfoldable pub nth {ℓ} : {A : Type ℓ} → ℕ → List A → Option A
nth i [] = none
nth zero (x ∷ xs) = some x
nth (suc i) (x ∷ xs) = nth i xs

module _ {Value : Type 0} where
  unfoldable pub any_success : List (BranchResult Value) → Bool
  any_success [] = false
  any_success (r ∷ rs) = r.success || any_success rs

  -- `ParallelResult::new`
  unfoldable pub new : String → SyncType → List (BranchResult Value) → ℕ → ParallelResult Value
  unfolding any_success all
  new divergence_id sync_type branch_results duration_ms = record {
    divergence_id = divergence_id;
    sync_type = sync_type;
    branch_results = branch_results;
    total_duration_ms = duration_ms;
    all_success = all (λ r. r.success) branch_results;
    any_success = any_success branch_results;
  }

  abbrev succeeds : SyncType → ParallelResult Value → Bool
  succeeds and r = r.all_success
  succeeds or r = r.any_success
  succeeds all_settled r = true

  unfoldable pub is_success : ParallelResult Value → Bool
  is_success r = succeeds r.sync_type r

  abbrev branch_timeout : String → List (ActionResult Value) → ℕ → BranchResult Value
  branch_timeout branch_id results duration_ms = record {
    branch_id = branch_id;
    success = false;
    results = results;
    duration_ms = duration_ms;
    timed_out = true;
    cancelled = false;
  }

  -- `BranchResult::success` and `BranchResult::failure`
  abbrev branch_done : String → Bool → List (ActionResult Value) → ℕ → BranchResult Value
  branch_done branch_id success results duration_ms = record {
    branch_id = branch_id;
    success = success;
    results = results;
    duration_ms = duration_ms;
    timed_out = false;
    cancelled = false;
  }

  -- The loop of `execute_branch`, `k` being the number of clock readings so far.
  unfoldable pub run_branch :
      Task Value
      → String
      → ℕ
      → ℕ
      → ℕ
      → List (Action Value)
      → Bool
      → List (ActionResult Value)
      → BranchResult Value
  run_branch task id start deadline k [] all_success results =
      branch_done id all_success results (elapsed_ms (task.clock k) start)
  run_branch task id start deadline k (a ∷ later) all_success results =
      let r = task.execute k a in
      let rest =
        run_branch task id start deadline (suc k) later (all_success && r.success)
          (results ++ (r ∷ [])) in
      if leb deadline (task.clock k)
      then branch_timeout id results (elapsed_ms (task.clock (k + 1)) start)
      else rest

  unfoldable pub execute_branch : Task Value → ParallelBranch Value → ℕ → BranchResult Value
  unfolding run_branch
  execute_branch task branch timeout_ms =
      let start = task.clock 0 in
      run_branch task branch.id start (start + from_millis timeout_ms) 1 branch.actions true []

  -- `branch.timeout_ms.or(divergence.timeout_ms).unwrap_or(self.default_timeout_ms)`
  unfoldable pub branch_timeout_ms : ParallelExecutor → Option ℕ → ParallelBranch Value → ℕ
  branch_timeout_ms executor timeout_ms b =
      unwrap_or (or_else b.timeout_ms timeout_ms) executor.default_timeout_ms

  -- What the tasks of the first branches, as many as are still `free` to start, come to; `i` is the
  -- number of the next task.
  unfoldable pub spawn :
      ParallelExecutor
      → (ℕ → Task Value)
      → Option ℕ
      → ℕ
      → ℕ
      → List (ParallelBranch Value)
      → List (BranchResult Value)
  unfolding execute_branch branch_timeout_ms
  spawn executor tasks timeout_ms i zero branches = []
  spawn executor tasks timeout_ms i (suc free) [] = []
  spawn executor tasks timeout_ms i (suc free) (b ∷ bs) =
      execute_branch (tasks i) b (branch_timeout_ms executor timeout_ms b)
      ∷ spawn executor tasks timeout_ms (suc i) free bs

  -- What `rx.recv()` gives until the deadline, or until all tasks are done.
  unfoldable pub received : List ℕ → List (BranchResult Value) → List (BranchResult Value)
  unfolding nth
  received [] sent = []
  received (i ∷ is) sent = push_some (nth i sent) (received is sent)

  -- "Wait for FIRST successful branch"
  unfoldable pub until_success : List (BranchResult Value) → List (BranchResult Value)
  until_success [] = []
  until_success (r ∷ rs) = let rest = until_success rs in r ∷ (if r.success then [] else rest)

  unfoldable pub collect : SyncType → List (BranchResult Value) → List (BranchResult Value)
  unfolding until_success
  collect and rs = rs
  collect or rs = until_success rs
  collect all_settled rs = rs

  -- `execute` of the divergence's fields.
  unfoldable pub run_all :
      ParallelExecutor
      → (ℕ → Task Value)
      → List ℕ
      → ℕ
      → String
      → SyncType
      → Option ℕ
      → List (ParallelBranch Value)
      → ParallelResult Value
  unfolding new spawn received collect
  run_all executor tasks arrivals elapsed id sync_type timeout_ms [] = new id sync_type [] 0
  run_all executor tasks arrivals elapsed id sync_type timeout_ms (b ∷ bs) =
      new id sync_type
        (collect sync_type
          (received arrivals (spawn executor tasks timeout_ms 0 executor.max_concurrent (b ∷ bs))))
        elapsed

  -- `arrivals` are the numbers of the tasks in the order in which their results are received.
  unfoldable pub execute :
      ParallelExecutor
      → (ℕ → Task Value)
      → List ℕ
      → ℕ
      → ParallelDivergence Value
      → ParallelResult Value
  unfolding run_all
  execute executor tasks arrivals elapsed d =
      run_all executor tasks arrivals elapsed d.id d.sync_type d.timeout_ms d.branches
