-- ===== src/Scripting/Parallel/Blocks.antt =====
-- src/scripting/parallel.rs: what a parallel block makes of its branches, by their numbers.
use sens.Common.{
  if-P, ℕ, zero, suc, ◌+◌, String, ◌≡◌, refl, sym, ap, ◌∙◌, inl, inr, Bool, true, false, not,
  Option, none, some, List, [], ◌∷◌, arith, ltb, ◌==◌, if◌then◌else◌, Bool-cases, Option-cases,
}
use sens.Common.Tables.{all, count}
use sens.Scripting.Parallel.{
  SyncType, ParallelBranch, ParallelDivergence, BranchResult, ParallelExecutor, Task, any_success,
  new, is_success, execute_branch, branch_timeout_ms, spawn, nth, push_some, received,
  until_success, collect, run_all, execute,
}
use mathlib.Core.Option
use sens.Scripting.Parallel

-- The time that a branch is given: its own, or else its block's, or else the executor's.
abbrev pub limit_of : {Value : Type 0} → ParallelExecutor → Option ℕ → ParallelBranch Value → ℕ
limit_of executor timeout_ms b = elim b.timeout_ms [
  | some t ↦ t
  | none ↦ elim timeout_ms [ some t ↦ t | none ↦ executor.default_timeout_ms ]
]

-- A test of a result that may not be there.
abbrev pub holds_of :
    {Value : Type 0} → (BranchResult Value → Bool) → Option (BranchResult Value) → Bool
holds_of p none = false
holds_of p (some r) = p r

abbrev pub succeeded : {Value : Type 0} → BranchResult Value → Bool
succeeded r = r.success

abbrev pub failed : {Value : Type 0} → BranchResult Value → Bool
failed r = not r.success

-- What a kind of block asks of the numbers of failures and of successes among the arrivals, and
-- how many successes it keeps of them.
abbrev pub succeeds_with : SyncType → ℕ → ℕ → Bool
succeeds_with Parallel.and bad good = bad == 0
succeeds_with Parallel.or bad good = ltb 0 good
succeeds_with Parallel.all_settled bad good = true

abbrev pub kept_of : SyncType → ℕ → ℕ
kept_of Parallel.or good = if ltb 0 good then 1 else 0
kept_of _ good = good

module _ {Value : Type 0} (executor : ParallelExecutor) (tasks : ℕ → Task Value) where
  -- What the branch with the number comes to, if there is one and it is among the first
  -- `max_concurrent`.
  abbrev pub outcome_at : Option ℕ → List (ParallelBranch Value) → ℕ → Option (BranchResult Value)
  outcome_at timeout_ms bs i =
      if ltb i executor.max_concurrent
      then Option.map (λ b. execute_branch (tasks i) b (limit_of executor timeout_ms b)) (nth i bs)
      else none

  branch_timeout_ms-eq-limit_of :
      (timeout_ms : Option ℕ) (b : ParallelBranch Value)
      → branch_timeout_ms executor timeout_ms b ≡ limit_of executor timeout_ms b
  unfolding branch_timeout_ms
  branch_timeout_ms-eq-limit_of timeout_ms b = elim (Option-cases b.timeout_ms) [
    | inr (t, own) ↦ rw own refl
    | inl not_own ↦ elim (Option-cases timeout_ms) [
      | inr (t, shared) ↦ rw (not_own, shared) refl
      | inl not_shared ↦ rw (not_own, not_shared) refl
    ]
  ]

  -- The result of a branch as the task with the number runs it.
  abbrev run_as : Option ℕ → ℕ → ParallelBranch Value → BranchResult Value
  run_as timeout_ms i b = execute_branch (tasks i) b (limit_of executor timeout_ms b)

  abbrev started :
      Option ℕ → ℕ → ℕ → Bool → List (ParallelBranch Value) → Option (BranchResult Value)
  started timeout_ms i j room bs =
      if room then Option.map (run_as timeout_ms i) (nth j bs) else none

  nth-spawn :
      (timeout_ms : Option ℕ) (i j free : ℕ) (bs : List (ParallelBranch Value))
      → nth j (spawn executor tasks timeout_ms i free bs)
        ≡ started timeout_ms (i + j) j (ltb j free) bs
  unfolding nth spawn
  nth-spawn timeout_ms i j zero bs =
      let none_free : ltb j 0 ≡ false = ground arith in rw none_free refl
  nth-spawn timeout_ms i j (suc free) [] =
      if-P (λ (o : Option (BranchResult Value)). none ≡ o) (ltb j (suc free)) {x = none} {y = none}
        (λ h. refl) (λ h. refl)
  nth-spawn timeout_ms i zero (suc free) (b ∷ bs) =
      let room : ltb 0 (suc free) ≡ true = ground arith in
      let same : i + 0 ≡ i = omega arith in
      rw (room, same)
        (ap (λ t. some (execute_branch (tasks i) b t)) (branch_timeout_ms-eq-limit_of timeout_ms b))
  nth-spawn timeout_ms i (suc j) (suc free) (b ∷ bs) =
      let same : suc i + j ≡ i + suc j = omega arith in
      let room : ltb j free ≡ ltb (suc j) (suc free) = ground arith in
      nth-spawn timeout_ms (suc i) j free bs
      ∙ ap (λ k. started timeout_ms k j (ltb j free) bs) same
      ∙ ap (λ r. started timeout_ms (i + suc j) j r bs) room

  count-push_some :
      (p : BranchResult Value → Bool) (o : Option (BranchResult Value))
      (rs : List (BranchResult Value))
      → count p (push_some o rs) ≡ (if holds_of p o then 1 else 0) + count p rs
  unfolding count
  count-push_some p none rs = omega arith
  count-push_some p (some r) rs = refl

  count-received :
      (p : BranchResult Value → Bool) (sent : List (BranchResult Value))
      (out : ℕ → Option (BranchResult Value))
      → ((i : ℕ) → nth i sent ≡ out i)
      → (arrivals : List ℕ)
      → count p (received arrivals sent) ≡ count (λ i. holds_of p (out i)) arrivals
  unfolding received count
  count-received p sent out same [] = refl
  count-received p sent out same (i ∷ is) =
      ap (λ o. count p (push_some o (received is sent))) (same i)
      ∙ count-push_some p (out i) (received is sent)
      ∙ ap (λ n. (if holds_of p (out i) then 1 else 0) + n) (count-received p sent out same is)

  all-succeeded :
      (rs : List (BranchResult Value)) → all (λ r. r.success) rs ≡ (count failed rs == 0)
  unfolding all count
  all-succeeded [] = ground arith
  all-succeeded (r ∷ rs) = ground (arith, all-succeeded rs)

  any_success-count : (rs : List (BranchResult Value)) → any_success rs ≡ ltb 0 (count succeeded rs)
  unfolding any_success count
  any_success-count [] = ground arith
  any_success-count (r ∷ rs) = ground (arith, any_success-count rs)

  count-until_success :
      (rs : List (BranchResult Value))
      → count succeeded (until_success rs) ≡ (if ltb 0 (count succeeded rs) then 1 else 0)
  unfolding until_success count
  count-until_success [] = ground arith
  count-until_success (r ∷ rs) = elim (Bool-cases r.success) [
    | inl good ↦ rw good (ground arith)
    | inr bad ↦ rw bad (ground (arith, count-until_success rs))
  ]

  is_success-collect :
      (id : String) (s : SyncType) (rs : List (BranchResult Value)) (n : ℕ)
      → is_success (new id s (collect s rs) n)
        ≡ succeeds_with s (count failed rs) (count succeeded rs)
  unfolding is_success new collect
  is_success-collect id Parallel.and rs n = all-succeeded rs
  is_success-collect id Parallel.or rs n =
      any_success-count (until_success rs) ∙ ap (ltb 0) (count-until_success rs) ∙ ground arith
  is_success-collect id Parallel.all_settled rs n = refl

  count-collect :
      (s : SyncType) (rs : List (BranchResult Value))
      → count succeeded (collect s rs) ≡ kept_of s (count succeeded rs)
  unfolding collect
  count-collect Parallel.and rs = refl
  count-collect Parallel.or rs = count-until_success rs
  count-collect Parallel.all_settled rs = refl

  spawn-none : (timeout_ms : Option ℕ) (i free : ℕ) → spawn executor tasks timeout_ms i free [] ≡ []
  unfolding spawn
  spawn-none timeout_ms i zero = refl
  spawn-none timeout_ms i (suc free) = refl

  collect-received_none :
      (s : SyncType) (arrivals : List ℕ) → collect {Value = Value} s (received arrivals []) ≡ []
  unfolding collect received nth until_success
  collect-received_none Parallel.and [] = refl
  collect-received_none Parallel.and (i ∷ is) = collect-received_none Parallel.and is
  collect-received_none Parallel.or [] = refl
  collect-received_none Parallel.or (i ∷ is) = collect-received_none Parallel.or is
  collect-received_none Parallel.all_settled [] = refl
  collect-received_none Parallel.all_settled (i ∷ is) =
      collect-received_none Parallel.all_settled is

  -- What arrives of the branches.
  abbrev arrived : Option ℕ → List (ParallelBranch Value) → List ℕ → List (BranchResult Value)
  arrived timeout_ms bs arrivals =
      received arrivals (spawn executor tasks timeout_ms 0 executor.max_concurrent bs)

  run_all-new :
      (arrivals : List ℕ) (elapsed : ℕ) (id : String) (s : SyncType) (timeout_ms : Option ℕ)
      (bs : List (ParallelBranch Value))
      → (n : ℕ) × (run_all executor tasks arrivals elapsed id s timeout_ms bs
          ≡ new id s (collect s (arrived timeout_ms bs arrivals)) n)
  unfolding run_all
  run_all-new arrivals elapsed id s timeout_ms (b ∷ bs) = (elapsed, refl)
  run_all-new arrivals elapsed id s timeout_ms [] = (
    0,
    ap (λ rs. new id s rs 0)
        (sym (
          ap (λ sent. collect s (received arrivals sent))
            (spawn-none timeout_ms 0 executor.max_concurrent)
          ∙ collect-received_none s arrivals)),
  )

  count-arrived :
      (p : BranchResult Value → Bool) (timeout_ms : Option ℕ) (bs : List (ParallelBranch Value))
      (arrivals : List ℕ)
      → count p (arrived timeout_ms bs arrivals)
        ≡ count (λ i. holds_of p (outcome_at timeout_ms bs i)) arrivals
  count-arrived p timeout_ms bs arrivals =
      count-received p (spawn executor tasks timeout_ms 0 executor.max_concurrent bs)
        (outcome_at timeout_ms bs)
        (λ i.
          let same : 0 + i ≡ i = omega arith in
          nth-spawn timeout_ms 0 i executor.max_concurrent bs
          ∙ ap (λ k. started timeout_ms k i (ltb i executor.max_concurrent) bs) same)
        arrivals

  -- A parallel block is executed and the results of the tasks with the numbers `arrivals` come in
  -- that order before the deadline. A branch counts if it is among the first `max_concurrent` and
  -- among the arrivals, by its result within its own time limit, or else the block's, or else the
  -- executor's. With `and` the block succeeds exactly if none of these failed, though there be none;
  -- with `or` exactly if one succeeded; with `all_settled` always. It keeps all of their successes,
  -- and with `or` one, if there is one.
  pub arrivals_decide :
      (arrivals : List ℕ) (elapsed : ℕ) (d : ParallelDivergence Value)
      → (is_success (execute executor tasks arrivals elapsed d)
          ≡ succeeds_with d.sync_type
              (count (λ i. holds_of failed (outcome_at d.timeout_ms d.branches i)) arrivals)
              (count (λ i. holds_of succeeded (outcome_at d.timeout_ms d.branches i)) arrivals))
        × (count succeeded (execute executor tasks arrivals elapsed d).branch_results
            ≡ kept_of d.sync_type
                (count (λ i. holds_of succeeded (outcome_at d.timeout_ms d.branches i)) arrivals))
  unfolding execute new
  arrivals_decide arrivals elapsed d =
      let s = d.sync_type in
      let rs = arrived d.timeout_ms d.branches arrivals in
      let (n, eq) = run_all-new arrivals elapsed d.id s d.timeout_ms d.branches in
      let bad = count-arrived failed d.timeout_ms d.branches arrivals in
      let good = count-arrived succeeded d.timeout_ms d.branches arrivals in
      (
        ap is_success eq
            ∙ is_success-collect d.id s rs n
            ∙ ap (λ k. succeeds_with s k (count succeeded rs)) bad
            ∙ ap (succeeds_with s _) good,
        ap (λ x. count succeeded x.branch_results) eq ∙ count-collect s rs ∙ ap (kept_of s) good,
      )
