-- ===== src/Scripting/Engine/ScanCycle.antt =====
-- src/scripting/engine.rs: the scan cycle's length and its statistics. The average, a float, is a
-- parameter: what a cycle makes of the one before.
use sens.Common.{
  ℕ, ◌+◌, ◌-◌, ◌<◌, min, max, ◌≡◌, ◌∙◌, List, [], ◌∷◌, arith, ltb, if◌then◌else◌, u64_mod, wrap64,
}
use sens.Common.Tables.{count}

pub record ScanCycleStats (F : Type 0) : Type 0 where
  pub total_cycles : ℕ
  pub current_cycle_ms : ℕ
  pub max_cycle_ms : ℕ
  pub avg_cycle_ms : F
  pub overrun_count : ℕ
  pub last_overrun_ms : ℕ

abbrev pub min_scan_cycle_ms : ℕ
min_scan_cycle_ms = 10

abbrev pub max_scan_cycle_ms : ℕ
max_scan_cycle_ms = 10000

-- The scan cycle of `set_scan_cycle_ms`.
unfoldable pub set_scan_cycle_ms : ℕ → ℕ
set_scan_cycle_ms ms = min (max ms min_scan_cycle_ms) max_scan_cycle_ms

module _ {F : Type 0} (average : ℕ → F → F) where
  unfoldable pub update : ℕ → ℕ → ScanCycleStats F → ScanCycleStats F
  update cycle_ms target_cycle_ms s =
      let overrun = ltb target_cycle_ms cycle_ms in
      record {
        total_cycles = wrap64 (s.total_cycles + 1);
        current_cycle_ms = cycle_ms;
        max_cycle_ms = if ltb s.max_cycle_ms cycle_ms then cycle_ms else s.max_cycle_ms;
        avg_cycle_ms = average cycle_ms s.avg_cycle_ms;
        overrun_count = if overrun then wrap64 (s.overrun_count + 1) else s.overrun_count;
        last_overrun_ms = if overrun then cycle_ms - target_cycle_ms else s.last_overrun_ms;
      }

  unfoldable pub update_all : ℕ → List ℕ → ScanCycleStats F → ScanCycleStats F
  unfolding update
  update_all target [] s = s
  update_all target (c ∷ cs) s = update_all target cs (update c target s)

  overrun_step :
      (target c : ℕ) (s : ScanCycleStats F)
      → s.overrun_count + (if ltb target c then 1 else 0) < u64_mod
      → (update c target s).overrun_count ≡ s.overrun_count + (if ltb target c then 1 else 0)
  unfolding update
  overrun_step target c s small = ground arith

  -- The cycles longer than the target are counted, while the count fits a `u64`.
  pub overruns_counted :
      (target : ℕ) (cycles : List ℕ) (s : ScanCycleStats F)
      → s.overrun_count + count (ltb target) cycles < u64_mod
      → (update_all target cycles s).overrun_count ≡ s.overrun_count + count (ltb target) cycles
  unfolding update_all count
  overruns_counted target [] s small = omega arith
  overruns_counted target (c ∷ cs) s small =
      let step = overrun_step target c s (omega arith) in
      let later : (update c target s).overrun_count + count (ltb target) cs < u64_mod =
        omega arith in
      overruns_counted target cs (update c target s) later ∙ omega arith
