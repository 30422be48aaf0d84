-- ===== src/FunctionBlocks/Timers/Ton/ScanCycle.antt =====
-- A TON that counts scans, with its input held on (timers.rs, `execute` of TON).
use sens.Common.{
  suc-add, add-suc, add-zero, ℕ, suc, ◌+◌, ◌*◌, ◌≤◌, ◌<◌, ◌≡◌, true, false, List, [], ◌∷◌, leb, min,
  arith, Readings, length, u64_mod,
}
use sens.FunctionBlocks.Timers.Ton.{Ton, scan_cycle, execute, scans}

-- The timer has counted `n` scans.
record IsCounting (pt cycle n : ℕ) (t : Ton) : Type 0 where
  preset : t.pt_ms ≡ pt
  on : t.input ≡ true
  seen : t.prev_input ≡ true
  by_scans : t.mode ≡ scan_cycle
  cycle_time : t.cycle_time_ms ≡ cycle
  counted : t.scan_count ≡ n
  output : t.output ≡ leb pt (n * cycle)
  elapsed : t.et_ms ≡ min pt (n * cycle)

execute-IsCounting :
    {pt cycle n : ℕ} {t : Ton} (r : Readings)
    → suc n * cycle < 18446744073709551616
    → 0 < cycle
    → IsCounting pt cycle n t
    → IsCounting pt cycle (suc n) (execute r t)
unfolding execute
execute-IsCounting {pt} {cycle} {n} r b p h = ground (arith, bounded)
  where
    bounded : suc n < 18446744073709551616
    bounded = grind arith

-- The count starts at the rising edge, which counts as one scan.
edge-IsCounting :
    (r : Readings) (t : Ton)
    → t.input ≡ true
    → t.prev_input ≡ false
    → t.output ≡ false
    → t.mode ≡ scan_cycle
    → t.cycle_time_ms < 18446744073709551616
    → IsCounting t.pt_ms t.cycle_time_ms 1 (execute r t)
unfolding execute
edge-IsCounting r t i p o m b = ground arith

scans-IsCounting :
    {pt cycle : ℕ} (n : ℕ) (rs : List Readings) (t : Ton)
    → 0 < cycle
    → (n + length rs) * cycle < 18446744073709551616
    → IsCounting pt cycle n t
    → IsCounting pt cycle (n + length rs) (scans rs t)
unfolding scans
scans-IsCounting n [] t p b h = rw add-zero h
scans-IsCounting {pt} {cycle} n (r ∷ rs) t p b h =
    rw (add-suc, ← suc-add)
      (scans-IsCounting (suc n) rs (execute r t) p (rw (← shift) b)
        (execute-IsCounting r (grind (arith, first_part)) p h))
  where
    shift : n + suc (length rs) ≡ suc n + length rs
    shift = omega arith

    first_part : suc n * cycle ≤ (n + length (r ∷ rs)) * cycle
    first_part = grind arith

-- Deterministic timing: a TON in scan-cycle mode, its output off, whose input rises and is then
-- held on for `n` scans in all, has counted `n` cycle times whatever the clock reads: the output is
-- on exactly if they have reached the preset time, and the elapsed time is their sum, capped at the
-- preset time, as long as that sum fits a `u64` and the cycle time is not 0.
pub scan_timing :
    (r : Readings) (rs : List Readings) (t : Ton)
    → t.input ≡ true
    → t.prev_input ≡ false
    → t.output ≡ false
    → t.mode ≡ scan_cycle
    → 0 < t.cycle_time_ms
    → length (r ∷ rs) * t.cycle_time_ms < u64_mod
    → let t' = scans (r ∷ rs) t in
      (t'.output ≡ leb t.pt_ms (length (r ∷ rs) * t.cycle_time_ms))
      × (t'.et_ms ≡ min t.pt_ms (length (r ∷ rs) * t.cycle_time_ms))
      × (t'.scan_count ≡ length (r ∷ rs))
unfolding scans
scan_timing r rs t i p o m c b = ground (
  arith,
  scans-IsCounting 1 rs (execute r t) c (rw one_more b) (edge-IsCounting r t i p o m (grind arith)),
  one_more,
)
  where
    one_more : 1 + length rs ≡ suc (length rs)
    one_more = omega arith
