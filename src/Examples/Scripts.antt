-- ===== src/Examples/Scripts.antt =====
-- The conflict detector and the limits of src/scripting at concrete scripts.
use sens.Common.{
  ℕ, ◌≤◌, String, ◌≡◌, refl, true, false, List, [], ◌∷◌, arith, str_eq, if◌then◌else◌,
}
use sens.Common.Map.{get, insert, nat_key}
use sens.Scripting.Conflict.{PendingWrite, bool, check_write, against}
use sens.Scripting.Conflict.Priority.{AllBelow, check_all, NoDuplicate, highest_priority_holds}
use sens.Scripting.Limits
use sens.Scripting.Limits.{ScriptRateLimiter}
use sens.Scripting.Limits.Laws.{run, allowed, act, enter, exit, limits_hold}
use sens.Scripting.Limits.Rate.{calls_of, IsWithinMinute, Call, granted, rate_limited}

abbrev pin : ℕ
pin = 17

abbrev priority_of : String → ℕ
priority_of s = if str_eq s "safety" then 9 else if str_eq s "comfort" then 5 else 1

abbrev safety : PendingWrite
safety = record { script_id = "safety"; priority = 9; value = bool false }

abbrev comfort : PendingWrite
comfort = record { script_id = "comfort"; priority = 5; value = bool true }

abbrev idle : PendingWrite
idle = record { script_id = "idle"; priority = 1; value = bool false }

highest_priority_holds_example :
    AllBelow (comfort ∷ safety ∷ []) (get pin (check_all pin (comfort ∷ safety ∷ []) []))
unfolding get insert NoDuplicate check_write against
highest_priority_holds_example =
    highest_priority_holds pin priority_of (comfort ∷ safety ∷ []) [] tt (refl, (refl, tt))
      (ground arith, (ground arith, tt))

limits_hold_example :
    let c = run (enter ∷ act 7 ∷ act 8 ∷ exit ∷ []) (Limits.new 5 Limits.high_frequency) in
    (c.call_depth ≤ 2)
    × (c.actions_executed
        ≡ allowed (enter ∷ act 7 ∷ act 8 ∷ exit ∷ []) (Limits.new 5 Limits.high_frequency))
    × (allowed (enter ∷ act 7 ∷ act 8 ∷ exit ∷ []) (Limits.new 5 Limits.high_frequency) ≤ 10)
limits_hold_example = limits_hold 5 Limits.high_frequency (enter ∷ act 7 ∷ act 8 ∷ exit ∷ [])

abbrev call_at : ℕ → String → Call
call_at now script_id = record {
  ticks = record { at_entry = now; at_elapsed = now; at_reset = now };
  script_id = script_id;
}

abbrev used_once : ScriptRateLimiter
used_once = record {
  windows = ("a", record { count = 1; window_start = 100 }) ∷ [];
  default_limit = 2;
}

abbrev calls : List Call
calls = call_at 200 "a" ∷ call_at 300 "b" ∷ call_at 400 "a" ∷ []

rate_limited_example : granted "a" calls used_once ≡ 1
unfolding get calls_of IsWithinMinute
rate_limited_example =
    rate_limited "a" calls 100 1 used_once refl (omega arith, (omega arith, (omega arith, tt)))
      (omega arith)
