-- ===== src/Examples/Breaker.antt =====
-- The circuit breaker of src/resilience/circuit_breaker.rs at concrete states.
use sens.Common.Tables.{count, all}
use sens.Common.{◌≤◌, ◌≡◌, refl, [], ◌∷◌, arith}
use sens.Resilience.CircuitBreaker
use sens.Resilience.CircuitBreaker.{CircuitBreaker, state_closed, state_open, state_half_open}
use sens.Resilience.CircuitBreaker.Laws.{
  ask, release, succeed, fail, reconnect, IsValid, run, fails, run-IsValid, opens_at_threshold,
}
use sens.Resilience.CircuitBreaker.HalfOpen.{admitted, admits_permits}
use sens.Resilience.CircuitBreaker.Threads.{
  load_state, returned, step, alone, here, later, advance, alone-returns, permits_bounded,
}

abbrev closed_3 : CircuitBreaker
closed_3 = record {
  state = state_closed;
  failure_count = 0;
  success_count = 0;
  failure_threshold = 3;
  success_threshold = 2;
  recovery_timeout_ms = 1000;
  last_failure_ms = 0;
  half_open_permits = 0;
  max_half_open_permits = 1;
}

abbrev open_at_5 : CircuitBreaker
open_at_5 = record closed_3 { state = state_open; failure_count = 3; last_failure_ms = 5 }

abbrev half_open_full : CircuitBreaker
half_open_full = record open_at_5 {
  state = state_half_open;
  half_open_permits = 1;
  success_count = 1;
}

closed_3-IsValid : IsValid closed_3
closed_3-IsValid = ground arith

open_at_5-IsValid : IsValid open_at_5
open_at_5-IsValid = ground arith

half_open_full-IsValid : IsValid half_open_full
half_open_full-IsValid = ground arith

run-IsValid_example :
    IsValid
      (run (fail 5 ∷ fail 6 ∷ fail 7 ∷ ask 2000 ∷ release ∷ succeed ∷ reconnect ∷ []) closed_3)
run-IsValid_example =
    run-IsValid (fail 5 ∷ fail 6 ∷ fail 7 ∷ ask 2000 ∷ release ∷ succeed ∷ reconnect ∷ []) closed_3
      closed_3-IsValid

opens_at_threshold_example :
    ((fails (5 ∷ 6 ∷ 7 ∷ 8 ∷ []) closed_3).state ≡ state_open)
    × ((fails (5 ∷ 6 ∷ 7 ∷ 8 ∷ []) closed_3).last_failure_ms ≡ 7)
opens_at_threshold_example =
    opens_at_threshold 2 (5 ∷ 6 ∷ 7 ∷ 8 ∷ []) closed_3 refl refl refl (omega arith)

-- One request before the timeout, three after it, and one permit.
admits_permits_example : admitted (100 ∷ 2000 ∷ 2001 ∷ 3000 ∷ []) open_at_5 ≡ 1
unfolding count all
admits_permits_example =
    admits_permits (100 ∷ 2000 ∷ 2001 ∷ 3000 ∷ []) open_at_5 open_at_5-IsValid refl (omega arith)
      (refl, (refl, (refl, (refl, tt))))

alone-returns_example : alone 9 2000 (load_state, open_at_5) ≡ (
  returned (CircuitBreaker.is_open 2000 open_at_5).1,
  (CircuitBreaker.is_open 2000 open_at_5).0,
)
alone-returns_example = alone-returns 2000 open_at_5 (omega arith)

-- Two callers race for the only permit: both have read that none is taken when the second one's
-- compare-and-swap succeeds; the first one's fails, it starts again and is rejected.
permits_bounded_example :
    (half_open_full.half_open_permits ≤ half_open_full.max_half_open_permits)
    × (half_open_full.max_half_open_permits ≡ half_open_full.max_half_open_permits)
unfolding step
permits_bounded_example =
    permits_bounded (record half_open_full { half_open_permits = 0 }) (omega arith) (omega arith)
      (later
        (later
          (later
            (later
              (later (later (later (later here (advance 0 9)) (advance 0 9)) (advance 1 9))
                (advance 1 9))
              (advance 1 9))
            (advance 0 9))
          (advance 0 9))
        (advance 0 9))
