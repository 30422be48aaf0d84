-- ===== src/Examples/Limiter.antt =====
-- The token bucket of src/resilience/rate_limiter.rs at concrete times.
use sens.Common.{◌≤◌, ◌≡◌, true, [], ◌∷◌, arith}
use sens.Resilience.RateLimiter
use sens.Resilience.RateLimiter.{RateLimiter}
use sens.Resilience.RateLimiter.Rate.{
  last_call, IsValid, granted, rate_bounded, granted_after_interval,
}

abbrev two_left : RateLimiter
two_left = record {
  capacity = 10;
  refill_amount = 5;
  refill_interval_ms = 1000;
  tokens = 2;
  last_refill_ms = 100;
}

two_left-IsValid : IsValid two_left
two_left-IsValid = record { full = omega arith; interval = omega arith; amount = omega arith }

rate_bounded_example : granted ((200, 2) ∷ (1150, 4) ∷ (1160, 3) ∷ []) two_left ≤ 7
unfolding last_call
rate_bounded_example =
    rate_bounded 150 ((200, 2) ∷ (1150, 4) ∷ (1160, 3) ∷ []) two_left two_left-IsValid (omega arith)
      (omega arith, omega arith, (omega arith, omega arith, (omega arith, omega arith, tt)))

granted_after_interval_example : (RateLimiter.try_acquire_n 1150 1 two_left).1 ≡ true
granted_after_interval_example =
    granted_after_interval 1150 two_left two_left-IsValid (omega arith) (omega arith) (omega arith)
