-- ===== src/Resilience/CircuitBreaker.antt =====
-- src/resilience/circuit_breaker.rs. Each method as one thread runs it alone: every
-- compare-and-swap finds the value that was just loaded. `now` is `now_millis()`.
-- (The threads' interleavings are in the child `Threads`.)
pub mod Laws
pub mod HalfOpen
pub mod Threads
use sens.Common.{
  ℕ, ◌+◌, ◌-◌, max, String, Bool, true, false, ◌&&◌, [], ltb, leb, ◌==◌, if◌then◌else◌, wrap32,
}

-- `STATE_CLOSED`, `STATE_OPEN` and `STATE_HALF_OPEN`, the only values that the state byte takes.
pub data BreakerState : Type 0 where
  state_closed state_open state_half_open : BreakerState

pub record CircuitBreaker : Type 0 where
  pub state : BreakerState
  pub failure_count : ℕ
  pub success_count : ℕ
  pub failure_threshold : ℕ
  pub success_threshold : ℕ
  pub recovery_timeout_ms : ℕ
  pub last_failure_ms : ℕ
  pub half_open_permits : ℕ
  pub max_half_open_permits : ℕ

abbrev pub default_max_half_open_permits : ℕ
default_max_half_open_permits = 1

unfoldable pub with_half_open_limit : ℕ → ℕ → ℕ → CircuitBreaker
with_half_open_limit failure_threshold recovery_timeout_ms max_permits = record {
  state = state_closed;
  failure_count = 0;
  success_count = 0;
  failure_threshold = failure_threshold;
  success_threshold = 2;
  recovery_timeout_ms = recovery_timeout_ms;
  last_failure_ms = 0;
  half_open_permits = 0;
  max_half_open_permits = max max_permits 1;
}

unfoldable pub new : ℕ → ℕ → CircuitBreaker
unfolding with_half_open_limit
new failure_threshold recovery_timeout_ms =
    with_half_open_limit failure_threshold recovery_timeout_ms default_max_half_open_permits

-- The open state has lasted for the recovery timeout.
abbrev pub is_recovered : ℕ → CircuitBreaker → Bool
is_recovered now b = ltb 0 b.last_failure_ms && leb b.recovery_timeout_ms (now - b.last_failure_ms)

-- The half-open state: a permit is taken, if one is left.
take_permit : CircuitBreaker → CircuitBreaker × Bool
take_permit b =
    if leb b.max_half_open_permits b.half_open_permits
    then (b, true)
    else (record b { half_open_permits = wrap32 (b.half_open_permits + 1) }, false)

-- The breaker goes half-open, with no success counted and all permits free.
half_open_now : CircuitBreaker → CircuitBreaker
half_open_now b = record b { state = state_half_open; success_count = 0; half_open_permits = 0 }

-- `true` rejects the request.
unfoldable pub is_open : ℕ → CircuitBreaker → CircuitBreaker × Bool
unfolding take_permit half_open_now
is_open now b = elim b.state [
  | state_closed ↦ (b, false)
  | state_open ↦ if is_recovered now b then take_permit (half_open_now b) else (b, true)
  | state_half_open ↦ take_permit b
]

unfoldable pub release_permit : CircuitBreaker → CircuitBreaker
release_permit b = elim b.state [
  | state_half_open ↦
      if b.half_open_permits == 0
      then b
      else record b { half_open_permits = b.half_open_permits - 1 }
  | _ ↦ b
]

unfoldable pub open_circuit : ℕ → CircuitBreaker → CircuitBreaker
open_circuit now b = record b { last_failure_ms = now; state = state_open }

-- A success in the half-open state, its permit released.
count_success : CircuitBreaker → CircuitBreaker
count_success b =
    let counted = record b { success_count = wrap32 (b.success_count + 1) } in
    if leb b.success_threshold (wrap32 (b.success_count + 1))
    then record counted { state = state_closed; failure_count = 0; half_open_permits = 0 }
    else counted

unfoldable pub record_success : CircuitBreaker → CircuitBreaker
unfolding release_permit count_success
record_success b = elim b.state [
  | state_half_open ↦ count_success (release_permit b)
  | state_closed ↦ record b { failure_count = 0 }
  | state_open ↦ b
]

-- A failure in the closed state.
count_failure : ℕ → CircuitBreaker → CircuitBreaker
unfolding open_circuit
count_failure now b =
    let counted = record b { failure_count = wrap32 (b.failure_count + 1) } in
    if leb b.failure_threshold (wrap32 (b.failure_count + 1))
    then open_circuit now counted
    else counted

unfoldable pub record_failure : ℕ → CircuitBreaker → CircuitBreaker
unfolding release_permit count_failure
record_failure now b = elim b.state [
  | state_closed ↦ count_failure now b
  | state_half_open ↦ open_circuit now (release_permit b)
  | state_open ↦ b
]

abbrev pub state_name : CircuitBreaker → String
state_name b = elim b.state [
  | state_closed ↦ "closed"
  | state_open ↦ "open"
  | state_half_open ↦ "half_open"
]

unfoldable pub reset : CircuitBreaker → CircuitBreaker
reset b = record b {
  state = state_closed;
  failure_count = 0;
  success_count = 0;
  last_failure_ms = 0;
  half_open_permits = 0;
}
