-- ===== src/Resilience/CircuitBreaker/Laws.antt =====
-- What the circuit breaker promises when its methods are called one after the other
-- (src/resilience/circuit_breaker.rs).
use sens.Common.{
  ℕ, zero, suc, ◌+◌, ◌≤◌, ◌<◌, ◌≡◌, refl, ap, ◌∙◌, List, [], ◌∷◌, arith, ltb, if◌then◌else◌, length,
}
use sens.Resilience.CircuitBreaker.{
  CircuitBreaker, state_closed, state_open, state_half_open, with_half_open_limit, is_open,
  release_permit, record_success, record_failure, reset,
}

-- A call of the breaker.
pub data Op : Type 0 where
  ask : ℕ → Op
  release : Op
  succeed : Op
  fail : ℕ → Op
  reconnect : Op

pub run_op : Op → CircuitBreaker → CircuitBreaker
run_op (ask now) b = (is_open now b).0
run_op release b = release_permit b
run_op succeed b = record_success b
run_op (fail now) b = record_failure now b
run_op reconnect b = reset b

pub run : List Op → CircuitBreaker → CircuitBreaker
run [] b = b
run (op ∷ ops) b = run ops (run_op op b)

-- What holds of a breaker between two calls.
pub record IsValid (b : CircuitBreaker) : Type 0 where
  pub some_permit : 0 < b.max_half_open_permits
  pub permits : b.half_open_permits ≤ b.max_half_open_permits
  pub fits : b.max_half_open_permits < 4294967296
  pub needs_two : b.success_threshold ≡ 2
  pub counted : b.state ≡ state_half_open → b.success_count < 2
  pub under :
      b.state ≡ state_closed → 0 < b.failure_threshold → b.failure_count < b.failure_threshold
  pub threshold_fits : b.failure_threshold < 4294967296

pub with_half_open_limit-IsValid :
    (threshold timeout permits : ℕ)
    → threshold < 4294967296
    → permits < 4294967296
    → IsValid (with_half_open_limit threshold timeout permits)
unfolding with_half_open_limit
with_half_open_limit-IsValid threshold timeout permits a c = ground arith

pub run_op-IsValid : (op : Op) (b : CircuitBreaker) → IsValid b → IsValid (run_op op b)
unfolding run_op is_open release_permit record_success record_failure reset
run_op-IsValid (ask now) b v = ground arith
run_op-IsValid release b v = ground arith
run_op-IsValid succeed b v = ground arith
run_op-IsValid (fail now) b v = ground arith
run_op-IsValid reconnect b v = ground arith

-- Every sequence of calls keeps the permits within their limit, the failures counted in the closed
-- state under a positive threshold, and fewer than two successes counted in the half-open state.
pub run-IsValid : (ops : List Op) (b : CircuitBreaker) → IsValid b → IsValid (run ops b)
unfolding run
run-IsValid [] b v = v
run-IsValid (op ∷ ops) b v = run-IsValid ops (run_op op b) (run_op-IsValid op b v)

-- Failures in a row, each at its time.
pub fails : List ℕ → CircuitBreaker → CircuitBreaker
fails [] b = b
fails (now ∷ times) b = fails times (record_failure now b)

fails-open : (times : List ℕ) (b : CircuitBreaker) → b.state ≡ state_open → fails times b ≡ b
unfolding fails record_failure
fails-open [] b h = refl
fails-open (now ∷ times) b h = ground (arith, fails-open times b h)

fail_once :
    (now : ℕ) (b : CircuitBreaker)
    → b.state ≡ state_closed
    → b.failure_count + 1 < b.failure_threshold
    → b.failure_threshold < 4294967296
    → record_failure now b ≡ record b { failure_count = b.failure_count + 1 }
unfolding record_failure
fail_once now b h lt fits = ground arith

fail_last :
    (now : ℕ) (b : CircuitBreaker)
    → b.state ≡ state_closed
    → b.failure_threshold ≡ b.failure_count + 1
    → b.failure_threshold < 4294967296
    → ((record_failure now b).state ≡ state_open) × ((record_failure now b).last_failure_ms ≡ now)
unfolding record_failure
fail_last now b h last fits = ground arith

-- The time of the failure with the number, from 0, or `none` if there are not so many.
abbrev pub time_at : ℕ → List ℕ → ℕ → ℕ
time_at n [] none_at = none_at
time_at zero (now ∷ times) none_at = now
time_at (suc n) (now ∷ times) none_at = time_at n times none_at

-- What failures in a row make of a closed breaker.
abbrev OpensAt : ℕ → List ℕ → CircuitBreaker → Type 0
OpensAt left times b =
    ((fails times b).state ≡ (if ltb left (length times) then state_open else state_closed))
    × ((fails times b).last_failure_ms ≡ time_at left times b.last_failure_ms)

fails-OpensAt :
    (left : ℕ) (times : List ℕ) (b : CircuitBreaker)
    → b.state ≡ state_closed
    → b.failure_threshold ≡ b.failure_count + suc left
    → b.failure_threshold < 4294967296
    → OpensAt left times b
unfolding fails
fails-OpensAt left [] b h t fits = (ground arith, refl)
fails-OpensAt zero (now ∷ times) b h t fits =
    let opened = fail_last now b h (omega arith) fits in
    let stays = fails-open times (record_failure now b) opened.0 in
    (
      ap (λ x. x.state) stays ∙ opened.0 ∙ ground arith,
      ap (λ x. x.last_failure_ms) stays ∙ opened.1,
    )
fails-OpensAt (suc left) (now ∷ times) b h t fits =
    let step = ap (fails times) (fail_once now b h (omega arith) fits) in
    let rest =
      fails-OpensAt left times (record b { failure_count = b.failure_count + 1 }) h (omega arith)
        fits in
    (ap (λ x. x.state) step ∙ rest.0 ∙ ground arith, ap (λ x. x.last_failure_ms) step ∙ rest.1)

-- From the closed state with no failure counted and a threshold of `left + 1`, any failures in a row
-- leave the breaker closed, and its last failure as it was, if they are fewer than the threshold,
-- and otherwise open, at the time of the failure that reaches the threshold.
pub opens_at_threshold :
    (left : ℕ) (times : List ℕ) (b : CircuitBreaker)
    → b.state ≡ state_closed
    → b.failure_count ≡ 0
    → b.failure_threshold ≡ suc left
    → b.failure_threshold < 4294967296
    → ((fails times b).state
        ≡ (if ltb (length times) b.failure_threshold then state_closed else state_open))
      × ((fails times b).last_failure_ms ≡ time_at left times b.last_failure_ms)
opens_at_threshold left times b h z t fits =
    let opens = fails-OpensAt left times b h (omega arith) fits in (opens.0 ∙ ground arith, opens.1)
