-- ===== src/Resilience/CircuitBreaker/HalfOpen.antt =====
-- How the circuit breaker of src/resilience/circuit_breaker.rs tries a device again after a failure:
-- what it lets through, and how the half-open state ends.
use sens.Common.{
  ℕ, ◌+◌, ◌-◌, ◌≤◌, ◌<◌, min, ◌≡◌, refl, ◌∙◌, inl, inr, Bool, true, false, List, [], ◌∷◌, arith,
  dec_lt, leb, ◌==◌, if◌then◌else◌, Bool-cases, length,
}
use sens.Common.Tables.{count, all, IsSorted}
use sens.Resilience.CircuitBreaker.{
  CircuitBreaker, state_closed, state_open, state_half_open, is_open, record_success,
  record_failure,
}
use sens.Resilience.CircuitBreaker.Laws.{IsValid}

-- Questions at the times, one after the other, and how many of them are let through.
pub admitted : List ℕ → CircuitBreaker → ℕ
admitted [] b = 0
admitted (now ∷ times) b =
    let (b', rejected) = is_open now b in (if rejected then 0 else 1) + admitted times b'

-- The recovery timeout since the last failure is over.
abbrev pub is_late : CircuitBreaker → ℕ → Bool
is_late b now = leb b.recovery_timeout_ms (now - b.last_failure_ms)

ask_free :
    (now : ℕ) (b : CircuitBreaker)
    → b.state ≡ state_half_open
    → b.half_open_permits < b.max_half_open_permits
    → b.max_half_open_permits < 4294967296
    → is_open now b ≡ (record b { half_open_permits = b.half_open_permits + 1 }, false)
unfolding is_open
ask_free now b h lt fits = ground arith

ask_full :
    (now : ℕ) (b : CircuitBreaker)
    → b.state ≡ state_half_open
    → b.max_half_open_permits ≤ b.half_open_permits
    → is_open now b ≡ (b, true)
unfolding is_open
ask_full now b h le = ground arith

ask_open :
    (now : ℕ) (b : CircuitBreaker)
    → b.state ≡ state_open
    → 0 < b.last_failure_ms
    → is_open now b ≡ (
        if leb b.recovery_timeout_ms (now - b.last_failure_ms)
        then is_open now
            (record b { state = state_half_open; success_count = 0; half_open_permits = 0 })
        else (b, true))
unfolding is_open
ask_open now b h p = ground arith

admitted-full :
    (times : List ℕ) (b : CircuitBreaker)
    → b.state ≡ state_half_open
    → b.max_half_open_permits ≤ b.half_open_permits
    → admitted times b ≡ 0
unfolding admitted
admitted-full [] b h le = refl
admitted-full (now ∷ times) b h le =
    rw (ask_full now b h le) (omega (arith, admitted-full times b h le))

admitted-half_open :
    (times : List ℕ) (b : CircuitBreaker)
    → b.state ≡ state_half_open
    → b.half_open_permits ≤ b.max_half_open_permits
    → b.max_half_open_permits < 4294967296
    → admitted times b ≡ min (length times) (b.max_half_open_permits - b.half_open_permits)
unfolding admitted
admitted-half_open [] b h le fits = omega arith
admitted-half_open (now ∷ times) b h le fits =
    elim (dec_lt b.half_open_permits b.max_half_open_permits) [
      | yes lt ↦ rw (ask_free now b h lt fits) (
          omega (
            arith,
            admitted-half_open times (record b { half_open_permits = b.half_open_permits + 1 }) h
                (omega arith) fits,
          ))
      | no ge ↦ admitted-full (now ∷ times) b h (omega arith) ∙ omega arith
    ]

-- Once it is late, it is late at every later time.
count-is_late :
    (now : ℕ) (times : List ℕ) (b : CircuitBreaker)
    → is_late b now ≡ true
    → all (leb now) times ≡ true
    → count (is_late b) times ≡ length times
unfolding all count
count-is_late now [] b late after = refl
count-is_late now (t ∷ times) b late after = ground (arith, count-is_late now times b late)

-- An open breaker whose last failure is at `b.last_failure_ms > 0` is asked at any times, in order,
-- with nothing recorded or released in between. Of the requests before the recovery timeout it lets
-- none through, and of those from then on as many as it has half-open permits, or all if they are
-- fewer.
pub admits_permits :
    (times : List ℕ) (b : CircuitBreaker)
    → IsValid b
    → b.state ≡ state_open
    → 0 < b.last_failure_ms
    → IsSorted leb times
    → admitted times b ≡ min (count (is_late b) times) b.max_half_open_permits
unfolding admitted count
admits_permits [] b v h p sorted = omega arith
admits_permits (now ∷ times) b v h p (after, sorted) = elim (Bool-cases (is_late b now)) [
  | inl late ↦
      rw (ask_open now b h p, late)
        (omega (
          arith,
          admitted-half_open (now ∷ times)
              (record b { state = state_half_open; success_count = 0; half_open_permits = 0 }) refl
              (omega arith) v.fits,
          count-is_late now times b late after,
        ))
  | inr early ↦ rw (ask_open now b h p, early) (omega (arith, admits_permits times b v h p sorted))
]

-- A breaker in the half-open state is closed by the success that is the second since it left the
-- open state, with no failure counted and all permits free; the first one releases a permit, if one
-- is taken, and keeps the state. Any failure opens it, at the time of that failure.
pub half_open_ends :
    (now : ℕ) (b : CircuitBreaker)
    → IsValid b
    → b.state ≡ state_half_open
    → ((record_success b).state ≡ (if b.success_count == 1 then state_closed else state_half_open))
      × ((record_success b).failure_count ≡ (if b.success_count == 1 then 0 else b.failure_count))
      × ((record_success b).half_open_permits
          ≡ (if b.success_count == 1 then 0 else b.half_open_permits - 1))
      × ((record_failure now b).state ≡ state_open)
      × ((record_failure now b).last_failure_ms ≡ now)
unfolding record_success record_failure
half_open_ends now b v h = ground arith

-- A half-open breaker whose permits are all taken rejects every request at every time and does not
-- change: as long as nothing is released, recorded or reset, it never lets a request through again.
pub exhausted_rejects :
    (times : List ℕ) (now : ℕ) (b : CircuitBreaker)
    → b.state ≡ state_half_open
    → b.half_open_permits ≡ b.max_half_open_permits
    → (admitted times b ≡ 0) × (is_open now b ≡ (b, true))
exhausted_rejects times now b h e =
    (admitted-full times b h (omega arith), ask_full now b h (omega arith))
