-- ===== src/Resilience/RateLimiter.antt =====
-- src/resilience/rate_limiter.rs, the token bucket. Each method as one thread runs it alone: every
-- compare-and-swap finds the value that was just loaded. `now` is `now_millis()`, a monotonic
-- clock. The `u64` products and sums wrap, as in a release build.
pub mod Rate
pub mod Race
use sens.Common.{
  ℕ, ◌+◌, ◌-◌, ◌*◌, ◌/◌, min, Bool, true, false, ◌&&◌, Option, none, some, [], ltb, leb,
  if◌then◌else◌, wrap64,
}

pub record RateLimiter : Type 0 where
  pub capacity : ℕ
  pub refill_amount : ℕ
  pub refill_interval_ms : ℕ
  pub tokens : ℕ
  pub last_refill_ms : ℕ

-- `none` is the panic of a failed `assert!`. `refill_interval` is in nanoseconds: one of less than a
-- millisecond passes, and is kept as 0.
unfoldable pub with_interval : ℕ → ℕ → ℕ → ℕ → Option RateLimiter
with_interval now capacity refill_amount refill_interval =
    if ltb 0 capacity && (ltb 0 refill_amount && ltb 0 refill_interval)
    then some (record {
      capacity = capacity;
      refill_amount = refill_amount;
      refill_interval_ms = wrap64 (refill_interval / 1000000);
      tokens = capacity;
      last_refill_ms = now;
    })
    else none

unfoldable pub new : ℕ → ℕ → ℕ → Option RateLimiter
unfolding with_interval
new now capacity refill_rate = with_interval now capacity refill_rate 1000000000

-- How many whole intervals have passed, and the tokens that they bring.
abbrev pub intervals : ℕ → RateLimiter → ℕ
intervals now l = (now - l.last_refill_ms) / l.refill_interval_ms

abbrev pub tokens_to_add : ℕ → RateLimiter → ℕ
tokens_to_add now l = wrap64 (intervals now l * l.refill_amount)

-- The refill is claimed by moving its time on.
unfoldable pub claim : ℕ → RateLimiter → RateLimiter
claim now l = record l {
  last_refill_ms = wrap64 (l.last_refill_ms + intervals now l * l.refill_interval_ms);
}

-- What is stored after a refill that found `current` tokens.
abbrev pub refilled : ℕ → ℕ → RateLimiter → ℕ
refilled current added l = min (wrap64 (current + added)) l.capacity

unfoldable pub refill : ℕ → RateLimiter → RateLimiter
unfolding claim
refill now l =
    if leb l.refill_interval_ms (now - l.last_refill_ms)
    then record (claim now l) { tokens = refilled l.tokens (tokens_to_add now l) l }
    else l

-- The tokens are taken, if there are as many.
unfoldable pub take : ℕ → RateLimiter → RateLimiter × Bool
take n l = if ltb l.tokens n then (l, false) else (record l { tokens = l.tokens - n }, true)

unfoldable pub try_acquire_n : ℕ → ℕ → RateLimiter → RateLimiter × Bool
unfolding refill take
try_acquire_n now n l = take n (refill now l)

unfoldable pub try_acquire : ℕ → RateLimiter → RateLimiter × Bool
unfolding try_acquire_n
try_acquire now l = try_acquire_n now 1 l

unfoldable pub available_tokens : ℕ → RateLimiter → RateLimiter × ℕ
unfolding refill
available_tokens now l = let l' = refill now l in (l', l'.tokens)

unfoldable pub reset : ℕ → RateLimiter → RateLimiter
reset now l = record l { tokens = l.capacity; last_refill_ms = now }
