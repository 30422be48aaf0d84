-- ===== src/Resilience/RateLimiter/Race.antt =====
-- Two threads in src/resilience/rate_limiter.rs: one is in `refill`, between its load of the tokens
-- and its store, while the other takes tokens.
use sens.Common.{ℕ, ◌-◌, ◌≤◌, ◌≡◌, Bool, true, arith}
use sens.Resilience.RateLimiter.{RateLimiter, tokens_to_add, claim, refilled, refill, take}

-- `refill` in its atomic parts: the claim, the load, and the store of what the load found.
pub store_refill : ℕ → ℕ → RateLimiter → RateLimiter
store_refill loaded added l = record l { tokens = refilled loaded added l }

-- A refill that is due is its parts, one after the other.
refill_parts :
    (now : ℕ) (l : RateLimiter)
    → l.refill_interval_ms ≤ now - l.last_refill_ms
    → refill now l ≡ store_refill (claim now l).tokens (tokens_to_add now l) (claim now l)
unfolding refill store_refill
refill_parts now l due = ground arith

-- The refill with another thread's `take` of `n` tokens between its load and its store.
pub refill_around : ℕ → ℕ → RateLimiter → RateLimiter × Bool
refill_around now n l =
    let claimed = claim now l in
    let (taken, ok) = take n claimed in
    (store_refill claimed.tokens (tokens_to_add now l) taken, ok)

-- A granted request is lost in a refill: when a refill is due and another thread's request for `n`
-- tokens, at most as many as there are, comes between the refill's load and its store, the request is
-- granted, and yet the limiter ends as if it had never been made.
pub take_lost :
    (now n : ℕ) (l : RateLimiter)
    → l.refill_interval_ms ≤ now - l.last_refill_ms
    → n ≤ l.tokens
    → refill_around now n l ≡ (refill now l, true)
unfolding refill_around store_refill refill take
take_lost now n l due enough = ground arith
