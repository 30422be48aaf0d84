-- ===== src/Resilience/RateLimiter/Rate.antt =====
-- The rate that the limiter allows when its methods are called one after the other
-- (src/resilience/rate_limiter.rs).
use native.Mathlib.Nat.{div-mul-le_self, le-div_iff_mul-le}
use sens.Common.{
  ℕ, ◌+◌, ◌-◌, ◌*◌, ◌/◌, ◌≤◌, ◌<◌, ◌≡◌, refl, ◌∙◌, inl, inr, true, List, [], ◌∷◌, arith, leb,
  if◌then◌else◌, Bool-cases,
}
use sens.Resilience.RateLimiter.{RateLimiter, intervals, refill, take, try_acquire_n}

-- The bucket holds at most its capacity, and its numbers are positive and fit a `u64`.
pub record IsValid (l : RateLimiter) : Type 0 where
  pub full : l.tokens ≤ l.capacity
  pub interval : 0 < l.refill_interval_ms
  pub amount : 0 < l.refill_amount

-- The calls `try_acquire_n(n)` at times that do not go back, from `from` on, within a `u64`.
abbrev pub IsTimed : ℕ → List (ℕ × ℕ) → Type 0
IsTimed from [] = Unit
IsTimed from ((now, n) ∷ calls) = (from ≤ now) × (now < 18446744073709551616) × IsTimed now calls

unfoldable pub last_call : ℕ → List (ℕ × ℕ) → ℕ
last_call from [] = from
last_call from ((now, n) ∷ calls) = last_call now calls

-- How many tokens the calls are granted in all.
pub granted : List (ℕ × ℕ) → RateLimiter → ℕ
granted [] l = 0
granted ((now, n) ∷ calls) l =
    let (l', ok) = try_acquire_n now n l in (if ok then n else 0) + granted calls l'

-- The whole intervals that a call at `now` brings in.
abbrev periods : ℕ → RateLimiter → ℕ
periods now l = if leb l.refill_interval_ms (now - l.last_refill_ms) then intervals now l else 0

intervals_past : (x i : ℕ) → x / i * i ≤ x
intervals_past x i = div-mul-le_self x i

-- What one call does to the account of tokens and time.
record Account (k now n : ℕ) (l : RateLimiter) (got : ℕ) (l' : RateLimiter) : Type 0 where
  time : l'.last_refill_ms ≡ l.last_refill_ms + k * l.refill_interval_ms
  past : l'.last_refill_ms ≤ now
  spent : got + l'.tokens ≤ l.tokens + k * l.refill_amount
  capacity : l'.capacity ≡ l.capacity
  amount : l'.refill_amount ≡ l.refill_amount
  interval : l'.refill_interval_ms ≡ l.refill_interval_ms
  full : l'.tokens ≤ l'.capacity

refill-Account :
    (now : ℕ) (l : RateLimiter)
    → IsValid l
    → l.last_refill_ms ≤ now
    → now < 18446744073709551616
    → Account (periods now l) now 0 l 0 (refill now l)
unfolding refill
refill-Account now l v le fits =
    elim (Bool-cases (leb l.refill_interval_ms (now - l.last_refill_ms))) [
      | inl due ↦ rw due (record {
        time = omega (arith, intervals_past (now - l.last_refill_ms) l.refill_interval_ms);
        past = omega (arith, intervals_past (now - l.last_refill_ms) l.refill_interval_ms);
        spent = omega arith;
        capacity = refl;
        amount = refl;
        interval = refl;
        full = omega arith;
      })
      | inr early ↦ rw early (record {
        time = omega arith;
        past = le;
        spent = omega arith;
        capacity = refl;
        amount = refl;
        interval = refl;
        full = v.full;
      })
    ]

take-Account :
    (k now n : ℕ) (l l' : RateLimiter)
    → Account k now 0 l 0 l'
    → let (l'', ok) = take n l' in Account k now n l (if ok then n else 0) l''
unfolding take
take-Account k now n l l' a = ground arith

try_acquire_n-Account :
    (now n : ℕ) (l : RateLimiter)
    → IsValid l
    → l.last_refill_ms ≤ now
    → now < 18446744073709551616
    → let (l', ok) = try_acquire_n now n l in
      Account (periods now l) now n l (if ok then n else 0) l'
unfolding try_acquire_n
try_acquire_n-Account now n l v le fits =
    take-Account (periods now l) now n l (refill now l) (refill-Account now l v le fits)

-- The account, over the amount `r` and the interval `i` that no call changes.
step-bound :
    (r i now n : ℕ) (l : RateLimiter)
    → IsValid l
    → l.refill_amount ≡ r
    → l.refill_interval_ms ≡ i
    → l.last_refill_ms ≤ now
    → now < 18446744073709551616
    → let (l', ok) = try_acquire_n now n l in
      ((if ok then n else 0) + l'.tokens ≤ l.tokens + periods now l * r)
      × (l'.last_refill_ms ≡ l.last_refill_ms + periods now l * i)
      × (l'.last_refill_ms ≤ now)
      × (l'.refill_amount ≡ r)
      × (l'.refill_interval_ms ≡ i)
      × (l'.tokens ≤ l'.capacity)
step-bound r i now n l v er ei le fits =
    let a = try_acquire_n-Account now n l v le fits in
    (rw (← er) a.spent, rw (← ei) a.time, a.past, a.amount ∙ er, a.interval ∙ ei, a.full)

granted-bound :
    (r i from : ℕ) (calls : List (ℕ × ℕ)) (l : RateLimiter)
    → IsValid l
    → l.refill_amount ≡ r
    → l.refill_interval_ms ≡ i
    → l.last_refill_ms ≤ from
    → IsTimed from calls
    → (k : ℕ) × (granted calls l ≤ l.tokens + k * r)
      × (l.last_refill_ms + k * i ≤ last_call from calls)
unfolding granted last_call
granted-bound r i from [] l v er ei le t = (0, omega arith, omega arith)
granted-bound r i from ((now, n) ∷ calls) l v er ei le t =
    let (spent, time, past, amount, interval, full) =
      step-bound r i now n l v er ei (omega arith) t.1 in
    let (k, got, gone) =
      granted-bound r i now calls (try_acquire_n now n l).0
        (record {
          full = full;
          interval = omega (arith, v.interval);
          amount = omega (arith, v.amount);
        })
        amount interval past t.2 in
    (periods now l + k, omega arith, omega arith)

-- The rate: from a valid limiter, calls at times that do not go back are granted in all at most the
-- tokens that it holds and the refill amount for each whole interval between its last refill and
-- the last call.
pub rate_bounded :
    (from : ℕ) (calls : List (ℕ × ℕ)) (l : RateLimiter)
    → IsValid l
    → l.last_refill_ms ≤ from
    → IsTimed from calls
    → granted calls l
      ≤ l.tokens
        + (last_call from calls - l.last_refill_ms) / l.refill_interval_ms * l.refill_amount
rate_bounded from calls l v le t =
    let (k, got, gone) =
      granted-bound l.refill_amount l.refill_interval_ms from calls l v refl refl le t in
    let whole =
      le-div_iff_mul-le {x = k} {y = last_call from calls - l.last_refill_ms} v.interval in
    let few = whole.1 (omega arith) in grind (arith, few, got)

-- No starvation: once a whole interval has passed since its last refill, a valid limiter with room
-- for a token grants one, if the sums of the refill fit a `u64`.
pub granted_after_interval :
    (now : ℕ) (l : RateLimiter)
    → IsValid l
    → 0 < l.capacity
    → l.refill_interval_ms ≤ now - l.last_refill_ms
    → l.tokens + (now - l.last_refill_ms) / l.refill_interval_ms * l.refill_amount
      < 18446744073709551616
    → (try_acquire_n now 1 l).1 ≡ true
unfolding try_acquire_n
granted_after_interval now l v room due fits =
    let whole = le-div_iff_mul-le {x = 1} {y = now - l.last_refill_ms} v.interval in
    let one_interval = whole.1 (omega arith) in
    let some_tokens : 1 ≤ (now - l.last_refill_ms) / l.refill_interval_ms * l.refill_amount =
      grind (arith, one_interval) in
    ground arith
