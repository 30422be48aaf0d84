-- ===== src/Common/Clock.antt =====
-- `std::time::Instant` and `Duration` as counts of nanoseconds on one monotonic clock.
use Prim.Native.Nat.{ℕ, ◌-◌, ◌*◌, ◌/◌, ◌≤◌}
use mathlib.Core.List.{List, [], ◌∷◌}
use native.Mathlib.Omega.{arith}
use sens.Common.Words.{wrap64}

-- What `Instant::now()` gives to one call of a handler: the reading that starts a timer, and the
-- later one inside `elapsed()`.
pub record Readings : Type 0 where
  pub at_start : ℕ
  pub at_elapsed : ℕ

-- `start.elapsed().as_millis() as u64`; `elapsed` is zero for an instant that lies ahead.
abbrev pub elapsed_ms : ℕ → ℕ → ℕ
elapsed_ms now start = wrap64 ((now - start) / 1000000)

-- `Duration::from_millis(ms)`
abbrev pub from_millis : ℕ → ℕ
from_millis ms = ms * 1000000

-- The readings of the calls in order come one after the other, none before `from`.
abbrev pub IsChain : ℕ → List Readings → Type 0
IsChain from [] = Unit
IsChain from (r ∷ rs) = (from ≤ r.at_start) × (r.at_start ≤ r.at_elapsed) × IsChain r.at_elapsed rs

-- The last reading, `from` where there is none.
abbrev pub last_reading : ℕ → List Readings → ℕ
last_reading from [] = from
last_reading from (r ∷ rs) = last_reading r.at_elapsed rs

-- Nanoseconds whose milliseconds fit a `u64`.
abbrev pub max_instant : ℕ
max_instant = 18446744073709551616000000

pub le-last_reading : (now : ℕ) (rs : List Readings) → IsChain now rs → now ≤ last_reading now rs
le-last_reading now [] c = omega arith
le-last_reading now (r ∷ rs) c = omega (arith, le-last_reading r.at_elapsed rs c.2)
