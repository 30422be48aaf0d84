-- ===== src/Resilience/CircuitBreaker/Threads.antt =====
-- `is_open` of src/resilience/circuit_breaker.rs as its threads run it: each atomic load, store and
-- compare-and-swap is one step, and the steps of the threads interleave. The log lines, and the
-- permits that they print, are left out.
use sens.Common.{
  refl, inr, inl, ◌≤◌, Bool-cases, ℕ, zero, suc, ◌+◌, ◌-◌, ◌<◌, ◌≡◌, Bool, true, false, ◌&&◌, List,
  [], ◌∷◌, arith, ltb, leb, ◌==◌, if◌then◌else◌, wrap32,
}
use sens.Resilience.CircuitBreaker.{
  is_recovered, CircuitBreaker, BreakerState, state_closed, state_open, state_half_open, is_open,
}

-- Where a caller stands, with what it has loaded.
pub data Caller : Type 0 where
  load_state : Caller
  load_last_failure : Caller
  check_timeout : ℕ → Caller
  swap_state : Caller
  store_success : Caller
  store_permits : Caller
  load_permits : Caller
  swap_permits : ℕ → Caller
  returned : Bool → Caller

-- The `match` on the loaded state.
abbrev dispatch : BreakerState → Caller
dispatch state_closed = returned false
dispatch state_open = load_last_failure
dispatch state_half_open = load_permits

-- The compare-and-swap from open to half-open: another thread's change sends the loop round again.
swap_open : CircuitBreaker → Caller × CircuitBreaker
swap_open b = elim b.state [
  | state_open ↦ (store_success, record b { state = state_half_open })
  | _ ↦ (load_state, b)
]

-- One step of a caller, `now` being what the clock says.
unfoldable pub step : ℕ → Caller → CircuitBreaker → Caller × CircuitBreaker
unfolding swap_open
step now load_state b = (dispatch b.state, b)
step now load_last_failure b = (check_timeout b.last_failure_ms, b)
step now (check_timeout last) b =
    (if ltb 0 last && leb b.recovery_timeout_ms (now - last) then swap_state else returned true, b)
step now swap_state b = swap_open b
step now store_success b = (store_permits, record b { success_count = 0 })
step now store_permits b = (load_state, record b { half_open_permits = 0 })
step now load_permits b = (
  if leb b.max_half_open_permits b.half_open_permits
      then returned true
      else swap_permits b.half_open_permits,
  b,
)
step now (swap_permits current) b =
    if b.half_open_permits == current
    then (returned false, record b { half_open_permits = wrap32 (current + 1) })
    else (load_state, b)
step now (returned answer) b = (returned answer, b)

-- A caller alone, for a number of steps.
pub alone : ℕ → ℕ → Caller × CircuitBreaker → Caller × CircuitBreaker
alone zero now (c, b) = (c, b)
alone (suc n) now (c, b) = alone n now (step now c b)

-- A thread that runs alone needs nine steps at most: after them `is_open` has returned, with the
-- answer and the breaker that its sequential reading gives.
pub alone-returns :
    (now : ℕ) (b : CircuitBreaker)
    → 0 < b.max_half_open_permits
    → alone 9 now (load_state, b) ≡ (returned (is_open now b).1, (is_open now b).0)
unfolding alone step is_open
alone-returns now b p = ground arith

-- Two callers by turns: `false` lets the first one make a step, `true` the second.
pub by_turns : List Bool → ℕ → Caller × Caller × CircuitBreaker → Caller × Caller × CircuitBreaker
by_turns [] now (c, d, b) = (c, d, b)
by_turns (false ∷ turns) now (c, d, b) =
    let (c', b') = step now c b in by_turns turns now (c', d, b')
by_turns (true ∷ turns) now (c, d, b) =
    let (d', b') = step now d b in by_turns turns now (c, d', b')

-- Callers by their numbers.
pub record System : Type 0 where
  pub breaker : CircuitBreaker
  pub caller : ℕ → Caller

abbrev move : System → ℕ → Caller × CircuitBreaker → System
move s i (c, b) = record { breaker = b; caller = λ j. if i == j then c else s.caller j }

-- Any caller makes its step, at any time; or a caller that has returned asks again.
pub data Step (s : System) : System → Type 0 where
  advance : (i now : ℕ) → Step s (move s i (step now (s.caller i) s.breaker))
  again : (i : ℕ) → Step s (move s i (load_state, s.breaker))

pub data Reach (s : System) : System → Type 0 where
  here : Reach s s
  later : {t u : System} → Reach s t → Step t u → Reach s u

-- A caller that is about to take a permit has seen that one was left.
abbrev IsReady : ℕ → Caller → Type 0
IsReady limit (swap_permits current) = current < limit
IsReady limit _ = Unit

record IsBounded (limit : ℕ) (s : System) : Type 0 where
  limited : s.breaker.max_half_open_permits ≡ limit
  permits : s.breaker.half_open_permits ≤ limit
  ready : (i : ℕ) → IsReady limit (s.caller i)

record StepBound (limit : ℕ) (p : Caller × CircuitBreaker) : Type 0 where
  limited : p.1.max_half_open_permits ≡ limit
  permits : p.1.half_open_permits ≤ limit
  ready : IsReady limit p.0

step-StepBound :
    (limit now : ℕ) (c : Caller) (b : CircuitBreaker)
    → limit < 4294967296
    → b.max_half_open_permits ≡ limit
    → b.half_open_permits ≤ limit
    → IsReady limit c
    → StepBound limit (step now c b)
unfolding step
step-StepBound limit now load_state b f m p r = ground arith
step-StepBound limit now load_last_failure b f m p r = ground arith
step-StepBound limit now (check_timeout last) b f m p r = ground arith
step-StepBound limit now swap_state b f m p r = ground arith
step-StepBound limit now store_success b f m p r = ground arith
step-StepBound limit now store_permits b f m p r = ground arith
step-StepBound limit now load_permits b f m p r = ground arith
step-StepBound limit now (swap_permits current) b f m p r = ground arith
step-StepBound limit now (returned answer) b f m p r = ground arith

move-IsBounded :
    (limit i : ℕ) (s : System) (p : Caller × CircuitBreaker)
    → IsBounded limit s
    → StepBound limit p
    → IsBounded limit (move s i p)
move-IsBounded limit i s (c, b) h k = record {
  limited = k.limited;
  permits = k.permits;
  ready = λ j. elim (Bool-cases (i == j)) [
    | inl same ↦ rw same k.ready
    | inr other ↦ rw other (h.ready j)
  ];
}

Step-IsBounded :
    {limit : ℕ} {s t : System}
    → limit < 4294967296
    → Step s t
    → IsBounded limit s
    → IsBounded limit t
Step-IsBounded {limit} {s} f (advance i now) h =
    move-IsBounded limit i s (step now (s.caller i) s.breaker) h
      (step-StepBound limit now (s.caller i) s.breaker f h.limited h.permits (h.ready i))
Step-IsBounded {limit} {s} f (again i) h =
    move-IsBounded limit i s (load_state, s.breaker) h
      (record { limited = h.limited; permits = h.permits; ready = tt })

Reach-IsBounded :
    {limit : ℕ} {s t : System}
    → limit < 4294967296
    → IsBounded limit s
    → Reach s t
    → IsBounded limit t
Reach-IsBounded f h here = h
Reach-IsBounded f h (later r st) = Step-IsBounded f st (Reach-IsBounded f h r)

-- However any number of threads interleave their calls of `is_open`, starting from callers at the
-- head of their loops, the breaker never counts more half-open permits than its limit.
pub permits_bounded :
    {t : System} (b : CircuitBreaker)
    → b.max_half_open_permits < 4294967296
    → b.half_open_permits ≤ b.max_half_open_permits
    → Reach (record { breaker = b; caller = λ _. load_state }) t
    → (t.breaker.half_open_permits ≤ t.breaker.max_half_open_permits)
      × (t.breaker.max_half_open_permits ≡ b.max_half_open_permits)
permits_bounded b f p r =
    let bound = Reach-IsBounded f (record { limited = refl; permits = p; ready = λ i. tt }) r in
    (omega (arith, bound.permits, bound.limited), bound.limited)

-- The reset of the permits comes after the new state can be seen: of two threads that ask an open
-- breaker whose timeout has passed, with one permit in all and none taken, the second can take the
-- permit between the first one's change of the state and its reset, and both requests are let
-- through while the breaker counts one permit.
pub both_admitted :
    (now : ℕ) (b : CircuitBreaker)
    → b.state ≡ state_open
    → is_recovered now b ≡ true
    → b.max_half_open_permits ≡ 1
    → b.half_open_permits ≡ 0
    → (turns : List Bool) × (by_turns turns now (load_state, load_state, b) ≡ (
      returned false,
      returned false,
      record b { state = state_half_open; success_count = 0; half_open_permits = 1 },
    ))
unfolding by_turns step
both_admitted now b o r m p = (
  false ∷ false ∷ false ∷ false ∷ true ∷ true ∷ true ∷ false ∷ false ∷ false ∷ false ∷ false ∷ [],
  ground arith,
)
