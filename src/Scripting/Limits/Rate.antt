-- ===== src/Scripting/Limits/Rate.antt =====
-- The script rate limiter of src/scripting/limits.rs under calls for many scripts.
use sens.Common.{
  ℕ, ◌+◌, ◌-◌, ◌%◌, ◌^◌, ◌<◌, min, String, ◌≡◌, refl, ◌∙◌, inl, inr, false, ◌&&◌, some, List, [],
  ◌∷◌, arith, ltb, leb, str_eq, if◌then◌else◌, Bool-cases, length, wrap32,
}
use sens.Common.Map.{get, get-insert, string_key, beq_refl}
use sens.Scripting.Limits.{RateLimitWindow, ScriptRateLimiter, Ticks, one_minute, check}

-- A call of `check`, with its readings of the clock.
pub record Call : Type 0 where
  pub ticks : Ticks
  pub script_id : String

-- How many calls the script makes.
unfoldable pub calls_of : String → List Call → ℕ
calls_of s [] = 0
calls_of s (call ∷ calls) = (if str_eq call.script_id s then 1 else 0) + calls_of s calls

-- How many of the script's calls are granted.
pub granted : String → List Call → ScriptRateLimiter → ℕ
granted s [] l = 0
granted s (call ∷ calls) l =
    let (l', may_run) = check call.ticks call.script_id l in
    (if (str_eq call.script_id s) && may_run then 1 else 0) + granted s calls l'

-- Every call is less than a minute after the window's start.
unfoldable pub IsWithinMinute : ℕ → List Call → Type 0
IsWithinMinute start [] = Unit
IsWithinMinute start (call ∷ calls) =
    (call.ticks.at_elapsed - start < one_minute) × IsWithinMinute start calls

check-get_same :
    (t : Ticks) (s : String) (l : ScriptRateLimiter) (w : RateLimitWindow)
    → get s l.windows ≡ some w
    → t.at_elapsed - w.window_start < one_minute
    → w.count + 1 < 2 ^ 32
    → (get s (check t s l).0.windows ≡ some (record w { count = w.count + 1 }))
      × ((check t s l).1 ≡ ltb w.count (wrap32 l.default_limit))
unfolding check
check-get_same t s l w found recent small =
    let fresh : leb one_minute (t.at_elapsed - w.window_start) ≡ false = ground arith in
    let wrapped : (w.count + 1) % 4294967296 ≡ w.count + 1 = omega arith in
    rw found (
      rw fresh
        (rw wrapped (get-insert s s _ l.windows ∙ (rw (beq_refl {K = String} s) refl), refl)))

check-get_other :
    (t : Ticks) (s s' : String) (l : ScriptRateLimiter)
    → str_eq s' s ≡ false
    → get s (check t s' l).0.windows ≡ get s l.windows
unfolding check
check-get_other t s s' l differ = get-insert s' s _ l.windows ∙ (rw differ refl)

check-default_limit :
    (t : Ticks) (s : String) (l : ScriptRateLimiter)
    → (check t s l).0.default_limit ≡ l.default_limit
unfolding check
check-default_limit t s l = refl

-- The limiter's window of the script is this one, and its limit is this one.
record HasWindow (s : String) (start count limit : ℕ) (l : ScriptRateLimiter) : Type 0 where
  found : get s l.windows ≡ some (record { count = count; window_start = start })
  same_limit : l.default_limit ≡ limit

check-HasWindow_same :
    (t : Ticks) (s : String) {start count limit : ℕ} (l : ScriptRateLimiter)
    → HasWindow s start count limit l
    → t.at_elapsed - start < one_minute
    → count + 1 < 2 ^ 32
    → HasWindow s start (count + 1) limit (check t s l).0
check-HasWindow_same t s l h recent small = record {
  found = (check-get_same t s l _ h.found recent small).0;
  same_limit = check-default_limit t s l ∙ h.same_limit;
}

check-HasWindow_other :
    (t : Ticks) (s s' : String) {start count limit : ℕ} (l : ScriptRateLimiter)
    → str_eq s' s ≡ false
    → HasWindow s start count limit l
    → HasWindow s start count limit (check t s' l).0
check-HasWindow_other t s s' l differ h = record {
  found = check-get_other t s s' l differ ∙ h.found;
  same_limit = check-default_limit t s' l ∙ h.same_limit;
}

granted-from :
    (s : String) (calls : List Call) (start count limit : ℕ) (l : ScriptRateLimiter)
    → HasWindow s start count limit l
    → IsWithinMinute start calls
    → count + length calls < 2 ^ 32
    → granted s calls l ≡ min (wrap32 limit - count) (calls_of s calls)
unfolding granted calls_of IsWithinMinute
granted-from s [] start count limit l h recent small = omega arith
granted-from s (call ∷ calls) start count limit l h recent small =
    elim (Bool-cases (str_eq call.script_id s)) [
      | inl same ↦
          let here = (string_key.beq_iff call.script_id s).0 same in
          let small' : count + 1 < 2 ^ 32 = omega arith in
          let one = check-get_same call.ticks s l _ h.found recent.0 small' in
          let rest =
            granted-from s calls start (count + 1) limit (check call.ticks s l).0
              (check-HasWindow_same call.ticks s l h recent.0 small') recent.1 (omega arith) in
          rw here
            (rw (beq_refl {K = String} s) (rw one.1 (rw rest (rw h.same_limit (ground arith)))))
      | inr other ↦
          let rest =
            granted-from s calls start count limit (check call.ticks call.script_id l).0
              (check-HasWindow_other call.ticks s call.script_id l other h) recent.1
              (omega arith) in
          rw other (omega arith)
    ]

-- In one minute a script runs as often as it asks for, up to the limit: while a script's window is
-- open, whatever other scripts call in between, as many of its calls are granted as it makes, or
-- as the limit leaves where it makes more. The counter does not wrap.
pub rate_limited :
    (s : String) (calls : List Call) (start count : ℕ) (l : ScriptRateLimiter)
    → get s l.windows ≡ some (record { count = count; window_start = start })
    → IsWithinMinute start calls
    → count + length calls < 2 ^ 32
    → granted s calls l ≡ min (wrap32 l.default_limit - count) (calls_of s calls)
rate_limited s calls start count l found recent small =
    granted-from s calls start count l.default_limit l (record { found = found; same_limit = refl })
      recent small
