-- ===== src/Scripting/Triggers/Spacing.antt =====
-- How far apart the triggers of src/scripting/triggers.rs fire.
use sens.Common.{
  ℕ, ◌+◌, ◌*◌, ◌≤◌, String, ◌≡◌, refl, sym, ap, ◌∙◌, ◌⊎◌, inl, inr, Bool, true, false, ◌&&◌, none,
  some, List, [], ◌∷◌, map, arith, ltb, leb, unwrap_or, Bool-cases, trues, u64_mod, wrap64,
}
use mathlib.Core.Path.{subst}
use sens.Common.Map.{string_key}
use sens.Common.Json.{Json}
use sens.Common.Tables.{all, count, IsSorted, all_mono}
use sens.Scripting.Context.{ScriptContext, JsonNumbers, UtcNow}
use sens.Scripting.Triggers.{
  Floats, interval, schedule, Trigger, TriggerState, Checked, check_interval, check_schedule,
  evaluate, is_bouncing, mark_fired, check_state,
}
use sens.Scripting.Triggers.Firing.{
  Reading, time, check_all, check_states, check_all-check_states, state_of, check_state-evaluate,
  fired-mark_fired, no_debounce_settled,
}

-- The time after a firing in which the trigger is to stay silent: its debounce, or its interval.
abbrev pub HasGap : {Value : Type 0} → Trigger Value → ℕ → Type 0
HasGap trigger gap =
    (trigger.debounce_ms ≡ some gap)
    ⊎ ((trigger.trigger_type ≡ interval)
        × (wrap64 (unwrap_or trigger.interval_secs 60 * 1000) ≡ gap))

-- A reading of the clock less than the gap after the firing.
abbrev pub is_within : ℕ → ℕ → ℕ → Bool
is_within fired gap now_ms = leb fired now_ms && ltb now_ms (fired + gap) && ltb now_ms u64_mod

module _ {Value F : Type 0} (json : Json Value) (numbers : JsonNumbers Value F)
    (floats : Floats F) where
  bouncing_within :
      (trigger : Trigger Value) (gap now_ms : ℕ) (s : TriggerState Value)
      → trigger.debounce_ms ≡ some gap
      → is_within s.last_triggered gap now_ms ≡ true
      → is_bouncing json numbers floats trigger now_ms s ≡ true
  bouncing_within trigger gap now_ms s debounced within = rw debounced (ground arith)

  interval_within :
      (trigger : Trigger Value) (gap now_ms : ℕ) (s : TriggerState Value)
      → wrap64 (unwrap_or trigger.interval_secs 60 * 1000) ≡ gap
      → is_within s.last_triggered gap now_ms ≡ true
      → check_interval trigger s now_ms ≡ false
  unfolding check_interval
  interval_within trigger gap now_ms s is_gap within = ground arith

  evaluate-interval :
      (now : UtcNow) (now_ms : ℕ) (context : ScriptContext Value F) (trigger : Trigger Value)
      (s : TriggerState Value)
      → trigger.trigger_type ≡ interval
      → evaluate json numbers floats now now_ms context trigger s
        ≡ (s, check_interval trigger s now_ms)
  unfolding evaluate check_interval
  evaluate-interval now now_ms context trigger s is_interval = rw is_interval refl

  silent_if_bouncing :
      (now : UtcNow) (now_ms : ℕ) (context : ScriptContext Value F) (trigger : Trigger Value)
      (s : TriggerState Value)
      → is_bouncing json numbers floats trigger now_ms s ≡ true
      → check_state json numbers floats now now_ms context trigger s ≡ (s, false)
  unfolding check_state evaluate
  silent_if_bouncing now now_ms context trigger s bouncing = rw (bouncing, check_state) refl

  silent_within :
      (now : UtcNow) (now_ms : ℕ) (context : ScriptContext Value F) (trigger : Trigger Value)
      (gap : ℕ) (s : TriggerState Value)
      → HasGap trigger gap
      → is_within s.last_triggered gap now_ms ≡ true
      → check_state json numbers floats now now_ms context trigger s ≡ (s, false)
  silent_within now now_ms context trigger gap s (inl debounced) within =
      silent_if_bouncing now now_ms context trigger s
        (bouncing_within trigger gap now_ms s debounced within)
  silent_within now now_ms context trigger gap s (inr (is_interval, is_gap)) within =
      elim (Bool-cases (is_bouncing json numbers floats trigger now_ms s)) [
        | inl bouncing ↦ silent_if_bouncing now now_ms context trigger s bouncing
        | inr settled ↦
            check_state-evaluate json numbers floats now now_ms context trigger s settled
            ∙ ap (mark_fired json numbers floats now_ms) (
                evaluate-interval now now_ms context trigger s is_interval
                ∙ ap (λ b. (s, b)) (interval_within trigger gap now_ms s is_gap within))
      ]

  last-mark_fired :
      (now_ms : ℕ) (c : Checked Value)
      → (mark_fired json numbers floats now_ms c).1 ≡ true
      → (mark_fired json numbers floats now_ms c).0.last_triggered ≡ now_ms
  last-mark_fired now_ms (s, true) fired = refl
  last-mark_fired now_ms (s, false) fired = cc fired

  last_if_fired :
      (now : UtcNow) (now_ms : ℕ) (context : ScriptContext Value F) (trigger : Trigger Value)
      (s : TriggerState Value)
      → (check_state json numbers floats now now_ms context trigger s).1 ≡ true
      → (check_state json numbers floats now now_ms context trigger s).0.last_triggered ≡ now_ms
  last_if_fired now now_ms context trigger s fired =
      elim (Bool-cases (is_bouncing json numbers floats trigger now_ms s)) [
        | inl bouncing ↦ absurd (
            cc (
              sym fired ∙ ap (λ c. c.1) (silent_if_bouncing now now_ms context trigger s bouncing)))
        | inr settled ↦
            (let step =
                check_state-evaluate json numbers floats now now_ms context trigger s settled in
              ap (λ c. c.0.last_triggered) step
              ∙ last-mark_fired now_ms (evaluate json numbers floats now now_ms context trigger s)
                  (sym (ap (λ c. c.1) step) ∙ fired))
      ]

  -- The times of the checks that fired, by the answers of the checks.
  abbrev pub fired_at : List (Reading json numbers floats) → List Bool → List ℕ
  fired_at [] answers = []
  fired_at (r ∷ rs) [] = []
  fired_at (r ∷ rs) (true ∷ answers) = time json numbers floats r ∷ fired_at rs answers
  fired_at (r ∷ rs) (false ∷ answers) = fired_at rs answers

  -- What is not before the checks is not before those that fired.
  fired_at-all :
      (x : ℕ) (rs : List (Reading json numbers floats)) (answers : List Bool)
      → all (leb x) (map (time json numbers floats) rs) ≡ true
      → all (leb x) (fired_at rs answers) ≡ true
  unfolding all
  fired_at-all x [] answers h = refl
  fired_at-all x (r ∷ rs) [] h = refl
  fired_at-all x (r ∷ rs) (true ∷ answers) h =
      ground (arith, fired_at-all x rs answers (ground arith))
  fired_at-all x (r ∷ rs) (false ∷ answers) h = fired_at-all x rs answers (ground arith)

  -- No time of a check is before the ones that came earlier, and each fits a `u64`.
  abbrev pub IsClock : List ℕ → Type 0
  IsClock times = IsSorted leb times × (all (λ t. ltb t u64_mod) times ≡ true)

  silent_until :
      (trigger : Trigger Value) (gap : ℕ) (rs : List (Reading json numbers floats))
      (s : TriggerState Value)
      → HasGap trigger gap
      → IsClock (s.last_triggered ∷ map (time json numbers floats) rs)
      → all
          (leb (s.last_triggered + gap))
          (fired_at rs (check_states json numbers floats trigger rs s))
        ≡ true
  unfolding check_states all
  silent_until trigger gap [] s has_gap clock = refl
  silent_until trigger gap ((now, now_ms, context) ∷ rs) s has_gap
        ((after, (later, sorted)), fits) =
      elim (Bool-cases (is_within s.last_triggered gap now_ms)) [
        | inl within ↦
            rw (silent_within now now_ms context trigger gap s has_gap within)
              (silent_until trigger gap rs s has_gap ((ground arith, sorted), ground arith))
        | inr over ↦
            let times = map (time json numbers floats) rs in
            let passed : s.last_triggered + gap ≤ now_ms = ground arith in
            let rest : all (leb (s.last_triggered + gap)) times ≡ true =
              all_mono (leb now_ms) (leb (s.last_triggered + gap)) times later
                (λ u h. ground arith) in
            fired_at-all (s.last_triggered + gap) ((now, now_ms, context) ∷ rs)
              (check_states json numbers floats trigger ((now, now_ms, context) ∷ rs) s)
              (ground (arith, rest))
      ]

  spaced_states :
      (trigger : Trigger Value) (gap : ℕ) (rs : List (Reading json numbers floats))
      (s : TriggerState Value)
      → HasGap trigger gap
      → IsClock (map (time json numbers floats) rs)
      → IsSorted
          (λ t u. leb (t + gap) u)
          (fired_at rs (check_states json numbers floats trigger rs s))
  unfolding check_states all
  spaced_states trigger gap [] s has_gap clock = tt
  spaced_states trigger gap ((now, now_ms, context) ∷ rs) s has_gap ((later, sorted), fits) =
      let c = check_state json numbers floats now now_ms context trigger s in
      let rest = spaced_states trigger gap rs c.0 has_gap (sorted, ground arith) in
      elim (Bool-cases c.1) [
        | inr silent ↦ rw silent rest
        | inl fired ↦
            let last = last_if_fired now now_ms context trigger s fired in
            let clock : IsClock (c.0.last_triggered ∷ map (time json numbers floats) rs) =
              rw last ((later, sorted), ground arith) in
            rw fired (
              subst
                  (λ t.
                    all (leb (t + gap))
                      (fired_at rs (check_states json numbers floats trigger rs c.0))
                    ≡ true)
                  last (silent_until trigger gap rs c.0 has_gap clock),
              rest,
            )
      ]

  -- A trigger with a debounce, or an interval trigger, is checked any number of times from any
  -- states, with a clock that does not go back and fits a `u64`. Of the checks at which it fires,
  -- each is later than all those before it by at least the debounce, or by at least the interval (as
  -- a `u64` number of milliseconds).
  pub firings_spaced :
      (script_id : String) (i : ℕ) (trigger : Trigger Value) (gap : ℕ)
      (rs : List (Reading json numbers floats)) (states : List (String × TriggerState Value))
      → HasGap trigger gap
      → IsClock (map (time json numbers floats) rs)
      → IsSorted
          (λ t u. leb (t + gap) u)
          (fired_at rs (check_all json numbers floats script_id i trigger rs states))
  firings_spaced script_id i trigger gap rs states has_gap clock =
      subst (λ answers. IsSorted (λ t u. leb (t + gap) u) (fired_at rs answers))
        (sym (check_all-check_states json numbers floats script_id i trigger rs states))
        (spaced_states trigger gap rs (state_of json numbers floats script_id i states) has_gap
          clock)

  evaluate-schedule :
      (now : UtcNow) (now_ms : ℕ) (context : ScriptContext Value F) (trigger : Trigger Value)
      (s : TriggerState Value)
      → trigger.trigger_type ≡ schedule
      → evaluate json numbers floats now now_ms context trigger s ≡ (s, check_schedule now trigger)
  unfolding evaluate check_schedule
  evaluate-schedule now now_ms context trigger s is_schedule = rw is_schedule refl

  fired-schedule :
      (now : UtcNow) (now_ms : ℕ) (context : ScriptContext Value F) (trigger : Trigger Value)
      (s : TriggerState Value)
      → trigger.trigger_type ≡ schedule
      → trigger.debounce_ms ≡ none
      → (check_state json numbers floats now now_ms context trigger s).1
        ≡ check_schedule now trigger
  fired-schedule now now_ms context trigger s is_schedule no_debounce =
      ap (λ c. c.1)
        (check_state-evaluate json numbers floats now now_ms context trigger s
          (no_debounce_settled json numbers floats trigger now_ms s no_debounce))
      ∙ fired-mark_fired json numbers floats now_ms
          (evaluate json numbers floats now now_ms context trigger s)
      ∙ ap (λ c. c.1) (evaluate-schedule now now_ms context trigger s is_schedule)

  schedule_states :
      (trigger : Trigger Value) (rs : List (Reading json numbers floats)) (s : TriggerState Value)
      → trigger.trigger_type ≡ schedule
      → trigger.debounce_ms ≡ none
      → trues (check_states json numbers floats trigger rs s)
        ≡ count (λ r. check_schedule r.0 trigger) rs
  unfolding check_states count
  schedule_states trigger [] s is_schedule no_debounce = refl
  schedule_states trigger ((now, now_ms, context) ∷ rs) s is_schedule no_debounce =
      let c = check_state json numbers floats now now_ms context trigger s in
      rw (fired-schedule now now_ms context trigger s is_schedule no_debounce)
        (omega (arith, schedule_states trigger rs c.0 is_schedule no_debounce))

  -- A schedule trigger without a debounce fires at every check in a minute that its expression
  -- matches: nothing remembers that it has fired in that minute.
  pub schedule_fires_each_check :
      (script_id : String) (i : ℕ) (trigger : Trigger Value)
      (rs : List (Reading json numbers floats)) (states : List (String × TriggerState Value))
      → trigger.trigger_type ≡ schedule
      → trigger.debounce_ms ≡ none
      → trues (check_all json numbers floats script_id i trigger rs states)
        ≡ count (λ r. check_schedule r.0 trigger) rs
  schedule_fires_each_check script_id i trigger rs states is_schedule no_debounce =
      ap trues (check_all-check_states json numbers floats script_id i trigger rs states)
      ∙ schedule_states trigger rs (state_of json numbers floats script_id i states) is_schedule
          no_debounce
