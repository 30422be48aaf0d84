-- ===== src/Scripting/Triggers/Firing.antt =====
-- When the triggers of src/scripting/triggers.rs fire, over checks that follow one another.
use sens.Common.{
  rises, ℕ, ◌+◌, String, ◌≡◌, refl, ap, ◌∙◌, Bool, true, false, not, ◌&&◌, Option, none, some, List,
  [], ◌∷◌, map, arith, if◌then◌else◌, is_some, unwrap_or, trues,
}
use sens.Common.Map.{get, insert, string_key, get-insert, beq_refl}
use sens.Common.Json.{Json}
use sens.Common.Tables.{all}
use sens.Scripting.Context.{ScriptContext, JsonNumbers, UtcNow, get_value}
use sens.Scripting.Triggers.{
  Floats, ComparisonOperator, gt, threshold, Trigger, TriggerState, default, Checked,
  check_threshold, check_threshold_on, compare_values, evaluate, is_bouncing, mark_fired,
  check_state, state_key, check_trigger,
}

module _ {Value F : Type 0} (json : Json Value) (numbers : JsonNumbers Value F)
    (floats : Floats F) where
  -- What one check reads: the calendar, the milliseconds, and the values.
  abbrev pub Reading : Type 0
  Reading = UtcNow × ℕ × ScriptContext Value F

  abbrev pub time : Reading → ℕ
  time (now, now_ms, context) = now_ms

  -- Checks of one trigger in turn, and their answers.
  unfoldable pub check_all :
      String → ℕ → Trigger Value → List Reading → List (String × TriggerState Value) → List Bool
  check_all script_id i trigger [] states = []
  check_all script_id i trigger ((now, now_ms, context) ∷ rs) states =
      let checked =
        check_trigger json numbers floats now now_ms script_id i trigger context states in
      checked.1 ∷ check_all script_id i trigger rs checked.0

  -- The state that the next check starts from.
  abbrev pub state_of : String → ℕ → List (String × TriggerState Value) → TriggerState Value
  state_of script_id i states = unwrap_or (get (state_key script_id i) states) default

  -- The same on the trigger's own state.
  unfoldable pub check_states : Trigger Value → List Reading → TriggerState Value → List Bool
  check_states trigger [] s = []
  check_states trigger ((now, now_ms, context) ∷ rs) s =
      (check_state json numbers floats now now_ms context trigger s).1
      ∷ check_states trigger rs (check_state json numbers floats now now_ms context trigger s).0

  pub state_of-insert :
      (script_id : String) (i : ℕ) (s : TriggerState Value)
      (states : List (String × TriggerState Value))
      → state_of script_id i (insert (state_key script_id i) s states) ≡ s
  state_of-insert script_id i s states =
      rw
        (
          get-insert (state_key script_id i) (state_key script_id i) s states,
          beq_refl (state_key script_id i),
        )
        refl

  pub check_all-check_states :
      (script_id : String) (i : ℕ) (trigger : Trigger Value) (rs : List Reading)
      (states : List (String × TriggerState Value))
      → check_all script_id i trigger rs states
        ≡ check_states trigger rs (state_of script_id i states)
  unfolding check_all check_states check_trigger
  check_all-check_states script_id i trigger [] states = refl
  check_all-check_states script_id i trigger ((now, now_ms, context) ∷ rs) states =
      let s =
        (check_state json numbers floats now now_ms context trigger
          (state_of script_id i states)).0 in
      ap
        (λ rest.
          (check_state json numbers floats now now_ms context trigger
            (state_of script_id i states)).1
          ∷ rest)
        (check_all-check_states script_id i trigger rs (insert (state_key script_id i) s states)
          ∙ ap (check_states trigger rs) (state_of-insert script_id i s states))

  pub check_state-evaluate :
      (now : UtcNow) (now_ms : ℕ) (context : ScriptContext Value F) (trigger : Trigger Value)
      (s : TriggerState Value)
      → is_bouncing json numbers floats trigger now_ms s ≡ false
      → check_state json numbers floats now now_ms context trigger s
        ≡ mark_fired json numbers floats now_ms
            (evaluate json numbers floats now now_ms context trigger s)
  unfolding check_state evaluate
  check_state-evaluate now now_ms context trigger s settled = rw (settled, check_state) refl

  pub no_debounce_settled :
      (trigger : Trigger Value) (now_ms : ℕ) (s : TriggerState Value)
      → trigger.debounce_ms ≡ none
      → is_bouncing json numbers floats trigger now_ms s ≡ false
  no_debounce_settled trigger now_ms s no_debounce = rw no_debounce refl

  pub fired-mark_fired :
      (now_ms : ℕ) (c : Checked Value) → (mark_fired json numbers floats now_ms c).1 ≡ c.1
  fired-mark_fired now_ms (s, true) = refl
  fired-mark_fired now_ms (s, false) = refl

  triggered-mark_fired :
      (now_ms : ℕ) (c : Checked Value)
      → (mark_fired json numbers floats now_ms c).0.is_triggered ≡ c.0.is_triggered
  triggered-mark_fired now_ms (s, true) = refl
  triggered-mark_fired now_ms (s, false) = refl

  -- Whether the condition of a threshold trigger holds.
  abbrev pub met_by : ComparisonOperator → Value → Option Value → Bool
  met_by op target none = false
  met_by op target (some v) = compare_values json numbers floats v op target

  abbrev pub is_met : Trigger Value → Value → Reading → Bool
  is_met trigger target (now, now_ms, context) =
      met_by (unwrap_or trigger.operator gt) target
        (get_value json numbers now context trigger.source)

  abbrev pub is_present : Trigger Value → Reading → Bool
  is_present trigger (now, now_ms, context) =
      is_some (get_value json numbers now context trigger.source)

  check_threshold_met :
      (current value : Option Value) (target : Value) (op : ComparisonOperator)
      (s : TriggerState Value)
      → value ≡ some target
      → is_some current ≡ true
      → check_threshold_on json numbers floats current value op s ≡ (
        record s { is_triggered = met_by op target current },
        met_by op target current && not s.is_triggered,
      )
  unfolding check_threshold_on
  check_threshold_met none value target op s valued present = cc present
  check_threshold_met (some v) value target op s valued present = rw valued refl

  evaluate-threshold :
      (now : UtcNow) (now_ms : ℕ) (context : ScriptContext Value F) (trigger : Trigger Value)
      (s : TriggerState Value)
      → trigger.trigger_type ≡ threshold
      → evaluate json numbers floats now now_ms context trigger s
        ≡ check_threshold json numbers floats now context trigger s
  unfolding evaluate check_threshold
  evaluate-threshold now now_ms context trigger s is_threshold = rw is_threshold refl

  threshold_step :
      (now : UtcNow) (now_ms : ℕ) (context : ScriptContext Value F) (trigger : Trigger Value)
      (target : Value) (s : TriggerState Value)
      → trigger.trigger_type ≡ threshold
      → trigger.debounce_ms ≡ none
      → trigger.value ≡ some target
      → is_present trigger (now, now_ms, context) ≡ true
      → check_state json numbers floats now now_ms context trigger s
        ≡ mark_fired json numbers floats now_ms (
          record s { is_triggered = is_met trigger target (now, now_ms, context) },
          is_met trigger target (now, now_ms, context) && not s.is_triggered,
        )
  unfolding check_threshold
  threshold_step now now_ms context trigger target s is_threshold no_debounce valued present =
      check_state-evaluate now now_ms context trigger s
        (no_debounce_settled trigger now_ms s no_debounce)
      ∙ ap (mark_fired json numbers floats now_ms) (
          evaluate-threshold now now_ms context trigger s is_threshold
          ∙ check_threshold_met (get_value json numbers now context trigger.source) trigger.value
              target (unwrap_or trigger.operator gt) s valued present)

  rises_of_states :
      (trigger : Trigger Value) (target : Value) (rs : List Reading) (s : TriggerState Value)
      → trigger.trigger_type ≡ threshold
      → trigger.debounce_ms ≡ none
      → trigger.value ≡ some target
      → all (is_present trigger) rs ≡ true
      → trues (check_states trigger rs s) ≡ rises s.is_triggered (map (is_met trigger target) rs)
  unfolding check_states all
  rises_of_states trigger target [] s is_threshold no_debounce valued present = refl
  rises_of_states trigger target ((now, now_ms, context) ∷ rs) s is_threshold no_debounce valued
        present =
      let met = is_met trigger target (now, now_ms, context) in
      let c = check_state json numbers floats now now_ms context trigger s in
      let step =
        threshold_step now now_ms context trigger target s is_threshold no_debounce valued
          (ground arith) in
      let fired : c.1 ≡ (met && not s.is_triggered) =
        ap (λ x. x.1) step ∙ fired-mark_fired now_ms _ in
      let state : c.0.is_triggered ≡ met =
        ap (λ x. x.0.is_triggered) step ∙ triggered-mark_fired now_ms _ in
      rw fired (
        ap (λ n. (if met && not s.is_triggered then 1 else 0) + n)
          (rises_of_states trigger target rs c.0 is_threshold no_debounce valued (ground arith)
            ∙ ap (λ b. rises b (map (is_met trigger target) rs)) state))

  -- A threshold trigger with a value and without a debounce, whose source is present at every
  -- check, fires once for each time that its condition comes to hold, and at no other check.
  pub threshold_fires_on_rises :
      (script_id : String) (i : ℕ) (trigger : Trigger Value) (target : Value) (rs : List Reading)
      (states : List (String × TriggerState Value))
      → trigger.trigger_type ≡ threshold
      → trigger.debounce_ms ≡ none
      → trigger.value ≡ some target
      → all (is_present trigger) rs ≡ true
      → trues (check_all script_id i trigger rs states)
        ≡ rises (state_of script_id i states).is_triggered (map (is_met trigger target) rs)
  threshold_fires_on_rises script_id i trigger target rs states is_threshold no_debounce valued
        present =
      ap trues (check_all-check_states script_id i trigger rs states)
      ∙ rises_of_states trigger target rs (state_of script_id i states) is_threshold no_debounce
          valued present
