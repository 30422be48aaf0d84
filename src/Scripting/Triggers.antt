-- ===== src/Scripting/Triggers.antt =====
-- src/scripting/triggers.rs. Floats are a parameter, `Floats`; a check reads the clock twice, for
-- `now_ms` and for the calendar, and both readings are arguments.
pub mod Cron
pub mod Firing
pub mod Spacing
pub mod Values
pub mod States
use sens.Common.{
  ℕ, zero, suc, ◌+◌, ◌-◌, ◌*◌, ◌/◌, ◌%◌, ◌^◌, ◌≤◌, ◌<◌, min, max, String, ◌≡◌, refl, sym, ap, ◌∙◌,
  ◌≢◌, ◌↔◌, ◌⊎◌, inl, inr, Bool, true, false, not, ◌&&◌, ◌||◌, Option, none, some, List, [], ◌∷◌,
  ◌++◌, map, arith, dec_lt, ℕ_discrete, add-zero, add-suc, suc-add, add_comm, add_assoc, ltb, leb,
  ◌==◌, str_eq, if◌then◌else◌, is_any, set_if, is_some, unwrap_or, and_then, ltb→lt, leb→le, ==_iff,
  Bool-cases, Option-cases, length, length-append, trues, u32_mod, u64_mod, wrap32, wrap64,
  Readings, elapsed_ms, from_millis, IsChain, last_reading, le-last_reading, max_instant,
}
use sens.Common.Map.{get, insert, string_key}
use sens.Common.Json.{Json}
use sens.Common.Tables.{retain}
use sens.Common.Text.{
  ◌⧺◌, starts_with, skip, has_char, split, split_whitespace, trim, parse_uint, show,
}
use sens.Scripting.Context.{ScriptContext, JsonNumbers, UtcNow, get_value, get_gpio, parse_u8}
use mathlib.Core.Option
use Prim.Native.Char.{code}
use Prim.Native.String

-- The `f64` operations that a comparison uses.
pub record Floats (F : Type 0) : Type 0 where
  pub lt : F → F → Bool
  pub le : F → F → Bool
  pub sub : F → F → F
  pub abs : F → F
  pub epsilon : F
  pub lowest : F
  pub highest : F

pub data ComparisonOperator : Type 0 where
  eq : ComparisonOperator
  ne : ComparisonOperator
  gt : ComparisonOperator
  gte : ComparisonOperator
  lt : ComparisonOperator
  lte : ComparisonOperator
  contains : ComparisonOperator
  between : ComparisonOperator
  is_in : ComparisonOperator

pub data TriggerType : Type 0 where
  schedule : TriggerType
  threshold : TriggerType
  change : TriggerType
  interval : TriggerType
  gpio_change : TriggerType
  manual : TriggerType
  startup : TriggerType

pub record Trigger (Value : Type 0) : Type 0 where
  pub trigger_type : TriggerType
  pub source : String
  pub operator : Option ComparisonOperator
  pub value : Option Value
  pub cron : Option String
  pub interval_secs : Option ℕ
  pub debounce_ms : Option ℕ

pub record TriggerState (Value : Type 0) : Type 0 where
  pub last_triggered : ℕ
  pub previous_value : Option Value
  pub is_triggered : Bool

-- `TriggerState::default()`
abbrev pub default : {Value : Type 0} → TriggerState Value
default = record { last_triggered = 0; previous_value = none; is_triggered = false }

-- `parse::<u32>()`
abbrev pub parse_u32 : String → Option ℕ
parse_u32 = parse_uint u32_mod

-- `.map(|v| v == value).unwrap_or(false)`
abbrev pub parses_to : ℕ → Option ℕ → Bool
parses_to value none = false
parses_to value (some v) = v == value

unfoldable pub any_matches : ℕ → List String → Bool
any_matches value [] = false
any_matches value (p ∷ ps) = parses_to value (parse_u32 (trim p)) || any_matches value ps

-- The values from `start` to `end`, around the end of the field where `end` is smaller.
unfoldable pub in_range : ℕ → ℕ → ℕ → Bool
in_range value start end =
    if leb start end then leb start value && leb value end else leb start value || leb value end

-- `Some` if the parts are the two ends of a range that parse.
unfoldable pub match_range : ℕ → List String → Option Bool
unfolding in_range
match_range value (a ∷ b ∷ []) =
    and_then (parse_u32 a) (λ start. Option.map (in_range value start) (parse_u32 b))
match_range value _ = none

unfoldable pub match_single : ℕ → String → Bool
match_single value pattern = parses_to value (parse_u32 pattern)

-- The tests for a range and for a number.
unfoldable pub match_range_or_single : ℕ → String → Bool
unfolding match_range match_single
match_range_or_single value pattern =
    if has_char b'-' pattern
    then unwrap_or (match_range value (split b'-' pattern)) (match_single value pattern)
    else match_single value pattern

unfoldable pub match_list_or_range : ℕ → String → Bool
unfolding any_matches match_range_or_single
match_list_or_range value pattern =
    if has_char b',' pattern
    then any_matches value (split b',' pattern)
    else match_range_or_single value pattern

-- `value % n == 0`, where 0 is no step.
abbrev pub match_step : ℕ → ℕ → Bool
match_step value n = if n == 0 then false else value % n == 0

-- `match_cron_field_static`
unfoldable pub match_cron_field : String → ℕ → Bool
unfolding match_list_or_range
match_cron_field pattern value =
    if str_eq pattern "*"
    then true
    else (if starts_with pattern "*/"
        then (elim (parse_u32 (skip 2 pattern)) [
          | some n ↦ match_step value n
          | none ↦ match_list_or_range value pattern
        ])
        else match_list_or_range value pattern)

-- The first five words of an expression.
unfoldable pub match_fields : UtcNow → List String → Bool
unfolding match_cron_field
match_fields now (minute ∷ hour ∷ day ∷ month ∷ weekday ∷ _) =
    let t = now.utc in
    match_cron_field minute t.minute
    && match_cron_field hour t.hour
    && match_cron_field day t.day
    && match_cron_field month t.month
    && match_cron_field weekday t.num_days_from_sunday
match_fields now _ = false

-- `check_schedule_static`
unfoldable pub check_schedule : {Value : Type 0} → UtcNow → Trigger Value → Bool
unfolding match_fields
check_schedule now trigger = elim trigger.cron [
  | none ↦ false
  | some cron ↦ match_fields now (split_whitespace cron)
]

-- `check_interval_static`
unfoldable pub check_interval : {Value : Type 0} → Trigger Value → TriggerState Value → ℕ → Bool
check_interval trigger state now_ms =
    let interval_ms = wrap64 (unwrap_or trigger.interval_secs 60 * 1000) in
    leb interval_ms (now_ms - state.last_triggered)

-- The pin of `"17"` or of `"gpio:17"`.
unfoldable pub source_pin : String → Option ℕ
source_pin source = elim (parse_u8 source) [
  | some p ↦ some p
  | none ↦ if starts_with source "gpio:" then parse_u8 (skip 5 source) else none
]

-- `!=` of an optional earlier value
abbrev pub differs : {Value : Type 0} → (Value → Value → Bool) → Option Value → Bool → Value → Bool
differs beq none first v = first
differs beq (some prev) first v = not (beq prev v)

-- `l.contains(r)` on texts.
unfoldable pub contains_text : String → String → Bool
unfolding starts_with
contains_text String.[] p = starts_with String.[] p
contains_text (String.◌∷◌ c s) p = starts_with (String.◌∷◌ c s) p || contains_text s p

-- `l < r` on texts, which compares code points in order.
unfoldable pub text_lt : String → String → Bool
text_lt String.[] String.[] = false
text_lt String.[] (String.◌∷◌ d t) = true
text_lt (String.◌∷◌ c s) String.[] = false
text_lt (String.◌∷◌ c s) (String.◌∷◌ d t) =
    ltb (code c) (code d) || (code c == code d && text_lt s t)

-- Both operands as one kind of value, if they are.
abbrev pub both {ℓ} : {A : Type ℓ} → Option A → Option A → Option (A × A)
both (some a) (some b) = some (a, b)
both _ _ = none

-- What a check answers, with the state after it.
abbrev pub Checked : Type 0 → Type 0
Checked Value = TriggerState Value × Bool

-- `format!("{}:{}", script_id, trigger_index)`
unfoldable pub state_key : String → ℕ → String
unfolding show
state_key script_id trigger_index = script_id ⧺ ":" ⧺ show trigger_index

unfoldable pub reset_script :
    {Value : Type 0}
    → String
    → List (String × TriggerState Value)
    → List (String × TriggerState Value)
reset_script script_id = retain (λ e. not (starts_with e.0 (script_id ⧺ ":")))

module _ {Value F : Type 0} (json : Json Value) (numbers : JsonNumbers Value F)
    (floats : Floats F) where
  open floats use {lt as lt_f64, le as le_f64, sub, abs, epsilon, lowest, highest}
  open numbers use {as_f64, as_array, beq}

  abbrev distance : F → F → F
  distance l r = abs (sub l r)

  unfoldable pub is_near_any : F → List Value → Bool
  is_near_any l [] = false
  is_near_any l (v ∷ vs) =
      (elim (as_f64 v) [ some r ↦ lt_f64 (distance l r) epsilon | none ↦ false ])
      || is_near_any l vs

  -- `l >= min && l <= max` for the first two of an array
  unfoldable pub is_between : F → List Value → Bool
  is_between l (a ∷ b ∷ _) =
      le_f64 (unwrap_or (as_f64 a) lowest) l && le_f64 l (unwrap_or (as_f64 b) highest)
  is_between l _ = false

  unfoldable pub compare_numbers : F → ComparisonOperator → F → Value → Bool
  unfolding is_near_any is_between
  compare_numbers l eq r right = lt_f64 (distance l r) epsilon
  compare_numbers l ne r right = le_f64 epsilon (distance l r)
  compare_numbers l gt r right = lt_f64 r l
  compare_numbers l gte r right = le_f64 r l
  compare_numbers l lt r right = lt_f64 l r
  compare_numbers l lte r right = le_f64 l r
  compare_numbers l between r right = elim (as_array right) [
    | some arr ↦ is_between l arr
    | none ↦ false
  ]
  compare_numbers l is_in r right = elim (as_array right) [
    | some arr ↦ is_near_any l arr
    | none ↦ false
  ]
  compare_numbers l contains r right = false

  unfoldable pub compare_strings : String → ComparisonOperator → String → Bool
  unfolding contains_text text_lt
  compare_strings l eq r = str_eq l r
  compare_strings l ne r = not (str_eq l r)
  compare_strings l contains r = contains_text l r
  compare_strings l gt r = text_lt r l
  compare_strings l gte r = not (text_lt l r)
  compare_strings l lt r = text_lt l r
  compare_strings l lte r = not (text_lt r l)
  compare_strings l _ r = false

  unfoldable pub compare_bools : Bool → ComparisonOperator → Bool → Bool
  compare_bools l eq r = if l then r else not r
  compare_bools l ne r = if l then not r else r
  compare_bools l _ r = false

  -- `compare_values_static`
  unfoldable pub compare_values : Value → ComparisonOperator → Value → Bool
  unfolding compare_numbers compare_strings compare_bools
  compare_values left op right = elim (both (as_f64 left) (as_f64 right)) [
    | some (l, r) ↦ compare_numbers l op r right
    | none ↦ elim (both (json.as_str left) (json.as_str right)) [
      | some (l, r) ↦ compare_strings l op r
      | none ↦ elim (both (json.as_bool left) (json.as_bool right)) [
        | some (l, r) ↦ compare_bools l op r
        | none ↦ false
      ]
    ]
  ]

  -- `check_threshold_static`, on the current value of the source.
  unfoldable pub check_threshold_on :
      Option Value → Option Value → ComparisonOperator → TriggerState Value → Checked Value
  unfolding compare_values
  check_threshold_on none value op state = (state, false)
  check_threshold_on (some current_value) none op state = (state, false)
  check_threshold_on (some current_value) (some target) op state =
      let condition_met = compare_values current_value op target in
      (record state { is_triggered = condition_met }, condition_met && not state.is_triggered)

  unfoldable pub check_threshold :
      UtcNow → ScriptContext Value F → Trigger Value → TriggerState Value → Checked Value
  unfolding check_threshold_on
  check_threshold now context trigger state =
      check_threshold_on (get_value json numbers now context trigger.source) trigger.value
        (unwrap_or trigger.operator gt) state

  -- `check_change_static`
  unfoldable pub check_change :
      UtcNow → ScriptContext Value F → Trigger Value → TriggerState Value → Checked Value
  check_change now context trigger state =
      elim (get_value json numbers now context trigger.source) [
        | none ↦ (state, false)
        | some current_value ↦ (
          record state { previous_value = some current_value },
          differs beq state.previous_value true current_value,
        )
      ]

  -- `check_gpio_change_static`
  unfoldable pub check_gpio_change :
      ScriptContext Value F → Trigger Value → TriggerState Value → Checked Value
  unfolding source_pin get_gpio
  check_gpio_change context trigger state = elim (source_pin trigger.source) [
    | none ↦ (state, false)
    | some pin ↦ elim (get_gpio context pin) [
      | none ↦ (state, false)
      | some s ↦ (
        record state { previous_value = some (json.bool s) },
        differs beq state.previous_value false (json.bool s),
      )
    ]
  ]

  -- The evaluation of a trigger by its type.
  unfoldable pub evaluate :
      UtcNow → ℕ → ScriptContext Value F → Trigger Value → TriggerState Value → Checked Value
  unfolding check_threshold check_change check_schedule check_interval check_gpio_change
  evaluate now now_ms context trigger state = elim trigger.trigger_type [
    | threshold ↦ check_threshold now context trigger state
    | change ↦ check_change now context trigger state
    | schedule ↦ (state, check_schedule now trigger)
    | interval ↦ (state, check_interval trigger state now_ms)
    | gpio_change ↦ check_gpio_change context trigger state
    | manual ↦ (state, false)
    | startup ↦ (state, false)
  ]

  -- `now_ms - last_triggered < debounce`, on `u64`
  abbrev pub is_bouncing : Trigger Value → ℕ → TriggerState Value → Bool
  is_bouncing trigger now_ms state = elim trigger.debounce_ms [
    | none ↦ false
    | some debounce ↦ ltb (wrap64 (now_ms + u64_mod - state.last_triggered)) debounce
  ]

  abbrev pub mark_fired : ℕ → Checked Value → Checked Value
  mark_fired now_ms (state, true) = (record state { last_triggered = now_ms }, true)
  mark_fired now_ms (state, false) = (state, false)

  -- A check of a trigger on its own state.
  unfoldable pub check_state :
      UtcNow → ℕ → ScriptContext Value F → Trigger Value → TriggerState Value → Checked Value
  unfolding evaluate
  check_state now now_ms context trigger state =
      if is_bouncing trigger now_ms state
      then (state, false)
      else mark_fired now_ms (evaluate now now_ms context trigger state)

  unfoldable pub check_trigger :
      UtcNow
      → ℕ
      → String
      → ℕ
      → Trigger Value
      → ScriptContext Value F
      → List (String × TriggerState Value)
      → List (String × TriggerState Value) × Bool
  unfolding check_state
  check_trigger now now_ms script_id trigger_index trigger context states =
      let key = state_key script_id trigger_index in
      let checked = check_state now now_ms context trigger (unwrap_or (get key states) default) in
      (insert key checked.0 states, checked.1)
