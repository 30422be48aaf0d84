-- ===== src/Scripting/Context.antt =====
-- src/scripting/context.rs: the values that a script reads. `interpolate`, which builds a text with
-- a regular expression, is left out. Floats, JSON values with floats, and what chrono says of the
-- time are parameters.
use sens.Common.{
  ◌&&◌, unwrap_or, ℕ, String, Bool, ◌&&◌, Option, none, some, List, [], ◌∷◌, str_eq, if◌then◌else◌,
  is_any, unwrap_or, and_then,
}
use mathlib.Core.Option
use sens.Common.Int.{leb_ℤ, ℤ, pos}
use sens.Common.Map.{get, insert, string_key, nat_key}
use sens.Common.Json.{Json}
use sens.Common.Text.{split, parse_uint}

-- What `serde_json` does with floats and arrays, and equality of values.
pub record JsonNumbers (Value F : Type 0) : Type 0 where
  pub of_f64 : F → Value
  pub as_f64 : Value → Option F
  pub as_array : Value → Option (List Value)
  pub beq : Value → Value → Bool

-- A calendar time of chrono.
pub record CalendarTime : Type 0 where
  pub year : ℤ
  pub month : ℕ
  pub day : ℕ
  pub hour : ℕ
  pub minute : ℕ
  pub second : ℕ
  pub num_days_from_monday : ℕ
  pub num_days_from_sunday : ℕ

-- `Utc::now()`, in UTC, in seconds since the epoch, and at an offset from UTC in seconds, where
-- `FixedOffset::east_opt` accepts it.
pub record UtcNow : Type 0 where
  pub utc : CalendarTime
  pub timestamp : ℤ
  pub at_offset : ℤ → Option CalendarTime

-- The metrics are of type `f32`; here stands what `Value::from` widens them to.
pub record SystemContext (F : Type 0) : Type 0 where
  pub cpu_usage : F
  pub memory_usage : F
  pub disk_usage : F
  pub temperature : Option F
  pub uptime_seconds : ℕ

pub record ScriptContext (Value F : Type 0) : Type 0 where
  pub sensors : List (String × F)
  pub gpio : List (ℕ × Bool)
  pub variables : List (String × Value)
  pub system : SystemContext F
  pub timestamp : ℤ
  pub timezone_offset_secs : ℤ

module _ {Value F : Type 0} where
  unfoldable pub set_timezone : ℤ → ScriptContext Value F → ScriptContext Value F
  set_timezone offset_secs ctx = record ctx { timezone_offset_secs = offset_secs }

  unfoldable pub refresh_time : UtcNow → ScriptContext Value F → ScriptContext Value F
  refresh_time now ctx = record ctx { timestamp = now.timestamp }

  unfoldable pub set_sensor : String → F → ScriptContext Value F → ScriptContext Value F
  set_sensor name value ctx = record ctx { sensors = insert name value ctx.sensors }

  unfoldable pub get_sensor : ScriptContext Value F → String → Option F
  get_sensor ctx name = get name ctx.sensors

  unfoldable pub set_gpio : ℕ → Bool → ScriptContext Value F → ScriptContext Value F
  set_gpio pin state ctx = record ctx { gpio = insert pin state ctx.gpio }

  unfoldable pub get_gpio : ScriptContext Value F → ℕ → Option Bool
  get_gpio ctx pin = get pin ctx.gpio

  unfoldable pub set_variable : String → Value → ScriptContext Value F → ScriptContext Value F
  set_variable name value ctx = record ctx { variables = insert name value ctx.variables }

  unfoldable pub get_variable : ScriptContext Value F → String → Option Value
  get_variable ctx name = get name ctx.variables

-- `parse::<u8>()`
abbrev pub parse_u8 : String → Option ℕ
parse_u8 = parse_uint 256

-- The local time of `get_value`: UTC where the offset is 0 or chrono rejects it.
unfoldable pub local_time : ℤ → UtcNow → CalendarTime
local_time offset now =
    if leb_ℤ offset (pos 0) && leb_ℤ (pos 0) offset
    then now.utc
    else unwrap_or (now.at_offset offset) now.utc

module _ {Value F : Type 0} (json : Json Value) (numbers : JsonNumbers Value F) where
  abbrev of_ℕ : ℕ → Option Value
  of_ℕ n = some (json.number (pos n))

  -- `"time"`
  unfoldable pub time_value : UtcNow → ScriptContext Value F → String → Option Value
  unfolding local_time
  time_value now ctx name =
      let t = local_time ctx.timezone_offset_secs now in
      if str_eq name "hour"
      then of_ℕ t.hour
      else (if str_eq name "minute"
          then of_ℕ t.minute
          else (if str_eq name "second"
              then of_ℕ t.second
              else (if str_eq name "day"
                  then of_ℕ t.day
                  else (if str_eq name "month"
                      then of_ℕ t.month
                      else (if str_eq name "year"
                          then some (json.number t.year)
                          else (if str_eq name "weekday"
                              then of_ℕ t.num_days_from_monday
                              else (if str_eq name "timestamp"
                                  then some (json.number now.timestamp)
                                  else (if str_eq name "offset"
                                      then some (json.number ctx.timezone_offset_secs)
                                      else (if str_eq name "utc_hour"
                                          then of_ℕ now.utc.hour
                                          else none)))))))))

  -- `"system" | "sys"`
  unfoldable pub system_value : ScriptContext Value F → String → Option Value
  system_value ctx name =
      let s = ctx.system in
      if is_any name ("cpu" ∷ "cpu_usage" ∷ [])
      then some (numbers.of_f64 s.cpu_usage)
      else (if is_any name ("memory" ∷ "mem" ∷ "memory_usage" ∷ [])
          then some (numbers.of_f64 s.memory_usage)
          else (if is_any name ("disk" ∷ "disk_usage" ∷ [])
              then some (numbers.of_f64 s.disk_usage)
              else (if is_any name ("temp" ∷ "temperature" ∷ [])
                  then Option.map numbers.of_f64 s.temperature
                  else (if str_eq name "uptime" then of_ℕ s.uptime_seconds else none))))

  -- A source of two or more parts.
  unfoldable pub typed_value : UtcNow → ScriptContext Value F → String → String → Option Value
  unfolding time_value system_value
  typed_value now ctx source_type source_name =
      if is_any source_type ("sensor" ∷ "register" ∷ [])
      then Option.map numbers.of_f64 (get source_name ctx.sensors)
      else (if is_any source_type ("gpio" ∷ "pin" ∷ [])
          then Option.map json.bool (and_then (parse_u8 source_name) (λ pin. get pin ctx.gpio))
          else (if is_any source_type ("var" ∷ "variable" ∷ [])
              then get source_name ctx.variables
              else (if str_eq source_type "time"
                  then time_value now ctx source_name
                  else (if is_any source_type ("system" ∷ "sys" ∷ [])
                      then system_value ctx source_name
                      else none))))

  unfoldable pub value_of_parts :
      UtcNow → ScriptContext Value F → String → List String → Option Value
  unfolding typed_value
  value_of_parts now ctx source [] = none
  value_of_parts now ctx source (_ ∷ []) = Option.map numbers.of_f64 (get source ctx.sensors)
  value_of_parts now ctx source (source_type ∷ source_name ∷ _) =
      typed_value now ctx source_type source_name

  unfoldable pub get_value : UtcNow → ScriptContext Value F → String → Option Value
  unfolding value_of_parts
  get_value now ctx source = value_of_parts now ctx source (split b':' source)
