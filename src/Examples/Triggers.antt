-- ===== src/Examples/Triggers.antt =====
-- The triggers at concrete sensor values and times, with whole numbers for floats.
use sens.Common.{
  ◌+◌, true, ◌&&◌, rises, ℕ, ◌-◌, min, max, String, ◌≡◌, refl, inr, Bool, false, not, Option, none,
  some, List, [], ◌∷◌, map, arith, ltb, leb, ◌==◌, str_eq, if◌then◌else◌, trues,
}
use sens.Common.Int.{ℤ, pos, negsuc}
use sens.Common.Map.{get, insert, string_key}
use sens.Common.Json.{Json}
use sens.Common.Tables.{IsSorted, all}
use sens.Common.Text.{show, has_char, skip, trim, split, starts_with, parse_uint}
use sens.Scripting.Context.{ScriptContext, JsonNumbers, UtcNow, CalendarTime, get_value}
use sens.Scripting.Triggers.{
  state_key, Floats, gt, between, is_in, Trigger, threshold, interval, schedule, compare_values,
  check_state, check_trigger, evaluate, check_interval, match_cron_field,
}
use sens.Scripting.Triggers.Cron.{steps, range_matches}
use sens.Scripting.Triggers.Values.{between_and_in_never_match}
use sens.Scripting.Triggers.Firing.{check_all, is_met, threshold_fires_on_rises}
use sens.Scripting.Triggers.Spacing.{fired_at, firings_spaced}
use mathlib.Core.Logic.{inr}

pub data Datum : Type 0 where
  nothing : Datum
  truth : Bool → Datum
  whole : ℕ → Datum
  word : String → Datum
  pair : Datum → Datum → Datum

abbrev of_integer : ℤ → Datum
of_integer (pos n) = whole n
of_integer (negsuc n) = nothing

abbrev as_truth : Datum → Option Bool
as_truth (truth b) = some b
as_truth _ = none

abbrev as_whole : Datum → Option ℕ
as_whole (whole n) = some n
as_whole _ = none

abbrev as_word : Datum → Option String
as_word (word s) = some s
as_word _ = none

abbrev as_pair : Datum → Option (List Datum)
as_pair (pair a b) = some (a ∷ b ∷ [])
as_pair _ = none

abbrev same : Datum → Datum → Bool
same (whole n) (whole m) = n == m
same (word s) (word t) = str_eq s t
same (truth b) (truth c) = if b then c else not c
same _ _ = false

abbrev pub data_json : Json Datum
data_json = record {
  bool = truth;
  number = of_integer;
  string = word;
  object = λ fields. nothing;
  as_bool = as_truth;
  as_u64 = as_whole;
  as_i64 = λ d. none;
  as_str = as_word;
  as_object = λ d. none;
}

abbrev pub data_numbers : JsonNumbers Datum ℕ
data_numbers = record { of_f64 = whole; as_f64 = as_whole; as_array = as_pair; beq = same }

abbrev pub whole_floats : Floats ℕ
whole_floats = record {
  lt = ltb;
  le = leb;
  sub = λ a b. max a b - min a b;
  abs = λ a. a;
  epsilon = 1;
  lowest = 0;
  highest = 1000000;
}

pairs_are_no_numbers : (v : Datum) (vs : List Datum) → as_pair v ≡ some vs → as_whole v ≡ none
pairs_are_no_numbers nothing vs h = refl
pairs_are_no_numbers (truth b) vs h = refl
pairs_are_no_numbers (whole n) vs h = cc h
pairs_are_no_numbers (word s) vs h = refl
pairs_are_no_numbers (pair a b) vs h = refl

-- A Monday night, ten to eleven.
abbrev night : CalendarTime
night = record {
  year = pos 2026;
  month = 1;
  day = 5;
  hour = 22;
  minute = 50;
  second = 0;
  num_days_from_monday = 0;
  num_days_from_sunday = 1;
}

abbrev pub at_night : UtcNow
at_night = record { utc = night; timestamp = pos 1767653400; at_offset = λ z. none }

abbrev pub with_temperature : ℕ → ScriptContext Datum ℕ
with_temperature t = record {
  sensors = ("temp", t) ∷ [];
  gpio = [];
  variables = [];
  system = record {
    cpu_usage = 10;
    memory_usage = 20;
    disk_usage = 30;
    temperature = none;
    uptime_seconds = 100;
  };
  timestamp = pos 1767653400;
  timezone_offset_secs = pos 0;
}

abbrev reading : ℕ → ℕ → UtcNow × ℕ × ScriptContext Datum ℕ
reading now_ms t = (at_night, now_ms, with_temperature t)

abbrev too_warm : Trigger Datum
too_warm = record {
  trigger_type = threshold;
  source = "temp";
  operator = some gt;
  value = some (whole 28);
  cron = none;
  interval_secs = none;
  debounce_ms = none;
}

abbrev each_minute : Trigger Datum
each_minute = record too_warm { trigger_type = interval }

abbrev at_22 : Trigger Datum
at_22 = record too_warm { trigger_type = schedule; cron = some "* 22-6 * * 1" }

-- Up over 28, down, and up again.
abbrev warm_days : List (UtcNow × ℕ × ScriptContext Datum ℕ)
warm_days =
    reading 1000 25 ∷ reading 2000 30 ∷ reading 3000 31 ∷ reading 4000 27 ∷ reading 5000 29 ∷ []

-- A minute after the start, sooner than a minute later, and twice when a minute is over.
abbrev often : List (UtcNow × ℕ × ScriptContext Datum ℕ)
often = reading 60000 25 ∷ reading 119999 25 ∷ reading 120000 25 ∷ reading 190000 25 ∷ []

between_and_in_never_match_example :
    (compare_values data_json data_numbers whole_floats (whole 5) between (pair (whole 1) (whole 9))
      ≡ false)
    × (compare_values data_json data_numbers whole_floats (whole 5) is_in (pair (whole 1) (whole 9))
        ≡ false)
between_and_in_never_match_example =
    between_and_in_never_match data_json data_numbers whole_floats pairs_are_no_numbers (whole 5)
      (pair (whole 1) (whole 9))

range_matches_example : match_cron_field "22-6" 3 ≡ leb (steps 24 22 3) (steps 24 22 6)
unfolding parse_uint
range_matches_example =
    range_matches "22" "6" 22 6 24 3 refl refl (omega arith) (omega arith) (omega arith)

threshold_fires_on_rises_example :
    trues (check_all data_json data_numbers whole_floats "fan" 0 too_warm warm_days [])
    ≡ rises false (map (is_met data_json data_numbers whole_floats too_warm (whole 28)) warm_days)
unfolding get_value all get split
threshold_fires_on_rises_example =
    threshold_fires_on_rises data_json data_numbers whole_floats "fan" 0 too_warm (whole 28)
      warm_days [] refl refl refl refl

firings_spaced_example :
    IsSorted
      (λ t u. leb (t + 60000) u)
      (fired_at data_json data_numbers whole_floats often
        (check_all data_json data_numbers whole_floats "log" 1 each_minute often []))
unfolding all
firings_spaced_example =
    firings_spaced data_json data_numbers whole_floats "log" 1 each_minute 60000 often []
      (inr (refl, refl)) ((refl, (refl, (refl, (refl, tt)))), refl)

-- It fires at the first, the third and the fourth check.
fired_often :
    fired_at data_json data_numbers whole_floats often
      (check_all data_json data_numbers whole_floats "log" 1 each_minute often [])
    ≡ 60000 ∷ 120000 ∷ 190000 ∷ []
unfolding check_all check_trigger check_state evaluate check_interval get insert state_key show
fired_often = refl

-- The cron fields of the repository's tests.
cron_fields :
    (match_cron_field "*" 5
      && match_cron_field "5" 5
      && not (match_cron_field "5" 6)
      && match_cron_field "*/5" 15
      && not (match_cron_field "*/5" 7)
      && match_cron_field "5-10" 7
      && not (match_cron_field "5-10" 3)
      && match_cron_field "22-6" 23
      && match_cron_field "22-6" 0
      && not (match_cron_field "22-6" 12)
      && match_cron_field "1,5,10" 5
      && not (match_cron_field "1,5,10" 7)
      && not (match_cron_field "*/0" 0))
    ≡ true
unfolding match_cron_field starts_with has_char parse_uint skip split trim
cron_fields = refl
