-- ===== src/Scripting/Limits.antt =====
-- src/scripting/limits.rs. Durations and instants are nanoseconds; `usize` counters that a limit
-- bounds are left unbounded.
pub mod Laws
pub mod Rate
use sens.Common.{
  ℕ, ◌+◌, ◌-◌, ◌*◌, String, Bool, Option, none, some, List, [], ltb, leb, if◌then◌else◌, unwrap_or,
  wrap32,
}
use sens.Common.Map.{get, insert, string_key}
use sens.Common.Result.{Result, ok, err}

pub record ScriptLimits : Type 0 where
  pub max_execution_time : ℕ
  pub max_actions_per_run : ℕ
  pub max_call_depth : ℕ
  pub max_delay_ms : ℕ
  pub rate_limit_per_minute : ℕ

-- `Duration::from_secs`
abbrev from_secs : ℕ → ℕ
from_secs s = s * 1000000000

abbrev pub default : ScriptLimits
default = record {
  max_execution_time = from_secs 30;
  max_actions_per_run = 50;
  max_call_depth = 5;
  max_delay_ms = 60000;
  rate_limit_per_minute = 60;
}

abbrev pub high_frequency : ScriptLimits
high_frequency = record {
  max_execution_time = from_secs 5;
  max_actions_per_run = 10;
  max_call_depth = 2;
  max_delay_ms = 5000;
  rate_limit_per_minute = 120;
}

abbrev pub low_frequency : ScriptLimits
low_frequency = record {
  max_execution_time = from_secs 60;
  max_actions_per_run = 100;
  max_call_depth = 10;
  max_delay_ms = 300000;
  rate_limit_per_minute = 10;
}

pub record RateLimitWindow : Type 0 where
  pub count : ℕ
  pub window_start : ℕ

pub record ScriptRateLimiter : Type 0 where
  pub windows : List (String × RateLimitWindow)
  pub default_limit : ℕ

unfoldable pub new_limiter : ℕ → ScriptRateLimiter
new_limiter default_limit = record { windows = []; default_limit = default_limit }

-- The clock readings of one `check`: for a new window, for `elapsed`, and for a window's reset.
pub record Ticks : Type 0 where
  pub at_entry : ℕ
  pub at_elapsed : ℕ
  pub at_reset : ℕ

abbrev pub one_minute : ℕ
one_minute = 60000000000

-- The script's window, new or reset where that is due.
abbrev pub current_window : Ticks → Option RateLimitWindow → RateLimitWindow
current_window t found =
    let window = unwrap_or found (record { count = 0; window_start = t.at_entry }) in
    if leb one_minute (t.at_elapsed - window.window_start)
    then record { count = 0; window_start = t.at_reset }
    else window

-- The map after `check`, and whether the script may run.
unfoldable pub check : Ticks → String → ScriptRateLimiter → ScriptRateLimiter × Bool
check t script_id l =
    let window = current_window t (get script_id l.windows) in
    (
      record l {
        windows = insert script_id (record window { count = wrap32 (window.count + 1) }) l.windows;
      },
      ltb window.count (wrap32 l.default_limit),
    )

unfoldable pub current_rate : String → ScriptRateLimiter → ℕ
current_rate script_id l = elim (get script_id l.windows) [ none ↦ 0 | some w ↦ w.count ]

unfoldable pub reset : ℕ → String → ScriptRateLimiter → ScriptRateLimiter
reset now script_id l = elim (get script_id l.windows) [
  | none ↦ l
  | some w ↦ record l {
    windows = insert script_id (record { count = 0; window_start = now }) l.windows;
  }
]

unfoldable pub clear_all : ScriptRateLimiter → ScriptRateLimiter
clear_all l = record l { windows = [] }

pub data LimitError : Type 0 where
  time_exceeded : LimitError
  action_limit_exceeded : LimitError
  call_depth_exceeded : LimitError
  rate_limit_exceeded : LimitError
  delay_too_long : LimitError

pub record ExecutionContext : Type 0 where
  pub start_time : ℕ
  pub call_depth : ℕ
  pub actions_executed : ℕ
  pub limits : ScriptLimits

unfoldable pub new : ℕ → ScriptLimits → ExecutionContext
new now limits = record { start_time = now; call_depth = 0; actions_executed = 0; limits = limits }

unfoldable pub is_time_exceeded : ℕ → ExecutionContext → Bool
is_time_exceeded now c = ltb c.limits.max_execution_time (now - c.start_time)

unfoldable pub is_action_limit_exceeded : ExecutionContext → Bool
is_action_limit_exceeded c = leb c.limits.max_actions_per_run c.actions_executed

unfoldable pub is_depth_exceeded : ExecutionContext → Bool
is_depth_exceeded c = leb c.limits.max_call_depth c.call_depth

unfoldable pub is_delay_allowed : ℕ → ExecutionContext → Bool
is_delay_allowed delay_ms c = leb delay_ms c.limits.max_delay_ms

unfoldable pub record_action :
    ℕ → ExecutionContext → ExecutionContext × Result (Unit {0}) LimitError
unfolding is_time_exceeded is_action_limit_exceeded
record_action now c =
    if is_time_exceeded now c
    then (c, err time_exceeded)
    else if is_action_limit_exceeded c
    then (c, err action_limit_exceeded)
    else (record c { actions_executed = c.actions_executed + 1 }, ok tt)

unfoldable pub enter_nested : ExecutionContext → ExecutionContext × Result (Unit {0}) LimitError
unfolding is_depth_exceeded
enter_nested c =
    if is_depth_exceeded c
    then (c, err call_depth_exceeded)
    else (record c { call_depth = c.call_depth + 1 }, ok tt)

unfoldable pub exit_nested : ExecutionContext → ExecutionContext
exit_nested c = if ltb 0 c.call_depth then record c { call_depth = c.call_depth - 1 } else c

unfoldable pub remaining_time : ℕ → ExecutionContext → ℕ
remaining_time now c = c.limits.max_execution_time - (now - c.start_time)
