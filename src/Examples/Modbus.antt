-- ===== src/Examples/Modbus.antt =====
-- The Modbus client at a concrete device, with integers for floats.
use sens.Common.{ℕ, ◌≡◌, refl, Bool, true, false, none, List, [], ◌∷◌, arith}
use sens.Common.Int.{ℤ, pos, negsuc}
use sens.Common.Tables.{all}
use sens.Common.Result.{ok, err}
use sens.Resilience.CircuitBreaker.{CircuitBreaker, is_open, record_failure, with_half_open_limit}
use sens.Resilience.CircuitBreaker as CircuitBreaker
use sens.Resilience.RateLimiter.{RateLimiter, try_acquire, try_acquire_n, refill, take}
use sens.Modbus.Registers.{Floats, little_endian_byte_swap, convert_value}
use sens.Modbus.Client.{
  ModbusRegisterConfig, ModbusSecurityConfig, ModbusClient, Channel, connected,
}
use sens.Modbus.{Moments, read_all, read_each, read_register, acquire_rate_limit}
use sens.Modbus.Decoding.{layout, bits_of_i32, convert-layout}
use sens.Modbus.Permitted.{is_permitted}
use sens.Modbus.Policy.{Call, reads_all, writes_register, connects, requests, requests_permitted}
use sens.Modbus.Circuit.{silent_round_is_a_failure}

abbrev integers : Floats ℤ
integers = record { of_int = λ z. z; of_f32_bits = pos; mul = λ a b. a }

abbrev any_range : ℕ → ℕ → Bool
any_range address n = true

abbrev level : ModbusRegisterConfig ℤ
level = record {
  name = "level";
  address = 100;
  register_type = "holding";
  data_type = "u16";
  byte_order = little_endian_byte_swap;
  scale = pos 1;
  unit = none;
}

abbrev policy : ModbusSecurityConfig
policy = record {
  enabled = true;
  allowed_function_codes = 3 ∷ 4 ∷ [];
  rate_limit_ops_per_sec = 10;
  rate_limit_burst = 20;
  max_register_count = 125;
  allow_writes = false;
}

abbrev limiter : ℕ → RateLimiter
limiter tokens = record {
  capacity = 20;
  refill_amount = 10;
  refill_interval_ms = 1000;
  tokens = tokens;
  last_refill_ms = 5000;
}

abbrev plc : ℕ → ModbusClient ℤ
plc tokens = record {
  name = "plc";
  connection_type = "tcp";
  registers = level ∷ [];
  security = policy;
  channel = true;
  circuit_breaker = CircuitBreaker.new 3 30000;
  rate_limiter = limiter tokens;
}

abbrev answering : Channel
answering = record {
  read_holding_registers = λ address n. ok (7 ∷ []);
  read_input_registers = λ address n. ok (7 ∷ []);
  read_coils = λ address n. err "timeout";
  read_discrete_inputs = λ address n. err "timeout";
  write_register = λ address value. ok tt;
  write_coil = λ address value. ok tt;
}

abbrev moments : Moments integers any_range
moments i = ((5500, 5500), answering)

convert-layout_example :
    (convert_value integers
        (layout 3000000000 little_endian_byte_swap)
        "u32"
        little_endian_byte_swap
      ≡ pos 3000000000)
    × (convert_value integers
          (layout (bits_of_i32 (negsuc 41)) little_endian_byte_swap)
          "i32"
          little_endian_byte_swap
        ≡ negsuc 41)
convert-layout_example =
    convert-layout integers little_endian_byte_swap 3000000000 (negsuc 41) (omega arith)
      (record { above = omega arith; below = omega arith })

abbrev calls : List (Call integers any_range)
calls =
    connects 5000 connected
    ∷ reads_all 5000 5600 moments
    ∷ writes_register (5700, 5701) answering 100 1
    ∷ []

requests_permitted_example :
    all (is_permitted policy) (requests integers any_range calls (plc 20)) ≡ true
requests_permitted_example = requests_permitted integers any_range calls (plc 20) refl

silent_round_is_a_failure_example :
    (read_all integers any_range 5000 5600 moments (plc 0)).0.circuit_breaker
    ≡ record_failure 5600 (is_open 5000 (CircuitBreaker.new 3 30000)).0
unfolding is_open with_half_open_limit read_all read_each read_register acquire_rate_limit
    try_acquire try_acquire_n refill take CircuitBreaker.new
silent_round_is_a_failure_example =
    silent_round_is_a_failure integers any_range 5000 5600 moments level [] (plc 0) refl refl refl
      refl
