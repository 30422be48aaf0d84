-- ===== src/Modbus.antt =====
-- src/modbus.rs: the client of one device, with the security settings of src/config.rs. The channel
-- of rodbus, which address ranges rodbus accepts, and floats are parameters; an awaited call gives
-- its answer, and a timeout is an error among them. The time stamp of a value is left out.
pub mod Registers
pub mod Client
pub mod Decoding
pub mod Permitted
pub mod Policy
pub mod Circuit
use sens.Common.{
  ℕ, zero, suc, ◌+◌, ◌-◌, ◌*◌, ◌/◌, ◌%◌, ◌^◌, ◌≤◌, ◌<◌, min, max, String, ◌≡◌, refl, sym, ap, ◌∙◌,
  ◌≢◌, ◌↔◌, ◌⊎◌, inl, inr, Bool, true, false, not, ◌&&◌, ◌||◌, Option, none, some, List, [], ◌∷◌,
  ◌++◌, map, arith, dec_lt, ℕ_discrete, add-zero, add-suc, suc-add, add_comm, add_assoc, ltb, leb,
  ◌==◌, str_eq, if◌then◌else◌, is_any, set_if, is_some, unwrap_or, and_then, ltb→lt, leb→le, ==_iff,
  Bool-cases, Option-cases, length, length-append, trues, u32_mod, u64_mod, wrap32, wrap64,
  Readings, elapsed_ms, from_millis, IsChain, last_reading, le-last_reading, max_instant,
}
use sens.Common.Int.{ℤ, pos, negsuc}
use sens.Common.Result.{Result, ok, err}
use sens.Resilience.CircuitBreaker as CircuitBreaker
use sens.Resilience.CircuitBreaker.{CircuitBreaker, is_open, record_success, record_failure}
use sens.Resilience.RateLimiter.{RateLimiter, try_acquire, available_tokens}
use sens.Modbus.Client.{
  Attempt, connected, refused, timed_out, ModbusRegisterConfig, ModbusSecurityConfig, ModbusClient,
  RegisterValue, ModbusError, ModbusReadResult, Request, Channel, Outcome, fc_read_coils,
  fc_read_discrete_inputs, fc_read_holding_registers, fc_read_input_registers, fc_write_single_coil,
  fc_write_single_register, RegisterType, register_type_of, function_code, contains_code, first_bit,
  map_ok, raw_values, wire_count, first_of, function_not_allowed, writes_not_allowed,
  rate_limit_exceeded, too_many_registers, unknown_register_type, not_connected, invalid_range,
  circuit_open, failed, read, write_single_register, write_single_coil, holding, input, coil,
  discrete,
}
use sens.Modbus.Registers.{ByteOrder, get_register_count, Floats, convert_value}

-- The clock of the rate limiter when it is asked, and when a refusal is logged.
abbrev pub LimiterClock : Type 0
LimiterClock = ℕ × ℕ

module _ {F : Type 0} where
  unfoldable pub validate_function_code : ModbusClient F → ℕ → Bool
  unfolding contains_code
  validate_function_code c code =
      not c.security.enabled || contains_code c.security.allowed_function_codes code

  unfoldable pub validate_write_allowed : ModbusClient F → Bool
  validate_write_allowed c = not c.security.enabled || c.security.allow_writes

  -- A refused request reads the tokens for the log line, which refills the limiter.
  unfoldable pub acquire_rate_limit : LimiterClock → ModbusClient F → ModbusClient F × Bool
  acquire_rate_limit (at_try, at_log) c =
      if not c.security.enabled
      then (c, true)
      else (let t = try_acquire at_try c.rate_limiter in
          if t.1
          then (record c { rate_limiter = t.0 }, true)
          else (record c { rate_limiter = (available_tokens at_log t.0).0 }, false))

  abbrev pub refuse : {A : Type 0} → ModbusClient F → ModbusError → Outcome F A
  refuse c e = (c, [], err e)

  abbrev pub sent_with : {A : Type 0} → ModbusClient F → Request → Result A String → Outcome F A
  sent_with c r (ok a) = (c, r ∷ [], ok a)
  sent_with c r (err e) = (c, r ∷ [], err (failed e))

  -- `write_register`
  unfoldable pub write_register :
      LimiterClock → Channel → ℕ → ℕ → ModbusClient F → Outcome F (Unit {0})
  unfolding validate_write_allowed validate_function_code acquire_rate_limit
  write_register now ch address value c =
      if not (validate_write_allowed c)
      then refuse c writes_not_allowed
      else (if not (validate_function_code c fc_write_single_register)
          then refuse c (function_not_allowed fc_write_single_register)
          else (let t = acquire_rate_limit now c in
              if not t.1
              then refuse t.0 rate_limit_exceeded
              else (if not t.0.channel
                  then refuse t.0 not_connected
                  else sent_with t.0 (write_single_register address value)
                      (ch.write_register address value))))

  -- `write_coil`
  unfoldable pub write_coil :
      LimiterClock → Channel → ℕ → Bool → ModbusClient F → Outcome F (Unit {0})
  unfolding validate_write_allowed validate_function_code acquire_rate_limit
  write_coil now ch address value c =
      if not (validate_write_allowed c)
      then refuse c writes_not_allowed
      else (if not (validate_function_code c fc_write_single_coil)
          then refuse c (function_not_allowed fc_write_single_coil)
          else (let t = acquire_rate_limit now c in
              if not t.1
              then refuse t.0 rate_limit_exceeded
              else (if not t.0.channel
                  then refuse t.0 not_connected
                  else sent_with t.0 (write_single_coil address value)
                      (ch.write_coil address value))))

  -- The breaker's record of an attempt that has ended.
  unfoldable pub record_attempt : ℕ → Attempt → ModbusClient F → ModbusClient F × Bool
  record_attempt now connected c =
      (record c { channel = true; circuit_breaker = record_success c.circuit_breaker }, true)
  record_attempt now (refused e) c =
      (record c { circuit_breaker = record_failure now c.circuit_breaker }, false)
  record_attempt now timed_out c =
      (record c { circuit_breaker = record_failure now c.circuit_breaker }, false)

  -- `?` returns before the record when TCP times out.
  unfoldable pub connect_tcp : ℕ → Attempt → ModbusClient F → ModbusClient F × Bool
  unfolding record_attempt
  connect_tcp now timed_out c = (c, false)
  connect_tcp now attempt c = record_attempt now attempt c

  -- `connect`, and whether it succeeds.
  unfoldable pub connect : ℕ → Attempt → ModbusClient F → ModbusClient F × Bool
  unfolding connect_tcp
  connect now attempt c =
      let c1 = record c { circuit_breaker = CircuitBreaker.reset c.circuit_breaker } in
      if str_eq c.connection_type "tcp"
      then connect_tcp now attempt c1
      else (if str_eq c.connection_type "rtu"
          then record_attempt now attempt c1
          else record_attempt now (refused "Unknown connection type") c1)

  unfoldable pub disconnect : ModbusClient F → ModbusClient F
  disconnect c = record c { channel = false }

module _ {F : Type 0} (floats : Floats F) (valid_range : ℕ → ℕ → Bool) where
  abbrev pub value_of : ModbusRegisterConfig F → List ℕ → RegisterValue F
  value_of reg raw = record {
    name = reg.name;
    address = reg.address;
    raw_value = first_of raw;
    scaled_value = floats.mul (convert_value floats raw reg.data_type reg.byte_order) reg.scale;
    unit = reg.unit;
  }

  -- What follows the checks of the rate and of the count.
  unfoldable pub read_of_type :
      Channel
      → ModbusRegisterConfig F
      → ℕ
      → RegisterType
      → ModbusClient F
      → Outcome F (RegisterValue F)
  unfolding validate_function_code raw_values
  read_of_type ch reg n t c =
      if not (validate_function_code c (function_code t))
      then refuse c (function_not_allowed (function_code t))
      else (if not c.channel
          then refuse c not_connected
          else (if not (valid_range reg.address n && valid_range reg.address (wire_count t n))
              then refuse c invalid_range
              else sent_with c (read (function_code t) reg.address (wire_count t n))
                  (map_ok (value_of reg) (raw_values ch t reg.address n))))

  unfoldable pub read_register :
      LimiterClock → Channel → ModbusRegisterConfig F → ModbusClient F → Outcome F (RegisterValue F)
  unfolding acquire_rate_limit register_type_of read_of_type
  read_register now ch reg c =
      let t = acquire_rate_limit now c in
      let n = get_register_count reg.data_type in
      if not t.1
      then refuse t.0 rate_limit_exceeded
      else (if ltb t.0.security.max_register_count n
          then refuse t.0 (too_many_registers n)
          else (elim (register_type_of reg.register_type) [
            | none ↦ refuse t.0 (unknown_register_type reg.register_type)
            | some k ↦ read_of_type ch reg n k t.0
          ]))

  -- The clock of the rate limiter and the channel, when the register at an index is read.
  abbrev pub Moments : Type 0
  Moments = ℕ → LimiterClock × Channel

  -- The loop of `read_all`: what was read, and what failed.
  unfoldable pub read_each :
      Moments
      → ℕ
      → List (ModbusRegisterConfig F)
      → ModbusClient F
      → ModbusClient F × List Request × List (RegisterValue F) × List ModbusError
  unfolding read_register
  read_each moments i [] c = (c, [], [], [])
  read_each moments i (reg ∷ regs) c =
      let r = read_register (moments i).0 (moments i).1 reg c in
      let (c', sent, values, errors) = read_each moments (suc i) regs r.0 in
      (
        c',
        r.1 ++ sent,
        (elim r.2 [ ok v ↦ v ∷ values | err e ↦ values ]),
        (elim r.2 [ ok v ↦ errors | err e ↦ e ∷ errors ]),
      )

  abbrev pub is_empty : {A : Type 0} → List A → Bool
  is_empty [] = true
  is_empty (x ∷ xs) = false

  -- The circuit breaker after a round with these values and errors.
  unfoldable pub account : ℕ → Bool → Bool → CircuitBreaker → CircuitBreaker
  account now had_success had_failure b =
      if had_failure && not had_success
      then record_failure now b
      else (if had_success then record_success b else b)

  abbrev only_error : ModbusClient F → ModbusError → ModbusReadResult F
  only_error c e = record { device_name = c.name; values = []; errors = e ∷ [] }

  -- `start` and `end` are the breaker's clock at its two calls.
  unfoldable pub read_all :
      ℕ → ℕ → Moments → ModbusClient F → ModbusClient F × List Request × ModbusReadResult F
  unfolding read_each account
  read_all start end moments c =
      let t = is_open start c.circuit_breaker in
      let c1 = record c { circuit_breaker = t.0 } in
      if t.1
      then (c1, [], only_error c (circuit_open (CircuitBreaker.state_name t.0)))
      else (if not c.channel
          then (c1, [], only_error c not_connected)
          else (let (c2, sent, values, errors) = read_each moments 0 c.registers c1 in
              let b =
                account end (not (is_empty values)) (not (is_empty errors)) c2.circuit_breaker in
              (
                record c2 { circuit_breaker = b },
                sent,
                record { device_name = c.name; values = values; errors = errors },
              )))
