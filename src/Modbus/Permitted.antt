-- ===== src/Modbus/Permitted.antt =====
-- Which requests the client of src/modbus.rs sends.
use sens.Common.{
  false, if-P, not, ◌++◌, if◌then◌else◌, Option-cases, ltb, ◌<◌, ◌∙◌, ap, suc, sym, ◌≤◌, ℕ, String,
  ◌≡◌, refl, inl, inr, Bool, true, ◌&&◌, List, [], ◌∷◌, arith, leb,
}
use sens.Common.Tables.{all}
use sens.Common.Result.{Result, ok, err}
use sens.Resilience.RateLimiter.{try_acquire}
use sens.Modbus.Client.{
  Outcome, ModbusReadResult, RegisterValue, not_connected, rate_limit_exceeded, writes_not_allowed,
  function_not_allowed, holding, input, coil, discrete, ModbusRegisterConfig, RegisterType,
  wire_count, map_ok, raw_values, register_type_of, read, function_code, contains_code,
  ModbusSecurityConfig, ModbusClient, Request, write_single_register, write_single_coil,
  fc_write_single_register, fc_write_single_coil,
}
use sens.Resilience.CircuitBreaker.{is_open}
use sens.Modbus.Registers.{register_count_positive}
use sens.Modbus.{
  refuse, value_of, read_of_type, read_register, Moments, LimiterClock, read_each, read_all,
  wire_count, ModbusRegisterConfig, get_register_count, RegisterType, write_coil, write_register,
  Floats, Channel, validate_write_allowed, validate_function_code, acquire_rate_limit, sent_with,
}

-- The policy lets the request through.
abbrev pub is_permitted : ModbusSecurityConfig → Request → Bool
is_permitted s (read code address n) =
    contains_code s.allowed_function_codes code && leb n s.max_register_count
is_permitted s (write_single_register address value) =
    s.allow_writes && contains_code s.allowed_function_codes fc_write_single_register
is_permitted s (write_single_coil address value) =
    s.allow_writes && contains_code s.allowed_function_codes fc_write_single_coil

-- A call under the policy: it keeps the settings, and its requests are permitted.
abbrev pub Obeys : {F : Type 0} → ModbusClient F → ModbusClient F → List Request → Type 0
Obeys c c' sent = (c'.security ≡ c.security) × (all (is_permitted c.security) sent ≡ true)

pub all-append :
    {A : Type 0} (f : A → Bool) (xs ys : List A)
    → all f xs ≡ true
    → all f ys ≡ true
    → all f (xs ++ ys) ≡ true
unfolding all
all-append f [] ys h k = k
all-append f (x ∷ xs) ys h k = ground (arith, all-append f xs ys)

module _ {F : Type 0} where
  security-acquire :
      (now : LimiterClock) (c : ModbusClient F) → (acquire_rate_limit now c).0.security ≡ c.security
  unfolding acquire_rate_limit
  security-acquire now c =
      if-P (λ (t : ModbusClient F × Bool). t.0.security ≡ c.security) (not c.security.enabled)
        (λ _. refl)
        (λ _.
          if-P (λ (t : ModbusClient F × Bool). t.0.security ≡ c.security)
            (try_acquire now.0 c.rate_limiter).1 (λ _. refl) (λ _. refl))

  sent_with-Obeys :
      {A : Type 0} (c c' : ModbusClient F) (r : Request) (result : Result A String)
      → c'.security ≡ c.security
      → is_permitted c.security r ≡ true
      → Obeys c (sent_with c' r result).0 (sent_with c' r result).1
  unfolding all
  sent_with-Obeys c c' r (ok a) same permitted = (same, rw permitted refl)
  sent_with-Obeys c c' r (err e) same permitted = (same, rw permitted refl)

  allowed :
      (c : ModbusClient F) (code : ℕ)
      → c.security.enabled ≡ true
      → validate_function_code c code ≡ true
      → contains_code c.security.allowed_function_codes code ≡ true
  unfolding validate_function_code
  allowed c code on valid = ground arith

  few_le :
      (c' c : ModbusClient F) (n : ℕ)
      → c'.security ≡ c.security
      → ltb c'.security.max_register_count n ≡ false
      → n ≤ c.security.max_register_count
  few_le c' c n same few = ground (arith, ap (λ s. s.max_register_count) same)

  allowed_at :
      (c c' : ModbusClient F)
      → c'.security ≡ c.security
      → (code : ℕ) → c.security.enabled ≡ true
      → validate_function_code c' code ≡ true
      → contains_code c.security.allowed_function_codes code ≡ true
  allowed_at c c' same code on valid =
      sym (ap (λ s. contains_code s.allowed_function_codes code) same)
      ∙ allowed c' code (ap (λ s. s.enabled) same ∙ on) valid

  writes_allowed :
      (c : ModbusClient F)
      → c.security.enabled ≡ true
      → validate_write_allowed c ≡ true
      → c.security.allow_writes ≡ true
  unfolding validate_write_allowed
  writes_allowed c on valid = ground arith

  -- The guards of the two writes, before a request that is permitted where they let it through.
  guarded-Obeys :
      (now : LimiterClock) (code : ℕ) (r : Request) (result : Result (Unit {0}) String)
      (c : ModbusClient F)
      → c.security.enabled ≡ true
      → is_permitted c.security r
        ≡ (c.security.allow_writes && contains_code c.security.allowed_function_codes code)
      → let t = acquire_rate_limit now c in
        let o =
          if not (validate_write_allowed c)
          then refuse {A = Unit {0}} c writes_not_allowed
          else (if not (validate_function_code c code)
              then refuse c (function_not_allowed code)
              else (if not t.1
                  then refuse t.0 rate_limit_exceeded
                  else (if not t.0.channel
                      then refuse t.0 not_connected
                      else sent_with t.0 r result))) in
        Obeys c o.0 o.1
  unfolding all
  guarded-Obeys now code r result c on policy =
      let P = λ (o : Outcome F (Unit {0})). Obeys c o.0 o.1 in
      let same = security-acquire now c in
      if-P P (not (validate_write_allowed c)) (λ _. (refl, refl))
        (λ writes.
          if-P P (not (validate_function_code c code)) (λ _. (refl, refl))
            (λ valid.
              if-P P (not (acquire_rate_limit now c).1) (λ _. (same, refl))
                (λ _.
                  if-P P (not (acquire_rate_limit now c).0.channel) (λ _. (same, refl))
                    (λ _.
                      sent_with-Obeys c (acquire_rate_limit now c).0 r result same
                        (ground (arith, policy, writes_allowed c on, allowed c code on))))))

  pub write_register-Obeys :
      (now : LimiterClock) (ch : Channel) (address value : ℕ) (c : ModbusClient F)
      → c.security.enabled ≡ true
      → Obeys c (write_register now ch address value c).0 (write_register now ch address value c).1
  unfolding write_register
  write_register-Obeys now ch address value c on =
      guarded-Obeys now fc_write_single_register (write_single_register address value)
        (ch.write_register address value) c on refl

  pub write_coil-Obeys :
      (now : LimiterClock) (ch : Channel) (address : ℕ) (value : Bool) (c : ModbusClient F)
      → c.security.enabled ≡ true
      → Obeys c (write_coil now ch address value c).0 (write_coil now ch address value c).1
  unfolding write_coil
  write_coil-Obeys now ch address value c on =
      guarded-Obeys now fc_write_single_coil (write_single_coil address value)
        (ch.write_coil address value) c on refl

module _ {F : Type 0} (floats : Floats F) (valid_range : ℕ → ℕ → Bool) where
  wire_count_le : (t : RegisterType) (n : ℕ) → 0 < n → wire_count t n ≤ n
  wire_count_le holding n h = omega arith
  wire_count_le input n h = omega arith
  wire_count_le coil n h = omega arith
  wire_count_le discrete n h = omega arith

  read_of_type-Obeys :
      (ch : Channel) (reg : ModbusRegisterConfig F) (n : ℕ) (t : RegisterType)
      (c c' : ModbusClient F)
      → c'.security ≡ c.security
      → c.security.enabled ≡ true
      → 0 < n
      → n ≤ c.security.max_register_count
      → Obeys c
          (read_of_type floats valid_range ch reg n t c').0
          (read_of_type floats valid_range ch reg n t c').1
  unfolding all read_of_type
  read_of_type-Obeys ch reg n t c c' same on positive few =
      let P = λ (o : Outcome F (RegisterValue F)). Obeys c o.0 o.1 in
      if-P P (not (validate_function_code c' (function_code t))) (λ _. (same, refl))
        (λ valid.
          if-P P (not c'.channel) (λ _. (same, refl))
            (λ _.
              if-P P (not (valid_range reg.address n && valid_range reg.address (wire_count t n)))
                (λ _. (same, refl))
                (λ _.
                  sent_with-Obeys c c' (read (function_code t) reg.address (wire_count t n))
                    (map_ok (value_of floats valid_range reg) (raw_values ch t reg.address n)) same
                    (ground (
                      arith,
                      allowed_at c c' same (function_code t) on,
                      wire_count_le t n positive,
                    )))))

  read_register-Obeys :
      (now : LimiterClock) (ch : Channel) (reg : ModbusRegisterConfig F) (c : ModbusClient F)
      → c.security.enabled ≡ true
      → Obeys c
          (read_register floats valid_range now ch reg c).0
          (read_register floats valid_range now ch reg c).1
  unfolding all read_register
  read_register-Obeys now ch reg c on =
      let P = λ (o : Outcome F (RegisterValue F)). Obeys c o.0 o.1 in
      let n = get_register_count reg.data_type in
      let c' = (acquire_rate_limit now c).0 in
      let same = security-acquire now c in
      if-P P (not (acquire_rate_limit now c).1) (λ _. (same, refl))
        (λ _.
          if-P P (ltb c'.security.max_register_count n) (λ _. (same, refl))
            (λ few. elim (Option-cases (register_type_of reg.register_type)) [
              | inl unknown ↦ rw unknown (same, refl)
              | inr (t, known) ↦ rw known (
                  read_of_type-Obeys ch reg n t c c' same on (register_count_positive reg.data_type)
                    (omega (arith, few_le c' c n same few)))
            ]))

  read_each-Obeys :
      (moments : Moments floats valid_range) (i : ℕ) (regs : List (ModbusRegisterConfig F))
      (c : ModbusClient F)
      → c.security.enabled ≡ true
      → Obeys c
          (read_each floats valid_range moments i regs c).0
          (read_each floats valid_range moments i regs c).1
  unfolding all read_each
  read_each-Obeys moments i [] c on = (refl, refl)
  read_each-Obeys moments i (reg ∷ regs) c on =
      let r = read_register floats valid_range (moments i).0 (moments i).1 reg c in
      let rest = read_each floats valid_range moments (suc i) regs r.0 in
      let (same, first) = read_register-Obeys (moments i).0 (moments i).1 reg c on in
      let (same', others) =
        read_each-Obeys moments (suc i) regs r.0 (ap (λ s. s.enabled) same ∙ on) in
      (
        same' ∙ same,
        all-append (is_permitted c.security) r.1 rest.1 first
            (ap (λ s. all (is_permitted s) rest.1) (sym same) ∙ others),
      )

  pub read_all-Obeys :
      (start end : ℕ) (moments : Moments floats valid_range) (c : ModbusClient F)
      → c.security.enabled ≡ true
      → Obeys c
          (read_all floats valid_range start end moments c).0
          (read_all floats valid_range start end moments c).1
  unfolding all read_all
  read_all-Obeys start end moments c on =
      let P = λ (o : ModbusClient F × List Request × ModbusReadResult F). Obeys c o.0 o.1 in
      let c1 = record c { circuit_breaker = (is_open start c.circuit_breaker).0 } in
      if-P P (is_open start c.circuit_breaker).1 (λ _. (refl, refl))
        (λ _.
          if-P P (not c.channel) (λ _. (refl, refl))
            (λ _. read_each-Obeys moments 0 c.registers c1 on))
