-- ===== src/Modbus/Circuit.antt =====
-- How the rounds of `read_all` in src/modbus.rs move the circuit breaker.
use sens.Common.{
  ◌∙◌, inl, Option-cases, refl, ◌&&◌, true, suc, ltb, not, ◌∷◌, false, ◌++◌, Bool, [], ◌≡◌, String,
  ℕ, List, if-P, inr, ap, sym,
}
use sens.Common.Result.{Result, ok, err, is_ok}
use sens.Resilience.CircuitBreaker.{is_open, record_failure}
use sens.Modbus.Registers.{Floats, get_register_count}
use sens.Resilience.RateLimiter.{try_acquire}
use sens.Modbus.Client.{
  ModbusRegisterConfig, ModbusClient, Request, Outcome, RegisterValue, ModbusError,
  ModbusReadResult, Channel, RegisterType, register_type_of, function_code, wire_count, read,
  map_ok, raw_values,
}
use sens.Modbus.{
  validate_function_code, acquire_rate_limit, sent_with, read_of_type, read_register, Moments,
  LimiterClock, read_each, read_all, account, is_empty, value_of,
}

-- A read that has sent nothing has failed, and no read touches the breaker.
abbrev Answers : {F A : Type 0} → ModbusClient F → Outcome F A → Type 0
Answers c o = (o.0.circuit_breaker ≡ c.circuit_breaker) × (o.1 ≡ [] → is_ok o.2 ≡ false)

append_empty : {A : Type 0} (xs ys : List A) → xs ++ ys ≡ [] → (xs ≡ []) × (ys ≡ [])
append_empty [] ys h = (refl, h)
append_empty (x ∷ xs) ys h = absurd (cc h)

module _ {F : Type 0} where
  breaker-acquire :
      (now : LimiterClock) (c : ModbusClient F)
      → (acquire_rate_limit now c).0.circuit_breaker ≡ c.circuit_breaker
  unfolding acquire_rate_limit
  breaker-acquire now c =
      if-P (λ (t : ModbusClient F × Bool). t.0.circuit_breaker ≡ c.circuit_breaker)
        (not c.security.enabled) (λ _. refl)
        (λ _.
          if-P (λ (t : ModbusClient F × Bool). t.0.circuit_breaker ≡ c.circuit_breaker)
            (try_acquire now.0 c.rate_limiter).1 (λ _. refl) (λ _. refl))

  sent_with-Answers :
      {A : Type 0} (c c' : ModbusClient F) (r : Request) (result : Result A String)
      → c'.circuit_breaker ≡ c.circuit_breaker
      → Answers c (sent_with c' r result)
  sent_with-Answers c c' r (ok a) same = (same, λ empty. cc empty)
  sent_with-Answers c c' r (err e) same = (same, λ empty. refl)

module _ {F : Type 0} (floats : Floats F) (valid_range : ℕ → ℕ → Bool) where
  read_of_type-Answers :
      (ch : Channel) (reg : ModbusRegisterConfig F) (n : ℕ) (t : RegisterType)
      (c c' : ModbusClient F)
      → c'.circuit_breaker ≡ c.circuit_breaker
      → Answers c (read_of_type floats valid_range ch reg n t c')
  unfolding read_of_type
  read_of_type-Answers ch reg n t c c' same =
      let P = λ (o : Outcome F (RegisterValue F)). Answers c o in
      if-P P (not (validate_function_code c' (function_code t))) (λ _. (same, λ _. refl))
        (λ _.
          if-P P (not c'.channel) (λ _. (same, λ _. refl))
            (λ _.
              if-P P (not (valid_range reg.address n && valid_range reg.address (wire_count t n)))
                (λ _. (same, λ _. refl))
                (λ _.
                  sent_with-Answers c c' (read (function_code t) reg.address (wire_count t n))
                    (map_ok (value_of floats valid_range reg) (raw_values ch t reg.address n))
                    same)))

  read_register-Answers :
      (now : LimiterClock) (ch : Channel) (reg : ModbusRegisterConfig F) (c : ModbusClient F)
      → Answers c (read_register floats valid_range now ch reg c)
  unfolding read_register
  read_register-Answers now ch reg c =
      let P = λ (o : Outcome F (RegisterValue F)). Answers c o in
      let n = get_register_count reg.data_type in
      let c' = (acquire_rate_limit now c).0 in
      let same = breaker-acquire now c in
      if-P P (not (acquire_rate_limit now c).1) (λ _. (same, λ _. refl))
        (λ _.
          if-P P (ltb c'.security.max_register_count n) (λ _. (same, λ _. refl))
            (λ _. elim (Option-cases (register_type_of reg.register_type)) [
              | inl unknown ↦ rw unknown (same, λ _. refl)
              | inr (t, known) ↦ rw known (read_of_type-Answers ch reg n t c c' same)
            ]))

  breaker-read_each :
      (moments : Moments floats valid_range) (i : ℕ) (regs : List (ModbusRegisterConfig F))
      (c : ModbusClient F)
      → (read_each floats valid_range moments i regs c).0.circuit_breaker ≡ c.circuit_breaker
  unfolding read_each
  breaker-read_each moments i [] c = refl
  breaker-read_each moments i (reg ∷ regs) c =
      breaker-read_each moments (suc i) regs
        (read_register floats valid_range (moments i).0 (moments i).1 reg c).0
      ∙ (read_register-Answers (moments i).0 (moments i).1 reg c).0

  no_value :
      (r : Result (RegisterValue F) ModbusError) (values : List (RegisterValue F))
      → is_ok r ≡ false
      → values ≡ []
      → (elim r [ ok v ↦ v ∷ values | err e ↦ values ]) ≡ []
  no_value (ok v) values failed none_read = cc failed
  no_value (err e) values failed none_read = none_read

  one_error :
      (r : Result (RegisterValue F) ModbusError) (errors : List ModbusError)
      → is_ok r ≡ false
      → is_empty floats valid_range (elim r [ ok v ↦ errors | err e ↦ e ∷ errors ]) ≡ false
  one_error (ok v) errors failed = cc failed
  one_error (err e) errors failed = refl

  -- A round that sends nothing reads nothing.
  values-silent :
      (moments : Moments floats valid_range) (i : ℕ) (regs : List (ModbusRegisterConfig F))
      (c : ModbusClient F)
      → (read_each floats valid_range moments i regs c).1 ≡ []
      → (read_each floats valid_range moments i regs c).2 ≡ []
  unfolding read_each
  values-silent moments i [] c silent = refl
  values-silent moments i (reg ∷ regs) c silent =
      let r = read_register floats valid_range (moments i).0 (moments i).1 reg c in
      let rest = read_each floats valid_range moments (suc i) regs r.0 in
      let (first_silent, rest_silent) = append_empty r.1 rest.1 silent in
      no_value r.2 rest.2 ((read_register-Answers (moments i).0 (moments i).1 reg c).1 first_silent)
        (values-silent moments (suc i) regs r.0 rest_silent)

  errors-silent :
      (moments : Moments floats valid_range) (i : ℕ) (reg : ModbusRegisterConfig F)
      (regs : List (ModbusRegisterConfig F)) (c : ModbusClient F)
      → (read_each floats valid_range moments i (reg ∷ regs) c).1 ≡ []
      → is_empty floats valid_range (read_each floats valid_range moments i (reg ∷ regs) c).3
        ≡ false
  unfolding read_each
  errors-silent moments i reg regs c silent =
      let r = read_register floats valid_range (moments i).0 (moments i).1 reg c in
      let rest = read_each floats valid_range moments (suc i) regs r.0 in
      one_error r.2 rest.3 (
        (read_register-Answers (moments i).0 (moments i).1 reg c).1
          (append_empty r.1 rest.1 silent).0)

  account_silent :
      (end : ℕ) (moments : Moments floats valid_range) (reg : ModbusRegisterConfig F)
      (regs rs : List (ModbusRegisterConfig F)) (c : ModbusClient F)
      → rs ≡ reg ∷ regs
      → (read_each floats valid_range moments 0 rs c).1 ≡ []
      → let round = read_each floats valid_range moments 0 rs c in
        account floats valid_range end
          (not (is_empty floats valid_range round.2))
          (not (is_empty floats valid_range round.3))
          round.0.circuit_breaker
        ≡ record_failure end c.circuit_breaker
  unfolding account
  account_silent end moments reg regs [] c some_register silent = absurd (cc some_register)
  account_silent end moments reg regs (r ∷ rs) c some_register silent =
      rw
        (
          values-silent moments 0 (r ∷ rs) c silent,
          errors-silent moments 0 r rs c silent,
          breaker-read_each moments 0 (r ∷ rs) c,
        )
        refl

  -- What the client refuses by itself counts against the device: a connected client with registers,
  -- whose breaker lets the round through, records a failure of the device if the round sends
  -- nothing at all, be it for the rate limit, the whitelist or the limit on registers.
  pub silent_round_is_a_failure :
      (start end : ℕ) (moments : Moments floats valid_range) (reg : ModbusRegisterConfig F)
      (regs : List (ModbusRegisterConfig F)) (c : ModbusClient F)
      → c.registers ≡ reg ∷ regs
      → c.channel ≡ true
      → (is_open start c.circuit_breaker).1 ≡ false
      → (read_all floats valid_range start end moments c).1 ≡ []
      → (read_all floats valid_range start end moments c).0.circuit_breaker
        ≡ record_failure end (is_open start c.circuit_breaker).0
  unfolding read_all
  silent_round_is_a_failure start end moments reg regs c some_register connected let_through =
      let b = (is_open start c.circuit_breaker).0 in
      let c1 = record c { circuit_breaker = b } in
      let P = λ (o : ModbusClient F × List Request × ModbusReadResult F).
        o.1 ≡ [] → o.0.circuit_breaker ≡ record_failure end b in
      if-P P (is_open start c.circuit_breaker).1 (λ opened. absurd (cc (sym opened ∙ let_through)))
        (λ _.
          if-P P (not c.channel) (λ absent. absurd (cc (sym absent ∙ ap not connected)))
            (λ _ silent. account_silent end moments reg regs c.registers c1 some_register silent))
