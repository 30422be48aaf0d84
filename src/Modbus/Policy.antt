-- ===== src/Modbus/Policy.antt =====
-- The requests of any calls on the client of src/modbus.rs, against its security policy.
use sens.Common.{str_eq, if-P, ◌++◌, ◌∙◌, ap, sym, ℕ, ◌≡◌, refl, Bool, true, List, [], ◌∷◌}
use sens.Common.Tables.{all}
use sens.Modbus.Permitted.{
  is_permitted, Obeys, all-append, write_register-Obeys, write_coil-Obeys, read_all-Obeys,
}
use sens.Resilience.CircuitBreaker as CircuitBreaker
use sens.Modbus.Client.{Attempt, connected, refused, timed_out, ModbusClient, Request}
use sens.Modbus.{
  connect, connect_tcp, record_attempt, disconnect, Moments, LimiterClock, read_all, write_coil,
  write_register, Floats, Channel,
}

-- The calls on a client, with what they meet.
pub data Call {F : Type 0} (floats : Floats F) (valid_range : ℕ → ℕ → Bool) : Type 0 where
  reads_all : ℕ → ℕ → Moments floats valid_range → Call floats valid_range
  writes_register : LimiterClock → Channel → ℕ → ℕ → Call floats valid_range
  writes_coil : LimiterClock → Channel → ℕ → Bool → Call floats valid_range
  connects : ℕ → Attempt → Call floats valid_range
  disconnects : Call floats valid_range

module _ {F : Type 0} (floats : Floats F) (valid_range : ℕ → ℕ → Bool) where
  -- The client after a call, and the requests that the call sent.
  unfoldable pub call : Call floats valid_range → ModbusClient F → ModbusClient F × List Request
  call (reads_all start end moments) c =
      let o = read_all floats valid_range start end moments c in (o.0, o.1)
  call (writes_register now ch address value) c =
      let o = write_register now ch address value c in (o.0, o.1)
  call (writes_coil now ch address value) c =
      let o = write_coil now ch address value c in (o.0, o.1)
  call (connects now attempt) c = ((connect now attempt c).0, [])
  call disconnects c = (disconnect c, [])

  -- All the requests of calls in turn.
  unfoldable pub requests : List (Call floats valid_range) → ModbusClient F → List Request
  requests [] c = []
  requests (o ∷ os) c = (call o c).1 ++ requests os (call o c).0

  security-record_attempt :
      (now : ℕ) (attempt : Attempt) (c : ModbusClient F)
      → (record_attempt now attempt c).0.security ≡ c.security
  unfolding record_attempt
  security-record_attempt now connected c = refl
  security-record_attempt now (refused e) c = refl
  security-record_attempt now timed_out c = refl

  security-connect_tcp :
      (now : ℕ) (attempt : Attempt) (c : ModbusClient F)
      → (connect_tcp now attempt c).0.security ≡ c.security
  unfolding connect_tcp record_attempt
  security-connect_tcp now connected c = refl
  security-connect_tcp now (refused e) c = refl
  security-connect_tcp now timed_out c = refl

  security-connect :
      (now : ℕ) (attempt : Attempt) (c : ModbusClient F)
      → (connect now attempt c).0.security ≡ c.security
  unfolding connect
  security-connect now attempt c =
      let P = λ (o : ModbusClient F × Bool). o.0.security ≡ c.security in
      let c1 = record c { circuit_breaker = CircuitBreaker.reset c.circuit_breaker } in
      if-P P (str_eq c.connection_type "tcp") (λ _. security-connect_tcp now attempt c1)
        (λ _.
          if-P P (str_eq c.connection_type "rtu") (λ _. security-record_attempt now attempt c1)
            (λ _. security-record_attempt now (refused "Unknown connection type") c1))

  call-Obeys :
      (o : Call floats valid_range) (c : ModbusClient F)
      → c.security.enabled ≡ true
      → Obeys c (call o c).0 (call o c).1
  unfolding call all disconnect
  call-Obeys (reads_all start end moments) c on =
      read_all-Obeys floats valid_range start end moments c on
  call-Obeys (writes_register now ch address value) c on =
      write_register-Obeys now ch address value c on
  call-Obeys (writes_coil now ch address value) c on = write_coil-Obeys now ch address value c on
  call-Obeys (connects now attempt) c on = (security-connect now attempt c, refl)
  call-Obeys disconnects c on = (refl, refl)

  -- With security enabled, whatever calls are made and whatever the channel answers, every request
  -- that the client sends is one of the policy: its function code is on the whitelist, a read asks
  -- for no more registers than allowed, and a write goes out only where writes are allowed.
  pub requests_permitted :
      (os : List (Call floats valid_range)) (c : ModbusClient F)
      → c.security.enabled ≡ true
      → all (is_permitted c.security) (requests os c) ≡ true
  unfolding requests all
  requests_permitted [] c on = refl
  requests_permitted (o ∷ os) c on =
      let (same, first) = call-Obeys o c on in
      let after = (call o c).0 in
      all-append (is_permitted c.security) (call o c).1 (requests os after) first (
        ap (λ s. all (is_permitted s) (requests os after)) (sym same)
        ∙ requests_permitted os after (ap (λ s. s.enabled) same ∙ on))
