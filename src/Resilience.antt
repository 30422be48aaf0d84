-- ===== src/Resilience.antt =====
-- src/resilience: the circuit breaker and the rate limiter that guard the Modbus devices.
pub mod CircuitBreaker
pub mod RateLimiter
