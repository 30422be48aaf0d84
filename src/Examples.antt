-- ===== src/Examples.antt =====
-- The theorems at concrete inputs.
mod Document
mod Sorting
mod Timers
mod Restarts
mod Counters
mod Breaker
mod Limiter
mod Registry
mod Persistence
mod Scripts
mod Queue
mod Triggers
mod Engine
mod Parallel
mod Modbus
