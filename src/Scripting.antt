-- ===== src/Scripting.antt =====
-- src/scripting: the script engine's conflict detector, limits, function block registry, triggers and runs.
pub mod Conflict
pub mod Limits
pub mod Registry
pub mod Persistence
pub mod Context
pub mod Triggers
pub mod Actions
pub mod Engine
pub mod Parallel
