-- ===== src/FunctionBlocks/Timers.antt =====
-- src/scripting/function_blocks/timers.rs: TON, TOF and TP.
pub mod Ton
pub mod Tof
pub mod Tp
