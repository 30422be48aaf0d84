-- ===== src/FunctionBlocks/Counters.antt =====
-- src/scripting/function_blocks/counters.rs: CTU, CTD and CTUD.
pub mod Ctu
pub mod Ctd
pub mod Ctud
