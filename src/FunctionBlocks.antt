-- ===== src/FunctionBlocks.antt =====
-- The IEC 61131-3 function blocks of src/scripting/function_blocks: timers, counters and edge
-- detectors, a child module for each kind.
pub mod Timers
pub mod Counters
pub mod Edges
pub mod Block
