-- ===== src/Batching.antt =====
-- Continuous batching, node/continuous_batcher.py.
mod Tests
pub mod Blocks
pub mod State
pub mod Sorting
pub mod Preemption
pub mod Schedule
pub mod Step
