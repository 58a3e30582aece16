-- ===== src/KvCache.antt =====
-- The paged KV cache, node/kv_cache.py.
mod Tests
pub mod State
pub mod Ops
pub mod Write
pub mod Loops
pub mod Invariant
pub mod Cells
pub mod Reach
