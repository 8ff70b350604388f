-- ===== src/Queue.antt =====
-- The run queue of src/synode/infrastructure/runtime/queue.py, by its transport in memory.
mod InMemory
pub mod Kept
pub mod Started
pub mod Examples
