-- ===== src/Lifecycle.antt =====
-- The life cycle of runs: what the transactions of the service keep, and what they do only once.
pub mod Frames
mod Consistent
mod Preserved
mod Executed
mod Recovered
pub mod Invariant
mod Onward
mod Carried
mod Outlasts
mod Lasting
mod Frozen
pub mod Ended
pub mod Once
pub mod Cancelled
pub mod Examples
pub mod Fresh
