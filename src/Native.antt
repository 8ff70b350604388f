-- ===== src/Native.antt =====
-- The loop in which a native node asks its model for one action after another.
mod Action
mod Loop
mod Guarded
mod Once
mod Finished
mod Connected
mod Examples
pub use Action.{LoopError}
unfoldable pub use Action.{invalid_operator_question}
