-- ===== src/Policy.antt =====
-- The policy of the native agent loop: src/synode/application/graph/native_loop_policy.py.
mod Loop
pub use Loop.{
  ToolResult, NativeLoopMode, Phase, GateError, coding_patch_proposal_contract, is_empty,
}
unfoldable pub use Loop.{
  native_loop_phase, native_loop_allowed_tools_for_phase, native_loop_duplicate_fail_after,
  native_loop_finish_gate_error,
}
pub mod Gate
pub mod Offered
pub mod Examples
