-- ===== src/Policy/Examples.antt =====
-- The gate before a finish on short records of tool calls, and its theorems at them.
use synode.Prelude.{String, true, ◌≡◌, ◌≢◌, refl, none, List, [], ◌∷◌}
use synode.Policy.Loop.{
  ToolResult, NativeLoopMode, Phase, native_loop_phase, native_loop_allowed_tools_for_phase,
  native_loop_finish_gate_error,
}
use synode.Policy.Offered.{Offers, offered-allowed}
use synode.Policy.Gate.{Verified, finish_gate-Verified, finish_ready-gate, verify-gate}

abbrev call : String → ToolResult
call name = record { tool_name = name; ok = true }

abbrev checked_write : List ToolResult
checked_write = call "native.fs_read" ∷ call "native.fs_write" ∷ call "native.verify" ∷ []

abbrev unchecked_write : List ToolResult
unchecked_write = call "native.verify" ∷ call "native.fs_write" ∷ []

finish_gate-Verified_example : Verified checked_write
unfolding native_loop_finish_gate_error
finish_gate-Verified_example =
    finish_gate-Verified NativeLoopMode.strict "worker_agent_output" checked_write refl

finish_ready-gate_example :
    native_loop_finish_gate_error NativeLoopMode.strict "worker_agent_output" checked_write ≡ none
unfolding native_loop_phase
finish_ready-gate_example =
    finish_ready-gate NativeLoopMode.strict "worker_agent_output" [] checked_write [] refl

verify-gate_example :
    native_loop_finish_gate_error NativeLoopMode.autonomous "worker_agent_output" unchecked_write
    ≢ none
unfolding native_loop_phase
verify-gate_example =
    verify-gate NativeLoopMode.autonomous "worker_agent_output" [] unchecked_write [] refl

abbrev tools : List String
tools = "native.fs_write" ∷ "native.web_fetch" ∷ []

offered-allowed_example :
    Offers tools (native_loop_allowed_tools_for_phase tools NativeLoopMode.strict Phase.repair)
offered-allowed_example = offered-allowed tools NativeLoopMode.strict Phase.repair
