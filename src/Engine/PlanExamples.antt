-- ===== src/Engine/PlanExamples.antt =====
-- A plan of the supervisor with a call of an MCP tool that the role allows by `mcp.*`.
use synode.Prelude.{String, true, false, ◌≡◌, refl, none, some, List, [], ◌∷◌}
use synode.Domain.{ToolRisk}
use synode.Store.{find}
use synode.Tools.{RoleSpec, role_key, allows_tool, ToolCall, Outcome, BaseTool, tool_key}
use synode.Engine.Supervisor.{
  WorkerPlanStep, SupervisorDecision, DropReason, Dropped, DecisionError, sanitize_step,
  sanitize_supervisor_decision, check_call, validate_supervisor_decision,
}
use synode.Engine.Filtered.{concerns_tools}
use synode.Engine.Sanitized.{sanitized-validated, sanitize_step-drops}

abbrev tool_named : String → BaseTool (List String)
tool_named name = record {
  name = name;
  classify = λ arguments. ToolRisk.read;
  run = λ context arguments s. (Outcome.raised "offline", s);
}

abbrev tools : List (BaseTool (List String))
tools = tool_named "native.fs_read" ∷ tool_named "mcp.search" ∷ []

abbrev coder : RoleSpec
coder = record { name = "coder"; allowed_tools = "native.fs_read" ∷ "mcp.*" ∷ [] }

abbrev roles : List RoleSpec
roles = coder ∷ []

abbrev call_of : String → ToolCall
call_of name = record { name = name; arguments = "{}" }

abbrev step_with : List ToolCall → WorkerPlanStep
step_with calls = record { role = "coder"; task = "read"; tool_calls = calls }

abbrev decision : SupervisorDecision
decision = record {
  selected_roles = "coder" ∷ "coder" ∷ [];
  plan =
      step_with (call_of "native.fs_read" ∷ call_of "mcp.search" ∷ call_of "native.rm" ∷ []) ∷ [];
}

abbrev dropped : String → DropReason → Dropped
dropped name reason = record { role = "coder"; tool_name = name; reason = reason; task = "read" }

sanitized : sanitize_supervisor_decision tools roles decision ≡ (
  record decision { plan = step_with (call_of "native.fs_read" ∷ []) ∷ [] },
  dropped "mcp.search" DropReason.role_not_allowed
      ∷ dropped "native.rm" DropReason.unknown_tool
      ∷ [],
)
unfolding sanitize_supervisor_decision find
sanitized = refl

-- Before it is sanitized the decision is refused for a tool, after that it is accepted.
refused :
    validate_supervisor_decision tools roles ("coder" ∷ []) decision
    ≡ some (DecisionError.unknown_tool "native.rm")
unfolding validate_supervisor_decision find
refused = refl

-- The graph has no node of the role.
outside :
    validate_supervisor_decision tools roles
      ("writer" ∷ [])
      (sanitize_supervisor_decision tools roles decision).0
    ≡ some (DecisionError.outside_graph "coder")
unfolding validate_supervisor_decision sanitize_supervisor_decision find
outside = refl

sanitized-validated_example : concerns_tools (DecisionError.outside_graph "coder") ≡ false
sanitized-validated_example =
    sanitized-validated tools roles ("writer" ∷ []) decision (DecisionError.outside_graph "coder")
      outside

coder_found : find role_key "coder" roles ≡ some coder
unfolding find
coder_found = refl

search_found : find tool_key "mcp.search" tools ≡ some (tool_named "mcp.search")
unfolding find
search_found = refl

search_allowed : allows_tool coder "mcp.search" ≡ true
unfolding allows_tool
search_allowed = refl

sanitize_step-drops_example :
    (check_call tools roles "coder" (call_of "mcp.search") ≡ none)
    × ((sanitize_step tools roles (step_with (call_of "mcp.search" ∷ []))).0.tool_calls ≡ [])
sanitize_step-drops_example =
    sanitize_step-drops tools roles (step_with []) (call_of "mcp.search") coder
      (tool_named "mcp.search") coder_found refl search_found search_allowed refl
