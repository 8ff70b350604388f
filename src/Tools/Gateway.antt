-- ===== src/Tools/Gateway.antt =====
-- `ToolGateway.execute` of src/synode/infrastructure/tools/base.py as a method of several sessions:
-- the admission, the sandbox, the run of the tool, the audit.
use synode.Prelude.{String, Option, none, some, List, ◌⊹◌, if◌then◌else◌}
use synode.Domain.{ToolRisk, EventType}
use synode.Store.{Details, Error, ok, find}
use synode.Repository.{add_event}
use synode.Service.{Method, done, throw, transact, ◌>>=◌, ◌>>◌}
use synode.Tools.Roles.{RoleSpec, role_key}
use synode.Tools.Admission.{
  ToolResult, ToolCall, ToolContext, Outcome, BaseTool, Admission, tool_key, requires_approval,
  add_tool_audit, refused, admit,
}

module _ {S : Type 0} (sandbox : S → Option String) where
  -- `sandbox.ensure_available()` where the risk asks for it: none, or what it raised.
  abbrev pub unavailable : ToolRisk → S → Option String
  unavailable risk s = if requires_approval risk then sandbox s else none

  abbrev run_tool : BaseTool S → ToolContext → ToolCall → Method S Outcome
  run_tool tool context call w =
      let (outcome, s) = tool.run context call.arguments w.outside in
      (ok outcome, record w { outside = s })

  module _ (context : ToolContext) (tool : BaseTool S) (call : ToolCall)
      (approval : Option String) where
    abbrev risk : ToolRisk
    risk = tool.classify call.arguments

    abbrev audit : ToolResult → ToolRisk → String → Method S ToolResult
    audit result risk' status = do
      transact (add_tool_audit context.run_id context.role call.name risk' status approval)
      done result

    abbrev logged : ToolResult → Method S ToolResult
    logged result = audit result result.risk (if result.ok then "ok" else "error")

    -- `except Exception` catches what the tool raises, and not the cancellation of the task.
    abbrev pub conclude : Outcome → Method S ToolResult
    conclude (Outcome.returned result) = logged result
    conclude (Outcome.raised text) =
        logged (refused call.name risk ("tool execution failed (" ⊹ (text ⊹ ")")) none)
    conclude Outcome.cancelled = throw Error.task_cancelled

    -- The call after its admission, where the sandbox is available. The record of the start does
    -- not raise here, so only the tool's own exceptions are left to catch.
    unfoldable pub perform : Method S ToolResult
    unfolding add_tool_audit add_event
    perform = do
      transact (
          add_event context.run_id EventType.tool_started (some context.role)
            (Details.tool call.name risk "running" none))
      outcome ← run_tool tool context call
      conclude outcome

    unfoldable pub go_ahead : Method S ToolResult
    unfolding perform add_tool_audit requires_approval
    go_ahead w = elim (unavailable risk w.outside) [
      | none ↦ perform w
      | some text ↦
          audit (refused call.name risk ("sandbox unavailable: " ⊹ text) none) risk
            "sandbox_unavailable" w
    ]

  module _ (tools : List (BaseTool S)) (roles : List RoleSpec) where
    abbrev pub continue : ToolContext → BaseTool S → ToolCall → Admission → Method S ToolResult
    continue context tool call (Admission.answered result) = done result
    continue context tool call (Admission.admitted approval) = go_ahead context tool call approval

    -- `id` is what `new_id()` returned.
    unfoldable pub execute :
        String → String → String → Option String → ToolCall → Option String → Method S ToolResult
    unfolding admit go_ahead find
    execute id run_id role_name workspace call approved = elim (find role_key role_name roles) [
      | none ↦ throw (Error.unknown_role role_name)
      | some role ↦ elim (find tool_key call.name tools) [
        | none ↦ throw (Error.unknown_tool call.name)
        | some tool ↦
            transact (admit run_id role call (tool.classify call.arguments) id approved)
            >>= continue (record { run_id = run_id; role = role_name; workspace = workspace }) tool
                call
      ]
    ]
