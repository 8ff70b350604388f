-- ===== src/Tools/Admission.antt =====
-- The first session of `ToolGateway.execute` of src/synode/infrastructure/tools/base.py, which admits
-- a call or answers it; the registry of the tools; and the audit that src/synode/infrastructure/persistence/repository.py writes. What the tools do, the sandbox and
-- the classification of a call are parameters: a tool takes and returns the state `S` of what it acts
-- on, and raises by an error. Traces and what an event displays are left out.
use synode.Prelude.{
  String, Bool, true, false, not, ◌&&◌, Option, none, some, List, [], ◌∷◌, ◌++◌, ◌==◌, ◌⊹◌,
  if◌then◌else◌, is_some, starts_with, keep_if,
}
use synode.Domain.{ToolRisk, EventType, is_approved}
use synode.Store.{
  Approval, ApprovalPayload, ToolAudit, Details, Json, Db, M, pure, gets, modify, ◌>>=◌, ◌>>◌, find,
}
use synode.Repository.{add_event, create_approval}
use synode.Tools.Roles.{RoleSpec, allows_tool}

-- What a call of a tool returns.
pub record ToolResult : Type 0 where
  pub tool_name : String
  pub ok : Bool
  pub risk : ToolRisk
  pub output : Json
  pub error : Option String
  pub approval_id : Option String

pub record ToolCall : Type 0 where
  pub name : String
  pub arguments : Json

-- How `tool.run` ends: it returns, it raises an exception with this text, or the task that awaits it
-- is cancelled, which is no `Exception`.
pub data Outcome : Type 0 where
  returned : ToolResult → Outcome
  raised : String → Outcome
  cancelled : Outcome

pub record ToolContext : Type 0 where
  pub run_id : String
  pub role : String
  pub workspace : Option String

pub record BaseTool (S : Type 0) : Type 0 where
  pub name : String
  pub classify : Json → ToolRisk
  pub run : ToolContext → Json → S → Outcome × S

abbrev pub tool_key : {S : Type 0} → BaseTool S → String
tool_key tool = tool.name

module _ {S : Type 0} where
  -- None stands for the `ValueError` of a second tool of one name.
  unfoldable pub register : BaseTool S → List (BaseTool S) → Option (List (BaseTool S))
  register tool tools =
      if is_some (find tool_key tool.name tools) then none else some (tools ++ tool ∷ [])

  unfoldable pub unregister_prefix : String → List (BaseTool S) → List (BaseTool S)
  unregister_prefix prefix tools = keep_if (λ tool. not (starts_with prefix tool.name)) tools

-- `risk in {WRITE, DESTRUCTIVE}`, for the approval and for the sandbox alike.
unfoldable pub requires_approval : ToolRisk → Bool
requires_approval ToolRisk.write = true
requires_approval ToolRisk.destructive = true
requires_approval _ = false

abbrev pub risk_value : ToolRisk → String
risk_value ToolRisk.read = "read"
risk_value ToolRisk.write = "write"
risk_value ToolRisk.network = "network"
risk_value ToolRisk.destructive = "destructive"

-- `approval.payload == {"role": role_name, "arguments": arguments}`
abbrev pub same_payload : ApprovalPayload → String → Json → Bool
same_payload (ApprovalPayload.tool_call r a) role arguments = r == role && a == arguments
same_payload (ApprovalPayload.external p) role arguments = false

unfoldable pub grants : String → String → String → Json → Approval → Bool
grants run_id tool_name role arguments a =
    a.run_id == run_id
    && a.tool_name == tool_name
    && is_approved a.status
    && same_payload a.payload role arguments

-- The last row that `p` selects; the rows come in the order of their creation.
unfoldable pub find_last : (Approval → Bool) → List Approval → Option Approval
find_last p [] = none
find_last p (a ∷ rows) = elim (find_last p rows) [
  | some b ↦ some b
  | none ↦ if p a then some a else none
]

abbrev pub id_of : Option Approval → Option String
id_of none = none
id_of (some a) = some a.id

unfoldable pub find_existing_approval : String → String → String → Json → Db → Option String
unfolding grants find_last
find_existing_approval run_id tool_name role arguments db =
    id_of (find_last (grants run_id tool_name role arguments) db.approvals)

abbrev pub audit_row : String → String → String → ToolRisk → String → Option String → ToolAudit
audit_row run_id role tool_name risk status approval_id = record {
  run_id = run_id;
  role = role;
  tool_name = tool_name;
  risk = risk;
  status = status;
  approval_id = approval_id;
}

unfoldable pub add_tool_audit :
    String → String → String → ToolRisk → String → Option String → M (Unit {0})
add_tool_audit run_id role tool_name risk status approval_id = do
  let audit : ToolAudit = audit_row run_id role tool_name risk status approval_id
  modify (λ db. record db { audits = db.audits ++ audit ∷ [] })
  add_event run_id EventType.tool_completed (some role)
      (Details.tool tool_name risk status approval_id)

-- What the first session decides: the call is answered, or it may go on with this approval.
pub data Admission : Type 0 where
  answered : ToolResult → Admission
  admitted : Option String → Admission

abbrev pub refused : String → ToolRisk → String → Option String → ToolResult
refused tool_name risk error approval_id = record {
  tool_name = tool_name;
  ok = false;
  risk = risk;
  output = "{}";
  error = some error;
  approval_id = approval_id;
}

module _ (run_id : String) (role : RoleSpec) (call : ToolCall) (risk : ToolRisk) where
  unfoldable pub deny : M Admission
  unfolding add_tool_audit
  deny = do
    add_tool_audit run_id role.name call.name risk "denied" none
    pure (
        Admission.answered (
          refused call.name risk
            ("role '" ⊹ (role.name ⊹ ("' is not allowed to use tool '" ⊹ (call.name ⊹ "'")))) none))

  -- `id` is what `new_id()` returned.
  unfoldable pub ask : String → M Admission
  unfolding add_tool_audit
  ask id = do
    approval ←
        create_approval id run_id call.name risk
          ("Tool '" ⊹ (call.name ⊹ ("' requested " ⊹ (risk_value risk ⊹ " access."))))
          (ApprovalPayload.tool_call role.name call.arguments)
    add_tool_audit run_id role.name call.name risk "approval_required" (some approval.id)
    pure (Admission.answered (refused call.name risk "approval required" (some approval.id)))

  -- The approval that the caller names, or else one that was granted before.
  unfoldable pub known_approval : Option String → Db → Option String
  unfolding requires_approval find_existing_approval
  known_approval (some id) db = some id
  known_approval none db =
      if requires_approval risk
      then find_existing_approval run_id call.name role.name call.arguments db
      else none

  unfoldable pub admit : String → Option String → M Admission
  unfolding deny ask known_approval requires_approval
  admit id approved = if not (allows_tool role call.name) then deny else (do
    approval ← gets (known_approval approved)
    if requires_approval risk && not (is_some approval)
        then ask id
        else pure (Admission.admitted approval))
