-- ===== src/Engine/Supervisor.antt =====
-- `_sanitize_supervisor_decision`, `_validate_supervisor_decision` and the names of
-- `_worker_role_catalog` of src/synode/application/graph/engine.py, and the decision of the supervisor
-- of src/synode/domain/runtime/decisions.py, without its confidence, risk and summary.
use synode.Prelude.{
  String, Bool, not, ◌&&◌, ◌||◌, Option, none, some, List, [], ◌∷◌, ◌++◌, ◌==◌, if◌then◌else◌,
  keep_if, map, mem_text, all,
}
use synode.Policy.{is_empty}
use synode.Store.{find}
use synode.Tools.{RoleSpec, role_key, allows_tool, ToolCall, BaseTool, tool_key}

pub record WorkerPlanStep : Type 0 where
  pub role : String
  pub task : String
  pub tool_calls : List ToolCall

pub record SupervisorDecision : Type 0 where
  pub selected_roles : List String
  pub plan : List WorkerPlanStep

pub data DropReason : Type 0 where
  unknown_tool role_not_allowed : DropReason

pub record Dropped : Type 0 where
  pub role : String
  pub tool_name : String
  pub reason : DropReason
  pub task : String

-- What the validation raises.
pub data DecisionError : Type 0 where
  roles_differ : DecisionError
  system_role outside_graph unknown_role : String → DecisionError
  unknown_tool : String → DecisionError
  not_allowed : String → String → DecisionError

abbrev pub is_system_role : String → Bool
is_system_role role = role == "supervisor" || role == "reviewer"

-- `active` are the names of `_graph_worker_names`.
unfoldable pub worker_role_catalog : List String → List RoleSpec → List String
worker_role_catalog active roles =
    keep_if (λ name. not (is_system_role name) && (is_empty active || mem_text name active))
      (map role_key roles)

-- One check after another: the first that fails is raised.
abbrev pub first_error : Option DecisionError → Option DecisionError → Option DecisionError
first_error none rest = rest
first_error (some e) rest = some e

-- `for x in xs` with a check of each
abbrev pub check_each : {A : Type 0} → (A → Option DecisionError) → List A → Option DecisionError
check_each check [] = none
check_each check (x ∷ xs) = first_error (check x) (check_each check xs)

-- The two lists hold the same texts.
abbrev pub same_set : List String → List String → Bool
same_set xs ys = all (λ x. mem_text x ys) xs && all (λ y. mem_text y xs) ys

module _ {S : Type 0} (tools : List (BaseTool S)) (roles : List RoleSpec) where
  -- Why a call is dropped, if it is, where the role's `allowed_tools` are given.
  unfoldable pub drop_reason : List String → String → Option DropReason
  drop_reason allowed name = elim (find tool_key name tools) [
    | none ↦ some DropReason.unknown_tool
    | some tool ↦ if mem_text name allowed then none else some DropReason.role_not_allowed
  ]

  unfoldable pub sanitize_calls :
      List String → String → String → List ToolCall → List ToolCall × List Dropped
  unfolding drop_reason
  sanitize_calls allowed role task [] = ([], [])
  sanitize_calls allowed role task (call ∷ calls) =
      let (filtered, dropped) = sanitize_calls allowed role task calls in
      elim (drop_reason allowed call.name) [
        | none ↦ (call ∷ filtered, dropped)
        | some reason ↦ (
          filtered,
          record { role = role; tool_name = call.name; reason = reason; task = task } ∷ dropped,
        )
      ]

  -- `deps.roles.get(role).allowed_tools if role else []`, or no such role
  unfoldable pub allowed_of : String → Option (List String)
  allowed_of role =
      if role == ""
      then some []
      else elim (find role_key role roles) [ none ↦ none | some spec ↦ some spec.allowed_tools ]

  unfoldable pub sanitize_step : WorkerPlanStep → WorkerPlanStep × List Dropped
  unfolding allowed_of sanitize_calls
  sanitize_step step = elim (allowed_of step.role) [
    | none ↦ (step, [])
    | some allowed ↦
        let (filtered, dropped) = sanitize_calls allowed step.role step.task step.tool_calls in
        (record step { tool_calls = filtered }, dropped)
  ]

  unfoldable pub sanitize_plan : List WorkerPlanStep → List WorkerPlanStep × List Dropped
  unfolding sanitize_step
  sanitize_plan [] = ([], [])
  sanitize_plan (step ∷ plan) = (
    (sanitize_step step).0 ∷ (sanitize_plan plan).0,
    (sanitize_step step).1 ++ (sanitize_plan plan).1,
  )

  unfoldable pub sanitize_supervisor_decision :
      SupervisorDecision → SupervisorDecision × List Dropped
  unfolding sanitize_plan
  sanitize_supervisor_decision decision =
      let (plan, dropped) = sanitize_plan decision.plan in
      if is_empty dropped then (decision, []) else (record decision { plan = plan }, dropped)

  unfoldable pub check_role : List String → String → Option DecisionError
  check_role catalog role =
      if is_system_role role
      then some (DecisionError.system_role role)
      else if not (mem_text role catalog)
      then some (DecisionError.outside_graph role)
      else elim (find role_key role roles) [
        | none ↦ some (DecisionError.unknown_role role)
        | some spec ↦ none
      ]

  unfoldable pub check_call : String → ToolCall → Option DecisionError
  unfolding allows_tool
  check_call role call = elim (find tool_key call.name tools) [
    | none ↦ some (DecisionError.unknown_tool call.name)
    | some tool ↦ elim (find role_key role roles) [
      | none ↦ some (DecisionError.unknown_role role)
      | some spec ↦
          if allows_tool spec call.name
          then none
          else some (DecisionError.not_allowed role call.name)
    ]
  ]

  unfoldable pub check_step : List String → WorkerPlanStep → Option DecisionError
  unfolding check_role check_call
  check_step catalog step =
      first_error (check_role catalog step.role) (check_each (check_call step.role) step.tool_calls)

  unfoldable pub validate_supervisor_decision :
      List String → SupervisorDecision → Option DecisionError
  unfolding check_step worker_role_catalog
  validate_supervisor_decision active decision =
      let catalog = worker_role_catalog active roles in
      let planned = map (λ (step : WorkerPlanStep). step.role) decision.plan in
      if not (same_set decision.selected_roles planned)
      then some DecisionError.roles_differ
      else first_error (check_each (check_role catalog) decision.selected_roles)
          (check_each (check_step catalog) decision.plan)
