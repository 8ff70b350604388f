-- ===== src/Domain.antt =====
-- The enumerations of src/synode/domain/models.py, and the sets of run statuses that
-- src/synode/application/orchestration.py and src/synode/infrastructure/persistence/repository.py
-- test for. A `StrEnum` member is a constructor; the text of its value is not needed, since the
-- code only compares values of one enumeration with one another.
use synode.Prelude.{Bool, true, false}

pub data RunStatus : Type 0 where
  created queued running waiting_approval waiting_operator cancelling : RunStatus
  completed failed failed_verification cancelled : RunStatus

pub data RunMode : Type 0 where
  general coding : RunMode

pub data InteractionMode : Type 0 where
  auto plan_review plan_only : InteractionMode

pub data ThreadStatus : Type 0 where
  active archived : ThreadStatus

pub data ThreadMessageAuthorType : Type 0 where
  user agent system : ThreadMessageAuthorType

pub data ThreadMessageType : Type 0 where
  text run_summary run_report approval_request approval_decision : ThreadMessageType
  operator_request operator_decision final : ThreadMessageType

pub data ApprovalStatus : Type 0 where
  pending approved rejected : ApprovalStatus

pub data OperatorRequestKind : Type 0 where
  plan_review ambiguity state_edit : OperatorRequestKind

pub data OperatorRequestStatus : Type 0 where
  pending resolved cancelled : OperatorRequestStatus

pub data OperatorResponseType : Type 0 where
  approve edit reject respond : OperatorResponseType

pub data ToolRisk : Type 0 where
  read write network destructive : ToolRisk

-- The event types that the modelled operations record.
pub data EventType : Type 0 where
  run_created run_queued run_started tool_started tool_completed : EventType
  approval_required approval_decided : EventType
  operator_required operator_decided operator_cancelled : EventType
  run_cancelling run_completed run_failed run_cancelled : EventType

-- `status in TERMINAL_RUN_STATUSES`
unfoldable pub is_terminal : RunStatus → Bool
is_terminal RunStatus.completed = true
is_terminal RunStatus.failed = true
is_terminal RunStatus.failed_verification = true
is_terminal RunStatus.cancelled = true
is_terminal _ = false

-- `status in {RUNNING, CANCELLING}`
unfoldable pub is_active : RunStatus → Bool
is_active RunStatus.running = true
is_active RunStatus.cancelling = true
is_active _ = false

abbrev pub is_queued : RunStatus → Bool
is_queued RunStatus.queued = true
is_queued _ = false

abbrev pub is_running : RunStatus → Bool
is_running RunStatus.running = true
is_running _ = false

abbrev pub is_cancelling : RunStatus → Bool
is_cancelling RunStatus.cancelling = true
is_cancelling _ = false

abbrev pub is_cancelled : RunStatus → Bool
is_cancelled RunStatus.cancelled = true
is_cancelled _ = false

abbrev pub is_waiting_approval : RunStatus → Bool
is_waiting_approval RunStatus.waiting_approval = true
is_waiting_approval _ = false

abbrev pub is_waiting_operator : RunStatus → Bool
is_waiting_operator RunStatus.waiting_operator = true
is_waiting_operator _ = false

abbrev pub is_pending : ApprovalStatus → Bool
is_pending ApprovalStatus.pending = true
is_pending _ = false

abbrev pub is_approved : ApprovalStatus → Bool
is_approved ApprovalStatus.approved = true
is_approved _ = false

abbrev pub is_open : OperatorRequestStatus → Bool
is_open OperatorRequestStatus.pending = true
is_open _ = false

abbrev pub is_resolved : OperatorRequestStatus → Bool
is_resolved OperatorRequestStatus.resolved = true
is_resolved _ = false

abbrev pub is_coding : RunMode → Bool
is_coding RunMode.coding = true
is_coding RunMode.general = false

abbrev pub is_plan_only : InteractionMode → Bool
is_plan_only InteractionMode.plan_only = true
is_plan_only _ = false
