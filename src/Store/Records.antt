-- ===== src/Store/Records.antt =====
-- The rows of src/synode/infrastructure/persistence/models.py that the run life cycle reads and
-- writes, and the database as the tables of those rows. A table is in insertion order, which
-- `created_at` and the autoincremented ids follow. A JSON value is its canonical text. A timestamp
-- is a number, and `now` is what the clock shows during one transaction.
use synode.Prelude.{ℕ, String, Option, List}
use synode.Domain.{
  RunStatus, RunMode, InteractionMode, ThreadStatus, ThreadMessageAuthorType, ThreadMessageType,
  ApprovalStatus, OperatorRequestKind, OperatorRequestStatus, OperatorResponseType, ToolRisk,
  EventType,
}

abbrev pub Json : Type 0
Json = String

pub record Thread : Type 0 where
  pub id : String
  pub title : String
  pub status : ThreadStatus
  pub updated_at : ℕ

-- Without the model profiles, the graph snapshot and the trace id, which the life cycle only copies.
pub record Run : Type 0 where
  pub id : String
  pub thread_id : String
  pub status : RunStatus
  pub mode : RunMode
  pub interaction_mode : InteractionMode
  pub task : String
  pub workspace : Option String
  pub model_provider : String
  pub final_answer : Option String
  pub error : Option String
  pub worker_id : Option String
  pub queued_at : Option ℕ
  pub started_at : Option ℕ
  pub completed_at : Option ℕ
  pub heartbeat_at : Option ℕ
  pub created_at : ℕ
  pub updated_at : ℕ

-- Without its metadata.
pub record Message : Type 0 where
  pub thread_id : String
  pub run_id : Option String
  pub author_type : ThreadMessageAuthorType
  pub author_name : String
  pub message_type : ThreadMessageType
  pub content : String

-- The payload of an event, by what it holds.
pub data Details : Type 0 where
  nothing : Details
  task reason stale_reason error : String → Details
  approval_wanted : String → String → String → Details
  approval_outcome : String → ApprovalStatus → Option String → Details
  operator_wanted : String → OperatorRequestKind → Option String → Option String → Details
  operator_outcome : String → OperatorRequestKind → Option OperatorResponseType → Details
  operator_dropped : String → OperatorRequestKind → Option String → Details
  tool : String → ToolRisk → String → Option String → Details

pub record Event : Type 0 where
  pub run_id : String
  pub event_type : EventType
  pub role : Option String
  pub payload : Details

-- The payload of an approval: what the tool gateway writes, or that of an external runtime.
pub data ApprovalPayload : Type 0 where
  tool_call : String → Json → ApprovalPayload
  external : Json → ApprovalPayload

pub record Approval : Type 0 where
  pub id : String
  pub run_id : String
  pub tool_name : String
  pub action : ToolRisk
  pub reason : String
  pub payload : ApprovalPayload
  pub status : ApprovalStatus
  pub decision_reason : Option String
  pub decided_at : Option ℕ

-- What an operator sends back: the type of the response, its message and its payload; or the
-- reason that a cancellation leaves there.
pub data Response : Type 0 where
  no_response : Response
  answered : Option OperatorResponseType → Option String → Json → Response
  dropped : String → Response

pub record OperatorRequest : Type 0 where
  pub id : String
  pub run_id : String
  pub thread_id : String
  pub node_id : Option String
  pub role : Option String
  pub kind : OperatorRequestKind
  pub prompt : String
  pub context : Json
  pub proposed_payload : Json
  pub status : OperatorRequestStatus
  pub response_payload : Response
  pub resolved_at : Option ℕ
  pub cancelled_at : Option ℕ
  pub consumed_at : Option ℕ

pub record ToolAudit : Type 0 where
  pub run_id : String
  pub role : String
  pub tool_name : String
  pub risk : ToolRisk
  pub status : String
  pub approval_id : Option String

pub record Db : Type 0 where
  pub now : ℕ
  pub threads : List Thread
  pub runs : List Run
  pub messages : List Message
  pub events : List Event
  pub approvals : List Approval
  pub requests : List OperatorRequest
  pub audits : List ToolAudit

abbrev pub run_key : Run → String
run_key r = r.id

abbrev pub thread_key : Thread → String
thread_key t = t.id

abbrev pub approval_key : Approval → String
approval_key a = a.id

abbrev pub request_key : OperatorRequest → String
request_key q = q.id
