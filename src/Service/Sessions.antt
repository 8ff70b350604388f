-- ===== src/Service/Sessions.antt =====
-- The transactions inside the methods of src/synode/application/orchestration.py: what each
-- `async with self.database.session()` there does.
use synode.Prelude.{
  String, Bool, true, false, not, ◌&&◌, ◌||◌, Option, none, some, ◌⊹◌, ◌==◌, if◌then◌else◌, ltb,
}
use synode.Domain.{
  RunStatus, ApprovalStatus, OperatorRequestKind, OperatorResponseType, ThreadMessageAuthorType,
  ThreadMessageType, EventType, is_terminal, is_active, is_cancelling, is_cancelled, is_running,
  is_waiting_operator, is_coding, is_plan_only,
}
use synode.Store.{
  Run, Approval, OperatorRequest, Details, Json, Error, M, pure, gets, raise_if, when, find,
  run_key, ◌>>=◌, ◌>>◌,
}
use synode.Repository.{
  require_run, enqueue_run, set_run_status, add_event, add_thread_message, request_run_cancellation,
  decide_approval, reject_pending_approvals, resolve_operator_request,
  cancel_pending_operator_requests, latest_unconsumed_operator_response, count_open_requests,
  count_pending_approvals, create_operator_request, stop_reason_of,
}

-- `start_run`
unfoldable pub queue_for_start : String → M (Unit {0})
queue_for_start id = do
  run ← require_run id
  raise_if (is_terminal run.status) (Error.run_is_terminal id)
  raise_if (is_active run.status) (Error.run_is_active id)
  enqueue_run id

-- `resume_run`
unfoldable pub check_resumable : String → M (Unit {0})
check_resumable id = do
  run ← require_run id
  raise_if (is_terminal run.status) (Error.run_is_terminal id)

unfoldable pub tell_decision : Option Run → Approval → String → M (Unit {0})
tell_decision none approval word = pure tt
tell_decision (some run) approval word =
    add_thread_message run.thread_id ThreadMessageAuthorType.system "approval"
      ThreadMessageType.approval_decision
      ("Approval " ⊹ (word ⊹ (" for " ⊹ (approval.tool_name ⊹ ".")))) (some run.id)

-- `approve`, and the transaction of `reject`
unfoldable pub record_decision : String → ApprovalStatus → String → Option String → M Approval
record_decision id status word reason = do
  approval ← decide_approval id status reason
  run ← gets (λ db. find run_key approval.run_id db.runs)
  tell_decision run approval word
  pure approval

-- `respond_operator_request`
unfoldable pub record_response :
    String → OperatorResponseType → Option String → Json → M OperatorRequest
record_response id response_type message payload =
    resolve_operator_request id (some response_type) message payload

-- `_mark_run_cancelled`, where the run is not terminal
unfoldable pub cancel_now : Run → String → M (Unit {0})
cancel_now run reason = do
  reject_pending_approvals run.id (some reason)
  cancel_pending_operator_requests run.id (some reason)
  set_run_status run.id RunStatus.cancelled (some reason) (some reason)
  add_event run.id EventType.run_cancelled none (Details.reason reason)
  add_thread_message run.thread_id ThreadMessageAuthorType.system "runtime"
      ThreadMessageType.run_report ("Run cancelled: " ⊹ reason) (some run.id)

unfoldable pub mark_run_cancelled : String → String → M (Unit {0})
mark_run_cancelled id reason = do
  run ← require_run id
  when (not (is_terminal run.status)) (cancel_now run reason)

-- The transaction of `stop_run`: whether the run still has to be cancelled by a second one.
unfoldable pub stop_session : String → String → M Bool
stop_session id reason = do
  run ← require_run id
  if is_terminal run.status || is_cancelling run.status
      then pure false
      else if is_running run.status
      then (do request_run_cancellation id reason; pure false)
      else pure true

-- How the first transaction of `execute_run` ends: nothing to do, or the graph is to run, afresh or
-- with the operator's response that it resumes from.
pub data Begun : Type 0 where
  skip : Begun
  start : Option OperatorRequest → Begun

unfoldable pub finish_cancelling : Run → M Begun
finish_cancelling run = do
  set_run_status run.id RunStatus.cancelled (some (stop_reason_of run.error))
      (some (stop_reason_of run.error))
  add_event run.id EventType.run_cancelled none (Details.reason (stop_reason_of run.error))
  pure Begun.skip

unfoldable pub enter_running : String → Option OperatorRequest → M Begun
enter_running id response = do
  set_run_status id RunStatus.running none none
  add_event id EventType.run_started none Details.nothing
  pure (Begun.start response)

-- The run waits for an operator, and no response is there.
unfoldable pub still_waiting : String → M Begun
still_waiting id = do
  requests ← gets (count_open_requests id)
  raise_if (not (ltb 0 requests)) (Error.waiting_for_operator id)
  pure Begun.skip

abbrev pub lacks_response : RunStatus → Option OperatorRequest → Bool
lacks_response s none = is_waiting_operator s
lacks_response s (some q) = false

unfoldable pub begin_execution : String → M Begun
begin_execution id = do
  run ← require_run id
  if is_terminal run.status
      then pure Begun.skip
      else if is_cancelling run.status
      then finish_cancelling run
      else (do
        response ← gets (latest_unconsumed_operator_response id)
        if lacks_response run.status response then still_waiting id else enter_running id response)

-- The state that the graph returns, as far as `execute_run` reads it; `report` is the text of the
-- report that it builds where the verification failed.
pub record Final : Type 0 where
  pub can_proceed : Bool
  pub plan_only : Bool
  pub final_answer : String
  pub report : String

-- `text or default`
abbrev pub text_or : String → String → String
text_or text default = if text == "" then default else text

unfoldable pub say : Run → ThreadMessageAuthorType → String → String → M (Unit {0})
say run author_type author_name content =
    add_thread_message run.thread_id author_type author_name ThreadMessageType.run_report content
      (some run.id)

abbrev pub failed_verification : Run → Final → Bool
failed_verification run final =
    is_coding run.mode
    && not (final.plan_only || is_plan_only run.interaction_mode)
    && not final.can_proceed

-- The last transaction of `execute_run`; `run` is the row that the first one read.
unfoldable pub settle : Run → Final → M (Unit {0})
settle run final = do
  approvals ← gets (count_pending_approvals run.id)
  if ltb 0 approvals
      then (do
        set_run_status run.id RunStatus.waiting_approval (some final.final_answer) none
        say run ThreadMessageAuthorType.system "runtime" "Run is waiting for approval.")
      else if failed_verification run final
      then (do
        set_run_status run.id RunStatus.failed_verification (some final.report) none
        say run ThreadMessageAuthorType.agent "reviewer"
            (text_or final.report "Run failed verification."))
      else (do
        set_run_status run.id RunStatus.completed (some final.final_answer) none
        add_event run.id EventType.run_completed none Details.nothing
        say run ThreadMessageAuthorType.agent "synode"
            (text_or final.final_answer "Run completed."))

-- An interrupt of the graph, taken out of its envelope.
pub record Interrupt : Type 0 where
  pub interrupt_id : String
  pub kind : OperatorRequestKind
  pub prompt : String
  pub context : Json
  pub proposed_payload : Json
  pub node_id : Option String
  pub role : Option String

-- `_record_operator_interrupt`, for an interrupt that names the run and its thread
unfoldable pub record_interrupt : String → Interrupt → M OperatorRequest
record_interrupt id i = do
  run ← require_run id
  create_operator_request i.interrupt_id run.id run.thread_id i.kind
      (text_or i.prompt "Operator input required.") i.context i.proposed_payload i.node_id i.role

-- The handler of `ApprovalRequired`.
unfoldable pub await_approval : String → M (Unit {0})
await_approval id = do
  found ← gets (λ db. find run_key id db.runs)
  approvals ← gets (count_pending_approvals id)
  elim found [
    | none ↦ pure tt
    | some run ↦
        when (not (is_terminal run.status) && ltb 0 approvals)
          (set_run_status id RunStatus.waiting_approval none none)
  ]

-- The handler of the other exceptions, whose text is `message`: whether the exception goes on.
unfoldable pub record_failure : String → String → M Bool
record_failure id message = do
  found ← gets (λ db. find run_key id db.runs)
  elim found [
    | none ↦ (do set_run_status id RunStatus.failed none (some message); pure true)
    | some run ↦ if is_cancelled run.status then pure false else (do
      set_run_status id RunStatus.failed none (some message)
      add_event id EventType.run_failed none (Details.error message)
      say run ThreadMessageAuthorType.system "runtime" ("Run failed: " ⊹ message)
      pure true)
  ]
