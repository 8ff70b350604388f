-- ===== src/Service/Control.antt =====
-- The methods by which an operator or a worker steers runs, of
-- src/synode/application/orchestration.py. Log lines, the metadata of messages and the calls of the
-- external runtime, whose errors are dropped, are left out. `_run_tasks` stays empty, since nothing
-- adds to it.
use synode.Prelude.{ℕ, String, Bool, true, false, Option, none, some, ◌⊹◌, ◌-◌, ◌==◌, if◌then◌else◌}
use synode.Domain.{ApprovalStatus, OperatorResponseType}
use synode.Store.{Run, Json}
use synode.Repository.{
  claim_queued_run, heartbeat_run, cancel_operator_request as cancel_request, recover_stale_runs,
  Recovered,
}
use synode.Service.Methods.{Transport, Method, done, transact, enqueue, ◌>>=◌, ◌>>◌}
use synode.Service.Sessions.{
  queue_for_start, check_resumable, record_decision, record_response, mark_run_cancelled,
  stop_session,
}

-- `reason or default`
abbrev pub reason_or : Option String → String → String
reason_or none default = default
reason_or (some reason) default = if reason == "" then default else reason

abbrev is_reject : OperatorResponseType → Bool
is_reject OperatorResponseType.reject = true
is_reject _ = false

module _ {Q : Type 0} where
  unfoldable pub start_run : Transport Q → String → Method Q (Unit {0})
  unfolding queue_for_start
  start_run transport id = do transact (queue_for_start id); enqueue transport id

  unfoldable pub resume_run : Transport Q → String → Method Q (Unit {0})
  unfolding check_resumable start_run
  resume_run transport id = do transact (check_resumable id); start_run transport id

  unfoldable pub approve : String → Option String → Method Q (Unit {0})
  unfolding record_decision
  approve id reason = do
    transact (record_decision id ApprovalStatus.approved "approved" reason)
    done tt

  unfoldable pub cancel_run : String → String → Method Q (Unit {0})
  unfolding mark_run_cancelled
  cancel_run id reason = transact (mark_run_cancelled id reason)

  unfoldable pub reject : String → Option String → Method Q (Unit {0})
  unfolding record_decision cancel_run
  reject id reason = do
    approval ← transact (record_decision id ApprovalStatus.rejected "rejected" reason)
    cancel_run approval.run_id ("Approval rejected for " ⊹ (approval.tool_name ⊹ "."))

  unfoldable pub respond_operator_request :
      Transport Q → String → OperatorResponseType → Option String → Json → Method Q (Unit {0})
  unfolding record_response start_run cancel_run
  respond_operator_request transport id response_type message payload = do
    request ← transact (record_response id response_type message payload)
    if is_reject response_type
        then cancel_run request.run_id (reason_or message "Operator rejected the run.")
        else start_run transport request.run_id

  unfoldable pub cancel_operator_request : String → Option String → Method Q (Unit {0})
  unfolding cancel_run
  cancel_operator_request id reason = do
    request ← transact (cancel_request id reason)
    cancel_run request.run_id (reason_or reason "Operator request cancelled.")

  unfoldable pub stop_run : String → Option String → Method Q (Unit {0})
  unfolding stop_session cancel_run
  stop_run id reason = do
    cancels ← transact (stop_session id (reason_or reason "Run stopped by user."))
    if cancels then cancel_run id (reason_or reason "Run stopped by user.") else done tt

  unfoldable pub claim_run : String → String → Method Q (Option Run)
  unfolding claim_queued_run
  claim_run id worker = transact (claim_queued_run id worker)

  unfoldable pub heartbeat : String → String → Method Q (Unit {0})
  unfolding heartbeat_run
  heartbeat id worker = transact (heartbeat_run id worker)

  -- `after` is `worker_stale_after_seconds`.
  unfoldable pub recover : ℕ → Method Q Recovered
  unfolding recover_stale_runs
  recover after w = transact (recover_stale_runs (w.db.now - after)) w
