-- ===== src/Service.antt =====
-- The orchestration service of src/synode/application/orchestration.py: the transactions of its
-- methods, the methods as sequences of them, and histories of transactions.
mod Methods
mod Sessions
mod Control
mod History
pub use Methods.{World, Transport, Method, done, throw, transact, ◌>>=◌, ◌>>◌}
unfoldable pub use Sessions.{
  queue_for_start, check_resumable, tell_decision, record_decision, record_response, cancel_now,
  mark_run_cancelled, stop_session, finish_cancelling, enter_running, still_waiting,
  begin_execution, say, settle, record_interrupt, await_approval, record_failure,
}
pub use Sessions.{Begun, Final, Interrupt, failed_verification, text_or, lacks_response}
unfoldable pub use Control.{
  start_run, resume_run, approve, cancel_run, reject, respond_operator_request,
  cancel_operator_request, stop_run, claim_run, heartbeat, recover,
}
pub use History.{Session, after, later}
unfoldable pub use History.{perform, replay}
