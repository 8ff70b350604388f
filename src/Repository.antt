-- ===== src/Repository.antt =====
-- src/synode/infrastructure/persistence/repository.py, by the tables that its methods write.
mod Threads
mod Runs
mod Approvals
mod Requests
mod Recovery
unfoldable pub use Threads.{
  split, join_words, take_chars, thread_title, require_thread, write_thread, insert_thread,
  create_thread, update_thread_title, archive_thread, touch_thread, add_thread_message, add_event,
}
unfoldable pub use Runs.{
  thread_for_run, insert_run, new_run, claim_found, require_run, write_run, create_run, stamp,
  with_status, set_run_status, count_pending_approvals, count_open_requests, refuses_queue,
  enqueue_run, claimed, queued_run, claim_queued_run, heartbeat_run, request_run_cancellation,
}
unfoldable pub use Approvals.{
  insert_approval, announce_approval, reject_one, require_approval, write_approval, create_approval,
  decided, decide_approval, pending_approvals, reject_pending_approvals,
}
unfoldable pub use Requests.{
  insert_request, response_word, cancel_one, require_request, write_request,
  create_operator_request, resolve_operator_request, request_cancelled, cancel_operator_request,
  open_requests, cancel_pending_operator_requests, latest_unconsumed_operator_response,
  mark_operator_request_consumed,
}
unfoldable pub use Recovery.{
  requeue_one, cancel_stale, is_stale, requeued, stop_reason_of, recover_stale_runs,
  count_stale_running_runs,
}
pub use Recovery.{Recovered}
pub mod Titles
pub mod Examples
