-- ===== src/Lifecycle/Examples.antt =====
-- Runs of the life cycle on a small database, and the life cycle's theorems at them.
use synode.Prelude.{true, ◌≡◌, refl, none, some, List, [], ◌∷◌}
use synode.Domain.{
  RunStatus, RunMode, InteractionMode, ApprovalStatus, OperatorRequestKind, OperatorRequestStatus,
  ToolRisk, is_terminal,
}
use synode.Store.{
  for_each, Approval, ApprovalPayload, OperatorRequest, Response, Db, ok, err, Error, find, update,
  run_key, Returns, ◌>>=◌,
}
use synode.Repository.{
  recover_stale_runs, is_stale, claim_queued_run, claim_found, queued_run, claimed, write_run,
  touch_thread, write_thread, require_thread, decide_approval, require_approval, write_approval,
  decided, add_event,
}
use synode.Service.{Session, replay, after, mark_run_cancelled}
use synode.Samples.{empty_db, thread_row, run_with}
use synode.Lifecycle.Fresh.{recover_stale_runs-fresh}
use synode.Lifecycle.Preserved.{AllConsistent}
use synode.Lifecycle.Invariant.{replay-AllConsistent}
use synode.Lifecycle.Ended.{replay-ended}
use synode.Lifecycle.Once.{Owned, claim_queued_run-once, decide_approval-once}
use synode.Lifecycle.Cancelled.{IsCancelled, mark_run_cancelled-IsCancelled}

abbrev approval_row : Approval
approval_row = record {
  id = "a";
  run_id = "r";
  tool_name = "native.shell";
  action = ToolRisk.write;
  reason = "runs a command";
  payload = ApprovalPayload.external "{}";
  status = ApprovalStatus.pending;
  decision_reason = none;
  decided_at = none;
}

abbrev request_row : OperatorRequest
request_row = record {
  id = "q";
  run_id = "r";
  thread_id = "t";
  node_id = none;
  role = none;
  kind = OperatorRequestKind.ambiguity;
  prompt = "Which?";
  context = "{}";
  proposed_payload = "{}";
  status = OperatorRequestStatus.pending;
  response_payload = Response.no_response;
  resolved_at = none;
  cancelled_at = none;
  consumed_at = none;
}

abbrev db_with : RunStatus → Db
db_with status = record empty_db {
  threads = thread_row ∷ [];
  runs = run_with status ∷ [];
  approvals = approval_row ∷ [];
  requests = request_row ∷ [];
}

abbrev history : List Session
history =
    Session.creates "t" "r" "Fix it" "fake" none RunMode.coding InteractionMode.auto none true
    ∷ Session.queues "r"
    ∷ Session.claims "r" "w"
    ∷ Session.begins "r"
    ∷ Session.waits 30
    ∷ Session.recovers 20
    ∷ Session.claims "r" "v"
    ∷ Session.stops "r" "enough"
    ∷ Session.begins "r"
    ∷ []

replay-AllConsistent_example : AllConsistent (replay empty_db history).runs
replay-AllConsistent_example = replay-AllConsistent history empty_db (tt, tt)

abbrev late_history : List Session
late_history =
    Session.queues "r"
    ∷ Session.claims "r" "w"
    ∷ Session.stops "r" "enough"
    ∷ Session.marks_cancelled "r" "enough"
    ∷ []

replay-ended_example :
    find run_key "r" (replay (db_with RunStatus.completed) late_history).runs
    ≡ some (run_with RunStatus.completed)
unfolding find is_terminal
replay-ended_example =
    replay-ended late_history (db_with RunStatus.completed) "r" (run_with RunStatus.completed) refl
      refl refl

abbrev claimed_db : Db
claimed_db = record (db_with RunStatus.queued) {
  threads = record thread_row { updated_at = 10 } ∷ [];
  runs = claimed "w" 10 (run_with RunStatus.queued) ∷ [];
}

-- Other workers' claims and heartbeats, time, and an execution that fails.
abbrev executing : List Session
executing =
    Session.claims "r" "v"
    ∷ Session.beats "r" "w"
    ∷ Session.waits 30
    ∷ Session.begins "r"
    ∷ Session.fails "r" "no model"
    ∷ []

claim_queued_run-once_example :
    Owned "r" "w" claimed_db.runs
    × (claim_queued_run "r" "v" (replay claimed_db executing)
        ≡ ok (none, replay claimed_db executing))
unfolding claim_queued_run claim_found queued_run write_run touch_thread write_thread require_thread
    find update ◌>>=◌
claim_queued_run-once_example =
    claim_queued_run-once "r" "w" "v" (db_with RunStatus.queued) claimed_db
      (claimed "w" 10 (run_with RunStatus.queued)) executing refl refl

abbrev decided_row : Approval
decided_row = decided ApprovalStatus.approved none 10 approval_row

abbrev decided_db : Db
decided_db =
    after (db_with RunStatus.waiting_approval)
      (decide_approval "a" ApprovalStatus.approved none (db_with RunStatus.waiting_approval))

-- The run goes on and is stopped, which rejects the approvals that are pending.
abbrev resumed : List Session
resumed =
    Session.queues "r"
    ∷ Session.claims "r" "w"
    ∷ Session.decides "a" ApprovalStatus.rejected "rejected" none
    ∷ Session.marks_cancelled "r" "stop"
    ∷ []

decide_approval-once_example :
    decide_approval "a" ApprovalStatus.rejected none (replay decided_db resumed)
    ≡ err (Error.approval_already_decided "a")
unfolding decide_approval require_approval write_approval add_event find update ◌>>=◌
decide_approval-once_example =
    decide_approval-once "a" ApprovalStatus.approved ApprovalStatus.rejected none none
      (db_with RunStatus.waiting_approval) decided_db decided_row resumed refl refl refl

mark_run_cancelled-IsCancelled_example :
    Returns
      (λ _. IsCancelled "r")
      (mark_run_cancelled "r" "stop" (db_with RunStatus.waiting_operator))
unfolding find is_terminal
mark_run_cancelled-IsCancelled_example =
    mark_run_cancelled-IsCancelled "r" "stop" (db_with RunStatus.waiting_operator)
      (run_with RunStatus.waiting_operator) thread_row refl refl refl (refl, tt) (refl, tt)

abbrev recovered_db : Db
recovered_db = after (db_with RunStatus.queued) (recover_stale_runs 5 (db_with RunStatus.queued))

recover_stale_runs-fresh_example :
    find run_key "r" recovered_db.runs ≡ some (run_with RunStatus.queued)
unfolding recover_stale_runs find is_stale for_each ◌>>=◌
recover_stale_runs-fresh_example =
    recover_stale_runs-fresh 5 (db_with RunStatus.queued) recovered_db
      (record { requeued_run_ids = []; cancelled_run_ids = [] }) (run_with RunStatus.queued)
      (refl, tt) refl refl refl
