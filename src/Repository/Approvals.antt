-- ===== src/Repository/Approvals.antt =====
-- The approvals of src/synode/infrastructure/persistence/repository.py: creation, one decision, and
-- the rejection of all that are pending for a run.
use synode.Prelude.{
  is_some, ℕ, String, not, ◌&&◌, Option, none, some, List, [], ◌∷◌, ◌++◌, ◌==◌, ◌⊹◌, keep_if,
}
use synode.Domain.{
  RunStatus, ThreadMessageAuthorType, ThreadMessageType, EventType, ApprovalStatus, ToolRisk,
  is_pending,
}
use synode.Store.{
  Approval, ApprovalPayload, Details, Db, Error, M, pure, gets, or_raise, modify, raise_if, ◌>>=◌,
  ◌>>◌, find, update, for_each, approval_key, run_key, Run,
}
use synode.Repository.Threads.{add_thread_message, add_event}
use synode.Repository.Runs.{set_run_status}

unfoldable pub require_approval : String → M Approval
require_approval id = do
  found ← gets (λ db. find approval_key id db.approvals)
  or_raise found (Error.approval_not_found id)

unfoldable pub write_approval : String → (ℕ → Approval → Approval) → M (Unit {0})
write_approval id f =
    modify (λ db. record db { approvals = update approval_key id (f db.now) db.approvals })

-- The message of `create_approval`, where the run still exists.
unfoldable pub announce_approval : Option Run → String → String → String → M (Unit {0})
announce_approval none run_id tool_name reason = pure tt
announce_approval (some run) run_id tool_name reason =
    add_thread_message run.thread_id ThreadMessageAuthorType.system "approval"
      ThreadMessageType.approval_request ("Approval required for " ⊹ (tool_name ⊹ (": " ⊹ reason)))
      (some run_id)

-- A second row with one primary key is refused by the database.
unfoldable pub insert_approval : Approval → M (Unit {0})
insert_approval a = do
  taken ← gets (λ db. is_some (find approval_key a.id db.approvals))
  raise_if taken (Error.duplicate_key a.id)
  modify (λ db. record db { approvals = db.approvals ++ a ∷ [] })

-- `id` is what `new_id()` returned.
unfoldable pub create_approval :
    String → String → String → ToolRisk → String → ApprovalPayload → M Approval
create_approval id run_id tool_name action reason payload = do
  let approval : Approval = record {
    id = id;
    run_id = run_id;
    tool_name = tool_name;
    action = action;
    reason = reason;
    payload = payload;
    status = ApprovalStatus.pending;
    decision_reason = none;
    decided_at = none;
  }
  insert_approval approval
  set_run_status run_id RunStatus.waiting_approval none none
  add_event run_id EventType.approval_required none (Details.approval_wanted id tool_name reason)
  run ← gets (λ db. find run_key run_id db.runs)
  announce_approval run run_id tool_name reason
  pure approval

unfoldable pub decided : ApprovalStatus → Option String → ℕ → Approval → Approval
decided status reason now a = record a {
  status = status;
  decision_reason = reason;
  decided_at = some now;
}

unfoldable pub decide_approval : String → ApprovalStatus → Option String → M Approval
decide_approval id status reason = do
  approval ← require_approval id
  raise_if (not (is_pending approval.status)) (Error.approval_already_decided id)
  write_approval id (decided status reason)
  add_event approval.run_id EventType.approval_decided none
      (Details.approval_outcome approval.id status reason)
  now ← gets (λ db. db.now)
  pure (decided status reason now approval)

-- The pending approvals of a run, in the order of their creation.
unfoldable pub pending_approvals : String → Db → List Approval
pending_approvals run_id db = keep_if (λ a. a.run_id == run_id && is_pending a.status) db.approvals

unfoldable pub reject_one : Option String → Approval → M (Unit {0})
reject_one reason approval = do
  write_approval approval.id (decided ApprovalStatus.rejected reason)
  add_event approval.run_id EventType.approval_decided none
      (Details.approval_outcome approval.id ApprovalStatus.rejected reason)

unfoldable pub reject_pending_approvals : String → Option String → M (Unit {0})
reject_pending_approvals run_id reason = do
  approvals ← gets (pending_approvals run_id)
  for_each approvals (reject_one reason)
