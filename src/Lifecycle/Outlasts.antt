-- ===== src/Lifecycle/Outlasts.antt =====
-- Histories, and what they carry on.
use synode.Prelude.{
  all, any, Bool-cases, inl, inr, ℕ, String, Bool, true, false, not, ◌≡◌, refl, Option, List, [],
  ◌∷◌, arith,
}
use synode.Domain.{RunStatus, ApprovalStatus, is_pending}
use synode.Store.{Run, Approval, Db, update, run_key, approval_key, Keeps, Keeps-modify}
use synode.Repository.{
  write_run, set_run_status, enqueue_run, require_approval, write_approval, decide_approval,
  recover_stale_runs, requeue_one, cancel_stale,
}
use synode.Service.{Session, perform, replay, queue_for_start, record_decision}
use synode.Lifecycle.Invariant.{after-Keeps}
use synode.Lifecycle.Onward.{Carries, OnRows, base_rules}
use synode.Lifecycle.Carried.{
  tell_decision_on, record_decision_on, record_response_on, cancel_operator_request_on,
  mark_run_cancelled_on, stop_session_on, claim_queued_run_on, heartbeat_run_on, begin_execution_on,
  settle_on, record_failure_on, await_approval_on, create_approval_on, record_interrupt_on,
  consumed_on, create_run_on,
}

-- The transactions that can put a run back into the queue.
abbrev pub puts_back : Session → Bool
puts_back (Session.queues id) = true
puts_back (Session.recovers before) = true
puts_back _ = false

-- Where it is a decision on an approval, it is no return to pending. The service decides by
-- `approved` and `rejected` alone.
abbrev pub is_decisive : Session → Bool
is_decisive (Session.decides id status word reason) = not (is_pending status)
is_decisive _ = true

-- Any write to a run row may be made.
abbrev pub Requeues : (List Run → List Approval → Type 0) → Type 0
Requeues K =
    (id : String) (f : Run → Run) (rows : List Run) (approvals : List Approval)
    → K rows approvals
    → K (update run_key id f rows) approvals

-- Any write to an approval may be made.
abbrev pub Reopens : (List Run → List Approval → Type 0) → Type 0
Reopens K =
    (id : String) (f : Approval → Approval) (rows : List Run) (approvals : List Approval)
    → K rows approvals
    → K rows (update approval_key id f approvals)

module _ (K : List Run → List Approval → Type 0) (c : Carries K) where
  abbrev Still : Db → Type 0
  Still = OnRows K c

  module _ (free : Requeues K) where
    any_write_on : (id : String) (f : ℕ → Run → Run) → Keeps Still (write_run id f)
    unfolding write_run
    any_write_on id f = Keeps-modify _ (λ db h. free id (f db.now) db.runs db.approvals h)

    any_status_on :
        (id : String) (s : RunStatus) (answer error : Option String)
        → Keeps Still (set_run_status id s answer error)
    unfolding set_run_status
    any_status_on id s answer error = search (base_rules, any_write_on)

    enqueue_run_on : (id : String) → Keeps Still (enqueue_run id)
    unfolding enqueue_run
    enqueue_run_on id = search (base_rules, any_status_on) depth 16

    queue_for_start_on : (id : String) → Keeps Still (queue_for_start id)
    unfolding queue_for_start
    queue_for_start_on id = search (base_rules, enqueue_run_on)

    requeue_one_on : (run : Run) → Keeps Still (requeue_one run)
    unfolding requeue_one
    requeue_one_on run = search (base_rules, any_write_on)

    cancel_stale_on : (run : Run) → Keeps Still (cancel_stale run)
    unfolding cancel_stale
    cancel_stale_on run = search (base_rules, any_write_on, any_status_on)

    recover_stale_runs_on : (before : ℕ) → Keeps Still (recover_stale_runs before)
    unfolding recover_stale_runs
    recover_stale_runs_on before = search (base_rules, requeue_one_on, cancel_stale_on) depth 12

  module _ (free : Reopens K) where
    any_decision_on :
        (id : String) (f : ℕ → Approval → Approval) → Keeps Still (write_approval id f)
    unfolding write_approval
    any_decision_on id f = Keeps-modify _ (λ db h. free id (f db.now) db.runs db.approvals h)

    record_any_on :
        (id : String) (status : ApprovalStatus) (word : String) (reason : Option String)
        → Keeps Still (record_decision id status word reason)
    unfolding record_decision decide_approval require_approval
    record_any_on id status word reason =
        search (base_rules, any_decision_on, tell_decision_on) depth 16

  perform_on :
      (s : Session) (db : Db)
      → (is_decisive s ≡ false → Reopens K)
      → (puts_back s ≡ true → Requeues K)
      → Still db
      → Still (perform db s)
  unfolding perform
  perform_on (Session.creates _ _ _ _ _ _ _ _ _) db d q h =
      after-Keeps _ _ db (create_run_on K c _ _ _ _ _ _ _ _ _) h
  perform_on (Session.queues id) db d q h = after-Keeps _ _ db (queue_for_start_on (q refl) id) h
  perform_on (Session.decides id status word reason) db d q h =
      elim (Bool-cases (is_pending status)) [
        | inl e ↦ after-Keeps _ _ db (record_any_on (d (rw e refl)) id status word reason) h
        | inr e ↦ after-Keeps _ _ db (record_decision_on K c id status word reason e) h
      ]
  perform_on (Session.responds id type message payload) db d q h =
      after-Keeps _ _ db (record_response_on K c _ _ _ _) h
  perform_on (Session.cancels_request id reason) db d q h =
      after-Keeps _ _ db (cancel_operator_request_on K c _ _) h
  perform_on (Session.marks_cancelled id reason) db d q h =
      after-Keeps _ _ db (mark_run_cancelled_on K c _ _) h
  perform_on (Session.stops id reason) db d q h = after-Keeps _ _ db (stop_session_on K c _ _) h
  perform_on (Session.claims id worker) db d q h =
      after-Keeps _ _ db (claim_queued_run_on K c _ _) h
  perform_on (Session.beats id worker) db d q h = after-Keeps _ _ db (heartbeat_run_on K c _ _) h
  perform_on (Session.fails id message) db d q h = after-Keeps _ _ db (record_failure_on K c _ _) h
  perform_on (Session.recovers before) db d q h =
      after-Keeps _ _ db (recover_stale_runs_on (q refl) before) h
  perform_on (Session.begins id) db d q h = after-Keeps _ _ db (begin_execution_on K c _) h
  perform_on (Session.awaits id) db d q h = after-Keeps _ _ db (await_approval_on K c _) h
  perform_on (Session.consumes id) db d q h = after-Keeps _ _ db (consumed_on K c _) h
  perform_on (Session.settles run final) db d q h = after-Keeps _ _ db (settle_on K c _ _) h
  perform_on (Session.interrupts id i) db d q h = after-Keeps _ _ db (record_interrupt_on K c _ _) h
  perform_on (Session.asks_approval _ _ _ _ _ _) db d q h =
      after-Keeps _ _ db (create_approval_on K c _ _ _ _ _ _) h
  perform_on (Session.waits n) db d q h = h

  -- A history carries on what holds: one that puts runs back into the queue, what outlasts any write
  -- to a run; one that returns approvals to pending, what outlasts any write to an approval.
  pub replay_on :
      (history : List Session) (db : Db)
      → (all is_decisive history ≡ false → Reopens K)
      → (any puts_back history ≡ true → Requeues K)
      → Still db
      → Still (replay db history)
  unfolding replay
  replay_on [] db d q h = h
  replay_on (s ∷ rest) db d q h =
      replay_on rest (perform db s) (λ e. d (rw e (ground arith))) (λ e. q (ground (arith, e)))
        (perform_on s db (λ e. d (rw e refl)) (λ e. q (ground (arith, e))) h)
