-- ===== src/Lifecycle/Preserved.antt =====
-- Every transaction keeps the run rows consistent and their keys distinct.
use synode.Prelude.{ℕ, String, true, false, ◌≡◌, refl, Option, none, some, List, All, arith}
use synode.Domain.{RunStatus, is_running, is_queued}
use synode.Store.{
  Run, Approval, ApprovalPayload, OperatorRequest, Details, Json, Db, Error, M, pure, raise, gets,
  modify, raise_if, when, ◌>>=◌, ◌>>◌, find, update, run_key, Triple, Keeps, Commits, Keeps-bind,
  Triple-bind, Triple-given, Keeps-modify, Keeps-raise_if, raise_if_rule, Keeps-gets, Keeps-pure,
  All-update_any, Keeps-for_each, Keeps-when, Keeps-if, Triple-when, Triple-if, then_rule,
  keeps_rules, Unique, Unique-update, Unique-append,
}
use synode.Repository.{
  enqueue_run, set_run_status, with_status, claim_queued_run, claim_found, heartbeat_run,
  request_run_cancellation, claimed, require_run, refuses_queue,
}
use synode.Service.{queue_for_start, stop_session, mark_run_cancelled, cancel_now}
use synode.Lifecycle.Frames.{
  Writable, OnRuns, OnFound, require_run_rule, require_run_frame, write_run_frame, write_run_rule,
  set_run_status_rule, set_run_status_then, set_run_status_frame, Writable-All, touch_thread_frame,
  add_event_frame, add_thread_message_frame, reject_pending_approvals_frame,
  cancel_pending_operator_requests_frame,
}
use synode.Lifecycle.Consistent.{
  IsConsistent, is_open_ended, queued-IsConsistent, running-IsConsistent, stopped-IsConsistent,
  claimed-IsConsistent, beat-IsConsistent, cancelling-IsConsistent,
}

abbrev pub AllConsistent : List Run → Type 0
AllConsistent rows = All IsConsistent rows × Unique run_key rows

-- A write that keeps the key of its row, and keeps it consistent.
pub Writable-AllConsistent :
    (id : String) (run : Run) (f : ℕ → Run → Run)
    → ((now : ℕ) (r : Run) → run_key (f now r) ≡ run_key r)
    → ((now : ℕ) → IsConsistent run → IsConsistent (f now run))
    → Writable AllConsistent id run f
Writable-AllConsistent id run f same keep now rows found h = (
  Writable-All IsConsistent id run f keep now rows found h.0,
  Unique-update run_key id (f now) (same now) rows h.1,
)

pub with_status_key :
    (status : RunStatus) (answer error : Option String) (now : ℕ) (r : Run)
    → run_key (with_status status answer error now r) ≡ run_key r
unfolding with_status
with_status_key status answer error now r = ground arith

module _ (id : String) (run : Run) where
  abbrev pub Found : Db → Type 0
  Found = OnFound AllConsistent id run

  queued-Writable :
      refuses_queue run.status ≡ false
      → is_queued run.status ≡ false
      → Writable AllConsistent id run (with_status RunStatus.queued none none)
  queued-Writable g q =
      Writable-AllConsistent id run _ (with_status_key _ _ _)
        (λ now h. queued-IsConsistent run now h g q)

  pub stopped-Writable :
      (status : RunStatus) (answer error : Option String)
      → is_open_ended status ≡ false
      → Writable AllConsistent id run (with_status status answer error)
  stopped-Writable status answer error e =
      Writable-AllConsistent id run _ (with_status_key _ _ _)
        (λ now h. stopped-IsConsistent run now h status answer error e)

  pub running-Writable : Writable AllConsistent id run (with_status RunStatus.running none none)
  running-Writable =
      Writable-AllConsistent id run _ (with_status_key _ _ _)
        (λ now h. running-IsConsistent run now h)

abbrev pub Good : Db → Type 0
Good = OnRuns AllConsistent

pub ruleset good_rules =
    (keeps_rules, touch_thread_frame, add_event_frame, add_thread_message_frame)

-- A status that is neither active nor open-ended may be set at any time.
pub stop-Keeps :
    (id : String) (status : RunStatus) (answer error : Option String)
    → is_open_ended status ≡ false
    → Keeps Good (set_run_status id status answer error)
stop-Keeps id status answer error e =
    set_run_status_frame AllConsistent id status answer error
      (λ run. stopped-Writable id run status answer error e)

pub enqueue_run-Keeps : (id : String) → Keeps Good (enqueue_run id)
unfolding enqueue_run
enqueue_run-Keeps id =
    Triple-bind (OnFound AllConsistent id) (λ _. Good) (require_run id) _
      (require_run_rule AllConsistent id)
      λ run. raise_if_rule _ _ _ _ λ accepted. then_rule _ _ _ (Keeps-gets _) λ approvals.
        then_rule _ _ _ (Keeps-raise_if _ _) λ _. then_rule _ _ _ (Keeps-gets _) λ requests.
          then_rule _ _ _ (Keeps-raise_if _ _) λ _.
            Triple-when Good _ _ (λ db h. h.0)
              λ fresh.
                set_run_status_then AllConsistent id run _ _ _ _
                  (queued-Writable id run accepted (ground arith))
                  (add_event_frame AllConsistent id _ _ _)

pub queue_for_start-Keeps : (id : String) → Keeps Good (queue_for_start id)
unfolding queue_for_start
queue_for_start-Keeps id = search (good_rules, require_run_frame, enqueue_run-Keeps)

claim_found-Keeps :
    (id worker : String) (found : Option Run) → Keeps Good (claim_found id worker found)
unfolding claim_found
claim_found-Keeps id worker none = Keeps-pure none
claim_found-Keeps id worker (some r) =
    Keeps-bind _ _
      (write_run_frame AllConsistent id (claimed worker) λ now rows h. (
        All-update_any run_key id (claimed worker now) IsConsistent rows
            (λ x c. claimed-IsConsistent x now c worker) h.0,
        Unique-update run_key id (claimed worker now) (λ x. unfold claimed in refl) rows h.1,
      ))
      (λ _. search good_rules)

pub claim_queued_run-Keeps : (id worker : String) → Keeps Good (claim_queued_run id worker)
unfolding claim_queued_run
claim_queued_run-Keeps id worker = search (good_rules, claim_found-Keeps)

pub heartbeat_run-Keeps : (id worker : String) → Keeps Good (heartbeat_run id worker)
unfolding heartbeat_run
heartbeat_run-Keeps id worker =
    Triple-bind (OnFound AllConsistent id) (λ _. Good) _ _ (require_run_rule AllConsistent id)
      λ run.
        Triple-when Good _ _ (λ db h. h.0)
          λ active. write_run_rule AllConsistent id run _ (
            Writable-AllConsistent id run _ (λ now r. refl)
              (λ now h. beat-IsConsistent run now h worker active))

cancellation_rule :
    (id reason : String) (run : Run)
    → is_running run.status ≡ true
    → Triple (OnFound AllConsistent id run) (request_run_cancellation id reason) (λ _. Good)
unfolding request_run_cancellation
cancellation_rule id reason run e =
    then_rule _ _ _
      (require_run_frame (λ rows. AllConsistent rows × (find run_key id rows ≡ some run)) id)
      λ again.
        Triple-when Good _ _ (λ db h. h.0)
          λ _.
            Triple-bind (λ _. Good) _ _ _
              (write_run_rule AllConsistent id run _ (
                Writable-AllConsistent id run _ (λ now r. refl)
                  (λ now h. cancelling-IsConsistent run now h reason e)))
              (λ _. search good_rules)

pub stop_session-Keeps : (id reason : String) → Keeps Good (stop_session id reason)
unfolding stop_session
stop_session-Keeps id reason =
    Triple-bind (OnFound AllConsistent id) (λ _. Good) _ _ (require_run_rule AllConsistent id)
      λ run.
        Triple-if (λ _. Good) _ _ _ (λ _. Triple-given (λ db h. h.0) (Keeps-pure false))
          λ _.
            Triple-if (λ _. Good) _ _ _
              (λ e.
                Triple-bind (λ _. Good) (λ _. Good) _ _ (cancellation_rule id reason run e)
                  (λ _. Keeps-pure false))
              (λ _. Triple-given (λ db h. h.0) (Keeps-pure true))

pub mark_run_cancelled-Keeps : (id reason : String) → Keeps Good (mark_run_cancelled id reason)
unfolding mark_run_cancelled cancel_now
mark_run_cancelled-Keeps id reason =
    search
      (
        good_rules, require_run_frame, reject_pending_approvals_frame,
        cancel_pending_operator_requests_frame, stop-Keeps,
      )
      depth 14
