-- ===== src/Lifecycle/Onward.antt =====
-- What every transaction carries on that speaks of the run rows and of the approvals: what outlasts a
-- write to a row that puts no run back into the queue and no approval back to pending. A transaction
-- that may queue a run carries it on where queueing does too.
use synode.Prelude.{ℕ, String, false, ◌≡◌, refl, Option, List, [], ◌∷◌, ◌++◌, arith}
use synode.Domain.{
  RunStatus, ApprovalStatus, ThreadMessageAuthorType, ThreadMessageType, EventType, is_queued,
  is_pending,
}
use synode.Store.{
  Run, Approval, ApprovalPayload, OperatorRequest, Details, Json, Db, pure, when, find, update,
  run_key, approval_key, Keeps, Keeps-bind, Keeps-modify, Keeps-gets, Keeps-pure, Keeps-raise_if,
  Keeps-or_raise, insert_rule, keeps_rules,
}
use synode.Repository.{
  require_thread, write_thread, touch_thread, add_thread_message, add_event, require_run, write_run,
  with_status, stamp, set_run_status, write_approval, decided, write_request,
}

-- The write keeps the row's key and puts no run into the queue.
abbrev pub Unqueuing : (Run → Run) → Type 0
Unqueuing f =
    ((x : Run) → run_key (f x) ≡ run_key x)
    × ((x : Run) → is_queued x.status ≡ false → is_queued (f x).status ≡ false)

-- The write keeps the row's key and puts no approval back to pending.
abbrev pub Deciding : (Approval → Approval) → Type 0
Deciding f =
    ((x : Approval) → approval_key (f x) ≡ approval_key x)
    × ((x : Approval) → is_pending x.status ≡ false → is_pending (f x).status ≡ false)

pub record Carries (K : List Run → List Approval → Type 0) : Type 0 where
  pub run_written :
      (id : String) (f : Run → Run) (rows : List Run) (approvals : List Approval)
      → Unqueuing f
      → K rows approvals
      → K (update run_key id f rows) approvals
  pub run_added :
      (run : Run) (rows : List Run) (approvals : List Approval)
      → K rows approvals
      → K (rows ++ run ∷ []) approvals
  pub approval_written :
      (id : String) (f : Approval → Approval) (rows : List Run) (approvals : List Approval)
      → Deciding f
      → K rows approvals
      → K rows (update approval_key id f approvals)
  pub approval_added :
      (a : Approval) (rows : List Run) (approvals : List Approval)
      → K rows approvals
      → K rows (approvals ++ a ∷ [])

module _ (K : List Run → List Approval → Type 0) (c : Carries K) where
  abbrev pub OnRows : Db → Type 0
  OnRows db = K db.runs db.approvals

  pub touch_thread_on : (id : String) → Keeps OnRows (touch_thread id)
  unfolding touch_thread require_thread write_thread
  touch_thread_on id =
      Keeps-bind _ _ (Keeps-bind _ _ (Keeps-gets _) (λ o. Keeps-or_raise o _))
        (λ _. Keeps-modify _ (λ db h. h))

  pub add_event_on :
      (id : String) (type : EventType) (role : Option String) (d : Details)
      → Keeps OnRows (add_event id type role d)
  unfolding add_event
  add_event_on id type role d = Keeps-modify _ (λ db h. h)

  pub add_thread_message_on :
      (thread : String) (by : ThreadMessageAuthorType) (name : String) (type : ThreadMessageType)
      (content : String) (run : Option String)
      → Keeps OnRows (add_thread_message thread by name type content run)
  unfolding add_thread_message
  add_thread_message_on thread by name type content run =
      Keeps-bind _ _ (Keeps-raise_if _ _)
        (λ _. Keeps-bind _ _ (Keeps-modify _ (λ db h. h)) (λ _. touch_thread_on thread))

  pub require_run_on : (id : String) → Keeps OnRows (require_run id)
  unfolding require_run
  require_run_on id = Keeps-bind _ _ (Keeps-gets _) (λ o. Keeps-or_raise o _)

  pub write_run_on :
      (id : String) (f : ℕ → Run → Run)
      → ((now : ℕ) → Unqueuing (f now))
      → Keeps OnRows (write_run id f)
  unfolding write_run
  write_run_on id f u =
      Keeps-modify _ (λ db h. c.run_written id (f db.now) db.runs db.approvals (u db.now) h)

  pub ruleset base_rules =
      (keeps_rules, touch_thread_on, add_event_on, add_thread_message_on, require_run_on)

  status-Unqueuing :
      (s : RunStatus) (answer error : Option String) (now : ℕ)
      → is_queued s ≡ false
      → Unqueuing (with_status s answer error now)
  unfolding with_status stamp
  status-Unqueuing s answer error now e = ((λ x. ground arith), (λ x h. ground (arith, e)))

  pub set_run_status_on :
      (id : String) (s : RunStatus) (answer error : Option String)
      → is_queued s ≡ false
      → Keeps OnRows (set_run_status id s answer error)
  unfolding set_run_status
  set_run_status_on id s answer error e = Keeps-bind _ _ (require_run_on id) λ run.
      Keeps-bind _ _ (write_run_on id _ (λ now. status-Unqueuing s answer error now e))
        (λ _. touch_thread_on run.thread_id)

  pub write_approval_on :
      (id : String) (s : ApprovalStatus) (reason : Option String)
      → is_pending s ≡ false
      → Keeps OnRows (write_approval id (decided s reason))
  unfolding write_approval decided
  write_approval_on id s reason e = Keeps-modify _ (λ db h.
      c.approval_written id (decided s reason db.now) db.runs db.approvals
        ((λ x. refl), (λ x pending. e)) h)

  pub write_request_on :
      (id : String) (f : ℕ → OperatorRequest → OperatorRequest) → Keeps OnRows (write_request id f)
  unfolding write_request
  write_request_on id f = Keeps-modify _ (λ db h. h)
