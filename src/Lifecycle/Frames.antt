-- ===== src/Lifecycle/Frames.antt =====
-- What the repository's methods leave alone: those that write no run keep every property of the
-- run rows, and those that write one run keep what that one write keeps.
use synode.Prelude.{ℕ, String, ◌≡◌, Option, some, List, All}
use synode.Domain.{
  RunStatus, ThreadMessageAuthorType, ThreadMessageType, EventType, ApprovalStatus,
  OperatorResponseType,
}
use synode.Store.{
  Run, Approval, OperatorRequest, Details, Json, Db, M, modify, ◌>>◌, find, update, All-update,
  run_key, Triple, Keeps, Keeps-bind, Keeps-modify, Keeps-raise_if, Keeps-gets, keeps_rules,
  Keeps-or_raise, Triple-bind, Triple-given, lookup_rule,
}
use synode.Repository.{
  require_thread, write_thread, touch_thread, add_thread_message, add_event, require_run, write_run,
  with_status, set_run_status, require_approval, write_approval, decide_approval, reject_one,
  cancel_one, reject_pending_approvals, require_request, write_request, resolve_operator_request,
  cancel_operator_request, cancel_pending_operator_requests,
}

-- `f`, written to the row `run` with the key `id`, keeps `K`.
abbrev pub Writable : (List Run → Type 0) → String → Run → (ℕ → Run → Run) → Type 0
Writable K id run f =
    (now : ℕ) (rows : List Run)
    → find run_key id rows ≡ some run
    → K rows
    → K (update run_key id (f now) rows)

module _ (K : List Run → Type 0) where
  abbrev pub OnRuns : Db → Type 0
  OnRuns db = K db.runs

  -- The same, and `run` is what `get_run(id)` finds.
  abbrev pub OnFound : String → Run → Db → Type 0
  OnFound id run db = K db.runs × (find run_key id db.runs ≡ some run)

  pub touch_thread_frame : (id : String) → Keeps OnRuns (touch_thread id)
  unfolding touch_thread require_thread write_thread
  touch_thread_frame id =
      Keeps-bind _ _ (Keeps-bind _ _ (Keeps-gets _) (λ o. Keeps-or_raise o _))
        (λ _. Keeps-modify _ (λ db h. h))

  pub add_event_frame :
      (id : String) (type : EventType) (role : Option String) (d : Details)
      → Keeps OnRuns (add_event id type role d)
  unfolding add_event
  add_event_frame id type role d = Keeps-modify _ (λ db h. h)

  pub add_thread_message_frame :
      (thread : String) (by : ThreadMessageAuthorType) (name : String) (type : ThreadMessageType)
      (content : String) (run : Option String)
      → Keeps OnRuns (add_thread_message thread by name type content run)
  unfolding add_thread_message
  add_thread_message_frame thread by name type content run =
      Keeps-bind _ _ (Keeps-raise_if _ _)
        (λ _. Keeps-bind _ _ (Keeps-modify _ (λ db h. h)) (λ _. touch_thread_frame thread))

  ruleset message_frames =
      (keeps_rules, touch_thread_frame, add_event_frame, add_thread_message_frame)

  write_approval_frame :
      (id : String) (f : ℕ → Approval → Approval) → Keeps OnRuns (write_approval id f)
  unfolding write_approval
  write_approval_frame id f = Keeps-modify _ (λ db h. h)

  write_request_frame :
      (id : String) (f : ℕ → OperatorRequest → OperatorRequest) → Keeps OnRuns (write_request id f)
  unfolding write_request
  write_request_frame id f = Keeps-modify _ (λ db h. h)

  pub decide_approval_frame :
      (id : String) (s : ApprovalStatus) (reason : Option String)
      → Keeps OnRuns (decide_approval id s reason)
  unfolding decide_approval require_approval
  decide_approval_frame id s reason = search (message_frames, write_approval_frame) depth 12

  pub reject_pending_approvals_frame :
      (id : String) (reason : Option String) → Keeps OnRuns (reject_pending_approvals id reason)
  unfolding reject_pending_approvals reject_one
  reject_pending_approvals_frame id reason = search (message_frames, write_approval_frame)

  cancel_one_frame :
      (reason : Option String) (q : OperatorRequest) → Keeps OnRuns (cancel_one reason q)
  unfolding cancel_one
  cancel_one_frame reason q = search (message_frames, write_request_frame)

  pub cancel_operator_request_frame :
      (id : String) (reason : Option String) → Keeps OnRuns (cancel_operator_request id reason)
  unfolding cancel_operator_request require_request
  cancel_operator_request_frame id reason = search (message_frames, cancel_one_frame)

  pub cancel_pending_operator_requests_frame :
      (id : String) (reason : Option String)
      → Keeps OnRuns (cancel_pending_operator_requests id reason)
  unfolding cancel_pending_operator_requests
  cancel_pending_operator_requests_frame id reason = search (message_frames, cancel_one_frame)

  pub resolve_operator_request_frame :
      (id : String) (type : Option OperatorResponseType) (message : Option String) (payload : Json)
      → Keeps OnRuns (resolve_operator_request id type message payload)
  unfolding resolve_operator_request require_request
  resolve_operator_request_frame id type message payload =
      search (message_frames, write_request_frame) depth 12

  -- `get_run`, and what it found.
  pub require_run_rule :
      (id : String) → Triple OnRuns (require_run id) (λ run db. OnFound id run db)
  unfolding require_run
  require_run_rule id = lookup_rule _ _

  pub require_run_frame : (id : String) → Keeps OnRuns (require_run id)
  unfolding require_run
  require_run_frame id = Keeps-bind _ _ (Keeps-gets _) (λ o. Keeps-or_raise o _)

  pub write_run_frame :
      (id : String) (f : ℕ → Run → Run)
      → ((now : ℕ) (rows : List Run) → K rows → K (update run_key id (f now) rows))
      → Keeps OnRuns (write_run id f)
  unfolding write_run
  write_run_frame id f keep = Keeps-modify _ (λ db h. keep db.now db.runs h)

  pub write_run_rule :
      (id : String) (run : Run) (f : ℕ → Run → Run)
      → Writable K id run f
      → Triple (OnFound id run) (write_run id f) (λ _. OnRuns)
  unfolding write_run modify
  write_run_rule id run f w = record { at = λ db h. w db.now db.runs h.1 h.0 }

module _ (K : List Run → Type 0) (id : String) (run : Run) where
  pub set_run_status_rule :
      (status : RunStatus) (answer error : Option String)
      → Writable K id run (with_status status answer error)
      → Triple (OnFound K id run) (set_run_status id status answer error) (λ _. OnRuns K)
  unfolding set_run_status
  set_run_status_rule status answer error w =
      Triple-bind (λ found db. OnFound Known id found db) _ _ _ (require_run_rule Known id)
        λ found.
          Triple-given (λ db h. h.0)
            (Triple-bind (λ _. OnRuns K) _ _ _ (write_run_rule K id run _ w)
              (λ _. touch_thread_frame K found.thread_id))
    where
      Known : List Run → Type 0
      Known rows = K rows × (find run_key id rows ≡ some run)

  -- The same for a session that then does `rest`.
  pub set_run_status_then :
      (status : RunStatus) (answer error : Option String) (rest : M (Unit {0}))
      → Writable K id run (with_status status answer error)
      → Keeps (OnRuns K) rest
      → Triple (OnFound K id run) (set_run_status id status answer error >> rest) (λ _. OnRuns K)
  set_run_status_then status answer error rest w k =
      Triple-bind (λ _. OnRuns K) _ _ _ (set_run_status_rule status answer error w) (λ _. k)

-- `set_run_status` of a row of which nothing more is known.
pub set_run_status_frame :
    (K : List Run → Type 0) (id : String) (status : RunStatus) (answer error : Option String)
    → ((run : Run) → Writable K id run (with_status status answer error))
    → Keeps (OnRuns K) (set_run_status id status answer error)
unfolding set_run_status
set_run_status_frame K id status answer error w =
    Triple-bind (OnFound K id) _ _ _ (require_run_rule K id) λ run.
      Triple-bind (λ _. OnRuns K) _ _ _ (write_run_rule K id run _ (w run))
        (λ _. touch_thread_frame K run.thread_id)

-- A property of each row: it is enough that the row that is written keeps it.
pub Writable-All :
    (C : Run → Type 0) (id : String) (run : Run) (f : ℕ → Run → Run)
    → ((now : ℕ) → C run → C (f now run))
    → Writable (All C) id run f
Writable-All C id run f keep now rows found h =
    All-update run_key id (f now) C rows run found (keep now) h
