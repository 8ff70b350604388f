-- ===== src/Lifecycle/Frozen.antt =====
-- What a run that has ended can still go through: the transactions of operators and of workers
-- leave its row alone.
use synode.Prelude.{
  ℕ, String, Bool, true, false, not, ◌≡◌, ◌≢◌, refl, sym, subst, ◌∙◌, if◌then◌else◌, Option, none,
  some, List, arith,
}
use synode.Domain.{RunStatus, is_terminal, is_active, is_running, is_queued, is_cancelling}
use synode.Store.{
  Run, Db, find, run_key, find-update_ne, find-key, Triple, Keeps, Triple-bind, Triple-given,
  Keeps-gets, Keeps-pure, Keeps-raise_if, raise_if_rule, Triple-when, Triple-if, then_rule,
  gets_rule, fact_rule, keeps_rules, gets, ◌>>=◌, OperatorRequest,
}
use synode.Repository.{
  enqueue_run, refuses_queue, with_status, claim_queued_run, claim_found, queued_run, claimed,
  heartbeat_run, request_run_cancellation, require_run, latest_unconsumed_operator_response,
}
use synode.Service.{
  queue_for_start, stop_session, mark_run_cancelled, cancel_now, begin_execution, finish_cancelling,
  enter_running, still_waiting, lacks_response,
}
use synode.Lifecycle.Frames.{
  OnRuns, OnFound, Writable, require_run_rule, require_run_frame, write_run_rule,
  set_run_status_rule, set_run_status_then, touch_thread_frame, add_event_frame,
  add_thread_message_frame, reject_pending_approvals_frame, cancel_pending_operator_requests_frame,
}

not-true : (b : Bool) → not b ≡ true → b ≡ false
not-true true e = cc
not-true false e = refl

-- What the claim's query returns: the run of that key, which is queued.
pub queued_found :
    (id : String) (db : Db) (run : Run)
    → queued_run id db ≡ some run
    → (find run_key id db.runs ≡ some run) × (run.status ≡ RunStatus.queued)
unfolding queued_run
queued_found id db run h = go (find run_key id db.runs) h
  where
    go :
        (found : Option Run)
        → elim found [ none ↦ none | some r ↦ if is_queued r.status then some r else none ]
          ≡ some run
        → (found ≡ some run) × (run.status ≡ RunStatus.queued)
    go none e = cc
    go (some r) e = ground (arith, e)

module _ (j : String) (r : Run) (ended : is_terminal r.status ≡ true) where
  abbrev pub Frozen : List Run → Type 0
  Frozen rows = find run_key j rows ≡ some r

  abbrev pub Still : Db → Type 0
  Still = OnRuns Frozen

  -- A write to a row that has not ended is a write to another row.
  Writable-Frozen :
      (id : String) (run : Run) (f : ℕ → Run → Run)
      → ((now : ℕ) (x : Run) → run_key (f now x) ≡ run_key x)
      → is_terminal run.status ≡ false
      → Writable Frozen id run f
  Writable-Frozen id run f same unended now rows found h =
      find-update_ne run_key id (f now) (same now) j rows other ∙ h
    where
      other : id ≢ j
      other p =
          let one : some run ≡ some r =
            sym found ∙ (subst (λ k. find run_key k rows ≡ some r) (sym p) h) in
          let eq : run ≡ r = cc in
          let e : is_terminal r.status ≡ false =
            subst (λ x. is_terminal x.status ≡ false) eq unended in
          cc

  status-Writable :
      (id : String) (run : Run) (s : RunStatus) (answer error : Option String)
      → is_terminal run.status ≡ false
      → Writable Frozen id run (with_status s answer error)
  status-Writable id run s answer error =
      Writable-Frozen id run _ (λ now x. unfold with_status in ground arith)

  abbrev Known : String → Run → List Run → Type 0
  Known id run rows = Frozen rows × (find run_key id rows ≡ some run)

  -- The row that is found has the key that was looked for.
  own_key :
      (id : String) (run : Run) (db : Db) → OnFound Frozen id run db → OnFound Frozen run.id run db
  own_key id run db h = (
    h.0,
    subst (λ k. find run_key k db.runs ≡ some run) (sym (find-key run_key id db.runs run h.1)) h.1,
  )

  enqueue_frozen : (id : String) → Keeps Still (enqueue_run id)
  unfolding enqueue_run refuses_queue
  enqueue_frozen id =
      Triple-bind (OnFound Frozen id) (λ _. Still) (require_run id) _ (require_run_rule Frozen id)
        λ run. raise_if_rule _ _ _ _ λ accepted. then_rule _ _ _ (Keeps-gets _) λ approvals.
          then_rule _ _ _ (Keeps-raise_if _ _) λ _. then_rule _ _ _ (Keeps-gets _) λ requests.
            then_rule _ _ _ (Keeps-raise_if _ _) λ _.
              Triple-when Still _ _ (λ db h. h.0)
                λ fresh.
                  set_run_status_then Frozen id run _ _ _ _
                    (status-Writable id run _ _ _ (ground (arith, accepted)))
                    (add_event_frame Frozen id _ _ _)

  pub queue_for_start_frozen : (id : String) → Keeps Still (queue_for_start id)
  unfolding queue_for_start
  queue_for_start_frozen id = search (keeps_rules, require_run_frame, enqueue_frozen)

  active_open : (s : RunStatus) → is_active s ≡ true → is_terminal s ≡ false
  unfolding is_active is_terminal
  active_open s e = ground arith

  pub heartbeat_run_frozen : (id worker : String) → Keeps Still (heartbeat_run id worker)
  unfolding heartbeat_run
  heartbeat_run_frozen id worker =
      Triple-bind (OnFound Frozen id) (λ _. Still) _ _ (require_run_rule Frozen id)
        λ run.
          Triple-when Still _ _ (λ db h. h.0)
            λ active.
              write_run_rule Frozen id run _
                (Writable-Frozen id run _ (λ now x. refl) (active_open run.status active))

  running_open : (s : RunStatus) → is_running s ≡ true → is_terminal s ≡ false
  unfolding is_terminal
  running_open s e = ground arith

  cancellation-Frozen :
      (id reason : String) (run : Run)
      → is_running run.status ≡ true
      → Triple (OnFound Frozen id run) (request_run_cancellation id reason) (λ _. Still)
  unfolding request_run_cancellation
  cancellation-Frozen id reason run e =
      then_rule _ _ _
        (require_run_frame (λ rows. Frozen rows × (find run_key id rows ≡ some run)) id)
        λ again.
          Triple-when Still _ _ (λ db h. h.0)
            λ _.
              Triple-bind (λ _. Still) _ _ _
                (write_run_rule Frozen id run _
                  (Writable-Frozen id run _ (λ now x. refl) (running_open run.status e)))
                (λ _.
                  search
                    (keeps_rules, touch_thread_frame, add_event_frame, add_thread_message_frame))

  pub stop_session_frozen : (id reason : String) → Keeps Still (stop_session id reason)
  unfolding stop_session
  stop_session_frozen id reason =
      Triple-bind (OnFound Frozen id) (λ _. Still) _ _ (require_run_rule Frozen id)
        λ run.
          Triple-if (λ _. Still) _ _ _ (λ _. Triple-given (λ db h. h.0) (Keeps-pure false))
            λ _.
              Triple-if (λ _. Still) _ _ _
                (λ e.
                  Triple-bind (λ _. Still) (λ _. Still) _ _ (cancellation-Frozen id reason run e)
                    (λ _. Keeps-pure false))
                (λ _. Triple-given (λ db h. h.0) (Keeps-pure true))

  cancel_now-Frozen :
      (run : Run) (reason : String)
      → is_terminal run.status ≡ false
      → Triple (OnFound Frozen run.id run) (cancel_now run reason) (λ _. Still)
  unfolding cancel_now
  cancel_now-Frozen run reason unended =
      then_rule _ _ _ (reject_pending_approvals_frame (Known run.id run) _ _) λ _.
        then_rule _ _ _ (cancel_pending_operator_requests_frame (Known run.id run) _ _) λ _.
          set_run_status_then Frozen run.id run _ _ _ _ (status-Writable run.id run _ _ _ unended)
            (search (keeps_rules, add_event_frame, add_thread_message_frame))

  pub mark_run_cancelled_frozen : (id reason : String) → Keeps Still (mark_run_cancelled id reason)
  unfolding mark_run_cancelled
  mark_run_cancelled_frozen id reason =
      Triple-bind (OnFound Frozen id) (λ _. Still) _ _ (require_run_rule Frozen id)
        λ run.
          Triple-when Still _ _ (λ db h. h.0)
            λ unended.
              Triple-given (own_key id run) (cancel_now-Frozen run reason (not-true _ unended))

  queued_open : (s : RunStatus) → s ≡ RunStatus.queued → is_terminal s ≡ false
  unfolding is_terminal
  queued_open s e = ground arith

  claim_found_frozen :
      (id worker : String) (found : Option Run)
      → Triple
          (λ db. Still db × (queued_run id db ≡ found))
          (claim_found id worker found)
          (λ _. Still)
  unfolding claim_found
  claim_found_frozen id worker none = Triple-given (λ db h. h.0) (Keeps-pure none)
  claim_found_frozen id worker (some run) = queued_claim
    where
      queued_claim :
          Triple
            (λ db. Still db × (queued_run id db ≡ some run))
            (claim_found id worker (some run))
            (λ _. Still)
      queued_claim =
          fact_rule (λ db h. (queued_found id db run h.1).1)
            λ queued.
              Triple-given (λ db h. (h.0, (queued_found id db run h.1).0))
                (Triple-bind (λ _. Still) _ _ _
                  (write_run_rule Frozen id run (claimed worker) (
                    Writable-Frozen id run (claimed worker) (λ now x. unfold claimed in refl)
                      (queued_open run.status queued)))
                  (λ _. search (keeps_rules, touch_thread_frame)))

  pub claim_queued_run_frozen : (id worker : String) → Keeps Still (claim_queued_run id worker)
  unfolding claim_queued_run
  claim_queued_run_frozen id worker = gets_rule _ _ _ (claim_found_frozen id worker)

  still_waiting_frozen : (id : String) → Keeps Still (still_waiting id)
  unfolding still_waiting
  still_waiting_frozen id = search keeps_rules

  finish-Frozen :
      (run : Run)
      → is_terminal run.status ≡ false
      → Triple (OnFound Frozen run.id run) (finish_cancelling run) (λ _. Still)
  unfolding finish_cancelling
  finish-Frozen run unended =
      Triple-bind (λ _. Still) _ _ _
        (set_run_status_rule Frozen run.id run _ _ _ (status-Writable run.id run _ _ _ unended))
        (λ _. search (keeps_rules, add_event_frame))

  enter-Frozen :
      (id : String) (run : Run) (response : Option OperatorRequest)
      → is_terminal run.status ≡ false
      → Triple (OnFound Frozen id run) (enter_running id response) (λ _. Still)
  unfolding enter_running
  enter-Frozen id run response unended =
      Triple-bind (λ _. Still) _ _ _
        (set_run_status_rule Frozen id run _ _ _ (status-Writable id run _ _ _ unended))
        (λ _. search (keeps_rules, add_event_frame))

  pub begin_execution_frozen : (id : String) → Keeps Still (begin_execution id)
  unfolding begin_execution
  begin_execution_frozen id =
      Triple-bind (OnFound Frozen id) (λ _. Still) _ _ (require_run_rule Frozen id)
        λ run.
          Triple-if (λ _. Still) _ _ _ (λ _. Triple-given (λ db h. h.0) (Keeps-pure _))
            λ unended.
              Triple-if (λ _. Still) (is_cancelling run.status) _
                (gets (latest_unconsumed_operator_response id) >>= λ response.
                  if lacks_response run.status response
                  then still_waiting id
                  else enter_running id response)
                (λ e. Triple-given (own_key id run) (finish-Frozen run unended))
                λ _.
                  then_rule _ (gets (latest_unconsumed_operator_response id)) _ (Keeps-gets _)
                    λ response.
                      Triple-if (λ _. Still) (lacks_response run.status response) _ _
                        (λ e. Triple-given (λ db h. h.0) (still_waiting_frozen id))
                        (λ e. enter-Frozen id run response unended)
