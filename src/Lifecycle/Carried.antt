-- ===== src/Lifecycle/Carried.antt =====
-- Every transaction carries on what speaks of the run rows and of the approvals.
use synode.Prelude.{ℕ, String, Bool, false, ◌&&◌, not, ◌≡◌, refl, Option, none, some, List, ltb}
use synode.Domain.{
  RunStatus, RunMode, InteractionMode, ApprovalStatus, OperatorResponseType, ToolRisk, is_pending,
  is_terminal,
}
use synode.Store.{
  Run, Approval, ApprovalPayload, OperatorRequest, Json, Db, pure, when, Keeps, Keeps-bind,
  Keeps-modify, Keeps-gets, Keeps-pure, Keeps-when, insert_rule, keeps_rules,
}
use synode.Repository.{
  require_thread, set_run_status, claim_queued_run, claim_found, claimed, heartbeat_run,
  request_run_cancellation, create_run, insert_run, insert_thread, thread_for_run, create_thread,
  require_approval, decide_approval, reject_one, reject_pending_approvals, insert_approval,
  create_approval, announce_approval, require_request, insert_request, create_operator_request,
  resolve_operator_request, cancel_one, cancel_operator_request, cancel_pending_operator_requests,
  mark_operator_request_consumed,
}
use synode.Service.{
  record_decision, record_response, tell_decision, cancel_now, mark_run_cancelled, stop_session,
  begin_execution, finish_cancelling, enter_running, still_waiting, say, settle, Final, Interrupt,
  record_interrupt, await_approval, record_failure,
}
use synode.Lifecycle.Onward.{
  Carries, OnRows, base_rules, require_run_on, write_run_on, set_run_status_on, write_approval_on,
  write_request_on,
}

module _ (K : List Run → List Approval → Type 0) (c : Carries K) where
  abbrev Still : Db → Type 0
  Still = OnRows K c

  pub decide_approval_on :
      (id : String) (s : ApprovalStatus) (reason : Option String)
      → is_pending s ≡ false
      → Keeps Still (decide_approval id s reason)
  unfolding decide_approval require_approval
  decide_approval_on id s reason e = search (base_rules, write_approval_on) depth 12

  pub tell_decision_on :
      (run : Option Run) (a : Approval) (word : String) → Keeps Still (tell_decision run a word)
  unfolding tell_decision
  tell_decision_on none a word = Keeps-pure tt
  tell_decision_on (some run) a word = search base_rules

  pub record_decision_on :
      (id : String) (status : ApprovalStatus) (word : String) (reason : Option String)
      → is_pending status ≡ false
      → Keeps Still (record_decision id status word reason)
  unfolding record_decision
  record_decision_on id status word reason e =
      search (keeps_rules, decide_approval_on, tell_decision_on)

  pub record_response_on :
      (id : String) (type : OperatorResponseType) (message : Option String) (payload : Json)
      → Keeps Still (record_response id type message payload)
  unfolding record_response resolve_operator_request require_request
  record_response_on id type message payload = search (base_rules, write_request_on) depth 12

  pub cancel_one_on :
      (reason : Option String) (q : OperatorRequest) → Keeps Still (cancel_one reason q)
  unfolding cancel_one
  cancel_one_on reason q = search (base_rules, write_request_on)

  pub cancel_operator_request_on :
      (id : String) (reason : Option String) → Keeps Still (cancel_operator_request id reason)
  unfolding cancel_operator_request require_request
  cancel_operator_request_on id reason = search (base_rules, cancel_one_on)

  pub cancel_pending_on :
      (id : String) (reason : Option String)
      → Keeps Still (cancel_pending_operator_requests id reason)
  unfolding cancel_pending_operator_requests
  cancel_pending_on id reason = search (base_rules, cancel_one_on)

  pub reject_pending_on :
      (id : String) (reason : Option String) → Keeps Still (reject_pending_approvals id reason)
  unfolding reject_pending_approvals reject_one
  reject_pending_on id reason = search (base_rules, write_approval_on)

  pub cancel_now_on : (run : Run) (reason : String) → Keeps Still (cancel_now run reason)
  unfolding cancel_now
  cancel_now_on run reason =
      search (base_rules, reject_pending_on, cancel_pending_on, set_run_status_on) depth 12

  pub mark_run_cancelled_on : (id reason : String) → Keeps Still (mark_run_cancelled id reason)
  unfolding mark_run_cancelled
  mark_run_cancelled_on id reason = search (base_rules, cancel_now_on)

  pub cancellation_on : (id reason : String) → Keeps Still (request_run_cancellation id reason)
  unfolding request_run_cancellation
  cancellation_on id reason = Keeps-bind _ _ (require_run_on K c id) λ run. Keeps-when _ _ λ _.
      Keeps-bind _ _ (write_run_on K c id _ (λ now. ((λ x. refl), (λ x h. refl))))
        (λ _. search base_rules)

  pub stop_session_on : (id reason : String) → Keeps Still (stop_session id reason)
  unfolding stop_session
  stop_session_on id reason = search (base_rules, cancellation_on)

  pub claim_found_on :
      (id worker : String) (found : Option Run) → Keeps Still (claim_found id worker found)
  unfolding claim_found
  claim_found_on id worker none = Keeps-pure none
  claim_found_on id worker (some run) =
      Keeps-bind _ _
        (write_run_on K c id (claimed worker)
          (λ now. ((λ x. unfold claimed in refl), (λ x h. unfold claimed in refl))))
        (λ _. search base_rules)

  pub claim_queued_run_on : (id worker : String) → Keeps Still (claim_queued_run id worker)
  unfolding claim_queued_run
  claim_queued_run_on id worker = search (keeps_rules, claim_found_on)

  pub heartbeat_run_on : (id worker : String) → Keeps Still (heartbeat_run id worker)
  unfolding heartbeat_run
  heartbeat_run_on id worker =
      Keeps-bind _ _ (require_run_on K c id)
        λ run. Keeps-when _ _ λ _. write_run_on K c id _ (λ now. ((λ x. refl), (λ x h. h)))

  pub finish_cancelling_on : (run : Run) → Keeps Still (finish_cancelling run)
  unfolding finish_cancelling
  finish_cancelling_on run = search (base_rules, set_run_status_on)

  pub still_waiting_on : (id : String) → Keeps Still (still_waiting id)
  unfolding still_waiting
  still_waiting_on id = search base_rules

  pub enter_running_on :
      (id : String) (response : Option OperatorRequest) → Keeps Still (enter_running id response)
  unfolding enter_running
  enter_running_on id response = search (base_rules, set_run_status_on)

  pub begin_execution_on : (id : String) → Keeps Still (begin_execution id)
  unfolding begin_execution
  begin_execution_on id =
      search (base_rules, finish_cancelling_on, still_waiting_on, enter_running_on) depth 14

  pub say_on : (run : Run) (by : _) (name content : String) → Keeps Still (say run by name content)
  unfolding say
  say_on run by name content = search base_rules

  ruleset stop_rules = (base_rules, set_run_status_on, say_on)

  pub settle_on : (run : Run) (final : Final) → Keeps Still (settle run final)
  unfolding settle
  settle_on run final = search stop_rules depth 14

  pub record_failure_on : (id message : String) → Keeps Still (record_failure id message)
  unfolding record_failure
  record_failure_on id message =
      Keeps-bind _ _ (Keeps-gets _)
        (elim [ none ↦ search stop_rules | some run ↦ search stop_rules depth 14 ])

  pub await_approval_on : (id : String) → Keeps Still (await_approval id)
  unfolding await_approval
  await_approval_on id =
      Keeps-bind _ _ (Keeps-gets _) λ found. Keeps-bind _ _ (Keeps-gets _) λ n. go n found
    where
      go :
          (n : ℕ) (found : Option Run)
          → Keeps Still (elim found [
            | none ↦ pure tt
            | some run ↦
                when
                  (not (is_terminal run.status) && ltb 0 n)
                  (set_run_status id RunStatus.waiting_approval none none)
          ])
      go n none = Keeps-pure tt
      go n (some run) = search stop_rules

  pub announce_on :
      (run : Option Run) (id tool reason : String)
      → Keeps Still (announce_approval run id tool reason)
  unfolding announce_approval
  announce_on none id tool reason = search base_rules
  announce_on (some run) id tool reason = search base_rules

  pub insert_approval_on : (a : Approval) → Keeps Still (insert_approval a)
  unfolding insert_approval
  insert_approval_on a =
      insert_rule Still _ _ _ (λ db h taken. c.approval_added a db.runs db.approvals h)

  pub create_approval_on :
      (id run_id tool : String) (action : ToolRisk) (reason : String) (payload : ApprovalPayload)
      → Keeps Still (create_approval id run_id tool action reason payload)
  unfolding create_approval
  create_approval_on id run_id tool action reason payload =
      search (stop_rules, announce_on, insert_approval_on) depth 18

  pub insert_request_on : (q : OperatorRequest) → Keeps Still (insert_request q)
  unfolding insert_request
  insert_request_on q =
      Keeps-bind _ _ (Keeps-modify _ (λ db h. h)) (λ _. search stop_rules depth 12)

  pub record_interrupt_on : (id : String) (i : Interrupt) → Keeps Still (record_interrupt id i)
  unfolding record_interrupt create_operator_request
  record_interrupt_on id i = Keeps-bind _ _ (require_run_on K c id) λ run.
      Keeps-bind _ _ (Keeps-gets _) (elim [ none ↦ insert_request_on _ | some q ↦ Keeps-pure q ])

  pub consumed_on : (id : String) → Keeps Still (mark_operator_request_consumed id)
  unfolding mark_operator_request_consumed require_request
  consumed_on id = search (base_rules, write_request_on)

  pub create_thread_on : (id title : String) → Keeps Still (create_thread id title)
  unfolding create_thread insert_thread
  create_thread_on id title =
      Keeps-bind _ _ (Keeps-gets _)
        λ now. Keeps-bind _ _ (insert_rule Still _ _ _ (λ db h taken. h)) (λ _. Keeps-pure _)

  pub thread_for_run_on :
      (given : Option String) (fresh task : String) → Keeps Still (thread_for_run given fresh task)
  unfolding thread_for_run
  thread_for_run_on none fresh task = create_thread_on fresh _
  thread_for_run_on (some id) fresh task = unfold require_thread in search base_rules

  pub insert_run_on : (run : Run) → Keeps Still (insert_run run)
  unfolding insert_run
  insert_run_on run = insert_rule Still _ _ _ (λ db h taken. c.run_added run db.runs db.approvals h)

  pub create_run_on :
      (fresh id task provider : String) (workspace : Option String) (mode : RunMode)
      (interaction : InteractionMode) (given : Option String) (message : Bool)
      → Keeps Still (create_run fresh id task provider workspace mode interaction given message)
  unfolding create_run
  create_run_on fresh id task provider workspace mode interaction given message =
      search (base_rules, thread_for_run_on, insert_run_on) depth 14
