-- ===== src/Lifecycle/Executed.antt =====
-- The transactions of an executing run, of a tool that asks for approval, of the recovery of stale
-- runs and of creation keep the run rows consistent and their keys distinct.
use synode.Prelude.{
  ℕ, String, Bool, false, not, ◌&&◌, ◌≡◌, refl, Option, none, some, [], ◌∷◌, All-append, arith,
  is_some, ltb,
}
use synode.Domain.{RunStatus, RunMode, InteractionMode, ToolRisk, is_terminal, is_active}
use synode.Store.{
  Run, Approval, ApprovalPayload, OperatorRequest, pure, when, run_key, Keeps, Keeps-bind,
  Keeps-modify, insert_rule, Keeps-gets, Keeps-pure, Unique-append,
}
use synode.Repository.{
  create_run, insert_run, new_run, insert_approval, insert_thread, thread_for_run, create_thread,
  require_thread, set_run_status, create_approval, announce_approval, create_operator_request,
  insert_request,
}
use synode.Service.{
  begin_execution, finish_cancelling, enter_running, still_waiting, say, settle, Final, Interrupt,
  record_interrupt, await_approval, record_failure,
}
use synode.Lifecycle.Frames.{require_run_frame, set_run_status_frame}
use synode.Lifecycle.Consistent.{IsConsistent}
use synode.Lifecycle.Preserved.{AllConsistent, Good, good_rules, stop-Keeps, running-Writable}

enter_running-Keeps :
    (id : String) (response : Option OperatorRequest) → Keeps Good (enter_running id response)
unfolding enter_running
enter_running-Keeps id response =
    Keeps-bind _ _ (set_run_status_frame AllConsistent id _ _ _ (λ run. running-Writable id run))
      (λ _. search good_rules)

finish_cancelling-Keeps : (run : Run) → Keeps Good (finish_cancelling run)
unfolding finish_cancelling
finish_cancelling-Keeps run = search (good_rules, stop-Keeps)

still_waiting-Keeps : (id : String) → Keeps Good (still_waiting id)
unfolding still_waiting
still_waiting-Keeps id = search good_rules

pub begin_execution-Keeps : (id : String) → Keeps Good (begin_execution id)
unfolding begin_execution
begin_execution-Keeps id =
    search
      (
        good_rules, require_run_frame, finish_cancelling-Keeps, still_waiting-Keeps,
        enter_running-Keeps,
      )
      depth 14

say-Keeps : (run : Run) (by : _) (name content : String) → Keeps Good (say run by name content)
unfolding say
say-Keeps run by name content = search good_rules

ruleset stop_rules = (good_rules, stop-Keeps, say-Keeps)

pub settle-Keeps : (run : Run) (final : Final) → Keeps Good (settle run final)
unfolding settle
settle-Keeps run final = search stop_rules depth 14

pub record_failure-Keeps : (id message : String) → Keeps Good (record_failure id message)
unfolding record_failure
record_failure-Keeps id message =
    Keeps-bind _ _ (Keeps-gets _)
      (elim [ none ↦ search stop_rules | some run ↦ search stop_rules depth 14 ])

pub await_approval-Keeps : (id : String) → Keeps Good (await_approval id)
unfolding await_approval
await_approval-Keeps id =
    Keeps-bind _ _ (Keeps-gets _) λ found. Keeps-bind _ _ (Keeps-gets _) λ n. go n found
  where
    go :
        (n : ℕ) (found : Option Run)
        → Keeps Good (elim found [
          | none ↦ pure tt
          | some run ↦
              when
                (not (is_terminal run.status) && ltb 0 n)
                (set_run_status id RunStatus.waiting_approval none none)
        ])
    go n none = Keeps-pure tt
    go n (some run) = search stop_rules

announce-Keeps :
    (run : Option Run) (id tool reason : String) → Keeps Good (announce_approval run id tool reason)
unfolding announce_approval
announce-Keeps none id tool reason = search good_rules
announce-Keeps (some run) id tool reason = search good_rules

insert_approval-Keeps : (a : Approval) → Keeps Good (insert_approval a)
unfolding insert_approval
insert_approval-Keeps a = insert_rule Good _ _ _ (λ db h taken. h)

pub create_approval-Keeps :
    (id run_id tool : String) (action : ToolRisk) (reason : String) (payload : ApprovalPayload)
    → Keeps Good (create_approval id run_id tool action reason payload)
unfolding create_approval
create_approval-Keeps id run_id tool action reason payload =
    search (stop_rules, announce-Keeps, insert_approval-Keeps) depth 18

insert_request-Keeps : (q : OperatorRequest) → Keeps Good (insert_request q)
unfolding insert_request
insert_request-Keeps q =
    Keeps-bind _ _ (Keeps-modify _ (λ db h. h)) (λ _. search stop_rules depth 12)

pub record_interrupt-Keeps : (id : String) (i : Interrupt) → Keeps Good (record_interrupt id i)
unfolding record_interrupt create_operator_request
record_interrupt-Keeps id i = Keeps-bind _ _ (require_run_frame AllConsistent id) λ run.
    Keeps-bind _ _ (Keeps-gets _) (elim [ none ↦ insert_request-Keeps _ | some q ↦ Keeps-pure q ])

create_thread-Keeps : (id title : String) → Keeps Good (create_thread id title)
unfolding create_thread insert_thread
create_thread-Keeps id title =
    Keeps-bind _ _ (Keeps-gets _)
      λ now. Keeps-bind _ _ (insert_rule Good _ _ _ (λ db h taken. h)) (λ _. Keeps-pure _)

thread_for_run-Keeps :
    (given : Option String) (fresh task : String) → Keeps Good (thread_for_run given fresh task)
unfolding thread_for_run
thread_for_run-Keeps none fresh task = create_thread-Keeps fresh _
thread_for_run-Keeps (some id) fresh task = unfold require_thread in search good_rules

is_some-none : {A : Type 0} (o : Option A) → is_some o ≡ false → o ≡ none
is_some-none none e = refl
is_some-none (some a) e = cc

insert_run-Keeps : (run : Run) → IsConsistent run → Keeps Good (insert_run run)
unfolding insert_run
insert_run-Keeps run c = insert_rule Good _ _ _ λ db h taken. (
  All-append IsConsistent db.runs (run ∷ []) h.0 (c, tt),
  Unique-append run_key db.runs run (is_some-none _ taken) h.1,
)

pub new_run-IsConsistent :
    (id thread task provider : String) (workspace : Option String) (mode : RunMode)
    (interaction : InteractionMode) (now : ℕ)
    → IsConsistent (new_run id thread task provider workspace mode interaction now)
unfolding new_run is_terminal is_active
new_run-IsConsistent id thread task provider workspace mode interaction now = ground arith

pub create_run-Keeps :
    (fresh id task provider : String) (workspace : Option String) (mode : RunMode)
    (interaction : InteractionMode) (given : Option String) (message : Bool)
    → Keeps Good (create_run fresh id task provider workspace mode interaction given message)
unfolding create_run
create_run-Keeps fresh id task provider workspace mode interaction given message =
    Keeps-bind _ _ (thread_for_run-Keeps given fresh task) λ thread.
      Keeps-bind _ _ (Keeps-gets _) λ now.
        Keeps-bind _ _ (insert_run-Keeps _ (new_run-IsConsistent _ _ _ _ _ _ _ _))
          (λ _. search good_rules)
