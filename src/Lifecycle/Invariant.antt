-- ===== src/Lifecycle/Invariant.antt =====
-- What holds of the run rows in every database that a history of transactions leads to.
use synode.Prelude.{String, Option, none, some, List, [], ◌∷◌}
use synode.Domain.{ApprovalStatus}
use synode.Store.{
  Run, Approval, Db, Result, ok, err, M, Keeps, Commits, Keeps-bind, Keeps-pure, Keeps-modify,
}
use synode.Repository.{mark_operator_request_consumed, write_request, require_request}
use synode.Service.{
  Session, perform, replay, after, tell_decision, record_decision, record_response,
}
use synode.Lifecycle.Frames.{
  decide_approval_frame, resolve_operator_request_frame, cancel_operator_request_frame,
  add_thread_message_frame,
}
use synode.Lifecycle.Preserved.{
  AllConsistent, Good, good_rules, queue_for_start-Keeps, mark_run_cancelled-Keeps,
  stop_session-Keeps, claim_queued_run-Keeps, heartbeat_run-Keeps,
}
use synode.Lifecycle.Executed.{
  create_run-Keeps, record_failure-Keeps, begin_execution-Keeps, await_approval-Keeps, settle-Keeps,
  record_interrupt-Keeps, create_approval-Keeps,
}
use synode.Lifecycle.Recovered.{recover_stale_runs-Keeps}

-- A rolled back transaction keeps everything.
after-Commits :
    {A : Type 0} (P : Db → Type 0) (db : Db) (r : Result (A × Db))
    → P db
    → Commits (λ _. P) r
    → P (after db r)
after-Commits P db (ok (a, db')) p q = q
after-Commits P db (err e) p q = p

pub after-Keeps :
    {A : Type 0} (P : Db → Type 0) (m : M A) (db : Db) → Keeps P m → P db → P (after db (m db))
after-Keeps P m db k p = after-Commits P db (m db) p (k.at db p)

tell_decision-Keeps :
    (run : Option Run) (a : Approval) (word : String) → Keeps Good (tell_decision run a word)
unfolding tell_decision
tell_decision-Keeps none a word = Keeps-pure tt
tell_decision-Keeps (some run) a word = add_thread_message_frame AllConsistent _ _ _ _ _ _

record_decision-Keeps :
    (id : String) (status : ApprovalStatus) (word : String) (reason : Option String)
    → Keeps Good (record_decision id status word reason)
unfolding record_decision
record_decision-Keeps id status word reason =
    search (good_rules, decide_approval_frame, tell_decision-Keeps)

consumed-Keeps : (id : String) → Keeps Good (mark_operator_request_consumed id)
unfolding mark_operator_request_consumed write_request require_request
consumed-Keeps id = Keeps-bind _ _ (search good_rules) (λ _. Keeps-modify _ (λ db h. h))

pub perform-Good : (s : Session) (db : Db) → Good db → Good (perform db s)
unfolding perform record_response
perform-Good (Session.creates thread id task provider workspace mode interaction given message) db
      h =
    after-Keeps Good _ db (create_run-Keeps _ _ _ _ _ _ _ _ _) h
perform-Good (Session.queues id) db h = after-Keeps Good _ db (queue_for_start-Keeps id) h
perform-Good (Session.decides id status word reason) db h =
    after-Keeps Good _ db (record_decision-Keeps _ _ _ _) h
perform-Good (Session.responds id type message payload) db h =
    after-Keeps Good _ db (resolve_operator_request_frame AllConsistent _ _ _ _) h
perform-Good (Session.cancels_request id reason) db h =
    after-Keeps Good _ db (cancel_operator_request_frame AllConsistent _ _) h
perform-Good (Session.marks_cancelled id reason) db h =
    after-Keeps Good _ db (mark_run_cancelled-Keeps _ _) h
perform-Good (Session.stops id reason) db h = after-Keeps Good _ db (stop_session-Keeps _ _) h
perform-Good (Session.claims id worker) db h = after-Keeps Good _ db (claim_queued_run-Keeps _ _) h
perform-Good (Session.beats id worker) db h = after-Keeps Good _ db (heartbeat_run-Keeps _ _) h
perform-Good (Session.fails id message) db h = after-Keeps Good _ db (record_failure-Keeps _ _) h
perform-Good (Session.recovers before) db h = after-Keeps Good _ db (recover_stale_runs-Keeps _) h
perform-Good (Session.begins id) db h = after-Keeps Good _ db (begin_execution-Keeps _) h
perform-Good (Session.awaits id) db h = after-Keeps Good _ db (await_approval-Keeps _) h
perform-Good (Session.consumes id) db h = after-Keeps Good _ db (consumed-Keeps _) h
perform-Good (Session.settles run final) db h = after-Keeps Good _ db (settle-Keeps _ _) h
perform-Good (Session.interrupts id i) db h = after-Keeps Good _ db (record_interrupt-Keeps _ _) h
perform-Good (Session.asks_approval id run_id tool action reason payload) db h =
    after-Keeps Good _ db (create_approval-Keeps _ _ _ _ _ _) h
perform-Good (Session.waits n) db h = h

-- Where the run rows of a database are consistent and no two have one key, they are so after any
-- history of transactions, whatever its order and whichever of its transactions raise.
pub replay-AllConsistent :
    (history : List Session) (db : Db)
    → AllConsistent db.runs
    → AllConsistent (replay db history).runs
unfolding replay
replay-AllConsistent [] db h = h
replay-AllConsistent (s ∷ rest) db h =
    replay-AllConsistent rest (perform db s) (perform-Good s db h)
