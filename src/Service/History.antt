-- ===== src/Service/History.antt =====
-- Histories: the transactions of operators, workers, executors and tools, one after another in any
-- order. A transaction that raises leaves the database as it was.
use synode.Prelude.{ℕ, ◌+◌, String, Bool, Option, List, [], ◌∷◌}
use synode.Domain.{RunMode, InteractionMode, ApprovalStatus, OperatorResponseType, ToolRisk}
use synode.Store.{Run, ApprovalPayload, Json, Db, Result, ok, err}
use synode.Repository.{
  create_run, create_approval, claim_queued_run, heartbeat_run, cancel_operator_request,
  recover_stale_runs, mark_operator_request_consumed,
}
use synode.Service.Sessions.{
  queue_for_start, record_decision, record_response, mark_run_cancelled, stop_session,
  begin_execution, Final, settle, Interrupt, record_interrupt, await_approval, record_failure,
}

pub data Session : Type 0 where
  creates :
      String
      → String
      → String
      → String
      → Option String
      → RunMode
      → InteractionMode
      → Option String
      → Bool
      → Session
  queues : String → Session
  decides : String → ApprovalStatus → String → Option String → Session
  responds : String → OperatorResponseType → Option String → Json → Session
  cancels_request : String → Option String → Session
  marks_cancelled stops claims beats fails : String → String → Session
  recovers : ℕ → Session
  begins awaits consumes : String → Session
  settles : Run → Final → Session
  interrupts : String → Interrupt → Session
  asks_approval : String → String → String → ToolRisk → String → ApprovalPayload → Session
  waits : ℕ → Session

-- The database after a transaction: what it committed, or what was there before it.
abbrev pub after : {A : Type 0} → Db → Result (A × Db) → Db
after db (ok (a, db')) = db'
after db (err e) = db

-- Let the clock run on.
abbrev pub later : ℕ → Db → Db
later n db = record db { now = db.now + n }

unfoldable pub perform : Db → Session → Db
perform db
      (Session.creates thread id task provider workspace mode interaction given record_message) =
    after db (create_run thread id task provider workspace mode interaction given record_message db)
perform db (Session.queues id) = after db (queue_for_start id db)
perform db (Session.decides id status word reason) =
    after db (record_decision id status word reason db)
perform db (Session.responds id type message payload) =
    after db (record_response id type message payload db)
perform db (Session.cancels_request id reason) = after db (cancel_operator_request id reason db)
perform db (Session.marks_cancelled id reason) = after db (mark_run_cancelled id reason db)
perform db (Session.stops id reason) = after db (stop_session id reason db)
perform db (Session.claims id worker) = after db (claim_queued_run id worker db)
perform db (Session.beats id worker) = after db (heartbeat_run id worker db)
perform db (Session.fails id message) = after db (record_failure id message db)
perform db (Session.recovers before) = after db (recover_stale_runs before db)
perform db (Session.begins id) = after db (begin_execution id db)
perform db (Session.awaits id) = after db (await_approval id db)
perform db (Session.consumes id) = after db (mark_operator_request_consumed id db)
perform db (Session.settles run final) = after db (settle run final db)
perform db (Session.interrupts id i) = after db (record_interrupt id i db)
perform db (Session.asks_approval id run_id tool action reason payload) =
    after db (create_approval id run_id tool action reason payload db)
perform db (Session.waits n) = later n db

unfoldable pub replay : Db → List Session → Db
replay db [] = db
replay db (s ∷ rest) = replay (perform db s) rest
