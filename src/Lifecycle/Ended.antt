-- ===== src/Lifecycle/Ended.antt =====
-- Histories in which a run has ended: what operators, workers and starting executors do leaves its
-- row as it is.
use synode.Prelude.{String, Bool, true, false, Option, none, some, List, [], ◌∷◌, ◌≡◌, all, arith}
use synode.Domain.{is_terminal, ApprovalStatus}
use synode.Store.{
  Run, Db, find, run_key, Approval, Keeps, Keeps-pure, Keeps-bind, Keeps-modify, keeps_rules,
}
use synode.Repository.{mark_operator_request_consumed, write_request, require_request}
use synode.Service.{Session, perform, replay, record_decision, record_response, tell_decision}
use synode.Lifecycle.Frames.{
  decide_approval_frame, resolve_operator_request_frame, cancel_operator_request_frame,
  add_thread_message_frame,
}
use synode.Lifecycle.Frozen.{
  Frozen, Still, queue_for_start_frozen, mark_run_cancelled_frozen, stop_session_frozen,
  claim_queued_run_frozen, heartbeat_run_frozen, begin_execution_frozen,
}
use synode.Lifecycle.Invariant.{after-Keeps}

-- The transactions that read the status of a run before they write it. Those of an execution that
-- has begun, of creation and of recovery are left out.
abbrev pub is_guarded : Session → Bool
is_guarded (Session.queues id) = true
is_guarded (Session.decides id status word reason) = true
is_guarded (Session.responds id type message payload) = true
is_guarded (Session.cancels_request id reason) = true
is_guarded (Session.marks_cancelled id reason) = true
is_guarded (Session.stops id reason) = true
is_guarded (Session.claims id worker) = true
is_guarded (Session.beats id worker) = true
is_guarded (Session.begins id) = true
is_guarded (Session.consumes id) = true
is_guarded (Session.waits n) = true
is_guarded _ = false

module _ (j : String) (r : Run) (ended : is_terminal r.status ≡ true) where
  tell_decision_frozen :
      (run : Option Run) (a : Approval) (word : String)
      → Keeps (Still j r ended) (tell_decision run a word)
  unfolding tell_decision
  tell_decision_frozen none a word = Keeps-pure tt
  tell_decision_frozen (some run) a word = add_thread_message_frame (Frozen j r ended) _ _ _ _ _ _

  record_decision_frozen :
      (id : String) (status : ApprovalStatus) (word : String) (reason : Option String)
      → Keeps (Still j r ended) (record_decision id status word reason)
  unfolding record_decision
  record_decision_frozen id status word reason =
      search (keeps_rules, decide_approval_frame, tell_decision_frozen)

  consumed_frozen : (id : String) → Keeps (Still j r ended) (mark_operator_request_consumed id)
  unfolding mark_operator_request_consumed write_request require_request
  consumed_frozen id = Keeps-bind _ _ (search keeps_rules) (λ _. Keeps-modify _ (λ db h. h))

  perform_frozen :
      (s : Session) (db : Db)
      → is_guarded s ≡ true
      → Still j r ended db
      → Still j r ended (perform db s)
  unfolding perform record_response
  perform_frozen (Session.queues id) db g h =
      after-Keeps _ _ db (queue_for_start_frozen j r ended id) h
  perform_frozen (Session.decides id status word reason) db g h =
      after-Keeps _ _ db (record_decision_frozen _ _ _ _) h
  perform_frozen (Session.responds id type message payload) db g h =
      after-Keeps _ _ db (resolve_operator_request_frame (Frozen j r ended) _ _ _ _) h
  perform_frozen (Session.cancels_request id reason) db g h =
      after-Keeps _ _ db (cancel_operator_request_frame (Frozen j r ended) _ _) h
  perform_frozen (Session.marks_cancelled id reason) db g h =
      after-Keeps _ _ db (mark_run_cancelled_frozen j r ended _ _) h
  perform_frozen (Session.stops id reason) db g h =
      after-Keeps _ _ db (stop_session_frozen j r ended _ _) h
  perform_frozen (Session.claims id worker) db g h =
      after-Keeps _ _ db (claim_queued_run_frozen j r ended _ _) h
  perform_frozen (Session.beats id worker) db g h =
      after-Keeps _ _ db (heartbeat_run_frozen j r ended _ _) h
  perform_frozen (Session.begins id) db g h =
      after-Keeps _ _ db (begin_execution_frozen j r ended _) h
  perform_frozen (Session.consumes id) db g h = after-Keeps _ _ db (consumed_frozen _) h
  perform_frozen (Session.waits n) db g h = h
  perform_frozen (Session.creates _ _ _ _ _ _ _ _ _) db g h = cc
  perform_frozen (Session.fails _ _) db g h = cc
  perform_frozen (Session.recovers _) db g h = cc
  perform_frozen (Session.awaits _) db g h = cc
  perform_frozen (Session.settles _ _) db g h = cc
  perform_frozen (Session.interrupts _ _) db g h = cc
  perform_frozen (Session.asks_approval _ _ _ _ _ _) db g h = cc

-- A run that has ended keeps its row through any history of guarded transactions: queueing,
-- decisions, responses, cancellations, stops, claims, heartbeats and starts of an execution.
pub replay-ended :
    (history : List Session) (db : Db) (j : String) (r : Run)
    → is_terminal r.status ≡ true
    → find run_key j db.runs ≡ some r
    → all is_guarded history ≡ true
    → find run_key j (replay db history).runs ≡ some r
unfolding replay
replay-ended [] db j r ended h g = h
replay-ended (s ∷ rest) db j r ended h g =
    replay-ended rest (perform db s) j r ended (perform_frozen j r ended s db (ground (arith, g)) h)
      (ground (arith, g))
