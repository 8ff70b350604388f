-- ===== src/Lifecycle/Once.antt =====
-- What does not happen again: a claimed run is not claimed before it is put back into the queue, and a
-- decided approval gets no second decision.
use synode.Prelude.{String, true, false, ◌≡◌, refl, Option, none, some, List, is_some, any, all}
use synode.Domain.{RunStatus, ApprovalStatus, is_pending, EventType}
use synode.Store.{
  Run, Approval, Db, Error, ok, err, find, run_key, approval_key, find-update_self, Triple, Keeps,
  Triple-bind, Triple-given, Triple-post, committed, gets_rule, Keeps-modify, keeps_rules,
  lookup_rule, raise_if_rule, pure, modify, ◌>>=◌,
}
use synode.Repository.{
  claim_queued_run, claim_found, queued_run, claimed, write_run, decide_approval, decided,
  require_approval, write_approval, add_event,
}
use synode.Lifecycle.Frames.{OnRuns, touch_thread_frame}
use synode.Lifecycle.Frozen.{queued_found}
use synode.Service.{Session, replay}
use synode.Lifecycle.Outlasts.{puts_back, is_decisive, replay_on}
use synode.Lifecycle.Lasting.{
  Unqueued, Unqueued-Carries, Unqueued-Reopens, Settled, Settled-Carries, Settled-Requeues,
}

-- The run of this id runs for this worker.
pub record Owned (id worker : String) (rows : List Run) : Type 0 where
  pub row : Run
  pub at : find run_key id rows ≡ some row
  pub running : row.status ≡ RunStatus.running
  pub owner : row.worker_id ≡ some worker

module _ (id worker : String) where
  claim_written :
      (run : Run)
      → Triple
          (λ db. find run_key id db.runs ≡ some run)
          (write_run id (claimed worker))
          (λ _. OnRuns (Owned id worker))
  unfolding write_run modify claimed
  claim_written run = record {
    at = λ db h. record {
      row = claimed worker db.now run;
      at = find-update_self run_key id (claimed worker db.now) (λ r. refl) db.runs run h;
      running = refl;
      owner = refl;
    };
  }

  claim_found-Owned :
      (found : Option Run)
      → Triple
          (λ db. queued_run id db ≡ found)
          (claim_found id worker found)
          (λ result db. is_some result ≡ true → OnRuns (Owned id worker) db)
  unfolding claim_found pure
  claim_found-Owned none =
      Triple-post (λ result _. result ≡ none) _ (λ result db e s. cc) (record { at = λ db h. refl })
  claim_found-Owned (some run) =
      Triple-given (λ db h. (queued_found id db run h).0)
        (Triple-post (λ _. OnRuns (Owned id worker)) _ (λ result db o s. o)
          (Triple-bind (λ _. OnRuns (Owned id worker)) _ _ _ (claim_written run)
            (λ _. search (keeps_rules, touch_thread_frame))))

  claim_Owned :
      Triple
        (λ db. Unit {0})
        (claim_queued_run id worker)
        (λ result db. is_some result ≡ true → OnRuns (Owned id worker) db)
  unfolding claim_queued_run
  claim_Owned = gets_rule _ _ _ (λ found. Triple-given (λ db h. h.1) (claim_found-Owned found))

Unqueued-unclaimed :
    (id other : String) (db : Db)
    → Unqueued id db.runs db.approvals
    → claim_queued_run id other db ≡ ok (none, db)
unfolding claim_queued_run claim_found queued_run ◌>>=◌
Unqueued-unclaimed id other db (r, e, h) = rw (queued_run, e, h) refl

-- A worker that claims a run owns it; and after any history that neither queues a run nor recovers
-- stale ones, a claim of that run, by whichever worker, gets nothing and changes nothing.
pub claim_queued_run-once :
    (id worker other : String) (db db' : Db) (run : Run) (history : List Session)
    → claim_queued_run id worker db ≡ ok (some run, db')
    → any puts_back history ≡ false
    → Owned id worker db'.runs
      × (claim_queued_run id other (replay db' history) ≡ ok (none, replay db' history))
claim_queued_run-once id worker other db db' run history e quiet =
    let owned = committed (claim_Owned id worker) db (some run) db' tt e refl in
    (
      owned,
      Unqueued-unclaimed id other (replay db' history) (
          replay_on (Unqueued id) (Unqueued-Carries id) history db' (λ d. Unqueued-Reopens id)
            (λ q. cc) (owned.row, owned.at, rw owned.running refl)),
    )

-- The approval of this id has this status.
pub record Has (id : String) (status : ApprovalStatus) (db : Db) : Type 0 where
  pub row : Approval
  pub at : find approval_key id db.approvals ≡ some row
  pub settled : row.status ≡ status

decision_written :
    (id : String) (status : ApprovalStatus) (reason : Option String) (a : Approval)
    → Triple
        (λ db. find approval_key id db.approvals ≡ some a)
        (write_approval id (decided status reason))
        (λ _. Has id status)
unfolding write_approval modify decided
decision_written id status reason a = record {
  at = λ db h. record {
    row = decided status reason db.now a;
    at =
        find-update_self approval_key id (decided status reason db.now) (λ r. refl) db.approvals a
          h;
    settled = refl;
  };
}

event_Has :
    (id : String) (status : ApprovalStatus) (run : String) (type : EventType) (role : Option String)
    (d : _)
    → Keeps (Has id status) (add_event run type role d)
unfolding add_event
event_Has id status run type role d =
    Keeps-modify _ (λ db h. record { row = h.row; at = h.at; settled = h.settled })

decide_Has :
    (id : String) (status : ApprovalStatus) (reason : Option String)
    → Triple (λ db. Unit {0}) (decide_approval id status reason) (λ _. Has id status)
unfolding decide_approval require_approval
decide_Has id status reason =
    Triple-bind (λ a db. Unit × (find approval_key id db.approvals ≡ some a)) _ _ _
      (lookup_rule _ _)
      λ a. raise_if_rule _ _ _ _ λ pending.
        Triple-bind (λ _. Has id status) _ _ _
          (Triple-given (λ db h. h.1) (decision_written id status reason a))
          (λ _. search (keeps_rules, event_Has))

Settled-refused :
    (id : String) (later : ApprovalStatus) (other : Option String) (db : Db)
    → Settled id db.runs db.approvals
    → decide_approval id later other db ≡ err (Error.approval_already_decided id)
unfolding decide_approval require_approval ◌>>=◌
Settled-refused id later other db (a, e, h) = rw (e, h) refl

-- After a decision other than pending is recorded on an approval, and any history in which no
-- decision returns an approval to pending, a decision on it is refused.
pub decide_approval-once :
    (id : String) (status later : ApprovalStatus) (reason other : Option String) (db db' : Db)
    (a : Approval) (history : List Session)
    → is_pending status ≡ false
    → decide_approval id status reason db ≡ ok (a, db')
    → all is_decisive history ≡ true
    → decide_approval id later other (replay db' history) ≡ err (Error.approval_already_decided id)
decide_approval-once id status later reason other db db' a history decisive e decisions =
    let h = committed (decide_Has id status reason) db a db' tt e in
    Settled-refused id later other (replay db' history) (
      replay_on (Settled id) (Settled-Carries id) history db' (λ d. cc) (λ q. Settled-Requeues id)
        (h.row, h.at, rw h.settled decisive))
