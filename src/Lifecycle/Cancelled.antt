-- ===== src/Lifecycle/Cancelled.antt =====
-- What `_mark_run_cancelled` of src/synode/application/orchestration.py achieves: it commits, and
-- nothing that it has to end stays pending.
use synode.Prelude.{
  String, Bool, false, ◌&&◌, ◌==◌, ◌≡◌, refl, sym, subst, Option, some, List, [], ◌∷◌, map, arith,
  is_blank, is_blank-append,
}
use synode.Domain.{
  RunStatus, ApprovalStatus, EventType, ThreadMessageAuthorType, ThreadMessageType, is_terminal,
  is_pending, is_open,
}
use synode.Store.{
  Run, Thread, Approval, OperatorRequest, Details, Db, M, find, run_key, thread_key, approval_key,
  request_key, Unique, find-key, find-update_self, Left, Left-start, Left-end, Left-step, Returns,
  Returns-mono, Total, Total-bind, Total-gets, Total-found, Total-modify, Total-pass, Total-given,
  Total-for_each, when, gets, ◌>>=◌,
}
use synode.Repository.{
  touch_thread, require_thread, write_thread, add_thread_message, add_event, require_run, write_run,
  set_run_status, with_status, reject_pending_approvals, reject_one, pending_approvals,
  write_approval, decided, cancel_pending_operator_requests, cancel_one, open_requests,
  write_request, request_cancelled,
}
use synode.Service.{mark_run_cancelled, cancel_now}

abbrev waits : String → Approval → Bool
waits id a = a.run_id == id && is_pending a.status

abbrev asks : String → OperatorRequest → Bool
asks id q = q.run_id == id && is_open q.status

-- The thread exists, `R` holds of the runs, and `J` of the approvals and requests.
record Scene (t : String) (R : List Run → Type 0)
    (J : List Approval → List OperatorRequest → Type 0) (db : Db) : Type 0 where
  row : R db.runs
  thread : Thread
  there : find thread_key t db.threads ≡ some thread
  holds : J db.approvals db.requests

abbrev Row : Run → List Run → Type 0
Row run rows = find run_key run.id rows ≡ some run

module _ (t : String) (R : List Run → Type 0)
    (J : List Approval → List OperatorRequest → Type 0) where
  abbrev Keeps : {A : Type 0} → M A → Type 0
  Keeps m = Total (Scene t R J) m (λ _. Scene t R J)

  touch_scene : Keeps (touch_thread t)
  unfolding touch_thread require_thread write_thread ◌>>=◌ gets
  touch_scene = record {
    at = λ db s. rw s.there (record {
      row = s.row;
      thread = record s.thread { updated_at = db.now };
      there =
          find-update_self thread_key t (λ x. record x { updated_at = db.now }) (λ x. refl)
            db.threads s.thread s.there;
      holds = s.holds;
    });
  }

  event_scene :
      (id : String) (type : EventType) (role : Option String) (d : Details)
      → Keeps (add_event id type role d)
  unfolding add_event
  event_scene id type role d =
      Total-modify _ _
        (λ db s. record { row = s.row; thread = s.thread; there = s.there; holds = s.holds })

  message_scene :
      (by : ThreadMessageAuthorType) (name : String) (type : ThreadMessageType) (content : String)
      (id : Option String)
      → is_blank content ≡ false
      → Keeps (add_thread_message t by name type content id)
  unfolding add_thread_message
  message_scene by name type content id b = Total-pass _ _ _ _ b (
      Total-bind (λ _. Scene t R J) _ _ _
        (Total-modify (Scene t R J) _
          (λ db s. record { row = s.row; thread = s.thread; there = s.there; holds = s.holds }))
        (λ _. touch_scene))

-- The rows that the two loops have left, by their keys.
abbrev Waiting : String → List String → List Approval → Type 0
Waiting id left = Left approval_key (waits id) left

abbrev Asking : String → List String → List OperatorRequest → Type 0
Asking id left = Left request_key (asks id) left

module _ (run : Run) (reason : Option String) (K : List OperatorRequest → Type 0) where
  abbrev Rejecting : List Approval → Db → Type 0
  Rejecting left =
      Scene run.thread_id (Row run)
        (λ approvals requests. Waiting run.id (map approval_key left) approvals × K requests)

  reject_step :
      (a : Approval) (left : List Approval)
      → Total (Rejecting (a ∷ left)) (reject_one reason a) (λ _. Rejecting left)
  unfolding reject_one write_approval decided
  reject_step a left =
      Total-bind (λ _. Rejecting left) _ _ _
        (Total-modify (Rejecting left) _ (λ db s. record {
          row = s.row;
          thread = s.thread;
          there = s.there;
          holds = (
            Left-step approval_key (waits run.id) a.id (map approval_key left)
                (decided ApprovalStatus.rejected reason db.now) (λ r. ground arith) (λ r. refl)
                db.approvals s.holds.0,
            s.holds.1,
          );
        }))
        (λ _. event_scene run.thread_id (Row run) _ _ _ _ _)

  reject_all :
      Total
        (Scene run.thread_id
          (Row run)
          (λ approvals requests. Unique approval_key approvals × K requests))
        (reject_pending_approvals run.id reason)
        (λ _. Rejecting [])
  unfolding reject_pending_approvals pending_approvals
  reject_all = Total-gets _ _ _ λ left.
      Total-given
        (λ db (s, e). record {
          row = s.row;
          thread = s.thread;
          there = s.there;
          holds = (
            subst (λ rows. Waiting run.id (map approval_key rows) db.approvals) e
                (Left-start approval_key (waits run.id) db.approvals s.holds.0),
            s.holds.1,
          );
        })
        (Total-for_each Rejecting (reject_one reason) reject_step left)

module _ (run : Run) (reason : Option String) (H : List Approval → Type 0) where
  abbrev Cancelling : List OperatorRequest → Db → Type 0
  Cancelling left =
      Scene run.thread_id (Row run)
        (λ approvals requests. H approvals × Asking run.id (map request_key left) requests)

  cancel_step :
      (q : OperatorRequest) (left : List OperatorRequest)
      → Total (Cancelling (q ∷ left)) (cancel_one reason q) (λ _. Cancelling left)
  unfolding cancel_one write_request request_cancelled
  cancel_step q left =
      Total-bind (λ _. Cancelling left) _ _ _
        (Total-modify (Cancelling left) _ (λ db s. record {
          row = s.row;
          thread = s.thread;
          there = s.there;
          holds = (
            s.holds.0,
            Left-step request_key (asks run.id) q.id (map request_key left)
                (request_cancelled reason db.now) (λ r. ground arith) (λ r. refl) db.requests
                s.holds.1,
          );
        }))
        (λ _. event_scene run.thread_id (Row run) _ _ _ _ _)

  cancel_all :
      Total
        (Scene run.thread_id
          (Row run)
          (λ approvals requests. H approvals × Unique request_key requests))
        (cancel_pending_operator_requests run.id reason)
        (λ _. Cancelling [])
  unfolding cancel_pending_operator_requests open_requests
  cancel_all = Total-gets _ _ _ λ left.
      Total-given
        (λ db (s, e). record {
          row = s.row;
          thread = s.thread;
          there = s.there;
          holds = (
            s.holds.0,
            subst (λ rows. Asking run.id (map request_key rows) db.requests) e
                (Left-start request_key (asks run.id) db.requests s.holds.1),
          );
        })
        (Total-for_each Cancelling (cancel_one reason) cancel_step left)

-- The run of this id is cancelled.
record Ended (id : String) (rows : List Run) : Type 0 where
  row : Run
  at : find run_key id rows ≡ some row
  status : row.status ≡ RunStatus.cancelled

module _ (run : Run) (J : List Approval → List OperatorRequest → Type 0) where
  Ended-written :
      (answer error : Option String)
      → Total
          (Scene run.thread_id (Row run) J)
          (write_run run.id (with_status RunStatus.cancelled answer error))
          (λ _. Scene run.thread_id (Ended run.id) J)
  unfolding write_run with_status
  Ended-written answer error = Total-modify _ _ (λ db s. record {
    row = record {
      row = with_status RunStatus.cancelled answer error db.now run;
      at =
          find-update_self run_key run.id (with_status RunStatus.cancelled answer error db.now)
            (λ r. refl) db.runs run s.row;
      status = refl;
    };
    thread = s.thread;
    there = s.there;
    holds = s.holds;
  })

  Ended-status :
      (answer error : Option String)
      → Total
          (Scene run.thread_id (Row run) J)
          (set_run_status run.id RunStatus.cancelled answer error)
          (λ _. Scene run.thread_id (Ended run.id) J)
  unfolding set_run_status require_run
  Ended-status answer error =
      Total-found _ _ _ run _ (λ db s. s.row)
        (Total-bind (λ _. Scene run.thread_id (Ended run.id) J) _ _ _ (Ended-written answer error)
          (λ _. touch_scene run.thread_id (Ended run.id) J))

-- Nothing of the run is pending.
abbrev Done : String → List Approval → List OperatorRequest → Type 0
Done id approvals requests = Waiting id [] approvals × Asking id [] requests

cancel_now_total :
    (run : Run) (reason : String)
    → Total
        (Scene run.thread_id
          (Row run)
          (λ approvals requests. Unique approval_key approvals × Unique request_key requests))
        (cancel_now run reason)
        (λ _. Scene run.thread_id (Ended run.id) (Done run.id))
unfolding cancel_now is_blank
cancel_now_total run reason =
    Total-bind (λ _. Rejecting run (some reason) (Unique request_key) []) _ _ _
      (reject_all run (some reason) (Unique request_key))
      λ _.
        Total-bind (λ _. Cancelling run (some reason) (Waiting run.id []) []) _ _ _
          (cancel_all run (some reason) (Waiting run.id []))
          λ _.
            Total-bind (λ _. Scene run.thread_id (Ended run.id) (Done run.id)) _ _ _
              (Ended-status run (Done run.id) (some reason) (some reason))
              λ _.
                Total-bind (λ _. Scene run.thread_id (Ended run.id) (Done run.id)) _ _ _
                  (event_scene run.thread_id (Ended run.id) (Done run.id) _ _ _ _)
                  λ _.
                    message_scene run.thread_id (Ended run.id) (Done run.id) _ _ _ _ _
                      (rw (is_blank-append "Run cancelled: " reason) refl)

-- The run has ended as cancelled, and nothing of it is pending.
pub record IsCancelled (id : String) (db : Db) : Type 0 where
  pub row : Run
  pub at : find run_key id db.runs ≡ some row
  pub status : row.status ≡ RunStatus.cancelled
  pub no_approvals : pending_approvals id db ≡ []
  pub no_requests : open_requests id db ≡ []

Scene-IsCancelled : (id t : String) (db : Db) → Scene t (Ended id) (Done id) db → IsCancelled id db
unfolding pending_approvals open_requests
Scene-IsCancelled id t db s = record {
  row = s.row.row;
  at = s.row.at;
  status = s.row.status;
  no_approvals = Left-end approval_key (waits id) db.approvals s.holds.0.1;
  no_requests = Left-end request_key (asks id) db.requests s.holds.1.1;
}

mark_run_cancelled_total :
    (run : Run) (reason : String)
    → is_terminal run.status ≡ false
    → Total
        (Scene run.thread_id
          (Row run)
          (λ approvals requests. Unique approval_key approvals × Unique request_key requests))
        (mark_run_cancelled run.id reason)
        (λ _. Scene run.thread_id (Ended run.id) (Done run.id))
unfolding mark_run_cancelled require_run when
mark_run_cancelled_total run reason going =
    Total-found _ _ _ run _ (λ db s. s.row) (rw going (cancel_now_total run reason))

-- Where the run has not ended and its thread exists, and keys are distinct, marking it cancelled
-- commits: the run has then ended as cancelled, and no approval and no operator request of it is
-- pending.
pub mark_run_cancelled-IsCancelled :
    (id reason : String) (db : Db) (run : Run) (thread : Thread)
    → find run_key id db.runs ≡ some run
    → is_terminal run.status ≡ false
    → find thread_key run.thread_id db.threads ≡ some thread
    → Unique approval_key db.approvals
    → Unique request_key db.requests
    → Returns (λ _. IsCancelled id) (mark_run_cancelled id reason db)
mark_run_cancelled-IsCancelled id reason db run thread found going there approvals requests =
    let same : run.id ≡ id = find-key run_key id db.runs run found in
    subst (λ j. Returns (λ _. IsCancelled j) (mark_run_cancelled j reason db)) same
      (Returns-mono _ _ _ (λ _ db' s. Scene-IsCancelled run.id run.thread_id db' s)
        ((mark_run_cancelled_total run reason going).at db (record {
          row = subst (λ j. find run_key j db.runs ≡ some run) (sym same) found;
          thread = thread;
          there = there;
          holds = (approvals, requests);
        })))
