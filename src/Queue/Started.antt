-- ===== src/Queue/Started.antt =====
-- `start_run` of src/synode/application/orchestration.py over the run queue in memory.
use synode.Prelude.{String, true, not, ◌≡◌, refl, ap, subst, none, some, List, mem_text, arith}
use synode.Domain.{RunStatus, is_queued}
use synode.Store.{
  Run, Db, Error, Result, ok, err, find, run_key, find-update_self, Triple, Triple-bind,
  Triple-given, Triple-if, committed, Keeps-gets, Keeps-raise_if, Keeps-pure, raise_if_rule,
  then_rule, when, modify,
}
use synode.Repository.{enqueue_run, set_run_status, with_status, write_run, require_run}
use synode.Service.{queue_for_start, start_run, World}
use synode.Lifecycle.Frames.{
  OnRuns, OnFound, require_run_rule, require_run_frame, touch_thread_frame, add_event_frame,
}
use synode.Queue.InMemory.{RunQueue, in_memory, put}
use synode.Queue.Kept.{IsKept, put-IsKept, put-mem_text}

-- The run of this id is queued.
pub record Queued (id : String) (rows : List Run) : Type 0 where
  pub row : Run
  pub at : find run_key id rows ≡ some row
  pub status : row.status ≡ RunStatus.queued

abbrev Any : List Run → Type 0
Any rows = Unit {0}

queued_written :
    (id : String) (run : Run)
    → Triple
        (OnFound Any id run)
        (write_run id (with_status RunStatus.queued none none))
        (λ _. OnRuns (Queued id))
unfolding write_run with_status modify
queued_written id run = record {
  at = λ db h. record {
    row = with_status RunStatus.queued none none db.now run;
    at =
        find-update_self run_key id (with_status RunStatus.queued none none db.now) (λ r. refl)
          db.runs run h.1;
    status = refl;
  };
}

set_queued :
    (id : String)
    → Triple (OnRuns Any) (set_run_status id RunStatus.queued none none) (λ _. OnRuns (Queued id))
unfolding set_run_status
set_queued id =
    Triple-bind (OnFound Any id) (λ _. OnRuns (Queued id)) _ _ (require_run_rule Any id)
      λ run.
        Triple-bind (λ _. OnRuns (Queued id)) (λ _. OnRuns (Queued id)) _ _ (queued_written id run)
          (λ _. touch_thread_frame (Queued id) run.thread_id)

is_queued-queued : (s : RunStatus) → is_queued s ≡ true → s ≡ RunStatus.queued
is_queued-queued s e = ground arith

enqueue_run-Queued : (id : String) → Triple (OnRuns Any) (enqueue_run id) (λ _. OnRuns (Queued id))
unfolding enqueue_run when
enqueue_run-Queued id =
    Triple-bind (OnFound Any id) (λ _. OnRuns (Queued id)) (require_run id) _
      (require_run_rule Any id)
      λ run. raise_if_rule _ _ _ _ λ accepted. then_rule _ _ _ (Keeps-gets _) λ approvals.
        then_rule _ _ _ (Keeps-raise_if _ _) λ _. then_rule _ _ _ (Keeps-gets _) λ requests.
          then_rule _ _ _ (Keeps-raise_if _ _) λ _.
            Triple-if (λ _. OnRuns (Queued id)) (not (is_queued run.status)) _ _
              (λ fresh.
                Triple-given (λ db h. tt)
                  (Triple-bind (λ _. OnRuns (Queued id)) _ _ _ (set_queued id)
                    (λ _. add_event_frame (Queued id) _ _ _ _)))
              (λ already.
                Triple-given
                  (λ db h. record {
                    row = run;
                    at = h.1;
                    status = is_queued-queued run.status (ground (arith, already));
                  })
                  (Keeps-pure tt))

queue_for_start-Queued :
    (id : String) → Triple (OnRuns Any) (queue_for_start id) (λ _. OnRuns (Queued id))
unfolding queue_for_start
queue_for_start-Queued id =
    then_rule _ _ _ (require_run_frame Any id)
      λ run. raise_if_rule _ _ _ _ λ going. raise_if_rule _ _ _ _ λ idle. enqueue_run-Queued id

err-ok : {A : Type 0} (x : Error) (a : A) → err x ≡ ok a → ⊥
err-ok x a e = cc

module _ (id : String) (w w' : World RunQueue) (kept : IsKept w.outside) where
  abbrev world : Db → World RunQueue
  world db = record { db = db; outside = put id w.outside }

  started :
      (r : Result (Unit {0} × Db))
      → queue_for_start id w.db ≡ r
      → start_run in_memory id w ≡ (ok tt, w')
      → Queued id w'.db.runs × (mem_text id w'.outside.queue ≡ true) × IsKept w'.outside
  unfolding start_run
  started (ok (u, db)) eq e =
      let made : (ok tt, world db) ≡ (ok tt, w') = rw eq at e in
      subst (λ v. Queued id v.db.runs × (mem_text id v.outside.queue ≡ true) × IsKept v.outside)
        (ap (λ p. p.1) made)
        (
          committed (queue_for_start-Queued id) w.db u db tt eq,
          put-mem_text id w.outside kept,
          put-IsKept id w.outside kept,
        )
  started (err x) eq e =
      let failed : (err x, w) ≡ (ok tt, w') = rw eq at e in
      absurd (err-ok x tt (ap (λ p. p.0) failed))

-- Where starting a run succeeds, the run's row is queued and the run is in the queue, which still
-- holds no run twice.
pub start_run-Queued :
    (id : String) (w w' : World RunQueue)
    → IsKept w.outside
    → start_run in_memory id w ≡ (ok tt, w')
    → Queued id w'.db.runs × (mem_text id w'.outside.queue ≡ true) × IsKept w'.outside
start_run-Queued id w w' kept e = started id w w' kept (queue_for_start id w.db) refl e
