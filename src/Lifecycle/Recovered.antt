-- ===== src/Lifecycle/Recovered.antt =====
-- The recovery of stale runs keeps the run rows consistent and their keys distinct.
use synode.Prelude.{
  ℕ, String, Bool, true, not, ◌&&◌, ◌≡◌, refl, sym, ◌∙◌, none, some, List, [], ◌∷◌, inl, inr, All,
  All-mono, arith, keep_if, subst,
}
use synode.Domain.{RunStatus, is_running, is_cancelling}
use synode.Store.{
  Run, Db, find, update, find-update_cases, run_key, Triple, Keeps, Keeps-bind, Triple-bind,
  Triple-given, Keeps-pure, keeps_rules, Unique, Unique-update, found_kept, for_each_rule,
  gets_rule, All-update_found, modify,
}
use synode.Repository.{
  recover_stale_runs, requeue_one, cancel_stale, requeued, is_stale, write_run, with_status,
  stop_reason_of,
}
use synode.Lifecycle.Frames.{
  OnRuns, Writable, set_run_status_frame, touch_thread_frame, add_event_frame,
}
use synode.Lifecycle.Consistent.{
  IsConsistent, is_open_ended, requeued-IsConsistent, released-IsConsistent,
}
use synode.Lifecycle.Preserved.{AllConsistent, Good, with_status_key, stopped-Writable}

-- The run that is found with this key, if any, has a status that `p` accepts.
abbrev At : (RunStatus → Bool) → List Run → String → Type 0
At p rows id = (run : Run) → find run_key id rows ≡ some run → p run.status ≡ true

At-update :
    (p : RunStatus → Bool) (rows : List Run) (k j : String) (f : Run → Run)
    → ((r : Run) → run_key (f r) ≡ run_key r)
    → ((r : Run) → p r.status ≡ true → p (f r).status ≡ true)
    → At p rows j
    → At p (update run_key k f rows) j
At-update p rows k j f same keep h run found =
    elim (find-update_cases run_key k f same j rows run found) [
      | inl before ↦ h run before
      | inr (old, before, made) ↦ rw made (keep old (h old before))
    ]

abbrev not_running : RunStatus → Bool
not_running s = not (is_running s)

abbrev Each : (RunStatus → Bool) → List Run → List Run → Type 0
Each p queue rows = All (λ r. At p rows r.id) queue

Each-update :
    (p : RunStatus → Bool) (queue rows : List Run) (k : String) (f : Run → Run)
    → ((r : Run) → run_key (f r) ≡ run_key r)
    → ((r : Run) → p r.status ≡ true → p (f r).status ≡ true)
    → Each p queue rows
    → Each p queue (update run_key k f rows)
Each-update p queue rows k f same keep =
    All-mono _ _ (λ r. At-update p rows k r.id f same keep) queue

-- While the stale running runs are put back: those left are open-ended, and none of the stale
-- cancelling ones runs.
abbrev Requeueing : List Run → List Run → Db → Type 0
Requeueing cancelling left =
    OnRuns
      (λ rows. AllConsistent rows × Each is_open_ended left rows × Each not_running cancelling rows)

requeue_one_step :
    (cancelling : List Run) (r : Run) (left : List Run)
    → Triple (Requeueing cancelling (r ∷ left)) (requeue_one r) (λ _. Requeueing cancelling left)
unfolding requeue_one
requeue_one_step cancelling r left =
    Triple-bind (λ _. Requeueing cancelling left) (λ _. Requeueing cancelling left) _ _ written
      (λ _. search (keeps_rules, touch_thread_frame, add_event_frame))
  where
    keep :
        (now : ℕ) (rows : List Run)
        → AllConsistent rows × Each is_open_ended (r ∷ left) rows × Each not_running cancelling rows
        → AllConsistent (update run_key r.id (requeued now) rows)
          × Each is_open_ended left (update run_key r.id (requeued now) rows)
          × Each not_running cancelling (update run_key r.id (requeued now) rows)
    keep now rows ((c, u), (here, rest), others) = (
      (
        All-update_found run_key r.id (requeued now) IsConsistent rows
            (λ x found h. requeued-IsConsistent x now h (here x found)) c,
        Unique-update run_key r.id (requeued now) (same now) rows u,
      ),
      Each-update is_open_ended left rows r.id (requeued now) (same now)
          (λ x h. unfold requeued in refl) rest,
      Each-update not_running cancelling rows r.id (requeued now) (same now)
          (λ x h. unfold requeued in refl) others,
    )
      where
        same : (now : ℕ) (x : Run) → run_key (requeued now x) ≡ run_key x
        same now x = unfold requeued in refl

    written :
        Triple
          (Requeueing cancelling (r ∷ left))
          (write_run r.id requeued)
          (λ _. Requeueing cancelling left)
    written = unfold write_run modify in record { at = λ db h. keep db.now db.runs h }

-- While the stale cancelling runs are cancelled: none of those left runs.
abbrev Releasing : List Run → Db → Type 0
Releasing left = OnRuns (λ rows. AllConsistent rows × Each not_running left rows)

cancel_stale_step :
    (r : Run) (left : List Run)
    → Triple (Releasing (r ∷ left)) (cancel_stale r) (λ _. Releasing left)
unfolding cancel_stale
cancel_stale_step r left =
    Triple-bind (λ _. Releasing left) (λ _. Releasing left) _ _ released
      (λ _.
        Keeps-bind _ _ (set_run_status_frame _ r.id _ _ _ stopped)
          (λ _. search (keeps_rules, add_event_frame)))
  where
    release : ℕ → Run → Run
    release now x = record x { worker_id = none; heartbeat_at = none; updated_at = now }

    keep :
        (now : ℕ) (rows : List Run)
        → AllConsistent rows × Each not_running (r ∷ left) rows
        → AllConsistent (update run_key r.id (release now) rows)
          × Each not_running left (update run_key r.id (release now) rows)
    keep now rows ((c, u), (here, rest)) = (
      (
        All-update_found run_key r.id (release now) IsConsistent rows
            (λ x found h. released-IsConsistent x now h (ground (arith, here x found))) c,
        Unique-update run_key r.id (release now) (λ x. refl) rows u,
      ),
      Each-update not_running left rows r.id (release now) (λ x. refl) (λ x h. h) rest,
    )

    released : Triple (Releasing (r ∷ left)) (write_run r.id release) (λ _. Releasing left)
    released = unfold write_run modify in record { at = λ db h. keep db.now db.runs h }

    stopped :
        (run : Run)
        → Writable
            (λ rows. AllConsistent rows × Each not_running left rows)
            r.id
            run
            (with_status RunStatus.cancelled
              (some (stop_reason_of r.error))
              (some (stop_reason_of r.error)))
    stopped run now rows found (h, rest) = (
      stopped-Writable r.id run _ _ _ refl now rows found h,
      Each-update not_running left rows r.id (with_status RunStatus.cancelled _ _ now)
          (with_status_key _ _ _ now) (λ x h. unfold with_status in refl) rest,
    )

pub recover_stale_runs-Keeps : (before : ℕ) → Keeps Good (recover_stale_runs before)
unfolding recover_stale_runs
recover_stale_runs-Keeps before = gets_rule _ _ _ λ running. gets_rule _ _ _ λ cancelling.
    Triple-given
      (λ db h. (
        h.0.0,
        All-mono _ _ (λ r e. open_ended db.runs before r e) running
            (found db.runs _ running h.0.0.1 h.0.1),
        All-mono _ _ (λ r e. not_run db.runs before r e) cancelling
            (found db.runs _ cancelling h.0.0.1 h.1),
      ))
      (Triple-bind (λ _. Requeueing cancelling []) _ _ _
        (for_each_rule (Requeueing cancelling) requeue_one (requeue_one_step cancelling) running)
        λ _.
          Triple-bind (λ _. Releasing []) _ _ _
            (Triple-given (λ db h. (h.0, h.2))
              (for_each_rule Releasing cancel_stale cancel_stale_step cancelling))
            λ _. Triple-given (λ db h. h.0) (Keeps-pure _))
  where
    found :
        (rows : List Run) (p : Run → Bool) (kept : List Run)
        → Unique run_key rows
        → keep_if p rows ≡ kept
        → All (λ r. (find run_key r.id rows ≡ some r) × (p r ≡ true)) kept
    found rows p kept u e =
        subst (All (λ r. (find run_key r.id rows ≡ some r) × (p r ≡ true))) e
          (found_kept run_key p rows u)

    open_ended :
        (rows : List Run) (before : ℕ) (r : Run)
        → (find run_key r.id rows ≡ some r) × ((is_running r.status && is_stale before r) ≡ true)
        → At is_open_ended rows r.id
    open_ended rows before r e x same =
        let one : some r ≡ some x = sym e.0 ∙ same in
        let eq : r ≡ x = cc in subst (λ y. is_open_ended y.status ≡ true) eq (ground (arith, e.1))

    not_run :
        (rows : List Run) (before : ℕ) (r : Run)
        → (find run_key r.id rows ≡ some r) × ((is_cancelling r.status && is_stale before r) ≡ true)
        → At not_running rows r.id
    not_run rows before r e x same =
        let one : some r ≡ some x = sym e.0 ∙ same in
        let eq : r ≡ x = cc in
        subst (λ y. not (is_running y.status) ≡ true) eq (ground (arith, e.1))
