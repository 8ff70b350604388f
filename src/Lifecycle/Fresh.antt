-- ===== src/Lifecycle/Fresh.antt =====
-- The recovery of stale runs leaves the other runs alone.
use synode.Prelude.{
  ℕ, String, Bool, true, false, ◌||◌, ◌&&◌, ◌≡◌, ◌≢◌, refl, sym, subst, ◌∙◌, some, List, [], ◌∷◌,
  All, All-mono, arith, keep_if,
}
use synode.Domain.{RunStatus, is_running, is_cancelling}
use synode.Store.{
  Run, Db, M, ok, find, run_key, find-update_ne, found_kept, Unique, Triple, Keeps, Keeps-bind,
  Keeps-pure, Triple-given, gets_rule, fact_rule, committed, keeps_rules, for_each,
}
use synode.Repository.{
  recover_stale_runs, requeue_one, cancel_stale, requeued, is_stale, write_run, with_status,
  Recovered,
}
use synode.Lifecycle.Frames.{
  OnRuns, write_run_frame, set_run_status_frame, touch_thread_frame, add_event_frame,
}
use synode.Lifecycle.Preserved.{with_status_key}

for_each-Keeps :
    {A : Type 0} {P : Db → Type 0} (C : A → Type 0) (xs : List A) (f : A → M (Unit {0}))
    → All C xs
    → ((x : A) → C x → Keeps P (f x))
    → Keeps P (for_each xs f)
unfolding for_each
for_each-Keeps C [] f h k = Keeps-pure tt
for_each-Keeps C (x ∷ xs) f h k = Keeps-bind _ _ (k x h.0) (λ _. for_each-Keeps C xs f h.1 k)

module _ (j : String) (r : Run) where
  abbrev Stays : List Run → Type 0
  Stays rows = find run_key j rows ≡ some r

  abbrev Other : Run → Type 0
  Other x = x.id ≢ j

  other_written :
      (id : String) (f : ℕ → Run → Run)
      → id ≢ j
      → ((now : ℕ) (x : Run) → run_key (f now x) ≡ run_key x)
      → Keeps (OnRuns Stays) (write_run id f)
  other_written id f n same =
      write_run_frame Stays id f
        (λ now rows h. find-update_ne run_key id (f now) (same now) j rows n ∙ h)

  requeue-Other : (x : Run) → Other x → Keeps (OnRuns Stays) (requeue_one x)
  unfolding requeue_one requeued
  requeue-Other x n =
      Keeps-bind _ _ (other_written x.id requeued n (λ now y. refl))
        (λ _. search (keeps_rules, touch_thread_frame, add_event_frame))

  cancel-Other : (x : Run) → Other x → Keeps (OnRuns Stays) (cancel_stale x)
  unfolding cancel_stale
  cancel-Other x n = Keeps-bind _ _ (other_written x.id _ n (λ now y. refl)) (λ _.
      Keeps-bind _ _
        (set_run_status_frame Stays x.id _ _ _ (λ run now rows found h.
          find-update_ne run_key x.id (with_status RunStatus.cancelled _ _ now)
            (with_status_key _ _ _ now) j rows n
          ∙ h))
        (λ _. search (keeps_rules, add_event_frame)))

  -- The rows that a query selects are others, where it does not select this one.
  selected :
      (p : Run → Bool) (rows : List Run)
      → Unique run_key rows
      → Stays rows
      → p r ≡ false
      → All Other (keep_if p rows)
  selected p rows u h off =
      All-mono _ _ (λ x e same. clash x e.0 e.1 same) (keep_if p rows) (found_kept run_key p rows u)
    where
      clash : (x : Run) → find run_key x.id rows ≡ some x → p x ≡ true → x.id ≡ j → ⊥
      clash x found on same =
          let one : some x ≡ some r =
            sym found ∙ subst (λ k. find run_key k rows ≡ some r) (sym same) h in
          let eq : x ≡ r = cc in
          let on' : p r ≡ true = subst (λ y. p y ≡ true) eq on in cc (on', off)

  recovered_others :
      (before : ℕ)
      → (is_running r.status && is_stale before r) ≡ false
      → (is_cancelling r.status && is_stale before r) ≡ false
      → Triple
          (λ db. Unique run_key db.runs × Stays db.runs)
          (recover_stale_runs before)
          (λ _. OnRuns Stays)
  unfolding recover_stale_runs
  recovered_others before a b = gets_rule _ _ _ λ running. gets_rule _ _ _ λ cancelling.
      fact_rule {F = All Other running × All Other cancelling}
        (λ db h. (
          subst (All Other) h.0.1 (selected _ db.runs h.0.0.0 h.0.0.1 a),
          subst (All Other) h.1 (selected _ db.runs h.0.0.0 h.0.0.1 b),
        ))
        λ others.
          Triple-given (λ db h. h.0.0.1)
            (Keeps-bind _ _ (for_each-Keeps Other running requeue_one others.0 requeue-Other) (λ _.
              Keeps-bind _ _ (for_each-Keeps Other cancelling cancel_stale others.1 cancel-Other)
                (λ _. Keeps-pure _)))

-- Where run keys are distinct, a run that is not stale, or that neither runs nor is being cancelled,
-- has the same row after a recovery of stale runs that commits.
pub recover_stale_runs-fresh :
    (before : ℕ) (db db' : Db) (ids : Recovered) (r : Run)
    → Unique run_key db.runs
    → find run_key r.id db.runs ≡ some r
    → ((is_running r.status || is_cancelling r.status) && is_stale before r) ≡ false
    → recover_stale_runs before db ≡ ok (ids, db')
    → find run_key r.id db'.runs ≡ some r
recover_stale_runs-fresh before db db' ids r unique found fresh e =
    committed (recovered_others r.id r before (ground (arith, fresh)) (ground (arith, fresh))) db
      ids db' (unique, found) e
