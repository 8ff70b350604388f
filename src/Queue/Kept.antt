-- ===== src/Queue/Kept.antt =====
-- The invariant of the run queue in memory.
use synode.Prelude.{
  String, true, false, not, ◌≡◌, refl, ◌∙◌, ap, List, [], ◌∷◌, ◌==◌, eq_iff, eq_refl, mem_text,
  keep_if, Distinct, mem_text-append, mem_text-other, Distinct-append, Bool-cases, inl, inr, arith,
}
use synode.Queue.InMemory.{
  RunQueue, empty_queue, put, reconcile_runs, take_run, QueueStep, step, steps,
}

-- No run is queued twice, and the set holds just the runs that are queued.
pub record IsKept (q : RunQueue) : Type 0 where
  pub distinct : Distinct q.queue
  pub same : (x : String) → mem_text x q.queue ≡ mem_text x q.queued

pub put-IsKept : (run_id : String) (q : RunQueue) → IsKept q → IsKept (put run_id q)
unfolding put
put-IsKept run_id q h = elim (Bool-cases (mem_text run_id q.queued)) [
  | inl e ↦ rw e h
  | inr e ↦ rw e (record {
    distinct = Distinct-append q.queue run_id h.distinct (h.same run_id ∙ e);
    same = λ x. rw (mem_text-append x q.queue (run_id ∷ []), h.same x) (ground arith);
  })
]

reconcile_runs-IsKept :
    (ids : List String) (q : RunQueue) → IsKept q → IsKept (reconcile_runs ids q).1
unfolding reconcile_runs
reconcile_runs-IsKept [] q h = h
reconcile_runs-IsKept (id ∷ ids) q h = reconcile_runs-IsKept ids (put id q) (put-IsKept id q h)

take_run-IsKept : (q : RunQueue) → IsKept q → IsKept (take_run q).1
unfolding take_run
take_run-IsKept q h = go q.queue q.queued h.distinct h.same
  where
    still :
        (x y : String) (rest queued : List String)
        → mem_text x rest ≡ false
        → mem_text y (x ∷ rest) ≡ mem_text y queued
        → mem_text y rest ≡ mem_text y (keep_if (λ z. not (z == x)) queued)
    still x y rest queued absent s = elim (Bool-cases (y == x)) [
      | inl e ↦
          let gone : mem_text y rest ≡ false =
            ap (λ z. mem_text z rest) ((eq_iff y x).0 e) ∙ absent in
          rw (mem_text-other y x queued, e, gone) (ground arith)
      | inr e ↦
          let there : mem_text y rest ≡ mem_text y queued = ground (arith, s, e) in
          rw (mem_text-other y x queued, e, there) (ground arith)
    ]

    go :
        (queue queued : List String)
        → Distinct queue
        → ((x : String) → mem_text x queue ≡ mem_text x queued)
        → IsKept (take_run (record { queue = queue; queued = queued })).1
    go [] queued d s = record { distinct = d; same = s }
    go (x ∷ rest) queued d s = record {
      distinct = d.1;
      same = λ y. still x y rest queued d.0 (s y);
    }

step-IsKept : (s : QueueStep) (q : RunQueue) → IsKept q → IsKept (step s q)
unfolding step
step-IsKept (QueueStep.puts id) q h = put-IsKept id q h
step-IsKept (QueueStep.reconciles ids) q h = reconcile_runs-IsKept ids q h
step-IsKept QueueStep.takes q h = take_run-IsKept q h

-- From the empty queue, any sequence of calls leaves a queue in which no run is twice, and a set
-- that holds just the queued runs.
pub steps-IsKept : (calls : List QueueStep) → IsKept (steps calls empty_queue)
unfolding steps
steps-IsKept calls = go calls empty_queue (record { distinct = tt; same = λ x. refl })
  where
    go : (calls : List QueueStep) (q : RunQueue) → IsKept q → IsKept (steps calls q)
    go [] q h = h
    go (s ∷ rest) q h = go rest (step s q) (step-IsKept s q h)

pub put-mem_text : (id : String) (q : RunQueue) → IsKept q → mem_text id (put id q).queue ≡ true
unfolding put
put-mem_text id q h = elim (Bool-cases (mem_text id q.queued)) [
  | inl e ↦ rw e (h.same id ∙ e)
  | inr e ↦ rw e (rw (mem_text-append id q.queue (id ∷ []), eq_refl) (ground arith))
]
