-- ===== src/Queue/InMemory.antt =====
-- `InMemoryRunQueueTransport` of src/synode/infrastructure/runtime/queue.py: its queue and the set
-- of the runs in it. The event that wakes a worker is left out.
use synode.Prelude.{
  ℕ, suc, String, not, Option, none, some, List, [], ◌∷◌, ◌++◌, ◌==◌, if◌then◌else◌, mem_text,
  keep_if,
}
use synode.Store.{ok}
use synode.Service.{Transport}

pub record RunQueue : Type 0 where
  pub queue : List String
  pub queued : List String

abbrev pub empty_queue : RunQueue
empty_queue = record { queue = []; queued = [] }

unfoldable pub put : String → RunQueue → RunQueue
put run_id q =
    if mem_text run_id q.queued
    then q
    else record { queue = q.queue ++ run_id ∷ []; queued = run_id ∷ q.queued }

-- How many runs were passed on, and the queue.
unfoldable pub reconcile_runs : List String → RunQueue → ℕ × RunQueue
unfolding put
reconcile_runs [] q = (0, q)
reconcile_runs (run_id ∷ run_ids) q =
    let (count, q') = reconcile_runs run_ids (put run_id q) in (suc count, q')

-- A worker's slot takes the next run: `popleft`, and `discard` from the set.
unfoldable pub take_run : RunQueue → Option String × RunQueue
take_run q = elim q.queue [
  | [] ↦ (none, q)
  | run_id ∷ rest ↦
      (some run_id, record { queue = rest; queued = keep_if (λ x. not (x == run_id)) q.queued })
]

abbrev pub in_memory : Transport RunQueue
in_memory run_id q = ok (put run_id q)

pub data QueueStep : Type 0 where
  puts : String → QueueStep
  reconciles : List String → QueueStep
  takes : QueueStep

unfoldable pub step : QueueStep → RunQueue → RunQueue
unfolding put reconcile_runs take_run
step (QueueStep.puts run_id) q = put run_id q
step (QueueStep.reconciles run_ids) q = (reconcile_runs run_ids q).1
step QueueStep.takes q = (take_run q).1

unfoldable pub steps : List QueueStep → RunQueue → RunQueue
unfolding step
steps [] q = q
steps (s ∷ rest) q = steps rest (step s q)
