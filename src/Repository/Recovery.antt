-- ===== src/Repository/Recovery.antt =====
-- `recover_stale_runs` and `list_queued_run_ids` of
-- src/synode/infrastructure/persistence/repository.py.
use synode.Prelude.{
  ℕ, String, Bool, ◌&&◌, ◌||◌, Option, none, some, List, map, ◌==◌, if◌then◌else◌, keep_if, ltb,
  length,
}
use synode.Domain.{RunStatus, EventType, is_running, is_cancelling}
use synode.Store.{Run, Details, Db, M, pure, gets, ◌>>=◌, ◌>>◌, for_each}
use synode.Repository.Threads.{touch_thread, add_event}
use synode.Repository.Runs.{write_run, set_run_status}

-- The heartbeat is older than `before`, or there is none and the last change is.
unfoldable pub is_stale : ℕ → Run → Bool
is_stale before r = elim r.heartbeat_at [
  | none ↦ ltb r.updated_at before
  | some beat ↦ ltb beat before
]

unfoldable pub requeued : ℕ → Run → Run
requeued now r = record r {
  status = RunStatus.queued;
  error = some "Recovered stale running run after worker heartbeat expired.";
  worker_id = none;
  queued_at = some now;
  heartbeat_at = none;
  updated_at = now;
}

unfoldable pub requeue_one : Run → M (Unit {0})
requeue_one run = do
  write_run run.id requeued
  touch_thread run.thread_id
  add_event run.id EventType.run_queued none (Details.reason "stale_worker_recovery")

-- `run.error or "Run stopped by user."`
unfoldable pub stop_reason_of : Option String → String
stop_reason_of none = "Run stopped by user."
stop_reason_of (some error) = if error == "" then "Run stopped by user." else error

unfoldable pub cancel_stale : Run → M (Unit {0})
cancel_stale run = do
  write_run run.id (λ now r. record r { worker_id = none; heartbeat_at = none; updated_at = now })
  set_run_status run.id RunStatus.cancelled (some (stop_reason_of run.error))
      (some (stop_reason_of run.error))
  add_event run.id EventType.run_cancelled none (Details.stale_reason (stop_reason_of run.error))

pub record Recovered : Type 0 where
  pub requeued_run_ids : List String
  pub cancelled_run_ids : List String

-- The stale runs of the two statuses are read before any of them is written.
unfoldable pub recover_stale_runs : ℕ → M Recovered
recover_stale_runs before = do
  running ← gets (λ db. keep_if (λ r. is_running r.status && is_stale before r) db.runs)
  cancelling ← gets (λ db. keep_if (λ r. is_cancelling r.status && is_stale before r) db.runs)
  for_each running requeue_one
  for_each cancelling cancel_stale
  pure (record {
    requeued_run_ids = map (λ r. r.id) running;
    cancelled_run_ids = map (λ r. r.id) cancelling;
  })

-- The counter that the runtime status shows.
unfoldable pub count_stale_running_runs : ℕ → Db → ℕ
unfolding is_stale
count_stale_running_runs before db =
    length
      (keep_if (λ r. (is_running r.status || is_cancelling r.status) && is_stale before r) db.runs)
