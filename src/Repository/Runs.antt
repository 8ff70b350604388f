-- ===== src/Repository/Runs.antt =====
-- The run rows of src/synode/infrastructure/persistence/repository.py: creation, status changes,
-- the queue and its claims, heartbeats and cancellation requests.
use synode.Prelude.{
  ℕ, String, Bool, not, ◌&&◌, ◌||◌, Option, none, some, [], ◌∷◌, ◌++◌, ◌==◌, ◌⊹◌, if◌then◌else◌,
  ltb, or_else, is_some, length, keep_if,
}
use synode.Domain.{
  RunStatus, RunMode, InteractionMode, ThreadMessageAuthorType, ThreadMessageType, EventType,
  is_terminal, is_active, is_queued, is_cancelling, is_waiting_approval, is_waiting_operator,
  is_pending, is_open,
}
use synode.Store.{
  Run, Details, Db, Error, M, pure, gets, or_raise, modify, raise_if, when, ◌>>=◌, ◌>>◌, find,
  update, run_key, Thread,
}
use synode.Repository.Threads.{
  thread_title, require_thread, create_thread, touch_thread, add_thread_message, add_event,
}

-- `get_run` and the `LookupError` where it returns None
unfoldable pub require_run : String → M Run
require_run id = do
  found ← gets (λ db. find run_key id db.runs)
  or_raise found (Error.run_not_found id)

-- Assignments to the object that `get_run` returned, at the time `now`.
unfoldable pub write_run : String → (ℕ → Run → Run) → M (Unit {0})
write_run id f = modify (λ db. record db { runs = update run_key id (f db.now) db.runs })

-- The thread that a run is created in: the one named, or a new one with the id `fresh`.
unfoldable pub thread_for_run : Option String → String → String → M Thread
thread_for_run none fresh task = create_thread fresh (thread_title task)
thread_for_run (some id) fresh task = require_thread id

-- A second row with one primary key is refused by the database.
unfoldable pub insert_run : Run → M (Unit {0})
insert_run run = do
  taken ← gets (λ db. is_some (find run_key run.id db.runs))
  raise_if taken (Error.duplicate_key run.id)
  modify (λ db. record db { runs = db.runs ++ run ∷ [] })

-- The row that `create_run` inserts, with the columns' defaults.
unfoldable pub new_run :
    String → String → String → String → Option String → RunMode → InteractionMode → ℕ → Run
new_run id thread_id task provider workspace mode interaction now = record {
  id = id;
  thread_id = thread_id;
  status = RunStatus.created;
  mode = mode;
  interaction_mode = interaction;
  task = task;
  workspace = workspace;
  model_provider = provider;
  final_answer = none;
  error = none;
  worker_id = none;
  queued_at = none;
  started_at = none;
  completed_at = none;
  heartbeat_at = none;
  created_at = now;
  updated_at = now;
}

-- `create_run`; `fresh_thread` and `id` are what `new_id()` returned.
unfoldable pub create_run :
    String
    → String
    → String
    → String
    → Option String
    → RunMode
    → InteractionMode
    → Option String
    → Bool
    → M Run
create_run fresh_thread id task provider workspace mode interaction thread_id record_user_message =
    do
      thread ← thread_for_run thread_id fresh_thread task
      now ← gets (λ db. db.now)
      let run = new_run id thread.id task provider workspace mode interaction now
      insert_run run
      when record_user_message (
          add_thread_message thread.id ThreadMessageAuthorType.user "user" ThreadMessageType.text
            task (some id))
      add_event id EventType.run_created none (Details.task task)
      pure run

-- The ladder of `set_run_status`: which times a status sets, and which it clears.
unfoldable pub stamp : RunStatus → ℕ → Run → Run
stamp RunStatus.queued now r = record r { queued_at = some now; completed_at = none }
stamp RunStatus.running now r = record r {
  started_at = some (or_else r.started_at now);
  heartbeat_at = some now;
  completed_at = none;
}
stamp RunStatus.waiting_approval now r = record r { worker_id = none; heartbeat_at = none }
stamp RunStatus.waiting_operator now r = record r { worker_id = none; heartbeat_at = none }
stamp RunStatus.completed now r = record r {
  worker_id = none;
  heartbeat_at = none;
  completed_at = some now;
}
stamp RunStatus.failed now r = record r {
  worker_id = none;
  heartbeat_at = none;
  completed_at = some now;
}
stamp RunStatus.failed_verification now r = record r {
  worker_id = none;
  heartbeat_at = none;
  completed_at = some now;
}
stamp RunStatus.cancelled now r = record r {
  worker_id = none;
  heartbeat_at = none;
  completed_at = some now;
}
stamp RunStatus.created now r = r
stamp RunStatus.cancelling now r = r

-- `if value is not None: field = value`
abbrev keep_unless : Option String → Option String → Option String
keep_unless none old = old
keep_unless (some new) old = some new

unfoldable pub with_status : RunStatus → Option String → Option String → ℕ → Run → Run
unfolding stamp
with_status status final_answer error now r =
    let s = stamp status now (record r { status = status; updated_at = now }) in
    record s {
      final_answer = keep_unless final_answer s.final_answer;
      error = keep_unless error s.error;
    }

unfoldable pub set_run_status : String → RunStatus → Option String → Option String → M (Unit {0})
set_run_status id status final_answer error = do
  run ← require_run id
  write_run id (with_status status final_answer error)
  touch_thread run.thread_id

-- `count_approvals(run_id, status=PENDING)`
unfoldable pub count_pending_approvals : String → Db → ℕ
count_pending_approvals run_id db =
    length (keep_if (λ a. a.run_id == run_id && is_pending a.status) db.approvals)

-- `count_operator_requests(run_id, status=PENDING)`
unfoldable pub count_open_requests : String → Db → ℕ
count_open_requests run_id db =
    length (keep_if (λ q. q.run_id == run_id && is_open q.status) db.requests)

-- The statuses that `enqueue_run` refuses.
unfoldable pub refuses_queue : RunStatus → Bool
unfolding is_terminal is_active
refuses_queue s = is_active s || is_terminal s

unfoldable pub enqueue_run : String → M (Unit {0})
enqueue_run id = do
  run ← require_run id
  raise_if (refuses_queue run.status) (Error.cannot_queue id)
  approvals ← gets (count_pending_approvals id)
  raise_if (is_waiting_approval run.status && ltb 0 approvals) (Error.has_pending_approvals id)
  requests ← gets (count_open_requests id)
  raise_if (is_waiting_operator run.status && ltb 0 requests) (Error.has_pending_requests id)
  when (not (is_queued run.status)) (do
    set_run_status id RunStatus.queued none none
    add_event id EventType.run_queued none Details.nothing)

-- The row that a claim leaves.
unfoldable pub claimed : String → ℕ → Run → Run
claimed worker now r = record r {
  status = RunStatus.running;
  worker_id = some worker;
  started_at = some now;
  completed_at = none;
  heartbeat_at = some now;
  updated_at = now;
}

-- `SELECT … WHERE id = run_id AND status = 'queued'`
unfoldable pub queued_run : String → Db → Option Run
queued_run id db = elim (find run_key id db.runs) [
  | none ↦ none
  | some r ↦ if is_queued r.status then some r else none
]

unfoldable pub claim_found : String → String → Option Run → M (Option Run)
claim_found id worker none = pure none
claim_found id worker (some r) = do
  write_run id (claimed worker)
  touch_thread r.thread_id
  now ← gets (λ db. db.now)
  pure (some (claimed worker now r))

unfoldable pub claim_queued_run : String → String → M (Option Run)
claim_queued_run id worker = do found ← gets (queued_run id); claim_found id worker found

-- The column `updated_at` is set by the database (`onupdate`) where an update does not name it.
unfoldable pub heartbeat_run : String → String → M (Unit {0})
heartbeat_run id worker = do
  run ← require_run id
  when (is_active run.status) (
      write_run id
        (λ now r. record r { worker_id = some worker; heartbeat_at = some now; updated_at = now }))

unfoldable pub request_run_cancellation : String → String → M (Unit {0})
request_run_cancellation id reason = do
  run ← require_run id
  when (not (is_cancelling run.status)) (do
    write_run id
        (λ now r. record r { status = RunStatus.cancelling; error = some reason; updated_at = now })
    touch_thread run.thread_id
    add_event id EventType.run_cancelling none (Details.reason reason)
    add_thread_message run.thread_id ThreadMessageAuthorType.system "runtime"
        ThreadMessageType.run_report ("Run cancelling: " ⊹ reason) (some id))
