-- ===== src/Queue/Examples.antt =====
-- Calls of the run queue in memory, and its theorems at them.
use synode.Prelude.{true, ◌≡◌, refl, none, List, [], ◌∷◌, mem_text}
use synode.Domain.{RunStatus, RunMode, InteractionMode, ThreadStatus, is_terminal, is_active}
use synode.Store.{Run, Thread, find, ◌>>=◌, when}
use synode.Repository.{
  enqueue_run, set_run_status, write_run, require_run, touch_thread, require_thread, write_thread,
  add_event, refuses_queue,
}
use synode.Service.{World, start_run, queue_for_start}
use synode.Queue.InMemory.{RunQueue, QueueStep, empty_queue, in_memory, steps}
use synode.Queue.Kept.{IsKept, steps-IsKept}
use synode.Queue.Started.{Queued, start_run-Queued}

abbrev calls : List QueueStep
calls =
    QueueStep.puts "a"
    ∷ QueueStep.reconciles ("b" ∷ "a" ∷ [])
    ∷ QueueStep.takes
    ∷ QueueStep.puts "a"
    ∷ []

calls_example : (steps calls empty_queue).queue ≡ "b" ∷ "a" ∷ []
unfolding steps
calls_example = refl

steps-IsKept_example : IsKept (steps calls empty_queue)
steps-IsKept_example = steps-IsKept calls

abbrev thread_row : Thread
thread_row = record { id = "t"; title = "Fix it"; status = ThreadStatus.active; updated_at = 1 }

abbrev run_row : Run
run_row = record {
  id = "r";
  thread_id = "t";
  status = RunStatus.created;
  mode = RunMode.coding;
  interaction_mode = InteractionMode.auto;
  task = "Fix it";
  workspace = none;
  model_provider = "fake";
  final_answer = none;
  error = none;
  worker_id = none;
  queued_at = none;
  started_at = none;
  completed_at = none;
  heartbeat_at = none;
  created_at = 1;
  updated_at = 1;
}

abbrev world : World RunQueue
world = record {
  db = record {
    now = 10;
    threads = thread_row ∷ [];
    runs = run_row ∷ [];
    messages = [];
    events = [];
    approvals = [];
    requests = [];
    audits = [];
  };
  outside = empty_queue;
}

abbrev started_world : World RunQueue
started_world = (start_run in_memory "r" world).1

start_run-Queued_example :
    Queued "r" started_world.db.runs
    × (mem_text "r" started_world.outside.queue ≡ true)
    × IsKept started_world.outside
unfolding start_run queue_for_start ◌>>=◌ require_run find is_terminal is_active enqueue_run
    refuses_queue when set_run_status write_run touch_thread require_thread write_thread add_event
start_run-Queued_example =
    start_run-Queued "r" world started_world (record { distinct = tt; same = λ x. refl }) refl
