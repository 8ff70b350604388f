-- ===== src/Samples.antt =====
-- Rows that the examples of several modules run on.
use synode.Prelude.{none, some, [], ◌∷◌}
use synode.Domain.{RunStatus, RunMode, InteractionMode, ThreadStatus}
use synode.Store.{Db, Thread, Run}

abbrev pub empty_db : Db
empty_db = record {
  now = 10;
  threads = [];
  runs = [];
  messages = [];
  events = [];
  approvals = [];
  requests = [];
  audits = [];
}

abbrev pub thread_row : Thread
thread_row = record { id = "t"; title = "Fix it"; status = ThreadStatus.active; updated_at = 1 }

abbrev pub run_with : RunStatus → Run
run_with status = record {
  id = "r";
  thread_id = "t";
  status = status;
  mode = RunMode.coding;
  interaction_mode = InteractionMode.auto;
  task = "Fix it";
  workspace = none;
  model_provider = "fake";
  final_answer = none;
  error = none;
  worker_id = none;
  queued_at = some 2;
  started_at = none;
  completed_at = none;
  heartbeat_at = none;
  created_at = 1;
  updated_at = 2;
}

-- A thread with one run that runs.
abbrev pub running_db : Db
running_db = record empty_db { threads = thread_row ∷ []; runs = run_with RunStatus.running ∷ [] }
