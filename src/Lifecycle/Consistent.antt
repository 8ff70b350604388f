-- ===== src/Lifecycle/Consistent.antt =====
-- The invariant of a run row: which of its columns its status allows to be set.
use synode.Prelude.{ℕ, Bool, true, false, ◌≡◌, Option, none, some, String, is_some, arith}
use synode.Domain.{RunStatus, is_terminal, is_active, is_queued, is_running}
use synode.Store.{Run}
use synode.Repository.{with_status, claimed, requeued, refuses_queue}

-- The run has not ended and does not wait for a decision.
abbrev pub is_open_ended : RunStatus → Bool
is_open_ended RunStatus.created = true
is_open_ended RunStatus.queued = true
is_open_ended RunStatus.running = true
is_open_ended RunStatus.cancelling = true
is_open_ended _ = false

pub record IsConsistent (r : Run) : Type 0 where
  pub idle : is_active r.status ≡ false → (r.worker_id ≡ none) × (r.heartbeat_at ≡ none)
  pub begun : is_active r.status ≡ true → is_some r.started_at ≡ true
  pub beating : r.status ≡ RunStatus.running → is_some r.heartbeat_at ≡ true
  pub waiting_turn : r.status ≡ RunStatus.queued → is_some r.queued_at ≡ true
  pub unfinished : is_open_ended r.status ≡ true → r.completed_at ≡ none
  pub ended : is_terminal r.status ≡ true → is_some r.completed_at ≡ true

module _ (r : Run) (now : ℕ) (h : IsConsistent r) where
  pub queued-IsConsistent :
      refuses_queue r.status ≡ false
      → is_queued r.status ≡ false
      → IsConsistent (with_status RunStatus.queued none none now r)
  unfolding with_status is_terminal is_active refuses_queue
  queued-IsConsistent g q = ground arith

  pub running-IsConsistent : IsConsistent (with_status RunStatus.running none none now r)
  unfolding with_status is_terminal is_active
  running-IsConsistent = ground arith

  pub stopped-IsConsistent :
      (status : RunStatus) (answer error : Option String)
      → is_open_ended status ≡ false
      → IsConsistent (with_status status answer error now r)
  unfolding with_status is_terminal is_active
  stopped-IsConsistent status answer error e = ground arith

  pub claimed-IsConsistent : (worker : String) → IsConsistent (claimed worker now r)
  unfolding claimed is_terminal is_active
  claimed-IsConsistent worker = ground arith

  pub requeued-IsConsistent : is_open_ended r.status ≡ true → IsConsistent (requeued now r)
  unfolding requeued is_terminal is_active
  requeued-IsConsistent e = ground arith

  pub beat-IsConsistent :
      (worker : String)
      → is_active r.status ≡ true
      → IsConsistent
          (record r { worker_id = some worker; heartbeat_at = some now; updated_at = now })
  unfolding is_active is_terminal
  beat-IsConsistent worker e = ground arith

  pub cancelling-IsConsistent :
      (reason : String)
      → is_running r.status ≡ true
      → IsConsistent
          (record r { status = RunStatus.cancelling; error = some reason; updated_at = now })
  unfolding is_active is_terminal
  cancelling-IsConsistent reason e = ground arith

  pub released-IsConsistent :
      is_running r.status ≡ false
      → IsConsistent (record r { worker_id = none; heartbeat_at = none; updated_at = now })
  unfolding is_active is_terminal
  released-IsConsistent e = ground arith
