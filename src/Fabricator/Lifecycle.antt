-- ===== src/Fabricator/Lifecycle.antt =====
-- The statuses of a fabricator run and the commands that they allow:
-- src/synode/fabricator/lifecycle.py, with the commands of src/synode/fabricator/fabricator.py and the
-- statuses that src/synode/fabricator/council.py sets. A run is what `run.json` holds.
use synode.Prelude.{
  ℕ, String, Bool, true, false, not, ◌&&◌, Option, none, some, List, if◌then◌else◌,
}
use synode.Policy.{is_empty}

pub data FabricatorPhase : Type 0 where
  expert challenge review : FabricatorPhase

pub data FabricatorStatus : Type 0 where
  started prompts_rendered expert_dispatch_ready expert_agents_started : FabricatorStatus
  expert_responses_collected synthesis_ready challenge_prompts_rendered : FabricatorStatus
  challenge_dispatch_ready challenge_agents_started challenge_responses_collected : FabricatorStatus
  decision_ready implementation_ready review_dispatch_ready review_agent_started : FabricatorStatus
  review_responses_collected completed blocked cancelled : FabricatorStatus

pub data Command : Type 0 where
  dispatch_experts synthesize dispatch_challenge : Command
  mark_decision_ready mark_implementation_ready dispatch_review finalize : Command
  validate_responses : FabricatorPhase → Command

pub data AgentStatus : Type 0 where
  expected started completed failed : AgentStatus

pub data FailureKind : Type 0 where
  failed_agent invalid_response missing_response overdue_agent : FailureKind

pub record Agent : Type 0 where
  pub phase : FabricatorPhase
  pub expert_id : String
  pub status : AgentStatus

pub record Failure : Type 0 where
  pub phase : FabricatorPhase
  pub expert_id : String
  pub kind : FailureKind

-- The fields that the life cycle reads; `checks` holds, of each resource check, the number of agents
-- that it projected.
pub record FabricatorRun : Type 0 where
  pub status : FabricatorStatus
  pub plan_only : Bool
  pub challenge_required : Bool
  pub navigation_required : Bool
  pub navigation_ready : Bool
  pub review_blockers : List String
  pub failures : List Failure
  pub agents : List Agent
  pub checks : List ℕ

-- `status in TERMINAL_STATUSES`
unfoldable pub is_final : FabricatorStatus → Bool
is_final FabricatorStatus.completed = true
is_final FabricatorStatus.blocked = true
is_final FabricatorStatus.cancelled = true
is_final _ = false

-- `status in COMMAND_ALLOWED_STATUSES[command]`
unfoldable pub allows : Command → FabricatorStatus → Bool
allows Command.dispatch_experts FabricatorStatus.started = true
allows (Command.validate_responses FabricatorPhase.expert) FabricatorStatus.expert_dispatch_ready =
    true
allows (Command.validate_responses FabricatorPhase.expert) FabricatorStatus.expert_agents_started =
    true
allows Command.synthesize FabricatorStatus.expert_responses_collected = true
allows Command.dispatch_challenge FabricatorStatus.synthesis_ready = true
allows (Command.validate_responses FabricatorPhase.challenge)
      FabricatorStatus.challenge_dispatch_ready =
    true
allows (Command.validate_responses FabricatorPhase.challenge)
      FabricatorStatus.challenge_agents_started =
    true
allows Command.mark_decision_ready FabricatorStatus.synthesis_ready = true
allows Command.mark_decision_ready FabricatorStatus.challenge_responses_collected = true
allows Command.mark_implementation_ready FabricatorStatus.decision_ready = true
allows Command.dispatch_review FabricatorStatus.decision_ready = true
allows Command.dispatch_review FabricatorStatus.implementation_ready = true
allows (Command.validate_responses FabricatorPhase.review) FabricatorStatus.review_dispatch_ready =
    true
allows (Command.validate_responses FabricatorPhase.review) FabricatorStatus.review_agent_started =
    true
allows (Command.validate_responses FabricatorPhase.review)
      FabricatorStatus.review_responses_collected =
    true
allows Command.finalize FabricatorStatus.decision_ready = true
allows Command.finalize FabricatorStatus.review_responses_collected = true
allows Command.finalize FabricatorStatus.implementation_ready = true
allows command status = false

-- `status in AGENT_START_ALLOWED_STATUSES[phase]`
unfoldable pub allows_agents : FabricatorPhase → FabricatorStatus → Bool
allows_agents FabricatorPhase.expert FabricatorStatus.expert_dispatch_ready = true
allows_agents FabricatorPhase.expert FabricatorStatus.expert_agents_started = true
allows_agents FabricatorPhase.challenge FabricatorStatus.challenge_dispatch_ready = true
allows_agents FabricatorPhase.challenge FabricatorStatus.challenge_agents_started = true
allows_agents FabricatorPhase.review FabricatorStatus.review_dispatch_ready = true
allows_agents FabricatorPhase.review FabricatorStatus.review_agent_started = true
allows_agents FabricatorPhase.review FabricatorStatus.review_responses_collected = true
allows_agents phase status = false

-- What a `FabricatorError` reports.
pub data Refusal : Type 0 where
  terminal wrong_status no_such_agent too_many_agents too_little_memory : Refusal
  unresolved_blockers not_ready : Refusal

-- `ensure_command_allowed`
unfoldable pub ensure_command_allowed : FabricatorRun → Command → Option Refusal
unfolding is_final allows
ensure_command_allowed run command =
    if is_final run.status
    then some Refusal.terminal
    else if allows command run.status
    then none
    else some Refusal.wrong_status

-- The command that the status alone suggests, in `build_next_action`.
unfoldable pub status_command : FabricatorRun → FabricatorStatus → Option Command
status_command run FabricatorStatus.started =
    if run.navigation_required && not run.navigation_ready
    then none
    else some Command.dispatch_experts
status_command run FabricatorStatus.expert_agents_started =
    some (Command.validate_responses FabricatorPhase.expert)
status_command run FabricatorStatus.expert_responses_collected = some Command.synthesize
status_command run FabricatorStatus.synthesis_ready =
    if run.challenge_required then some Command.dispatch_challenge else none
status_command run FabricatorStatus.challenge_agents_started =
    some (Command.validate_responses FabricatorPhase.challenge)
status_command run FabricatorStatus.decision_ready =
    if run.plan_only then some Command.finalize else none
status_command run FabricatorStatus.implementation_ready = some Command.dispatch_review
status_command run FabricatorStatus.review_agent_started =
    some (Command.validate_responses FabricatorPhase.review)
status_command run FabricatorStatus.review_responses_collected = some Command.finalize
status_command run status = none

-- The command of the guide that `build_next_action` returns; `failures` is its argument.
unfoldable pub build_next_action : FabricatorRun → List Failure → Option Command
unfolding status_command
build_next_action run failures =
    if not (is_empty failures)
    then none
    else if not (is_empty run.review_blockers)
    then none
    else status_command run run.status

-- An operation answers, and leaves what `run.json` then holds; without a refusal it is done.
abbrev pub Operation : Type 0
Operation = FabricatorRun → Option Refusal × FabricatorRun

abbrev pub guarded : Option Refusal → FabricatorRun → FabricatorRun → Option Refusal × FabricatorRun
guarded (some refusal) before after = (some refusal, before)
guarded none before after = (none, after)

-- `mark_decision_ready` behind the checks of its evidence, and `mark_implementation_ready`.
unfoldable pub mark_ready : Command → FabricatorStatus → Operation
unfolding ensure_command_allowed
mark_ready command status run =
    guarded (ensure_command_allowed run command) run (record run { status = status })

-- What `finalize_run` is asked for: ready for human review, or to end as blocked or cancelled.
pub data FinalResult : Type 0 where
  ready_for_human_review blocked cancelled : FinalResult

abbrev pub final_status : FinalResult → FabricatorStatus
final_status FinalResult.ready_for_human_review = FabricatorStatus.completed
final_status FinalResult.blocked = FabricatorStatus.blocked
final_status FinalResult.cancelled = FabricatorStatus.cancelled

unfoldable pub finalize_guard : FinalResult → FabricatorRun → Option Refusal
unfolding ensure_command_allowed is_final
finalize_guard FinalResult.ready_for_human_review run =
    elim (ensure_command_allowed run Command.finalize) [
      | some refusal ↦ some refusal
      | none ↦ if is_empty run.review_blockers then none else some Refusal.unresolved_blockers
    ]
finalize_guard other run = if is_final run.status then some Refusal.terminal else none

unfoldable pub finalize_run : FinalResult → Operation
unfolding finalize_guard
finalize_run result run =
    guarded (finalize_guard result run) run (record run { status = final_status result })
