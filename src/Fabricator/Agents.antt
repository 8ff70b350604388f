-- ===== src/Fabricator/Agents.antt =====
-- The agents of a fabricator run and the guard on how many may be active: the agent events of
-- src/synode/fabricator/lifecycle.py, `record_check` of src/synode/fabricator/resource_guard.py, and
-- `agent_started`, the rendering of prompts and `dispatch_challenge` of src/synode/fabricator/fabricator.py.
use synode.Prelude.{
  ℕ, suc, ◌+◌, String, Bool, true, false, not, ◌&&◌, Option, none, some, List, [], ◌∷◌, ◌++◌, ◌==◌,
  if◌then◌else◌, length, ltb, keep_if, is_some,
}
use synode.Fabricator.Lifecycle.{
  FabricatorPhase, FabricatorStatus, Command, AgentStatus, FailureKind, Agent, Failure,
  FabricatorRun, Refusal, Operation, is_final, allows_agents, ensure_command_allowed,
}

abbrev same_phase : FabricatorPhase → FabricatorPhase → Bool
same_phase FabricatorPhase.expert FabricatorPhase.expert = true
same_phase FabricatorPhase.challenge FabricatorPhase.challenge = true
same_phase FabricatorPhase.review FabricatorPhase.review = true
same_phase _ _ = false

-- The agent of `run["agents"][phase][expert_id]`.
abbrev pub is_agent : FabricatorPhase → String → Agent → Bool
is_agent phase id a = same_phase a.phase phase && a.expert_id == id

unfoldable pub find_agent : FabricatorPhase → String → List Agent → Option Agent
find_agent phase id [] = none
find_agent phase id (a ∷ agents) =
    if is_agent phase id a then some a else find_agent phase id agents

unfoldable pub set_agent : FabricatorPhase → String → AgentStatus → List Agent → List Agent
set_agent phase id status [] = []
set_agent phase id status (a ∷ agents) =
    let rest = set_agent phase id status agents in
    if is_agent phase id a then record a { status = status } ∷ agents else a ∷ rest

abbrev pub is_started : AgentStatus → Bool
is_started AgentStatus.started = true
is_started _ = false

-- `len(list_active_agents(run))`
unfoldable pub count_active : List Agent → ℕ
count_active [] = 0
count_active (a ∷ agents) =
    let rest = count_active agents in if is_started a.status then suc rest else rest

-- `del checks[:-20]`
unfoldable pub keep_last : ℕ → List ℕ → List ℕ
keep_last limit [] = []
keep_last limit (c ∷ checks) =
    let rest = keep_last limit checks in if ltb (length checks) limit then c ∷ checks else rest

abbrev pub history_limit : ℕ
history_limit = 20

-- `effective_policy(run)` and the memory that the machine has.
pub record Policy : Type 0 where
  pub max_active_agents : ℕ
  pub min_available_memory_mb : ℕ
  pub available_memory_mb : ℕ

unfoldable pub record_check : Policy → ℕ → Operation
unfolding count_active keep_last
record_check policy new_agents run =
    let projected = count_active run.agents + new_agents in
    if ltb policy.max_active_agents projected
    then (some Refusal.too_many_agents, run)
    else if ltb policy.available_memory_mb policy.min_available_memory_mb
    then (some Refusal.too_little_memory, run)
    else (none, record run { checks = keep_last history_limit (run.checks ++ projected ∷ []) })

-- `ensure_agent_event_allowed` and `ensure_expected_agent`
unfoldable pub ensure_agent_event : FabricatorPhase → String → FabricatorRun → Option Refusal
unfolding is_final allows_agents find_agent
ensure_agent_event phase id run =
    if is_final run.status
    then some Refusal.terminal
    else if not (allows_agents phase run.status)
    then some Refusal.wrong_status
    else if is_some (find_agent phase id run.agents)
    then none
    else some Refusal.no_such_agent

abbrev pub phase_status : FabricatorPhase → FabricatorStatus
phase_status FabricatorPhase.expert = FabricatorStatus.expert_agents_started
phase_status FabricatorPhase.challenge = FabricatorStatus.challenge_agents_started
phase_status FabricatorPhase.review = FabricatorStatus.review_agent_started

-- The agents that a start adds to the active ones.
abbrev pub newly_active : Option Agent → ℕ
newly_active none = 1
newly_active (some a) = if is_started a.status then 0 else 1

unfoldable pub mark_started : FabricatorPhase → String → FabricatorRun → FabricatorRun
unfolding set_agent
mark_started phase id run = record run {
  status = phase_status phase;
  agents = set_agent phase id AgentStatus.started run.agents;
}

abbrev pub then_do :
    (FabricatorRun → FabricatorRun)
    → Option Refusal × FabricatorRun
    → Option Refusal × FabricatorRun
then_do f (some refusal, run) = (some refusal, run)
then_do f (none, run) = (none, f run)

-- A check that is refused raises before `run.json` is written.
unfoldable pub agent_started : Policy → FabricatorPhase → String → Operation
unfolding ensure_agent_event record_check mark_started find_agent
agent_started policy phase id run = elim (ensure_agent_event phase id run) [
  | some refusal ↦ (some refusal, run)
  | none ↦
      then_do (mark_started phase id)
        (record_check policy (newly_active (find_agent phase id run.agents)) run)
]

abbrev same_kind : FailureKind → FailureKind → Bool
same_kind FailureKind.failed_agent FailureKind.failed_agent = true
same_kind FailureKind.invalid_response FailureKind.invalid_response = true
same_kind FailureKind.missing_response FailureKind.missing_response = true
same_kind FailureKind.overdue_agent FailureKind.overdue_agent = true
same_kind _ _ = false

abbrev is_cleared : FabricatorPhase → String → Failure → Bool
is_cleared phase id f =
    same_phase f.phase phase && f.expert_id == id && not (same_kind f.kind FailureKind.failed_agent)

-- `clear_agent_failures`, with the three kinds that a completion clears.
unfoldable pub clear_agent_failures : FabricatorPhase → String → List Failure → List Failure
clear_agent_failures phase id failures = keep_if (λ f. not (is_cleared phase id f)) failures

abbrev pub failure : FabricatorPhase → String → FailureKind → Failure
failure phase id kind = record { phase = phase; expert_id = id; kind = kind }

-- The flag: the two files of the response exist. Where one is missing, the failure is recorded.
unfoldable pub agent_completed : Bool → FabricatorPhase → String → Operation
unfolding ensure_agent_event set_agent clear_agent_failures
agent_completed files phase id run = elim (ensure_agent_event phase id run) [
  | some refusal ↦ (some refusal, run)
  | none ↦
      if files
      then (
        none,
        record run {
          agents = set_agent phase id AgentStatus.completed run.agents;
          failures = clear_agent_failures phase id run.failures;
        },
      )
      else (
        some Refusal.not_ready,
        record run {
          failures = run.failures ++ failure phase id FailureKind.missing_response ∷ [];
        },
      )
]

unfoldable pub agent_failed : FabricatorPhase → String → Operation
unfolding ensure_agent_event set_agent
agent_failed phase id run = elim (ensure_agent_event phase id run) [
  | some refusal ↦ (some refusal, run)
  | none ↦ (
    none,
    record run {
      agents = set_agent phase id AgentStatus.failed run.agents;
      failures = run.failures ++ failure phase id FailureKind.failed_agent ∷ [];
    },
  )
]

-- `register_dispatch` of agents that are expected: those of the dispatch replace the earlier ones.
abbrev pub expect : FabricatorPhase → String → Agent
expect phase id = record { phase = phase; expert_id = id; status = AgentStatus.expected }

unfoldable pub register_dispatch : FabricatorPhase → List String → List Agent → List Agent
unfolding find_agent set_agent
register_dispatch phase [] agents = agents
register_dispatch phase (id ∷ ids) agents =
    let added =
      if is_some (find_agent phase id agents)
      then set_agent phase id AgentStatus.expected agents
      else agents ++ expect phase id ∷ [] in
    register_dispatch phase ids added

-- `render_prompts` and `render_challenge_prompts` where the prompts can be rendered: neither asks a
-- guard.
unfoldable pub render_prompts : Operation
render_prompts run = (none, record run { status = FabricatorStatus.prompts_rendered })

unfoldable pub render_challenge_prompts : Operation
render_challenge_prompts run = (
  none,
  record run { challenge_required = true; status = FabricatorStatus.challenge_prompts_rendered },
)

-- `dispatch_challenge` where its prompts can be rendered. They are rendered before the guard is
-- asked, and with them the status is written; a refusal leaves it so.
unfoldable pub dispatch_challenge : Policy → List String → Operation
unfolding ensure_command_allowed record_check register_dispatch
dispatch_challenge policy ids run = elim (ensure_command_allowed run Command.dispatch_challenge) [
  | some refusal ↦ (some refusal, run)
  | none ↦
      then_do
        (λ r. record r {
          status = FabricatorStatus.challenge_dispatch_ready;
          agents = register_dispatch FabricatorPhase.challenge ids r.agents;
        })
        (record_check policy 0 (record run {
          challenge_required = true;
          status = FabricatorStatus.challenge_prompts_rendered;
        }))
]
