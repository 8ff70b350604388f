-- ===== src/Fabricator/Examples.antt =====
-- A fabricator run with two agents, and the theorems at it.
use synode.Prelude.{ℕ, String, true, false, ◌≡◌, refl, none, List, [], ◌∷◌, arith}
use synode.Fabricator.Lifecycle.{
  FabricatorPhase, FabricatorStatus, Command, AgentStatus, Agent, FabricatorRun,
  ensure_command_allowed, build_next_action, status_command,
}
use synode.Fabricator.Agents.{Policy, dispatch_challenge, count_active}
use synode.Fabricator.Advised.{build_next_action-ensure_command_allowed}
use synode.Fabricator.Guarded.{FabricatorStep, replay}
use synode.Fabricator.Bounded.{IsBounded, replay-IsBounded}
use synode.Fabricator.Stranded.{NothingAllowed, dispatch_challenge-strands}

abbrev agent : String → Agent
agent id = record { phase = FabricatorPhase.expert; expert_id = id; status = AgentStatus.expected }

abbrev run_in : FabricatorStatus → FabricatorRun
run_in status = record {
  status = status;
  plan_only = false;
  challenge_required = true;
  navigation_required = false;
  navigation_ready = false;
  review_blockers = [];
  failures = [];
  agents = agent "security" ∷ agent "testing" ∷ agent "storage" ∷ [];
  checks = [];
}

abbrev policy : ℕ → Policy
policy memory = record {
  max_active_agents = 2;
  min_available_memory_mb = 4096;
  available_memory_mb = memory;
}

abbrev steps : List FabricatorStep
steps =
    FabricatorStep.starts FabricatorPhase.expert "security"
    ∷ FabricatorStep.starts FabricatorPhase.expert "testing"
    ∷ FabricatorStep.starts FabricatorPhase.expert "storage"
    ∷ FabricatorStep.completes true FabricatorPhase.expert "testing"
    ∷ []

replay-IsBounded_example :
    IsBounded
      (policy 8000)
      (replay (policy 8000) steps (run_in FabricatorStatus.expert_dispatch_ready))
unfolding count_active
replay-IsBounded_example =
    replay-IsBounded (policy 8000) steps (run_in FabricatorStatus.expert_dispatch_ready)
      (record { active = omega arith; remembered = omega arith })

-- The rendering of prompts takes a run out of a terminal status.
rendered_example :
    (replay (policy 8000) (FabricatorStep.renders ∷ []) (run_in FabricatorStatus.cancelled)).status
    ≡ FabricatorStatus.prompts_rendered
unfolding replay
rendered_example = refl

build_next_action-ensure_command_allowed_example :
    ensure_command_allowed (run_in FabricatorStatus.synthesis_ready) Command.dispatch_challenge
    ≡ none
unfolding build_next_action status_command
build_next_action-ensure_command_allowed_example =
    build_next_action-ensure_command_allowed (run_in FabricatorStatus.synthesis_ready) []
      Command.dispatch_challenge refl

dispatch_challenge-strands_example :
    NothingAllowed
      (policy 100)
      ("security" ∷ [])
      (run_in FabricatorStatus.synthesis_ready)
      Command.dispatch_challenge
      (dispatch_challenge (policy 100) ("security" ∷ []) (run_in FabricatorStatus.synthesis_ready))
dispatch_challenge-strands_example =
    dispatch_challenge-strands (policy 100) ("security" ∷ [])
      (run_in FabricatorStatus.synthesis_ready) Command.dispatch_challenge refl
