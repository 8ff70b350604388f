-- ===== src/Fabricator/Advised.antt =====
-- What the statuses of a fabricator run promise.
use synode.Prelude.{
  Bool, true, false, not, ◌&&◌, ◌≡◌, refl, Option, none, some, List, Bool-cases, subst, inl, inr,
  if◌then◌else◌,
}
use synode.Policy.{is_empty}
use synode.Fabricator.Lifecycle.{
  FabricatorStatus, Command, Failure, FabricatorRun, is_final, allows, ensure_command_allowed,
  status_command, build_next_action,
}

-- A command, where there is one, is allowed in the status.
abbrev Fits : FabricatorStatus → Option Command → Type 0
Fits status none = Unit
Fits status (some command) = (is_final status ≡ false) × (allows command status ≡ true)

Fits-if :
    (status : FabricatorStatus) (b : Bool) (yes_command no_command : Option Command)
    → Fits status yes_command
    → Fits status no_command
    → Fits status (if b then yes_command else no_command)
Fits-if status true c d f g = f
Fits-if status false c d f g = g

status_command-Fits :
    (run : FabricatorRun) (status : FabricatorStatus) → Fits status (status_command run status)
unfolding status_command is_final allows
status_command-Fits run FabricatorStatus.started =
    Fits-if FabricatorStatus.started (run.navigation_required && not run.navigation_ready) none
      (some Command.dispatch_experts) tt (refl, refl)
status_command-Fits run FabricatorStatus.synthesis_ready =
    Fits-if FabricatorStatus.synthesis_ready run.challenge_required
      (some Command.dispatch_challenge) none (refl, refl) tt
status_command-Fits run FabricatorStatus.decision_ready =
    Fits-if FabricatorStatus.decision_ready run.plan_only (some Command.finalize) none (refl, refl)
      tt
status_command-Fits run FabricatorStatus.expert_agents_started = (refl, refl)
status_command-Fits run FabricatorStatus.expert_responses_collected = (refl, refl)
status_command-Fits run FabricatorStatus.challenge_agents_started = (refl, refl)
status_command-Fits run FabricatorStatus.implementation_ready = (refl, refl)
status_command-Fits run FabricatorStatus.review_agent_started = (refl, refl)
status_command-Fits run FabricatorStatus.review_responses_collected = (refl, refl)
status_command-Fits run FabricatorStatus.prompts_rendered = tt
status_command-Fits run FabricatorStatus.expert_dispatch_ready = tt
status_command-Fits run FabricatorStatus.challenge_prompts_rendered = tt
status_command-Fits run FabricatorStatus.challenge_dispatch_ready = tt
status_command-Fits run FabricatorStatus.challenge_responses_collected = tt
status_command-Fits run FabricatorStatus.review_dispatch_ready = tt
status_command-Fits run FabricatorStatus.completed = tt
status_command-Fits run FabricatorStatus.blocked = tt
status_command-Fits run FabricatorStatus.cancelled = tt

-- Where the guide of a run names a command, whatever failures it was asked about, the table of commands
-- and statuses allows that command in the status of the run.
pub build_next_action-ensure_command_allowed :
    (run : FabricatorRun) (failures : List Failure) (command : Command)
    → build_next_action run failures ≡ some command
    → ensure_command_allowed run command ≡ none
unfolding build_next_action ensure_command_allowed
build_next_action-ensure_command_allowed run failures command h =
    elim (Bool-cases (is_empty failures)) [
      | inr f ↦ let gone : none ≡ some command = rw f at h in cc
      | inl f ↦ elim (Bool-cases (is_empty run.review_blockers)) [
        | inr r ↦ let gone : none ≡ some command = rw (f, r) at h in cc
        | inl r ↦
            let same : status_command run run.status ≡ some command = rw (f, r) at h in
            let (open_run, allowed) =
              subst (Fits run.status) same (status_command-Fits run run.status) in
            rw (open_run, allowed) refl
      ]
    ]
