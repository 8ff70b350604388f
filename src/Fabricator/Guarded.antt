-- ===== src/Fabricator/Guarded.antt =====
-- Sequences of operations on a fabricator run, and what those of them that ask a guard do not do: leave
-- a terminal status.
use synode.Prelude.{String, Bool, true, false, Option, List, [], ◌∷◌}
use synode.Fabricator.Lifecycle.{
  FabricatorPhase, FabricatorStatus, Command, FabricatorRun, Refusal, FinalResult, Operation,
  mark_ready, finalize_run,
}
use synode.Fabricator.Agents.{
  Policy, agent_started, agent_completed, agent_failed, dispatch_challenge, render_prompts,
  render_challenge_prompts,
}

-- The operations, one after another.
pub data FabricatorStep : Type 0 where
  marks : Command → FabricatorStatus → FabricatorStep
  finalizes : FinalResult → FabricatorStep
  starts fails : FabricatorPhase → String → FabricatorStep
  completes : Bool → FabricatorPhase → String → FabricatorStep
  challenges : List String → FabricatorStep
  renders renders_challenge : FabricatorStep

-- The operations that ask a guard: all but the rendering of prompts.
abbrev pub is_guarded : FabricatorStep → Bool
is_guarded FabricatorStep.renders = false
is_guarded FabricatorStep.renders_challenge = false
is_guarded step = true

module _ (policy : Policy) where
  unfoldable pub perform : FabricatorStep → Operation
  unfolding mark_ready finalize_run agent_started agent_completed agent_failed dispatch_challenge
      render_prompts render_challenge_prompts
  perform (FabricatorStep.marks command status) run = mark_ready command status run
  perform (FabricatorStep.finalizes result) run = finalize_run result run
  perform (FabricatorStep.starts phase id) run = agent_started policy phase id run
  perform (FabricatorStep.fails phase id) run = agent_failed phase id run
  perform (FabricatorStep.completes files phase id) run = agent_completed files phase id run
  perform (FabricatorStep.challenges ids) run = dispatch_challenge policy ids run
  perform FabricatorStep.renders run = render_prompts run
  perform FabricatorStep.renders_challenge run = render_challenge_prompts run

  unfoldable pub replay : List FabricatorStep → FabricatorRun → FabricatorRun
  unfolding perform
  replay [] run = run
  replay (step ∷ steps) run = replay steps (perform step run).1

  -- What the operations answer, in order.
  unfoldable pub answers : List FabricatorStep → FabricatorRun → List (Option Refusal)
  unfolding perform
  answers [] run = []
  answers (step ∷ steps) run = (perform step run).0 ∷ answers steps (perform step run).1
