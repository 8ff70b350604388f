-- ===== src/Fabricator/Stranded.antt =====
-- A challenge that the guard refuses to dispatch.
use synode.Prelude.{String, true, false, ◌≡◌, refl, sym, subst, Option, none, some, List}
use synode.Fabricator.Lifecycle.{
  FabricatorPhase, FabricatorStatus, Command, FabricatorRun, Refusal, is_final, allows,
  ensure_command_allowed,
}
use synode.Fabricator.Agents.{Policy, record_check, then_do, dispatch_challenge}
use synode.Fabricator.Bounded.{Checked, record_check-Checked}

rendered_allows :
    (command : Command) → allows command FabricatorStatus.challenge_prompts_rendered ≡ false
unfolding allows
rendered_allows Command.dispatch_experts = refl
rendered_allows Command.synthesize = refl
rendered_allows Command.dispatch_challenge = refl
rendered_allows Command.mark_decision_ready = refl
rendered_allows Command.mark_implementation_ready = refl
rendered_allows Command.dispatch_review = refl
rendered_allows Command.finalize = refl
rendered_allows (Command.validate_responses FabricatorPhase.expert) = refl
rendered_allows (Command.validate_responses FabricatorPhase.challenge) = refl
rendered_allows (Command.validate_responses FabricatorPhase.review) = refl

module _ (policy : Policy) (ids : List String) (run : FabricatorRun) (command : Command) where
  abbrev pub NothingAllowed : Option Refusal × FabricatorRun → Type 0
  NothingAllowed (none, run') = Unit
  NothingAllowed (some refusal, run') =
      ensure_command_allowed run' command ≡ some Refusal.wrong_status

  rendered_nothing :
      (run' : FabricatorRun)
      → run'.status ≡ FabricatorStatus.challenge_prompts_rendered
      → ensure_command_allowed run' command ≡ some Refusal.wrong_status
  unfolding ensure_command_allowed is_final
  rendered_nothing run' e = rw (e, rendered_allows command) refl

  refused_nothing :
      (f : FabricatorRun → FabricatorRun) (rendered : FabricatorRun)
      (r : Option Refusal × FabricatorRun)
      → rendered.status ≡ FabricatorStatus.challenge_prompts_rendered
      → Checked policy 0 rendered r
      → NothingAllowed (then_do f r)
  refused_nothing f rendered (none, run') e c = tt
  refused_nothing f rendered (some refusal, run') e c =
      rendered_nothing run'
        (subst (λ v. v.status ≡ FabricatorStatus.challenge_prompts_rendered) (sym c) e)

  -- Where a challenge is dispatched from the status that asks for it, and the dispatch is refused, no
  -- command of the table of commands and statuses is allowed any more, this dispatch included.
  pub dispatch_challenge-strands :
      run.status ≡ FabricatorStatus.synthesis_ready
      → NothingAllowed (dispatch_challenge policy ids run)
  unfolding dispatch_challenge
  dispatch_challenge-strands e =
      let open_command : ensure_command_allowed run Command.dispatch_challenge ≡ none =
        unfold ensure_command_allowed is_final allows in rw e refl in
      let rendered : FabricatorRun = record run {
        challenge_required = true;
        status = FabricatorStatus.challenge_prompts_rendered;
      } in
      rw (dispatch_challenge, open_command)
        (refused_nothing _ rendered (record_check policy 0 rendered) refl
          (record_check-Checked policy 0 rendered))
