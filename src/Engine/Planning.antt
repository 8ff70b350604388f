-- ===== src/Engine/Planning.antt =====
-- A run that only plans touches neither the workspace nor the workers.
use synode.Prelude.{
  ℕ, zero, suc, ◌+◌, ◌*◌, Bool, true, false, ◌≡◌, refl, sym, subst, Option, none, some, List, All,
}
use synode.Engine.Routes.{
  GraphNode, RouteState, Behaviour, Finish, act, next_node, run_from, run_graph, rest_of_run,
  visiting, route_after_supervisor, map_first,
}

abbrev is_planning : GraphNode → Bool
is_planning GraphNode.intake = true
is_planning GraphNode.supervisor = true
is_planning GraphNode.synthesizer = true
is_planning _ = false

abbrev pub OnlyPlans : List GraphNode → Type 0
OnlyPlans visited = All (λ node. is_planning node ≡ true) visited

module _ {E : Type 0} (b : Behaviour E) (limit : ℕ) (s : RouteState)
    (planned : s.plan_only ≡ true) where
  step_plans :
      (node : GraphNode) (rest : RouteState → E → List GraphNode × Finish)
      (r : Option (Unit {0}) × E)
      → is_planning node ≡ true
      → ((e : E) → OnlyPlans (rest s e).0)
      → OnlyPlans (visiting node (rest_of_run rest (map_first (λ u. s) r))).0
  step_plans node rest (none, e) p h = (p, tt)
  step_plans node rest (some u, e) p h = (p, h e)

  abbrev onwards : ℕ → GraphNode → RouteState → E → List GraphNode × Finish
  onwards n node s' e' = run_from b limit n (next_node limit node s') s' e'

  finish_plans : (n : ℕ) (e : E) → OnlyPlans (run_from b limit n GraphNode.finish s e).0
  unfolding run_from
  finish_plans zero e = tt
  finish_plans (suc n) e = tt

  synthesizer_plans : (n : ℕ) (e : E) → OnlyPlans (run_from b limit n GraphNode.synthesizer s e).0
  unfolding run_from act next_node
  synthesizer_plans zero e = tt
  synthesizer_plans (suc n) e =
      step_plans GraphNode.synthesizer (onwards n GraphNode.synthesizer)
        (b.work GraphNode.synthesizer s e) refl (finish_plans n)

  planned_route : route_after_supervisor s ≡ GraphNode.synthesizer
  unfolding route_after_supervisor
  planned_route = rw planned refl

  supervisor_plans : (n : ℕ) (e : E) → OnlyPlans (run_from b limit n GraphNode.supervisor s e).0
  unfolding run_from act next_node
  supervisor_plans zero e = tt
  supervisor_plans (suc n) e =
      step_plans GraphNode.supervisor (onwards n GraphNode.supervisor)
        (b.work GraphNode.supervisor s e) refl
        (λ e'.
          subst (λ node. OnlyPlans (run_from b limit n node s e').0) (sym planned_route)
            (synthesizer_plans n e'))

  intake_plans : (n : ℕ) (e : E) → OnlyPlans (run_from b limit n GraphNode.intake s e).0
  unfolding run_from act next_node
  intake_plans zero e = tt
  intake_plans (suc n) e =
      step_plans GraphNode.intake (onwards n GraphNode.intake) (b.work GraphNode.intake s e) refl
        (supervisor_plans n)

  -- Where the run is only to plan, the graph visits the intake, the supervisor and the synthesizer
  -- at most: no worker, no patch and no verification.
  pub run_graph-OnlyPlans : (e : E) → OnlyPlans (run_graph b limit s e).0
  unfolding run_graph
  run_graph-OnlyPlans e = intake_plans (8 + 3 * limit) e
