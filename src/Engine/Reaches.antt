-- ===== src/Engine/Reaches.antt =====
-- Every run of the agent graph comes to its end.
use synode.Prelude.{
  ℕ, zero, suc, ◌+◌, ◌*◌, ◌≤◌, ◌<◌, true, false, ◌≡◌, ◌≢◌, refl, Option, none, some, List,
  Bool-cases, inl, inr, arith,
}
use synode.Engine.Routes.{
  GraphNode, RouteState, Behaviour, Finish, act, next_node, run_from, run_graph, rest_of_run,
  visiting, is_finish, map_first,
}
use synode.Engine.Closer.{
  steps_to_end, Enough, is_repair, repairs, budget, weight, left_of, Closer, supervisor-Closer,
  to_reviewer, inspect-Closer, verify-Closer, propose-Closer, repair-Closer,
}

module _ {E : Type 0} (b : Behaviour E) (limit : ℕ) where
  abbrev Advances : GraphNode → RouteState → Option RouteState × E → Type 0
  Advances node s (none, e) = Unit
  Advances node s (some s', e) = Closer limit node s (next_node limit node s') s'

  map_first-Advances :
      {A : Type 0} (node : GraphNode) (s : RouteState) (f : A → RouteState) (r : Option A × E)
      → ((a : A) → Closer limit node s (next_node limit node (f a)) (f a))
      → Advances node s (map_first f r)
  map_first-Advances node s f (none, e) h = tt
  map_first-Advances node s f (some a, e) h = h a

  plain :
      (node : GraphNode) (s : RouteState) (e : E)
      → Closer limit node s (next_node limit node s) s
      → Advances node s (map_first (λ (u : Unit {0}). s) (b.work node s e))
  plain node s e h = map_first-Advances node s (λ u. s) (b.work node s e) (λ u. h)

  act-Advances :
      (node : GraphNode) (s : RouteState) (e : E)
      → is_finish node ≡ false
      → Enough limit node s
      → Advances node s (act b node s e)
  unfolding act next_node
  act-Advances GraphNode.intake s e h room =
      plain _ s e (record { closer = omega arith; room = tt; spent = omega arith })
  act-Advances GraphNode.supervisor s e h room = plain _ s e (supervisor-Closer limit s)
  act-Advances GraphNode.graph_workers s e h room =
      plain _ s e (to_reviewer limit _ s s (omega arith) (omega arith))
  act-Advances GraphNode.coding_inspect s e h room =
      map_first-Advances _ s _ (b.inspect s e) (inspect-Closer limit s)
  act-Advances GraphNode.coding_patch_propose s e h room =
      map_first-Advances _ s _ (b.propose false s e) (propose-Closer limit s (b.stored_proposal e))
  act-Advances GraphNode.coding_patch_repair s e h room =
      map_first-Advances _ s _ (b.propose true s e) (λ o. repair-Closer limit s o room)
  act-Advances GraphNode.patch_apply s e h room =
      plain _ s e (record { closer = omega arith; room = tt; spent = omega arith })
  act-Advances GraphNode.verify s e h room =
      map_first-Advances _ s _ (b.verified s e) (verify-Closer limit s)
  act-Advances GraphNode.reviewer s e h room =
      plain _ s e (record { closer = omega arith; room = tt; spent = omega arith })
  act-Advances GraphNode.synthesizer s e h room =
      plain _ s e (record { closer = omega arith; room = tt; spent = omega arith })
  act-Advances GraphNode.finish s e h room = cc

  -- The run comes out, after at most so many repairs.
  pub record Ends (most : ℕ) (run : List GraphNode × Finish) : Type 0 where
    pub comes_out : run.1 ≢ Finish.out_of_fuel
    pub repaired : repairs run.0 ≤ most

  step_Ends :
      (node : GraphNode) (s : RouteState) (rest : RouteState → E → List GraphNode × Finish)
      (r : Option RouteState × E)
      → weight node ≤ budget node (left_of limit s)
      → Advances node s r
      → ((s' : RouteState) (e' : E)
          → Closer limit node s (next_node limit node s') s'
          → Ends (budget (next_node limit node s') (left_of limit s')) (rest s' e'))
      → Ends (budget node (left_of limit s)) (visiting node (rest_of_run rest r))
  step_Ends node s rest (none, e) some_left a h = record {
    comes_out = λ q. cc;
    repaired = elim (Bool-cases (is_repair node)) [
      | inl r ↦ let one : weight node ≡ 1 = rw r refl in rw r (omega (arith, one, some_left))
      | inr r ↦ rw r (omega arith)
    ];
  }
  step_Ends node s rest (some s', e) some_left c h =
      let ends = h s' e c in
      record {
        comes_out = ends.comes_out;
        repaired = elim (Bool-cases (is_repair node)) [
          | inl r ↦
              let one : weight node ≡ 1 = rw r refl in
              rw r (omega (arith, one, c.spent, ends.repaired))
          | inr r ↦ rw r (omega (arith, c.spent, ends.repaired))
        ];
      }

  some_steps : (node : GraphNode) (left : ℕ) → is_finish node ≡ false → 0 < steps_to_end node left
  some_steps GraphNode.finish left h = cc
  some_steps GraphNode.synthesizer left h = omega arith
  some_steps GraphNode.reviewer left h = omega arith
  some_steps GraphNode.graph_workers left h = omega arith
  some_steps GraphNode.verify left h = omega arith
  some_steps GraphNode.coding_patch_repair left h = omega arith
  some_steps GraphNode.patch_apply left h = omega arith
  some_steps GraphNode.coding_patch_propose left h = omega arith
  some_steps GraphNode.coding_inspect left h = omega arith
  some_steps GraphNode.supervisor left h = omega arith
  some_steps GraphNode.intake left h = omega arith

  repair_room :
      (node : GraphNode) (s : RouteState)
      → Enough limit node s
      → weight node ≤ budget node (left_of limit s)
  repair_room GraphNode.coding_patch_repair s room = omega (arith, room)
  repair_room GraphNode.finish s room = omega arith
  repair_room GraphNode.synthesizer s room = omega arith
  repair_room GraphNode.reviewer s room = omega arith
  repair_room GraphNode.graph_workers s room = omega arith
  repair_room GraphNode.verify s room = omega arith
  repair_room GraphNode.patch_apply s room = omega arith
  repair_room GraphNode.coding_patch_propose s room = omega arith
  repair_room GraphNode.coding_inspect s room = omega arith
  repair_room GraphNode.supervisor s room = omega arith
  repair_room GraphNode.intake s room = omega arith

  run_from-Ends :
      (n : ℕ) (node : GraphNode) (s : RouteState) (e : E)
      → steps_to_end node (left_of limit s) ≤ n
      → Enough limit node s
      → Ends (budget node (left_of limit s)) (run_from b limit n node s e)
  unfolding run_from
  run_from-Ends zero node s e fuel room = elim (Bool-cases (is_finish node)) [
    | inl f ↦ rw (run_from, f) (record { comes_out = λ q. cc; repaired = omega arith })
    | inr f ↦ let bad : ⊥ = omega (arith, fuel, some_steps node (left_of limit s) f) in absurd bad
  ]
  run_from-Ends (suc n) node s e fuel room = elim (Bool-cases (is_finish node)) [
    | inl f ↦ rw (run_from, f) (record { comes_out = λ q. cc; repaired = omega arith })
    | inr f ↦
        rw (run_from, f)
          (step_Ends node s _ (act b node s e) (repair_room node s room)
            (act-Advances node s e f room)
            (λ s' e' c.
              run_from-Ends n (next_node limit node s') s' e' (omega (arith, fuel, c.closer))
                c.room))
  ]

  -- Whatever its nodes find out, a run of the graph that no exception and no interrupt leaves reaches
  -- the end, and it visits the repair of a patch at most as often as the setting allows.
  pub run_graph-Ends : (s : RouteState) (e : E) → Ends limit (run_graph b limit s e)
  unfolding run_graph
  run_graph-Ends s e =
      let ends = run_from-Ends (8 + 3 * limit) GraphNode.intake s e (omega arith) tt in
      record { comes_out = ends.comes_out; repaired = omega (arith, ends.repaired) }
