-- ===== src/Engine/Examples.antt =====
-- Orders and runs of small agent graphs, and the theorems at them.
use synode.Prelude.{ℕ, zero, String, Bool, true, false, ◌≡◌, refl, none, some, arith, List, [], ◌∷◌}
use synode.Engine.Order.{
  RoleEdge, Order, topological_order, sources_of, targets_of, drain, start, visit_role, take_role,
  release_all, release, cost,
}
use synode.Engine.Sorted.{sorted, insert, unique, discard}
use synode.Engine.Complete.{Correct, topological_order-Correct, topological_order-finds}
use synode.Engine.Routes.{
  GraphNode, RouteState, Verification, Proposed, Behaviour, run_graph, run_from, act, next_node,
  route_after_supervisor, route_after_coding_inspect, route_after_verify, route_after_patch_propose,
  route_after_patch_repair, inspected, propose_patch, proposed,
}
use synode.Engine.Workers.{Snapshot, Has, topological_worker_order, topological_worker_order-Has}
use synode.Engine.Reaches.{Ends, run_graph-Ends}
use synode.Engine.Planning.{OnlyPlans, run_graph-OnlyPlans}

abbrev to : String → String → RoleEdge
to source target = record { source = source; target = target }

abbrev roles : List String
roles = "web_researcher" ∷ "coder" ∷ "data_analyst" ∷ []

abbrev role_edges : List RoleEdge
role_edges = to "web_researcher" "coder" ∷ to "coder" "data_analyst" ∷ []

abbrev in_order : List String
in_order = "web_researcher" ∷ "coder" ∷ "data_analyst" ∷ []

order_example : topological_order roles role_edges ≡ Order.order in_order
unfolding topological_order drain start visit_role take_role release_all release sorted insert
    unique discard targets_of sources_of cost
order_example = refl

cyclic_example :
    topological_order roles (to "coder" "web_researcher" ∷ role_edges)
    ≡ Order.cyclic ("coder" ∷ "data_analyst" ∷ "web_researcher" ∷ [])
unfolding topological_order drain start visit_role take_role release_all release sorted insert
    unique discard targets_of sources_of cost
cyclic_example = refl

topological_order-Correct_example : Correct roles role_edges (topological_order roles role_edges)
topological_order-Correct_example = topological_order-Correct roles role_edges

topological_order-finds_example :
    (found : List String) × (topological_order roles role_edges ≡ Order.order found)
unfolding sources_of
topological_order-finds_example = topological_order-finds roles role_edges in_order (
  (λ x. refl),
  (refl, (refl, (refl, tt))),
  ((λ s m. m), ((λ s m. m), ((λ s m. ground (arith, m)), tt))),
)

-- The researcher comes first; a role that the graph does not have comes last.
abbrev snapshot : Snapshot
snapshot = record {
  role_names = "supervisor" ∷ "coder" ∷ "web_researcher" ∷ "reviewer" ∷ [];
  nodes = record { role = "coder"; id = "n1" } ∷ record { role = "web_researcher"; id = "n2" } ∷ [];
  node_edges = record { from_node = "n2"; to_node = "n1" } ∷ [];
}

topological_worker_order-Has_example :
    Has
      ("db_agent" ∷ "coder" ∷ "web_researcher" ∷ [])
      (topological_worker_order snapshot ("db_agent" ∷ "coder" ∷ "web_researcher" ∷ []))
topological_worker_order-Has_example =
    topological_worker_order-Has snapshot ("db_agent" ∷ "coder" ∷ "web_researcher" ∷ [])

-- The verification fails once, and the repair helps; the state counts the verifications.
abbrev behaviour : Behaviour ℕ
behaviour = record {
  inspect = λ s n. (some true, n);
  stored_proposal = λ n. none;
  propose = λ repair s n. (some (Proposed.proposal false), n);
  verified =
      λ s n. elim n [ zero ↦ (some Verification.failed, 1) | _ ↦ (some Verification.passed, 2) ];
  work = λ node s n. (some tt, n);
}

abbrev state : Bool → RouteState
state plan_only = record {
  plan_only = plan_only;
  coding = true;
  native_coder = true;
  fake_provider = false;
  patch_repair_error = false;
  coding_failure_category = none;
  no_change = false;
  verification_result = Verification.missing;
  coding_repair_attempts = 0;
}

run_graph_example :
    (run_graph behaviour 2 (state false) 0).0
    ≡ GraphNode.intake ∷ GraphNode.supervisor ∷ GraphNode.coding_inspect
      ∷ GraphNode.coding_patch_propose ∷ GraphNode.patch_apply ∷ GraphNode.verify
      ∷ GraphNode.coding_patch_repair ∷ GraphNode.patch_apply ∷ GraphNode.verify
      ∷ GraphNode.reviewer ∷ GraphNode.synthesizer ∷ []
unfolding run_graph run_from act next_node route_after_supervisor route_after_coding_inspect
    route_after_verify route_after_patch_propose route_after_patch_repair inspected propose_patch
    proposed
run_graph_example = refl

run_graph-Ends_example : Ends behaviour 2 2 (run_graph behaviour 2 (state false) 0)
run_graph-Ends_example = run_graph-Ends behaviour 2 (state false) 0

run_graph-OnlyPlans_example : OnlyPlans (run_graph behaviour 2 (state true) 0).0
run_graph-OnlyPlans_example = run_graph-OnlyPlans behaviour 2 (state true) refl 0
