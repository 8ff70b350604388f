-- ===== src/Engine/Routes.antt =====
-- `build_graph` of src/synode/application/graph/engine.py: its nodes, its edges and the routes that
-- choose between them. What a node finds out is a parameter; what it then writes to the fields that
-- the routes read is modelled.
use synode.Prelude.{
  ℕ, zero, suc, ◌+◌, ◌*◌, String, Bool, true, false, not, ◌&&◌, ◌||◌, Option, none, some, List, [],
  ◌∷◌, ◌==◌, if◌then◌else◌, is_some, ltb,
}

pub data GraphNode : Type 0 where
  intake supervisor graph_workers coding_inspect coding_patch_propose coding_patch_repair :
      GraphNode
  patch_apply verify reviewer synthesizer finish : GraphNode

-- `state["verification_result"]`, by what its `ok` and `skipped` are.
pub data Verification : Type 0 where
  missing skipped passed failed : Verification

-- The fields of `SynodeState` that the routes read. `plan_only`: the interaction mode is to plan only,
-- which is also what the supervisor's node writes to the field of that name, so that one field stands
-- for both. `native_coder`: the coder's node runs on the native backend.
pub record RouteState : Type 0 where
  pub plan_only : Bool
  pub coding : Bool
  pub native_coder : Bool
  pub fake_provider : Bool
  pub patch_repair_error : Bool
  pub coding_failure_category : Option String
  pub no_change : Bool
  pub verification_result : Verification
  pub coding_repair_attempts : ℕ

unfoldable pub route_after_supervisor : RouteState → GraphNode
route_after_supervisor s =
    if s.plan_only
    then GraphNode.synthesizer
    else if s.coding
    then if s.native_coder then GraphNode.coding_inspect else GraphNode.graph_workers
    else GraphNode.graph_workers

unfoldable pub route_after_coding_inspect : RouteState → GraphNode
route_after_coding_inspect s =
    if s.patch_repair_error || is_some s.coding_failure_category
    then GraphNode.reviewer
    else GraphNode.coding_patch_propose

abbrev pub did_fail : Verification → Bool
did_fail Verification.failed = true
did_fail _ = false

unfoldable pub route_after_verify : ℕ → RouteState → GraphNode
route_after_verify repair_attempts s =
    if s.coding
      && not s.fake_provider
      && did_fail s.verification_result
      && ltb s.coding_repair_attempts repair_attempts
    then GraphNode.coding_patch_repair
    else GraphNode.reviewer

abbrev pub needs_operator : Option String → Bool
needs_operator none = false
needs_operator (some category) = category == "needs_operator"

abbrev pub after_patch : RouteState → GraphNode
after_patch s = if s.no_change then GraphNode.verify else GraphNode.patch_apply

unfoldable pub route_after_patch_propose : RouteState → GraphNode
route_after_patch_propose s =
    if s.patch_repair_error || needs_operator s.coding_failure_category
    then GraphNode.reviewer
    else after_patch s

unfoldable pub route_after_patch_repair : RouteState → GraphNode
route_after_patch_repair s = if s.patch_repair_error then GraphNode.reviewer else after_patch s

-- The edges of `build_graph`.
unfoldable pub next_node : ℕ → GraphNode → RouteState → GraphNode
unfolding route_after_supervisor route_after_coding_inspect route_after_verify
    route_after_patch_propose route_after_patch_repair
next_node limit GraphNode.intake s = GraphNode.supervisor
next_node limit GraphNode.supervisor s = route_after_supervisor s
next_node limit GraphNode.graph_workers s = GraphNode.reviewer
next_node limit GraphNode.coding_inspect s = route_after_coding_inspect s
next_node limit GraphNode.coding_patch_propose s = route_after_patch_propose s
next_node limit GraphNode.coding_patch_repair s = route_after_patch_repair s
next_node limit GraphNode.patch_apply s = GraphNode.verify
next_node limit GraphNode.verify s = route_after_verify limit s
next_node limit GraphNode.reviewer s = GraphNode.synthesizer
next_node limit GraphNode.synthesizer s = GraphNode.finish
next_node limit GraphNode.finish s = GraphNode.finish

-- What `_coding_patch_propose_node` comes to where it asks the model: no valid proposal, a question
-- to the operator, or a proposal, which may be to change nothing.
pub data Proposed : Type 0 where
  invalid : String → Proposed
  asks_operator : Proposed
  proposal : Bool → Proposed

-- The dictionary that the node then returns, merged into the state; the flag is
-- `repair_verification`.
unfoldable pub proposed : Bool → Proposed → RouteState → RouteState
proposed true (Proposed.invalid category) s = record s {
  coding_repair_attempts = suc s.coding_repair_attempts;
  coding_failure_category = some category;
  patch_repair_error = true;
}
proposed false (Proposed.invalid category) s = record s {
  coding_failure_category =
      some (if category == "patch_invalid" then "no_valid_candidate" else category);
  patch_repair_error = true;
}
proposed repair Proposed.asks_operator s = record s {
  no_change = false;
  coding_failure_category = some "needs_operator";
  patch_repair_error = true;
}
proposed true (Proposed.proposal no_change) s = record s {
  no_change = no_change;
  coding_repair_attempts = suc s.coding_repair_attempts;
}
proposed false (Proposed.proposal no_change) s = record s { no_change = no_change }

-- The node: `stored` is the action of a proposal that the run has stored, which only a first
-- proposal looks for.
unfoldable pub propose_patch : Bool → Option Bool → Proposed → RouteState → RouteState
unfolding proposed
propose_patch false (some no_change) outcome s = record s { no_change = no_change }
propose_patch repair stored outcome s = proposed repair outcome s

-- `_coding_inspect_node`: whether it returns a usable inspection or a contract error.
unfoldable pub inspected : Bool → RouteState → RouteState
inspected true s = s
inspected false s = record s {
  coding_failure_category = some "contract_invalid";
  patch_repair_error = true;
}

-- What the nodes find out, over the state `E` of all that they call. None: an exception or an
-- interrupt leaves the graph.
pub record Behaviour (E : Type 0) : Type 0 where
  pub inspect : RouteState → E → Option Bool × E
  pub stored_proposal : E → Option Bool
  pub propose : Bool → RouteState → E → Option Proposed × E
  pub verified : RouteState → E → Option Verification × E
  pub work : GraphNode → RouteState → E → Option (Unit {0}) × E

abbrev pub map_first : {A B E : Type 0} → (A → B) → Option A × E → Option B × E
map_first f (none, e) = (none, e)
map_first f (some a, e) = (some (f a), e)

module _ {E : Type 0} (b : Behaviour E) where
  unfoldable pub act : GraphNode → RouteState → E → Option RouteState × E
  unfolding inspected propose_patch
  act GraphNode.coding_inspect s e = map_first (λ usable. inspected usable s) (b.inspect s e)
  act GraphNode.coding_patch_propose s e =
      map_first (λ outcome. propose_patch false (b.stored_proposal e) outcome s)
        (b.propose false s e)
  act GraphNode.coding_patch_repair s e =
      map_first (λ outcome. propose_patch true none outcome s) (b.propose true s e)
  act GraphNode.verify s e =
      map_first (λ result. record s { verification_result = result }) (b.verified s e)
  act node s e = map_first (λ u. s) (b.work node s e)

-- How a run of the graph comes out.
pub data Finish : Type 0 where
  reached_end : RouteState → Finish
  left_graph : Finish
  out_of_fuel : Finish

abbrev pub is_finish : GraphNode → Bool
is_finish GraphNode.finish = true
is_finish _ = false

abbrev pub rest_of_run :
    {E : Type 0}
    → (RouteState → E → List GraphNode × Finish)
    → Option RouteState × E
    → List GraphNode × Finish
rest_of_run f (none, e) = ([], Finish.left_graph)
rest_of_run f (some s, e) = f s e

abbrev pub visiting : GraphNode → List GraphNode × Finish → List GraphNode × Finish
visiting node (visited, end) = (node ∷ visited, end)

module _ {E : Type 0} (b : Behaviour E) (limit : ℕ) where
  -- The nodes that are visited from `node` on, and how the run comes out.
  unfoldable pub run_from : ℕ → GraphNode → RouteState → E → List GraphNode × Finish
  unfolding act next_node
  run_from zero node s e = ([], if is_finish node then Finish.reached_end s else Finish.out_of_fuel)
  run_from (suc n) node s e =
      if is_finish node
      then ([], Finish.reached_end s)
      else visiting node
          (rest_of_run (λ s' e'. run_from n (next_node limit node s') s' e') (act b node s e))

  -- From START; the fuel is enough, which Engine/Reaches shows.
  unfoldable pub run_graph : RouteState → E → List GraphNode × Finish
  unfolding run_from
  run_graph s e = run_from (8 + 3 * limit) GraphNode.intake s e
