-- ===== src/Graph/Examples.antt =====
-- Searches of small graphs, and the theorems on graphs at them.
use synode.Prelude.{
  String, true, false, ◌≡◌, ◌≢◌, ◌↔◌, refl, none, some, arith, List, [], ◌∷◌, is_blank,
}
use synode.Store.{find, update}
use synode.Graph.Cycle.{Edge, Visit, search_cycle, has_node_cycle, children}
use synode.Graph.Reach.{Cyclic}
use synode.Graph.Acyclic.{has_node_cycle-Cyclic, search_cycle-ends}
use synode.Graph.Contracts.{
  AgentGraphNodeKind, Checked, validate_binding, validate_backend_contract,
  default_contract_for_role, expected_node_kind, ◌>>=◌,
}
use synode.Graph.Bindings.{default_contract-binding}
use synode.Graph.Config.{AgentRole, GraphConfig, Resolved, normalize_graph_config}
use synode.Graph.Rows.{GraphValues}
use synode.Graph.Defaults.{AllSound}
use synode.Graph.Stored.{GraphWrite, write_graphs, write_graphs-AllSound}

abbrev ids : List String
ids = "a" ∷ "b" ∷ "c" ∷ []

abbrev edge_of : String → String → Edge
edge_of x y = record { from_node = x; to_node = y }

abbrev ring : List Edge
ring = edge_of "a" "b" ∷ edge_of "b" "c" ∷ edge_of "c" "a" ∷ []

ring_found : has_node_cycle ids ring ≡ true
unfolding has_node_cycle
ring_found = refl

chain_clear : has_node_cycle ids (edge_of "a" "b" ∷ edge_of "a" "c" ∷ edge_of "b" "c" ∷ []) ≡ false
unfolding has_node_cycle
chain_clear = refl

search_cycle-ends_example : search_cycle ids ring ≢ Visit.too_deep
search_cycle-ends_example = search_cycle-ends ids ring

default_contract-binding_example :
    (validate_binding (default_contract_for_role "coder") "coder" (expected_node_kind "coder")
      ≡ Checked.good tt)
    × (validate_backend_contract "native_langgraph" (default_contract_for_role "coder")
        ≡ Checked.good tt)
    × (validate_backend_contract "openhands" (default_contract_for_role "coder") ≡ Checked.good tt)
default_contract-binding_example = default_contract-binding "coder"

has_node_cycle-Cyclic_example : (has_node_cycle ids ring ≡ true) ↔ Cyclic (children ids ring)
has_node_cycle-Cyclic_example = has_node_cycle-Cyclic ids ring

abbrev roles : List AgentRole
roles = record { id = "r1"; name = "supervisor" } ∷ record { id = "r2"; name = "coder" } ∷ []

abbrev config : GraphConfig
config = record {
  default_model_profile_id = none;
  role_model_profile_ids = [];
  graph_schema_version = 2;
  nodes =
      record { id = "n1"; role_id = "r1"; label = "Lead"; kind = AgentGraphNodeKind.control }
      ∷ record { id = "n2"; role_id = "r2"; label = "Code"; kind = AgentGraphNodeKind.worker }
      ∷ [];
  node_edges = edge_of "n1" "n2" ∷ [];
  node_runtime_bindings = record { key = "n2"; value = "openhands" } ∷ [];
  node_contracts = [];
  node_loop_policies = [];
}

abbrev resolved : Resolved
resolved = record {
  contracts =
      record { key = "n1"; value = "supervisor_decision" }
      ∷ record { key = "n2"; value = "worker_agent_output" }
      ∷ [];
  runtimes =
      record { key = "n1"; value = "native_langgraph" }
      ∷ record { key = "n2"; value = "openhands" }
      ∷ [];
}

-- Two graphs that are each made the default, and the first one without its edges.
abbrev unchanged : GraphValues
unchanged = record {
  name = none;
  enabled = none;
  is_default = none;
  graph_schema_version = none;
  nodes = none;
  node_edges = none;
  default_model_profile_id = none;
  role_model_profile_ids = none;
  node_runtime_bindings = none;
  node_contracts = none;
  node_loop_policies = none;
}

abbrev writes : List GraphWrite
writes =
    GraphWrite.creates [] roles "g1" "one" config true true
    ∷ GraphWrite.creates [] roles "g2" "two" config true true
    ∷ GraphWrite.updates [] roles "g1" (record unchanged { node_edges = some [] })
    ∷ GraphWrite.updates [] roles "g1"
        (record unchanged { node_edges = some (edge_of "n1" "x" ∷ []) })
    ∷ []

abbrev bound : GraphConfig
bound = record config {
  node_runtime_bindings = resolved.runtimes;
  node_contracts = resolved.contracts;
}

-- The second is the default, and the last write is refused.
writes_example :
    write_graphs writes []
    ≡ record {
      id = "g1";
      name = "one";
      config = record bound { node_edges = [] };
      is_default = false;
      enabled = true;
    }
      ∷ record { id = "g2"; name = "two"; config = bound; is_default = true; enabled = true }
      ∷ []
unfolding write_graphs normalize_graph_config ◌>>=◌ is_blank find expected_node_kind
    validate_binding default_contract_for_role update validate_backend_contract
writes_example = refl

write_graphs-AllSound_example : AllSound (write_graphs writes [])
write_graphs-AllSound_example = write_graphs-AllSound writes [] (tt, omega arith)
