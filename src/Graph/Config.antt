-- ===== src/Graph/Config.antt =====
-- `_normalize_graph_config` of src/synode/infrastructure/persistence/repository.py and what it
-- calls. A dictionary is an association list without two pairs of one key. Model profiles and roles
-- are those that the database holds (the query reads 1000 roles at most). The loop policies arrive
-- as modes, which are left as they are.
use synode.Prelude.{
  ℕ, String, Bool, true, false, not, ◌&&◌, ◌||◌, Option, none, some, List, [], ◌∷◌, ◌==◌,
  if◌then◌else◌, mem_text, all, is_blank, map, eqb, is_some,
}
use synode.Store.{find, update}
use synode.Policy.{NativeLoopMode}
use synode.Graph.Cycle.{Edge, has_node_cycle}
use synode.Graph.Contracts.{
  AgentGraphNodeKind, GraphError, Checked, ◌>>=◌, ◌>>◌, refuse, same_kind, validate_binding,
  default_contract_for_role, expected_node_kind, validate_backend_contract,
}

pub record AgentRole : Type 0 where
  pub id : String
  pub name : String

pub record AgentGraphNode : Type 0 where
  pub id : String
  pub role_id : String
  pub label : String
  pub kind : AgentGraphNodeKind

-- A pair of a dictionary.
pub record Entry : Type 0 where
  pub key : String
  pub value : String

abbrev pub entry_key : Entry → String
entry_key e = e.key

abbrev pub role_key : AgentRole → String
role_key r = r.id

-- `_node_dicts` and `_node_edge_dicts`: the schemas' fields are not blank, or not empty.
unfoldable pub node_is_valid : AgentGraphNode → Bool
node_is_valid node = not (is_blank node.id || is_blank node.role_id || is_blank node.label)

unfoldable pub edge_is_valid : Edge → Bool
edge_is_valid edge = not (edge.from_node == "" || edge.to_node == "")

-- `_normalize_explicit_nodes`, behind the nodes whose ids and roles were seen.
unfoldable pub check_nodes :
    List AgentRole → List String → List String → List AgentGraphNode → Checked (Unit {0})
check_nodes roles seen_ids seen_roles [] = Checked.good tt
check_nodes roles seen_ids seen_roles (node ∷ nodes) = do
  refuse (mem_text node.id seen_ids) (GraphError.duplicate_node node.id)
  refuse (mem_text node.role_id seen_roles) (GraphError.duplicate_role node.role_id)
  elim (find role_key node.role_id roles) [
    | none ↦ Checked.bad (GraphError.role_not_found node.role_id)
    | some role ↦
        refuse (not (same_kind node.kind (expected_node_kind role.name)))
          (GraphError.wrong_kind node.id)
  ]
  check_nodes roles (node.id ∷ seen_ids) (node.role_id ∷ seen_roles) nodes

-- `for edge in edges: if an end is not a node: raise`
unfoldable pub check_edges : List String → List Edge → Checked (Unit {0})
check_edges ids [] = Checked.good tt
check_edges ids (edge ∷ edges) = do
  refuse (not (mem_text edge.from_node ids) || not (mem_text edge.to_node ids))
      GraphError.unknown_edge_end
  check_edges ids edges

-- `node_contracts.get(id) or default`
unfoldable pub contract_of : List Entry → String → String → String
contract_of contracts id role_name = elim (find entry_key id contracts) [
  | none ↦ default_contract_for_role role_name
  | some e ↦ if e.value == "" then default_contract_for_role role_name else e.value
]

-- The loop of `_resolve_node_contracts`; a role that is missing is a `KeyError`.
unfoldable pub resolve_each :
    List AgentRole → List Entry → List AgentGraphNode → Checked (List Entry)
unfolding contract_of
resolve_each roles contracts [] = Checked.good []
resolve_each roles contracts (node ∷ nodes) = elim (find role_key node.role_id roles) [
  | none ↦ Checked.bad (GraphError.role_not_found node.role_id)
  | some role ↦ (do
    validate_binding (contract_of contracts node.id role.name) role.name node.kind
    rest ← resolve_each roles contracts nodes
    Checked.good (record { key = node.id; value = contract_of contracts node.id role.name } ∷ rest))
]

-- The keys that are no node's.
abbrev pub refuse_unknown : List String → List String → Checked (Unit {0})
refuse_unknown ids [] = Checked.good tt
refuse_unknown ids (key ∷ keys) = do
  refuse (not (mem_text key ids)) (GraphError.node_not_found key)
  refuse_unknown ids keys

unfoldable pub resolve_node_contracts :
    List AgentRole → List Entry → List AgentGraphNode → Checked (List Entry)
unfolding resolve_each
resolve_node_contracts roles contracts nodes = do
  resolved ← resolve_each roles contracts nodes
  refuse_unknown (map (λ n. n.id) nodes) (map entry_key contracts)
  Checked.good resolved

-- The loop of `_resolve_node_runtime_bindings` over the given bindings.
unfoldable pub bind_each : List Entry → List Entry → Checked (List Entry)
bind_each resolved [] = Checked.good resolved
bind_each resolved (b ∷ bindings) = do
  refuse (not (is_some (find entry_key b.key resolved))) (GraphError.node_not_found b.key)
  refuse (not (mem_text b.value ("native_langgraph" ∷ "openhands" ∷ [])))
      (GraphError.unknown_backend b.value)
  bind_each (update entry_key b.key (λ e. record e { value = b.value }) resolved) bindings

unfoldable pub resolve_node_runtime_bindings :
    List Entry → List AgentGraphNode → Checked (List Entry)
unfolding bind_each
resolve_node_runtime_bindings bindings nodes =
    bind_each (map (λ n. record { key = n.id; value = "native_langgraph" }) nodes) bindings

-- `contracts[node_id]`
unfoldable pub check_backends : List Entry → List Entry → Checked (Unit {0})
check_backends contracts [] = Checked.good tt
check_backends contracts (b ∷ bindings) = do
  elim (find entry_key b.key contracts) [
    | none ↦ Checked.bad (GraphError.node_not_found b.key)
    | some c ↦ validate_backend_contract b.value c.value
  ]
  check_backends contracts bindings

abbrev check_role_profiles : List String → List Entry → Checked (Unit {0})
check_role_profiles profiles [] = Checked.good tt
check_role_profiles profiles (e ∷ given) = do
  refuse (not (mem_text e.value profiles)) (GraphError.profile_not_found e.value)
  check_role_profiles profiles given

-- The default profile, where an empty one is none, and the loop over those of the roles.
unfoldable pub check_profiles : List String → Option String → List Entry → Checked (Unit {0})
check_profiles profiles none given = check_role_profiles profiles given
check_profiles profiles (some id) given = do
  refuse (not (id == "") && not (mem_text id profiles)) (GraphError.profile_not_found id)
  check_role_profiles profiles given

-- No text occurs twice.
unfoldable pub all_distinct : List String → Bool
all_distinct [] = true
all_distinct (x ∷ xs) = not (mem_text x xs) && all_distinct xs

pub record GraphConfig : Type 0 where
  pub default_model_profile_id : Option String
  pub role_model_profile_ids : List Entry
  pub graph_schema_version : ℕ
  pub nodes : List AgentGraphNode
  pub node_edges : List Edge
  pub node_runtime_bindings : List Entry
  pub node_contracts : List Entry
  pub node_loop_policies : List (String × NativeLoopMode)

abbrev pub node_ids : GraphConfig → List String
node_ids g = map (λ n. n.id) g.nodes

abbrev pub no_nodes : List AgentGraphNode → Bool
no_nodes [] = true
no_nodes (n ∷ ns) = false

-- What is resolved for the nodes: contracts and backends.
pub record Resolved : Type 0 where
  pub contracts : List Entry
  pub runtimes : List Entry

unfoldable pub resolve_graph : List AgentRole → GraphConfig → Checked Resolved
unfolding resolve_node_contracts resolve_node_runtime_bindings check_backends
resolve_graph roles g = do
  contracts ← resolve_node_contracts roles g.node_contracts g.nodes
  runtimes ← resolve_node_runtime_bindings g.node_runtime_bindings g.nodes
  refuse_unknown (node_ids g) (map (λ (id, mode). id) g.node_loop_policies)
  check_backends contracts runtimes
  Checked.good (record { contracts = contracts; runtimes = runtimes })

-- The rules for the shape of the graph.
unfoldable pub check_shape : List AgentRole → GraphConfig → Checked (Unit {0})
unfolding check_nodes check_edges all_distinct has_node_cycle node_is_valid edge_is_valid
check_shape roles g = do
  refuse (not (all node_is_valid g.nodes)) GraphError.invalid_node
  refuse (not (all edge_is_valid g.node_edges)) GraphError.invalid_edge
  refuse (no_nodes g.nodes) GraphError.no_nodes
  check_nodes roles [] [] g.nodes
  refuse (not (all_distinct (map (λ n. n.role_id) g.nodes))) GraphError.duplicate_role_nodes
  check_edges (node_ids g) g.node_edges
  refuse (has_node_cycle (node_ids g) g.node_edges) GraphError.cyclic

unfoldable pub normalize_graph_config :
    List String → List AgentRole → GraphConfig → Checked Resolved
unfolding check_profiles check_shape resolve_graph
normalize_graph_config profiles roles g = do
  check_profiles profiles g.default_model_profile_id g.role_model_profile_ids
  refuse (not (eqb g.graph_schema_version 2)) GraphError.wrong_version
  check_shape roles g
  resolve_graph roles g
