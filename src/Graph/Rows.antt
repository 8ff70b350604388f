-- ===== src/Graph/Rows.antt =====
-- The rows of agent graphs: `create_agent_graph`, `update_agent_graph` and `_clear_default_graphs` of
-- src/synode/infrastructure/persistence/repository.py. A table is a list of rows; a write that raises
-- leaves it as it was.
use synode.Prelude.{
  ℕ, String, Bool, false, not, ◌&&◌, ◌||◌, Option, none, some, List, [], ◌∷◌, ◌++◌, ◌==◌,
  if◌then◌else◌, any, map, is_some, or_else,
}
use synode.Store.{find, update}
use synode.Policy.{NativeLoopMode}
use synode.Graph.Cycle.{Edge}
use synode.Graph.Contracts.{GraphError, Checked}
use synode.Graph.Config.{
  AgentRole, AgentGraphNode, Entry, GraphConfig, Resolved, normalize_graph_config,
}

pub record AgentGraph : Type 0 where
  pub id : String
  pub name : String
  pub config : GraphConfig
  pub is_default : Bool
  pub enabled : Bool

abbrev pub graph_key : AgentGraph → String
graph_key g = g.id

-- What a write raises: what the configuration is refused for, no such graph, or a name or an id that
-- another row has.
pub data WriteError : Type 0 where
  refused : GraphError → WriteError
  graph_not_found : String → WriteError
  name_taken : String → WriteError

pub data Written : Type 0 where
  written : List AgentGraph → Written
  raised : WriteError → Written

abbrev pub cleared : AgentGraph → AgentGraph
cleared g = record g { is_default = false }

-- The query reads the default graphs first, and 1000 rows at most.
unfoldable pub clear_default_graphs : List AgentGraph → List AgentGraph
clear_default_graphs rows = map cleared rows

-- The columns that `_normalize_graph_config` computes.
abbrev pub normalized : GraphConfig → Resolved → GraphConfig
normalized g r = record g {
  graph_schema_version = 2;
  node_runtime_bindings = r.runtimes;
  node_contracts = r.contracts;
}

abbrev pub cleared_if : Bool → List AgentGraph → List AgentGraph
cleared_if b rows = if b then clear_default_graphs rows else rows

-- The row of a new graph; `id` is what `new_id()` returned.
abbrev pub insert_graph : AgentGraph → List AgentGraph → Written
insert_graph row rows =
    if any (λ g. g.name == row.name || g.id == row.id) rows
    then Written.raised (WriteError.name_taken row.name)
    else Written.written (rows ++ row ∷ [])

unfoldable pub create_agent_graph :
    List String
    → List AgentRole
    → String
    → String
    → GraphConfig
    → Bool
    → Bool
    → List AgentGraph
    → Written
unfolding normalize_graph_config clear_default_graphs
create_agent_graph profiles roles id name g is_default enabled rows =
    elim (normalize_graph_config profiles roles g) [
      | Checked.bad e ↦ Written.raised (WriteError.refused e)
      | Checked.good r ↦
          insert_graph
            (record {
              id = id;
              name = name;
              config = normalized g r;
              is_default = is_default;
              enabled = enabled;
            })
            (cleared_if is_default rows)
    ]

-- The fields that the request sets. A null for a collection is an empty one, except for the profiles
-- of roles, where it is not modelled.
pub record GraphValues : Type 0 where
  pub name : Option String
  pub enabled : Option Bool
  pub is_default : Option Bool
  pub graph_schema_version : Option ℕ
  pub nodes : Option (List AgentGraphNode)
  pub node_edges : Option (List Edge)
  pub default_model_profile_id : Option (Option String)
  pub role_model_profile_ids : Option (List Entry)
  pub node_runtime_bindings : Option (List Entry)
  pub node_contracts : Option (List Entry)
  pub node_loop_policies : Option (List (String × NativeLoopMode))

-- `values.get(key, record.key)` for the fields that the configuration is checked with
unfoldable pub merged : GraphValues → GraphConfig → GraphConfig
merged v g = record {
  default_model_profile_id = or_else v.default_model_profile_id g.default_model_profile_id;
  role_model_profile_ids = or_else v.role_model_profile_ids g.role_model_profile_ids;
  graph_schema_version = or_else v.graph_schema_version g.graph_schema_version;
  nodes = or_else v.nodes g.nodes;
  node_edges = or_else v.node_edges g.node_edges;
  node_runtime_bindings = or_else v.node_runtime_bindings g.node_runtime_bindings;
  node_contracts = or_else v.node_contracts g.node_contracts;
  node_loop_policies = or_else v.node_loop_policies g.node_loop_policies;
}

-- `graph_keys.intersection(values)`
abbrev pub sets_graph : GraphValues → Bool
sets_graph v =
    is_some v.graph_schema_version
    || is_some v.nodes
    || is_some v.node_edges
    || is_some v.node_runtime_bindings
    || is_some v.node_contracts
    || is_some v.node_loop_policies

-- The columns of the configuration after the update: those of the graph are written all or not at all.
abbrev pub updated_config : GraphValues → GraphConfig → Resolved → GraphConfig
updated_config v g r = if sets_graph v then normalized (merged v g) r else record g {
  default_model_profile_id = or_else v.default_model_profile_id g.default_model_profile_id;
  role_model_profile_ids = or_else v.role_model_profile_ids g.role_model_profile_ids;
}

abbrev pub updated_row : GraphValues → Resolved → AgentGraph → AgentGraph
updated_row v r row = record row {
  name = or_else v.name row.name;
  config = updated_config v row.config r;
  is_default = or_else v.is_default row.is_default;
  enabled = or_else v.enabled row.enabled;
}

-- The name is another row's.
abbrev pub takes_name : String → Option String → List AgentGraph → Bool
takes_name id none rows = false
takes_name id (some name) rows = any (λ g. g.name == name && not (g.id == id)) rows

unfoldable pub update_agent_graph :
    List String → List AgentRole → String → GraphValues → List AgentGraph → Written
unfolding normalize_graph_config clear_default_graphs merged find update
update_agent_graph profiles roles id v rows = elim (find graph_key id rows) [
  | none ↦ Written.raised (WriteError.graph_not_found id)
  | some row ↦ elim (normalize_graph_config profiles roles (merged v row.config)) [
    | Checked.bad e ↦ Written.raised (WriteError.refused e)
    | Checked.good r ↦
        if takes_name id v.name rows
        then Written.raised (WriteError.name_taken (or_else v.name row.name))
        else Written.written
            (update graph_key id (updated_row v r) (cleared_if (or_else v.is_default false) rows))
  ]
]
