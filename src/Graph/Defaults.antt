-- ===== src/Graph/Defaults.antt =====
-- What is required of the table of agent graphs, and how clearing and writing the default keeps it.
use synode.Prelude.{
  ℕ, suc, ◌≤◌, String, Bool, true, false, ◌≡◌, refl, List, [], ◌∷◌, ◌++◌, ◌==◌, if◌then◌else◌, map,
  All, Distinct, Bool-cases, inl, inr, arith,
}
use synode.Store.{update}
use synode.Graph.Cycle.{children}
use synode.Graph.Reach.{Cyclic}
use synode.Graph.Contracts.{Checked}
use synode.Graph.Config.{AgentRole, GraphConfig, Resolved, node_ids, normalize_graph_config}
use synode.Graph.Accepted.{Known, Runs, normalize_graph_config-IsWellShaped}
use synode.Graph.Rows.{AgentGraph, Written, graph_key, clear_default_graphs, cleared_if, normalized}

-- The graph of a stored configuration is right: ids and roles are distinct, each edge joins nodes, no
-- node reaches itself, and each node is bound to a backend that runs its contract.
pub record IsSound (g : GraphConfig) : Type 0 where
  pub distinct_ids : Distinct (node_ids g)
  pub distinct_roles : Distinct (map (λ n. n.role_id) g.nodes)
  pub known_ends : All (Known (node_ids g)) g.node_edges
  pub acyclic : ¬ Cyclic (children (node_ids g) g.node_edges)
  pub runs : All (Runs g.node_contracts) g.node_runtime_bindings

abbrev pub count_default : List AgentGraph → ℕ
count_default [] = 0
count_default (g ∷ rows) = let n = count_default rows in if g.is_default then suc n else n

-- Every stored graph is right, and at most one is the default.
abbrev pub AllSound : List AgentGraph → Type 0
AllSound rows = All (λ g. IsSound g.config) rows × (count_default rows ≤ 1)

pub normalized-IsSound :
    (profiles : List String) (roles : List AgentRole) (g : GraphConfig) (r : Resolved)
    → normalize_graph_config profiles roles g ≡ Checked.good r
    → IsSound (normalized g r)
normalized-IsSound profiles roles g r e =
    let (shape, runs) = normalize_graph_config-IsWellShaped profiles roles g r e in
    record {
      distinct_ids = shape.distinct_ids;
      distinct_roles = shape.distinct_roles;
      known_ends = shape.known_ends;
      acyclic = shape.acyclic;
      runs = runs;
    }

pub clear-Sound :
    (rows : List AgentGraph)
    → All (λ g. IsSound g.config) rows
    → All (λ g. IsSound g.config) (clear_default_graphs rows)
unfolding clear_default_graphs
clear-Sound [] h = tt
clear-Sound (g ∷ rows) h = (h.0, clear-Sound rows h.1)

pub clear-count : (rows : List AgentGraph) → count_default (clear_default_graphs rows) ≡ 0
unfolding clear_default_graphs
clear-count [] = refl
clear-count (g ∷ rows) = clear-count rows

pub count-append :
    (rows : List AgentGraph) (g : AgentGraph)
    → count_default (rows ++ g ∷ []) ≤ suc (count_default rows)
count-append [] g = ground arith
count-append (x ∷ rows) g = ground (arith, count-append rows g)

pub count-append_plain :
    (rows : List AgentGraph) (g : AgentGraph)
    → g.is_default ≡ false
    → count_default (rows ++ g ∷ []) ≡ count_default rows
count-append_plain [] g h = rw h refl
count-append_plain (x ∷ rows) g h = rw (count-append_plain rows g h) refl

-- A write to one row makes at most one more default.
pub count-update :
    (id : String) (f : AgentGraph → AgentGraph) (rows : List AgentGraph)
    → count_default (update graph_key id f rows) ≤ suc (count_default rows)
unfolding update
count-update id f [] = omega arith
count-update id f (g ∷ rows) = elim (Bool-cases (g.id == id)) [
  | inl e ↦ rw e (ground arith)
  | inr e ↦ rw e (ground (arith, count-update id f rows))
]

-- One that makes no row the default that was none makes no more.
pub count-update_plain :
    (id : String) (f : AgentGraph → AgentGraph) (rows : List AgentGraph)
    → ((g : AgentGraph) → g.is_default ≡ false → (f g).is_default ≡ false)
    → count_default (update graph_key id f rows) ≤ count_default rows
unfolding update
count-update_plain id f [] h = omega arith
count-update_plain id f (g ∷ rows) h = elim (Bool-cases (g.id == id)) [
  | inl e ↦ rw e (ground (arith, h g))
  | inr e ↦ rw e (ground (arith, count-update_plain id f rows h))
]

pub cleared_if-AllSound :
    (b : Bool) (rows : List AgentGraph) → AllSound rows → AllSound (cleared_if b rows)
cleared_if-AllSound true rows (h, n) = (clear-Sound rows h, omega (arith, clear-count rows))
cleared_if-AllSound false rows h = h

-- With the new default the others are cleared.
pub cleared_if-count :
    (b : Bool) (rows : List AgentGraph) (g : AgentGraph)
    → g.is_default ≡ b
    → count_default rows ≤ 1
    → count_default (cleared_if b rows ++ g ∷ []) ≤ 1
cleared_if-count true rows g e n =
    omega (arith, count-append (clear_default_graphs rows) g, clear-count rows)
cleared_if-count false rows g e n = omega (arith, n, count-append_plain rows g e)

-- What a write leaves: a write that raises leaves the table as it was.
abbrev pub after_write : List AgentGraph → Written → List AgentGraph
after_write rows (Written.written rows') = rows'
after_write rows (Written.raised e) = rows
