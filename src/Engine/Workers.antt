-- ===== src/Engine/Workers.antt =====
-- `_graph_worker_names` and `_topological_worker_order` of src/synode/application/graph/engine.py, on
-- a snapshot whose lists are well formed.
use synode.Prelude.{
  String, true, false, not, ◌&&◌, ◌||◌, ◌≡◌, refl, ◌∙◌, sym, Option, none, some, List, [], ◌∷◌,
  ◌++◌, ◌==◌, if◌then◌else◌, keep_if, map, mem_text, mem_text-append, Bool-cases, inl, inr, arith,
  or_else,
}
use synode.Policy.{is_empty}
use synode.Engine.Sorted.{keep_if-mem_text}
use synode.Engine.Order.{RoleEdge, Order, topological_order}
use synode.Engine.Complete.{Correct, topological_order-Correct}

pub record SnapshotNode : Type 0 where
  pub role : String
  pub id : String

pub record SnapshotEdge : Type 0 where
  pub from_node : String
  pub to_node : String

pub record Snapshot : Type 0 where
  pub role_names : List String
  pub nodes : List SnapshotNode
  pub node_edges : List SnapshotEdge

-- A dictionary of texts: `d[key] = value`, and `d.get(key)`.
abbrev Dict : Type 0
Dict = List (String × String)

unfoldable pub set_item : String → String → Dict → Dict
set_item key value [] = (key, value) ∷ []
set_item key value ((k, v) ∷ d) =
    let rest = set_item key value d in if k == key then (k, value) ∷ d else (k, v) ∷ rest

unfoldable pub get_item : Dict → String → Option String
get_item [] key = none
get_item ((k, v) ∷ d) key = if k == key then some v else get_item d key

-- The dictionary of these pairs; `built` holds the pairs before them.
unfoldable pub dict_from : Dict → Dict → Dict
unfolding set_item
dict_from built [] = built
dict_from built ((k, v) ∷ pairs) = dict_from (set_item k v built) pairs

unfoldable pub graph_worker_names : Snapshot → List String
graph_worker_names s =
    keep_if (λ name. not (name == "supervisor" || name == "reviewer")) s.role_names

unfoldable pub node_by_role : Snapshot → Dict
unfolding dict_from
node_by_role s =
    dict_from []
      (map (λ n. (n.role, n.id)) (keep_if (λ n. not (n.role == "") && not (n.id == "")) s.nodes))

unfoldable pub role_by_node : Snapshot → Dict
unfolding dict_from node_by_role
role_by_node s = dict_from [] (map (λ p. (p.1, p.0)) (node_by_role s))

-- `selected_node_ids`
unfoldable pub node_ids : Dict → List String → List String
unfolding get_item
node_ids by_role [] = []
node_ids by_role (role ∷ roles) =
    let rest = node_ids by_role roles in
    elim (get_item by_role role) [ none ↦ rest | some id ↦ id ∷ rest ]

-- The edges between selected nodes, between their roles. Each selected id is a key of the dictionary.
unfoldable pub role_edges : Dict → List String → List SnapshotEdge → List RoleEdge
unfolding get_item
role_edges by_node ids [] = []
role_edges by_node ids (e ∷ edges) =
    let rest = role_edges by_node ids edges in
    if mem_text e.from_node ids && mem_text e.to_node ids
    then record {
      source = or_else (get_item by_node e.from_node) "";
      target = or_else (get_item by_node e.to_node) "";
    }
      ∷ rest
    else rest

abbrev with_missing : List String → Order → Order
with_missing selected (Order.order order) =
    Order.order (order ++ keep_if (λ role. not (mem_text role order)) selected)
with_missing selected refused = refused

unfoldable pub topological_worker_order : Snapshot → List String → Order
unfolding graph_worker_names role_edges node_ids role_by_node node_by_role
topological_worker_order s selected =
    if is_empty selected
    then Order.order []
    else if is_empty (graph_worker_names s)
    then Order.order selected
    else with_missing selected (
        topological_order (keep_if (λ role. mem_text role selected) (graph_worker_names s))
          (role_edges (role_by_node s) (node_ids (node_by_role s) selected) s.node_edges))

-- An answer that is an order has these roles and no others.
abbrev pub Has : List String → Order → Type 0
Has roles (Order.order order) = (x : String) → mem_text x order ≡ mem_text x roles
Has roles refused = Unit

module _ (s : Snapshot) (selected : List String) where
  with_missing-Has :
      (edges : List RoleEdge) (order : Order)
      → Correct (keep_if (λ role. mem_text role selected) (graph_worker_names s)) edges order
      → Has selected (with_missing selected order)
  with_missing-Has edges (Order.order order) c = λ x.
      let asked : mem_text x order ≡ (mem_text x (graph_worker_names s) && mem_text x selected) =
        c.0 x ∙ keep_if-mem_text (λ role. mem_text role selected) x (graph_worker_names s) in
      let missing = keep_if-mem_text (λ role. not (mem_text role order)) x selected in
      mem_text-append x order (keep_if (λ role. not (mem_text role order)) selected)
      ∙ ground (arith, asked, missing)
  with_missing-Has edges (Order.cyclic roles) c = tt
  with_missing-Has edges Order.unfinished c = tt

  -- Where the workers are put in order, they are the selected roles: none is lost, not even one that
  -- is no worker of the graph, and none is added.
  pub topological_worker_order-Has : Has selected (topological_worker_order s selected)
  unfolding topological_worker_order
  topological_worker_order-Has = elim (Bool-cases (is_empty selected)) [
    | inl e ↦ rw (topological_worker_order, e) (λ x. sym (empty_mem x selected e))
    | inr e ↦ elim (Bool-cases (is_empty (graph_worker_names s))) [
      | inl g ↦ rw (topological_worker_order, e, g) (λ x. refl)
      | inr g ↦
          rw (topological_worker_order, e, g)
            (with_missing-Has edges
              (topological_order (keep_if (λ role. mem_text role selected) (graph_worker_names s))
                edges)
              (topological_order-Correct
                (keep_if (λ role. mem_text role selected) (graph_worker_names s)) edges))
    ]
  ]
    where
      edges : List RoleEdge
      edges = role_edges (role_by_node s) (node_ids (node_by_role s) selected) s.node_edges

      empty_mem : (x : String) (xs : List String) → is_empty xs ≡ true → mem_text x xs ≡ false
      empty_mem x [] h = refl
      empty_mem x (y ∷ ys) h = cc
