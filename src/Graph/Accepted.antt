-- ===== src/Graph/Accepted.antt =====
-- What is known of a graph whose configuration `_normalize_graph_config` of
-- src/synode/infrastructure/persistence/repository.py accepts.
use synode.Prelude.{
  String, Bool, true, false, not, ◌||◌, ◌≡◌, refl, Option, none, some, List, [], ◌∷◌, All-mono,
  eq_iff, sym, subst, mem_text, Distinct, All, map, arith, ◌==◌,
}
use synode.Store.{find, ne_test}
use synode.Graph.Cycle.{Edge, children}
use synode.Graph.Reach.{Cyclic}
use synode.Graph.Acyclic.{has_node_cycle-Cyclic}
use synode.Graph.Contracts.{
  GraphError, Checked, ◌>>=◌, ◌>>◌, refuse, same_kind, expected_node_kind,
  validate_backend_contract,
}
use synode.Graph.Config.{
  AgentRole, AgentGraphNode, Entry, GraphConfig, Resolved, entry_key, role_key, node_ids,
  check_nodes, check_edges, check_backends, check_shape, resolve_graph, normalize_graph_config,
  all_distinct,
}

-- A chain that ends well passed each of its steps.
bind_good :
    {A B : Type 0} (m : Checked A) (f : A → Checked B) (b : B)
    → m >>= f ≡ Checked.good b
    → (a : A) × (m ≡ Checked.good a) × (f a ≡ Checked.good b)
unfolding ◌>>=◌
bind_good (Checked.good a) f b h = (a, refl, h)
bind_good (Checked.bad e) f b h = cc

refuse_good : (b : Bool) (e : GraphError) (u : Unit {0}) → refuse b e ≡ Checked.good u → b ≡ false
unfolding refuse
refuse_good true e u h = cc
refuse_good false e u h = refl

refused :
    {B : Type 0} (b : Bool) (e : GraphError) (k : Checked B) (r : B)
    → (refuse b e >> k) ≡ Checked.good r
    → (b ≡ false) × (k ≡ Checked.good r)
unfolding ◌>>=◌
refused true e k r h = cc
refused false e k r h = (refl, h)

-- The ends of an edge are nodes.
abbrev pub Known : List String → Edge → Type 0
Known ids e = (mem_text e.from_node ids ≡ true) × (mem_text e.to_node ids ≡ true)

check_edges-Known :
    (ids : List String) (edges : List Edge) (u : Unit {0})
    → check_edges ids edges ≡ Checked.good u
    → All (Known ids) edges
unfolding check_edges
check_edges-Known ids [] u h = tt
check_edges-Known ids (e ∷ edges) u h =
    let (r, rest) =
      refused (not (mem_text e.from_node ids) || not (mem_text e.to_node ids))
        GraphError.unknown_edge_end (check_edges ids edges) u h in
    (ground (arith, r), check_edges-Known ids edges u rest)

all_distinct-Distinct : (xs : List String) → all_distinct xs ≡ true → Distinct xs
unfolding all_distinct
all_distinct-Distinct [] h = tt
all_distinct-Distinct (x ∷ xs) h = (ground (arith, h), all_distinct-Distinct xs (ground (arith, h)))

-- The node has a role, and the kind that this role asks for.
abbrev pub Fits : List AgentRole → AgentGraphNode → Type 0
Fits roles n =
    (role : AgentRole) × (find role_key n.role_id roles ≡ some role)
    × (same_kind n.kind (expected_node_kind role.name) ≡ true)

fits :
    (roles : List AgentRole) (n : AgentGraphNode) (u : Unit {0}) (found : Option AgentRole)
    → find role_key n.role_id roles ≡ found
    → elim found [
      | none ↦ Checked.bad (GraphError.role_not_found n.role_id)
      | some role ↦
          refuse
            (not (same_kind n.kind (expected_node_kind role.name)))
            (GraphError.wrong_kind n.id)
    ]
      ≡ Checked.good u
    → Fits roles n
fits roles n u none e h = cc
fits roles n u (some role) e h = (role, e, ground (arith, refuse_good _ _ u h))

check_nodes-Fits :
    (roles : List AgentRole) (ids seen : List String) (nodes : List AgentGraphNode) (u : Unit {0})
    → check_nodes roles ids seen nodes ≡ Checked.good u
    → All (Fits roles) nodes
unfolding check_nodes
check_nodes-Fits roles ids seen [] u h = tt
check_nodes-Fits roles ids seen (n ∷ nodes) u h =
    let (f, h1) = refused _ _ _ u h in
    let (g, h2) = refused _ _ _ u h1 in
    let (v, role, rest) = bind_good _ _ u h2 in
    (
      fits roles n v (find role_key n.role_id roles) refl role,
      check_nodes-Fits roles (n.id ∷ ids) (n.role_id ∷ seen) nodes u rest,
    )

check_nodes-ids :
    (roles : List AgentRole) (ids seen : List String) (nodes : List AgentGraphNode) (u : Unit {0})
    → check_nodes roles ids seen nodes ≡ Checked.good u
    → All (λ n. mem_text n.id ids ≡ false) nodes × Distinct (map (λ n. n.id) nodes)
unfolding check_nodes
check_nodes-ids roles ids seen [] u h = (tt, tt)
check_nodes-ids roles ids seen (n ∷ nodes) u h =
    let (f, h1) = refused _ _ _ u h in
    let (g, h2) = refused _ _ _ u h1 in
    let (v, role, rest) = bind_good _ _ u h2 in
    let (later, d) = check_nodes-ids roles (n.id ∷ ids) (n.role_id ∷ seen) nodes u rest in
    (
      (f, All-mono _ _ (λ m l. (ground (arith, l))) nodes later),
      (
        absent_id n.id nodes
            (All-mono _ _ (λ m l. other m.id n.id (ground (arith, l))) nodes later),
        d,
      ),
    )
  where
    other : (x y : String) → (x == y) ≡ false → (y == x) ≡ false
    other x y e = ne_test y x (λ p. cc ((eq_iff x y).1 (sym p)))

    absent_id :
        (x : String) (nodes : List AgentGraphNode)
        → All (λ m. (x == m.id) ≡ false) nodes
        → mem_text x (map (λ n. n.id) nodes) ≡ false
    absent_id x [] h = refl
    absent_id x (m ∷ nodes) h = rw (h.0) (absent_id x nodes h.1)

-- The shape of the graph is right: ids and roles are distinct, each node fits its role, each edge
-- joins nodes, and no node reaches itself.
pub record IsWellShaped (roles : List AgentRole) (g : GraphConfig) : Type 0 where
  pub distinct_ids : Distinct (node_ids g)
  pub distinct_roles : Distinct (map (λ n. n.role_id) g.nodes)
  pub fitting : All (Fits roles) g.nodes
  pub known_ends : All (Known (node_ids g)) g.node_edges
  pub acyclic : ¬ Cyclic (children (node_ids g) g.node_edges)

check_shape-IsWellShaped :
    (roles : List AgentRole) (g : GraphConfig) (u : Unit {0})
    → check_shape roles g ≡ Checked.good u
    → IsWellShaped roles g
unfolding check_shape
check_shape-IsWellShaped roles g u h =
    let (e1, h1) = refused _ _ _ u h in
    let (e2, h2) = refused _ _ _ u h1 in
    let (e3, h3) = refused _ _ _ u h2 in
    let (v, nodes, h4) = bind_good _ _ u h3 in
    let (e5, h5) = refused _ _ _ u h4 in
    let (w, edges, h6) = bind_good _ _ u h5 in
    record {
      distinct_ids = (check_nodes-ids roles [] [] g.nodes v nodes).1;
      distinct_roles = all_distinct-Distinct _ (ground (arith, e5));
      fitting = check_nodes-Fits roles [] [] g.nodes v nodes;
      known_ends = check_edges-Known (node_ids g) g.node_edges w edges;
      acyclic = λ c.
          let yes = (has_node_cycle-Cyclic (node_ids g) g.node_edges).1 c in
          let no = refuse_good _ _ u h6 in cc (yes, no);
    }

-- The backend that a node is bound to runs the contract that the node has.
abbrev pub Runs : List Entry → Entry → Type 0
Runs contracts b =
    (c : Entry) × (find entry_key b.key contracts ≡ some c)
    × (validate_backend_contract b.value c.value ≡ Checked.good tt)

check_backends-Runs :
    (contracts bindings : List Entry) (u : Unit {0})
    → check_backends contracts bindings ≡ Checked.good u
    → All (Runs contracts) bindings
unfolding check_backends
check_backends-Runs contracts [] u h = tt
check_backends-Runs contracts (b ∷ bindings) u h =
    let (v, here, rest) = bind_good _ _ u h in
    (
      runs b v (find entry_key b.key contracts) refl here,
      check_backends-Runs contracts bindings u rest,
    )
  where
    runs :
        (b : Entry) (u : Unit {0}) (found : Option Entry)
        → find entry_key b.key contracts ≡ found
        → elim found [
          | none ↦ Checked.bad (GraphError.node_not_found b.key)
          | some c ↦ validate_backend_contract b.value c.value
        ]
          ≡ Checked.good u
        → Runs contracts b
    runs b u none e h = cc
    runs b u (some c) e h = (c, e, h)

abbrev resolved : List Entry → List Entry → Resolved
resolved contracts runtimes = record { contracts = contracts; runtimes = runtimes }

resolved-Runs :
    (contracts runtimes : List Entry) (u : Unit {0}) (r : Resolved)
    → check_backends contracts runtimes ≡ Checked.good u
    → Checked.good (resolved contracts runtimes) ≡ Checked.good r
    → All (Runs r.contracts) r.runtimes
resolved-Runs contracts runtimes u r h e =
    let same : resolved contracts runtimes ≡ r = cc in
    subst (λ x. All (Runs x.contracts) x.runtimes) same (check_backends-Runs contracts runtimes u h)

resolve_graph-Runs :
    (roles : List AgentRole) (g : GraphConfig) (r : Resolved)
    → resolve_graph roles g ≡ Checked.good r
    → All (Runs r.contracts) r.runtimes
unfolding resolve_graph
resolve_graph-Runs roles g r h =
    let (contracts, e4, h4) = bind_good _ _ r h in
    let (runtimes, e5, h5) = bind_good _ _ r h4 in
    let (u6, e6, h6) = bind_good _ _ r h5 in
    let (u7, e7, h7) = bind_good _ _ r h6 in resolved-Runs contracts runtimes u7 r e7 h7

pub normalize_graph_config-IsWellShaped :
    (profiles : List String) (roles : List AgentRole) (g : GraphConfig) (r : Resolved)
    → normalize_graph_config profiles roles g ≡ Checked.good r
    → IsWellShaped roles g × All (Runs r.contracts) r.runtimes
unfolding normalize_graph_config
normalize_graph_config-IsWellShaped profiles roles g r h =
    let (u1, e1, h1) = bind_good _ _ r h in
    let (e2, h2) = refused _ _ _ r h1 in
    let (u3, e3, h3) = bind_good _ _ r h2 in
    (check_shape-IsWellShaped roles g u3 e3, resolve_graph-Runs roles g r h3)
