-- ===== src/Engine/Order.antt =====
-- `_topological_order` of src/synode/application/graph/engine.py. The sets are lists and the
-- dictionaries of sets functions; the `while` loop runs on fuel.
use synode.Prelude.{
  ℕ, zero, suc, ◌+◌, String, ◌&&◌, List, [], ◌∷◌, ◌++◌, ◌==◌, if◌then◌else◌, keep_if, length,
  mem_text,
}
use synode.Policy.{is_empty}
use synode.Engine.Sorted.{sorted, unique, discard}

pub record RoleEdge : Type 0 where
  pub source : String
  pub target : String

-- The edges whose ends are both in `names`.
abbrev pub within : List String → List RoleEdge → List RoleEdge
within names edges = keep_if (λ e. mem_text e.source names && mem_text e.target names) edges

-- `incoming[role]` and `outgoing[role]` before the loop.
unfoldable pub sources_of : List RoleEdge → String → List String
sources_of [] role = []
sources_of (e ∷ edges) role =
    let rest = sources_of edges role in if e.target == role then e.source ∷ rest else rest

unfoldable pub targets_of : List RoleEdge → String → List String
unfolding unique
targets_of [] role = []
targets_of (e ∷ edges) role =
    let rest = targets_of edges role in if e.source == role then unique (e.target ∷ rest) else rest

pub record Kahn : Type 0 where
  pub remaining : List String
  pub incoming : String → List String
  pub ready : List String
  pub ordered : List String

-- `incoming[target].discard(role)`, and a target that waits for nothing more is ready.
unfoldable pub release : String → String → Kahn → Kahn
unfolding discard
release role target k =
    let left = discard role (k.incoming target) in
    record k {
      incoming = λ t. if t == target then left else k.incoming t;
      ready = if is_empty left then k.ready ++ target ∷ [] else k.ready;
    }

unfoldable pub release_all : String → List String → Kahn → Kahn
unfolding release
release_all role [] k = k
release_all role (t ∷ targets) k = release_all role targets (release role t k)

module _ (outgoing : String → List String) where
  -- `remaining.remove(role)`, and what follows it.
  unfoldable pub take_role : String → Kahn → Kahn
  unfolding discard release_all sorted
  take_role role k =
      let k' : Kahn =
        release_all role (sorted (outgoing role))
          (record k { remaining = discard role k.remaining; ordered = k.ordered ++ role ∷ [] }) in
      record k' { ready = sorted k'.ready }

  unfoldable pub visit_role : String → Kahn → Kahn
  unfolding take_role
  visit_role role k = if mem_text role k.remaining then take_role role k else k

pub data Drained : Type 0 where
  drained : Kahn → Drained
  out_of_fuel : Drained

unfoldable pub drain : (String → List String) → ℕ → Kahn → Drained
unfolding visit_role
drain outgoing zero k = Drained.out_of_fuel
drain outgoing (suc n) k = elim k.ready [
  | [] ↦ Drained.drained k
  | role ∷ rest ↦ drain outgoing n (visit_role outgoing role (record k { ready = rest }))
]

-- What each role may cost: its own turn, and one for each target that it makes ready.
unfoldable pub cost : (String → List String) → List String → ℕ
cost outgoing [] = 0
cost outgoing (role ∷ roles) = suc (length (outgoing role)) + cost outgoing roles

-- The order, or the roles that the `ValueError` names.
pub data Order : Type 0 where
  order : List String → Order
  cyclic : List String → Order
  unfinished : Order

abbrev pub concluded : Drained → Order
concluded Drained.out_of_fuel = Order.unfinished
concluded (Drained.drained k) =
    if is_empty k.remaining then Order.order k.ordered else Order.cyclic (sorted k.remaining)

module _ (role_names : List String) (edges : List RoleEdge) where
  abbrev pub known : List RoleEdge
  known = within role_names edges

  unfoldable pub start : Kahn
  unfolding unique sorted sources_of
  start =
      let roles = unique role_names in
      record {
        remaining = roles;
        incoming = sources_of known;
        ready = sorted (keep_if (λ role. is_empty (sources_of known role)) roles);
        ordered = [];
      }

  abbrev pub fuel : ℕ
  fuel = suc (length start.ready + cost (targets_of known) start.remaining)

  unfoldable pub topological_order : Order
  unfolding drain start targets_of sorted cost
  topological_order = concluded (drain (targets_of known) fuel start)
