-- ===== src/Graph/Cycle.antt =====
-- `_has_node_cycle` of src/synode/infrastructure/persistence/repository.py. The set `visiting` is
-- the stack of calls, passed down; `visited` grows and is passed on. The recursion is cut at a
-- depth, which Graph/Acyclic shows to be never reached.
use synode.Prelude.{
  ℕ, zero, suc, String, Bool, true, false, ◌&&◌, List, [], ◌∷◌, ◌==◌, length, if◌then◌else◌,
  mem_text,
}

pub record Edge : Type 0 where
  pub from_node : String
  pub to_node : String

-- How a visit ends: it ran into a node that is being visited, or it leaves these nodes visited.
pub data Visit : Type 0 where
  found : Visit
  clear : List String → Visit
  too_deep : Visit

-- `children.get(id, [])`: the targets of the edges between known nodes, in order.
unfoldable pub children : List String → List Edge → String → List String
children ids [] id = []
children ids (e ∷ edges) id =
    let rest = children ids edges id in
    if e.from_node == id && mem_text id ids && mem_text e.to_node ids
    then e.to_node ∷ rest
    else rest

abbrev pub go_on : Visit → (List String → Visit) → Visit
go_on Visit.found f = Visit.found
go_on Visit.too_deep f = Visit.too_deep
go_on (Visit.clear seen) f = f seen

-- `any(visit(id) for id in ids)`
unfoldable pub visit_each : (List String → String → Visit) → List String → List String → Visit
visit_each f seen [] = Visit.clear seen
visit_each f seen (id ∷ ids) = go_on (f seen id) (λ seen'. visit_each f seen' ids)

abbrev pub finished : String → Visit → Visit
finished id v = go_on v (λ seen. Visit.clear (id ∷ seen))

module _ (next : String → List String) where
  unfoldable pub visit : ℕ → List String → List String → String → Visit
  unfolding visit_each
  visit zero visiting visited id = Visit.too_deep
  visit (suc n) visiting visited id =
      let deeper = finished id (visit_each (visit n (id ∷ visiting)) visited (next id)) in
      if mem_text id visiting
      then Visit.found
      else if mem_text id visited
      then Visit.clear visited
      else deeper

-- The depth that suffices.
abbrev pub depth : List String → ℕ
depth ids = suc (suc (length ids))

unfoldable pub search_cycle : List String → List Edge → Visit
unfolding visit visit_each children
search_cycle ids edges = visit_each (visit (children ids edges) (depth ids) []) [] ids

unfoldable pub has_node_cycle : List String → List Edge → Bool
unfolding search_cycle
has_node_cycle ids edges = elim (search_cycle ids edges) [
  | Visit.found ↦ true
  | Visit.clear seen ↦ false
  | Visit.too_deep ↦ false
]
