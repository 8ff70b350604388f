-- ===== src/Graph/Reach.antt =====
-- Paths along the edges of an agent graph.
use synode.Prelude.{
  String, true, false, ◌≡◌, sym, List, [], ◌∷◌, mem_text, mem_text-All, All, arith, ◌==◌, eq_iff,
  subst, Bool-cases, inl, inr, ◌&&◌,
}
use synode.Graph.Cycle.{Edge, children}

-- A path of one edge or more, where `next` gives the children of a node.
pub data Reach (next : String → List String) : String → String → Type 0 where
  edge : (x y : String) → mem_text y (next x) ≡ true → Reach next x y
  more : (x y z : String) → mem_text y (next x) ≡ true → Reach next y z → Reach next x z

pub Reach-snoc :
    (next : String → List String) (x y z : String)
    → Reach next x y
    → mem_text z (next y) ≡ true
    → Reach next x z
Reach-snoc next x y z (Reach.edge _ _ m) h = Reach.more x y z m (Reach.edge y z h)
Reach-snoc next x y z (Reach.more _ w _ m r) h = Reach.more x w z m (Reach-snoc next w y z r h)

-- A loop through the edges: some node reaches itself.
abbrev pub Cyclic : (String → List String) → Type 0
Cyclic next = (x : String) × Reach next x x

-- Every child is a node, as is every node that has one.
pub children_known :
    (ids : List String) (edges : List Edge) (x y : String)
    → mem_text y (children ids edges x) ≡ true
    → (mem_text x ids ≡ true) × (mem_text y ids ≡ true)
unfolding children
children_known ids [] x y m = cc
children_known ids (e ∷ edges) x y m =
    elim (Bool-cases (e.from_node == x && mem_text x ids && mem_text e.to_node ids)) [
      | inl t ↦ elim (Bool-cases (y == e.to_node)) [
        | inl same ↦ (
          ground (arith, t),
          subst (λ z. mem_text z ids ≡ true) (sym ((eq_iff y e.to_node).0 same))
              (ground (arith, t)),
        )
        | inr other ↦ children_known ids edges x y (rw (t, other) at m)
      ]
      | inr f ↦ children_known ids edges x y (rw f at m)
    ]

-- Every node comes before the nodes that it leads to, and once.
abbrev pub Ordered : (String → List String) → List String → Type 0
Ordered next [] = Unit
Ordered next (x ∷ rest) =
    (mem_text x rest ≡ false) × All (λ c. mem_text c rest ≡ true) (next x) × Ordered next rest

module _ (next : String → List String) where
  -- An ordered list holds what its nodes lead to.
  Ordered-step :
      (xs : List String) (x y : String)
      → Ordered next xs
      → mem_text x xs ≡ true
      → mem_text y (next x) ≡ true
      → mem_text y xs ≡ true
  Ordered-step [] x y o m h = cc
  Ordered-step (z ∷ rest) x y o m h = elim (Bool-cases (x == z)) [
    | inl e ↦
        let h' : mem_text y (next z) ≡ true =
          subst (λ w. mem_text y (next w) ≡ true) ((eq_iff x z).0 e) h in
        let deep : mem_text y rest ≡ true =
          mem_text-All (λ c. mem_text c rest ≡ true) y (next z) h' o.1 in
        rw deep (ground arith)
    | inr e ↦ let deep = Ordered-step rest x y o.2 (rw e at m) h in rw deep (ground arith)
  ]

  Ordered-Reach :
      (xs : List String) (x y : String)
      → Ordered next xs
      → mem_text x xs ≡ true
      → Reach next x y
      → mem_text y xs ≡ true
  Ordered-Reach xs x y o m (Reach.edge _ _ h) = Ordered-step xs x y o m h
  Ordered-Reach xs x y o m (Reach.more _ w _ h r) =
      Ordered-Reach xs w y o (Ordered-step xs x w o m h) r

  -- The head of an ordered list reaches only the rest.
  Ordered-head :
      (x y : String) (rest : List String)
      → Ordered next (x ∷ rest)
      → Reach next x y
      → mem_text y rest ≡ true
  Ordered-head x y rest o (Reach.edge _ _ h) =
      mem_text-All (λ c. mem_text c rest ≡ true) y (next x) h o.1
  Ordered-head x y rest o (Reach.more _ w _ h r) =
      Ordered-Reach rest w y o.2 (mem_text-All (λ c. mem_text c rest ≡ true) w (next x) h o.1) r

  -- No node of an ordered list reaches itself.
  pub Ordered-acyclic :
      (xs : List String) (x : String) → Ordered next xs → mem_text x xs ≡ true → ¬ Reach next x x
  Ordered-acyclic [] x o m r = cc
  Ordered-acyclic (z ∷ rest) x o m r = elim (Bool-cases (x == z)) [
    | inl e ↦
        let same : x ≡ z = (eq_iff x z).0 e in
        let back : mem_text z rest ≡ true =
          Ordered-head z z rest o (subst (λ w. Reach next w w) same r) in
        cc (back, o.0)
    | inr e ↦ Ordered-acyclic rest x o.2 (rw e at m) r
  ]
