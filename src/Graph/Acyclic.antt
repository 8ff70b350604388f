-- ===== src/Graph/Acyclic.antt =====
-- The search for a cycle of src/synode/infrastructure/persistence/repository.py decides whether the
-- graph has one.
use synode.Prelude.{
  ℕ, zero, suc, ◌+◌, ◌≤◌, String, true, false, ◌≡◌, ◌≢◌, ◌↔◌, refl, List, [], ◌∷◌, mem_text,
  mem_text-All, Distinct, All, All-mono, arith, Bool-cases, inl, inr, if◌then◌else◌, ◌==◌, eq_refl,
  eq_iff, length, subst, sym,
}
use synode.Store.{ne_test}
use synode.Graph.Cycle.{
  Edge, Visit, children, visit_each, finished, visit, depth, search_cycle, has_node_cycle,
}
use synode.Graph.Reach.{Reach, Reach-snoc, Cyclic, children_known, Ordered, Ordered-acyclic}
use synode.Graph.Ends.{Ends, Grows, Holds, go_on_rule, Ends-mono, visit_each_rule}

abbrev Apart : List String → List String → Type 0
Apart xs ys = All (λ x. mem_text x ys ≡ false) xs

-- The list less the first occurrence of a text.
abbrev less : String → List String → List String
less x [] = []
less x (y ∷ ys) = if x == y then ys else y ∷ less x ys

less-length :
    (x : String) (ys : List String) → mem_text x ys ≡ true → suc (length (less x ys)) ≤ length ys
less-length x [] m = cc
less-length x (y ∷ ys) m = elim (Bool-cases (x == y)) [
  | inl e ↦ rw e (omega arith)
  | inr e ↦ rw e (omega (arith, less-length x ys (rw e at m)))
]

less-mem :
    (x z : String) (ys : List String)
    → (x == z) ≡ false
    → mem_text z ys ≡ true
    → mem_text z (less x ys) ≡ true
less-mem x z [] n m = m
less-mem x z (y ∷ ys) n m = elim (Bool-cases (z == y)) [
  | inl e ↦
      let other : (x == y) ≡ false = subst (λ w. (x == w) ≡ false) ((eq_iff z y).0 e) n in
      rw (other, e) refl
  | inr e ↦ elim (Bool-cases (x == y)) [
    | inl e' ↦ rw e' (rw e at m)
    | inr e' ↦ rw (e', e) (less-mem x z ys n (rw e at m))
  ]
]

-- What is not in the list differs from each of its texts.
absent : (x : String) (ys : List String) → mem_text x ys ≡ false → All (λ y. (x == y) ≡ false) ys
absent x [] m = tt
absent x (y ∷ ys) m = (ground (arith, m), absent x ys (ground (arith, m)))

sym_test : (x y : String) → (x == y) ≡ false → (y == x) ≡ false
sym_test x y n = ne_test y x (λ p. cc ((eq_iff x y).1 (sym p)))

both :
    (P Q R : String → Type 0) (xs : List String)
    → ((x : String) → P x → Q x → R x)
    → All P xs
    → All Q xs
    → All R xs
both P Q R [] k p q = tt
both P Q R (x ∷ xs) k p q = (k x p.0 q.0, both P Q R xs k p.1 q.1)

pub Distinct-length : (xs ys : List String) → Distinct xs → Holds xs ys → length xs ≤ length ys
Distinct-length [] ys d h = omega arith
Distinct-length (x ∷ xs) ys d h =
    let rest : Holds xs (less x ys) =
      both _ (λ z. mem_text z ys ≡ true) _ xs (λ z n m. less-mem x z ys n m) (absent x xs d.0)
        h.1 in
    omega (arith, less-length x ys h.0, Distinct-length xs (less x ys) d.1 rest)

module _ (ids : List String) (edges : List Edge) where
  abbrev next : String → List String
  next = children ids edges

  -- The stack of calls above the visit of `id`, and the depth that is left.
  record Stack (n : ℕ) (visiting : List String) (id : String) : Type 0 where
    leads : All (λ v. Reach next v id) visiting
    known : Holds visiting ids
    distinct : Distinct visiting
    enough : suc (length ids) ≤ n + length visiting

  -- The nodes that are visited are ordered, and none is being visited.
  abbrev Seen : List String → List String → Type 0
  Seen visiting seen = Ordered next seen × Apart visiting seen

  abbrev Outcome : List String → List String → String → Visit → Type 0
  Outcome visiting visited id =
      Ends (Cyclic next) (λ s. Seen visiting s × (mem_text id s ≡ true) × Grows visited s) ⊥

  Apart-cons :
      (visiting seen : List String) (id : String)
      → mem_text id visiting ≡ false
      → Apart visiting seen
      → Apart visiting (id ∷ seen)
  Apart-cons visiting seen id m a =
      both _ _ _ visiting (λ v n o. rw (sym_test id v n) o) (absent id visiting m) a

  -- The stack above the visit of a child.
  push :
      (n : ℕ) (visiting : List String) (id c : String)
      → Stack (suc n) visiting id
      → mem_text id visiting ≡ false
      → mem_text id ids ≡ true
      → mem_text c (next id) ≡ true
      → Stack n (id ∷ visiting) c
  push n visiting id c st e known m = record {
    leads = (Reach.edge id c m, All-mono _ _ (λ v r. Reach-snoc next v id c r m) visiting st.leads);
    known = (known, st.known);
    distinct = (e, st.distinct);
    enough = omega (arith, st.enough);
  }

  -- The visit of a node that is new, from what the visits of its children end with.
  deeper :
      (n : ℕ) (visiting visited : List String) (id : String)
      → mem_text id visiting ≡ false
      → mem_text id visited ≡ false
      → Seen visiting visited
      → ((s : List String) (c : String)
          → mem_text c (next id) ≡ true
          → Seen (id ∷ visiting) s
          → Outcome (id ∷ visiting) s c (visit next n (id ∷ visiting) s c))
      → Outcome visiting visited id
          (finished id (visit_each (visit next n (id ∷ visiting)) visited (next id)))
  deeper n visiting visited id e e' seen step =
      go_on_rule (Cyclic next) ⊥ (λ s. Seen (id ∷ visiting) s × Holds (next id) s × Grows visited s)
        _ (visit_each (visit next n (id ∷ visiting)) visited (next id)) _
        (visit_each_rule (Cyclic next) ⊥ (Seen (id ∷ visiting)) (visit next n (id ∷ visiting))
          (next id) visited step (seen.0, (e', seen.1)))
        (λ s h. (
          ((h.0.1.0, h.1, h.0.0), Apart-cons visiting s id e h.0.1.1),
          (rw eq_refl),
          λ x m. rw (h.2 x m) (ground arith),
        ))

  visit-Outcome :
      (n : ℕ) (visiting visited : List String) (id : String)
      → Stack n visiting id
      → mem_text id ids ≡ true
      → Seen visiting visited
      → Outcome visiting visited id (visit next n visiting visited id)
  unfolding visit
  visit-Outcome zero visiting visited id st known seen =
      omega (arith, st.enough, Distinct-length visiting ids st.distinct st.known)
  visit-Outcome (suc n) visiting visited id st known seen =
      elim (Bool-cases (mem_text id visiting)) [
        | inl e ↦ rw e (id, mem_text-All (λ v. Reach next v id) id visiting e st.leads)
        | inr e ↦ elim (Bool-cases (mem_text id visited)) [
          | inl e' ↦ rw (e, e') (seen, e', λ x m. m)
          | inr e' ↦
              rw (e, e')
                (deeper n visiting visited id e e' seen (λ s c m i.
                  visit-Outcome n (id ∷ visiting) s c (push n visiting id c st e known m)
                    (children_known ids edges id c m).1 i))
        ]
      ]

  search_outcome : Ends (Cyclic next) (λ s. Ordered next s × Holds ids s) ⊥ (search_cycle ids edges)
  unfolding search_cycle
  search_outcome =
      Ends-mono (Cyclic next) ⊥ (λ s. Seen [] s × Holds ids s × Grows [] s) _ _
        (λ s h. (h.0.0, h.1))
        (visit_each_rule (Cyclic next) ⊥ (Seen []) _ ids []
          (λ s id m i. visit-Outcome (depth ids) [] s id start m i) (tt, tt))
    where
      start : {id : String} → Stack (depth ids) [] id
      start = record { leads = tt; known = tt; distinct = tt; enough = omega arith }

  -- The first node of a path is a node of the graph.
  Reach-known : (x y : String) → Reach next x y → mem_text x ids ≡ true
  Reach-known x y (Reach.edge _ _ m) = (children_known ids edges x y m).0
  Reach-known x y (Reach.more _ w _ m r) = (children_known ids edges x w m).0

  acyclic : (s : List String) → Ordered next s → Holds ids s → ¬ Cyclic next
  acyclic s o h (x, r) =
      Ordered-acyclic next s x o
        (mem_text-All (λ id. mem_text id s ≡ true) x ids (Reach-known x x r) h) r

-- The search is never cut off: the depth that it starts with is enough for every graph.
pub search_cycle-ends :
    (ids : List String) (edges : List Edge) → search_cycle ids edges ≢ Visit.too_deep
search_cycle-ends ids edges e =
    subst (Ends (Cyclic (children ids edges)) (λ s. Ordered (children ids edges) s × Holds ids s) ⊥)
      e (search_outcome ids edges)

-- The search for a cycle answers yes just where some node of the graph reaches itself along the
-- edges between its nodes.
pub has_node_cycle-Cyclic :
    (ids : List String) (edges : List Edge)
    → (has_node_cycle ids edges ≡ true) ↔ Cyclic (children ids edges)
unfolding has_node_cycle
has_node_cycle-Cyclic ids edges = decides (search_cycle ids edges) (search_outcome ids edges)
  where
    decides :
        (v : Visit)
        → Ends (Cyclic (children ids edges)) (λ s. Ordered (children ids edges) s × Holds ids s) ⊥ v
        → (elim v [ Visit.found ↦ true | Visit.clear seen ↦ false | Visit.too_deep ↦ false ] ≡ true)
          ↔ Cyclic (children ids edges)
    decides Visit.found r = ((λ h. r), λ c. refl)
    decides (Visit.clear s) (o, h) =
        ((λ (e : false ≡ true). cc), λ c. absurd (acyclic ids edges s o h c))
    decides Visit.too_deep r = ((λ (e : false ≡ true). cc), λ c. absurd r)
