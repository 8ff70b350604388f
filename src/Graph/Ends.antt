-- ===== src/Graph/Ends.antt =====
-- How a visit of nodes ends: a proof rule for each step of the search.
use synode.Prelude.{String, true, ◌≡◌, List, [], ◌∷◌, mem_text, All, arith, eq_refl}
use synode.Graph.Cycle.{Visit, go_on, visit_each}

-- What holds where a visit ran into a cycle, where it left nodes visited, and where it was cut off.
abbrev pub Ends : Type 0 → (List String → Type 0) → Type 0 → Visit → Type 0
Ends F C D Visit.found = F
Ends F C D (Visit.clear seen) = C seen
Ends F C D Visit.too_deep = D

-- More nodes are visited than before.
abbrev pub Grows : List String → List String → Type 0
Grows old new = (x : String) → mem_text x old ≡ true → mem_text x new ≡ true

-- The nodes of `ids` are all in the list.
abbrev pub Holds : List String → List String → Type 0
Holds ids seen = All (λ id. mem_text id seen ≡ true) ids

module _ (F D : Type 0) where
  pub go_on_rule :
      (C C' : List String → Type 0) (v : Visit) (f : List String → Visit)
      → Ends F C D v
      → ((seen : List String) → C seen → Ends F C' D (f seen))
      → Ends F C' D (go_on v f)
  go_on_rule C C' Visit.found f e k = e
  go_on_rule C C' (Visit.clear seen) f e k = k seen e
  go_on_rule C C' Visit.too_deep f e k = e

  pub Ends-mono :
      (C C' : List String → Type 0) (v : Visit)
      → ((seen : List String) → C seen → C' seen)
      → Ends F C D v
      → Ends F C' D v
  Ends-mono C C' Visit.found k e = e
  Ends-mono C C' (Visit.clear seen) k e = k seen e
  Ends-mono C C' Visit.too_deep k e = e

  -- Visiting each node: what each visit keeps is kept, and all of the nodes are visited.
  pub visit_each_rule :
      (I : List String → Type 0) (f : List String → String → Visit) (ids seen : List String)
      → ((s : List String) (id : String)
          → mem_text id ids ≡ true
          → I s
          → Ends F (λ s'. I s' × (mem_text id s' ≡ true) × Grows s s') D (f s id))
      → I seen
      → Ends F (λ s'. I s' × Holds ids s' × Grows seen s') D (visit_each f seen ids)
  unfolding visit_each
  visit_each_rule I f [] seen step h = (h, tt, λ x m. m)
  visit_each_rule I f (id ∷ ids) seen step h =
      go_on_rule (λ s. I s × (mem_text id s ≡ true) × Grows seen s) _ (f seen id) _
        (step seen id (rw eq_refl) h)
        λ s h'.
          Ends-mono (λ s'. I s' × Holds ids s' × Grows s s') _ (visit_each f s ids)
            (λ s' e. (e.0, (e.2 id h'.1, e.1), λ x m. e.2 x (h'.2 x m)))
            (visit_each_rule I f ids s (λ t x m. step t x (rw m (ground arith))) h'.0)
