-- ===== src/Engine/Costs.antt =====
-- What a turn of the loop of `_topological_order` costs.
use synode.Prelude.{
  ℕ, suc, ◌+◌, ◌≤◌, ◌<◌, String, true, false, ◌≡◌, refl, sym, ap, List, [], ◌∷◌, ◌++◌, ◌==◌, eq_iff,
  length, length-append, mem_text, Bool-cases, inl, inr, arith,
}
use synode.Policy.{is_empty}
use synode.Engine.Sorted.{sorted, discard, sorted-length}
use synode.Engine.Order.{Kahn, release, release_all, take_role, visit_role, cost}

release_all-length :
    (role : String) (targets : List String) (k : Kahn)
    → length (release_all role targets k).ready ≤ length k.ready + length targets
unfolding release_all
release_all-length role [] k = omega arith
release_all-length role (t ∷ targets) k =
    omega (arith, release_all-length role targets (release role t k), one)
  where
    one : length (release role t k).ready ≤ suc (length k.ready)
    one = elim (Bool-cases (is_empty (discard role (k.incoming t)))) [
      | inl e ↦ rw (release, e) (omega (arith, length-append k.ready (t ∷ [])))
      | inr e ↦ rw (release, e) (omega arith)
    ]

release_all-remaining :
    (role : String) (targets : List String) (k : Kahn)
    → (release_all role targets k).remaining ≡ k.remaining
unfolding release_all release
release_all-remaining role [] k = refl
release_all-remaining role (t ∷ targets) k = release_all-remaining role targets (release role t k)

module _ (outgoing : String → List String) where
  cost-discard_le :
      (x : String) (xs : List String) → cost outgoing (discard x xs) ≤ cost outgoing xs
  unfolding cost discard
  cost-discard_le x [] = omega arith
  cost-discard_le x (y ∷ ys) = elim (Bool-cases (y == x)) [
    | inl e ↦ rw e (omega (arith, cost-discard_le x ys))
    | inr e ↦ rw e (omega (arith, cost-discard_le x ys))
  ]

  cost-discard :
      (x : String) (xs : List String)
      → mem_text x xs ≡ true
      → suc (length (outgoing x)) + cost outgoing (discard x xs) ≤ cost outgoing xs
  unfolding cost discard
  cost-discard x [] m = cc
  cost-discard x (y ∷ ys) m = elim (Bool-cases (x == y)) [
    | inl e ↦
        let same : x ≡ y = (eq_iff x y).0 e in
        let here : (y == x) ≡ true = (eq_iff y x).1 (sym same) in
        let size : length (outgoing x) ≡ length (outgoing y) = ap (λ v. length (outgoing v)) same in
        rw here (omega (arith, size, cost-discard_le x ys))
    | inr e ↦
        let ih = cost-discard x ys (rw e at m) in
        let other : (y == x) ≡ false = ground (arith, e, eq_iff x y, eq_iff y x) in
        rw other (omega (arith, ih))
  ]

  abbrev pub size : Kahn → ℕ
  size k = length k.ready + cost outgoing k.remaining

  pub visit_role-size :
      (role : String) (rest : List String) (k : Kahn)
      → k.ready ≡ role ∷ rest
      → size (visit_role outgoing role (record k { ready = rest })) < size k
  unfolding visit_role take_role
  visit_role-size role rest k first =
      let before : length k.ready ≡ suc (length rest) = ap length first in
      elim (Bool-cases (mem_text role k.remaining)) [
        | inr e ↦ rw (visit_role, e) (omega (arith, before))
        | inl e ↦
            let begun : Kahn = record k {
              ready = rest;
              remaining = discard role k.remaining;
              ordered = k.ordered ++ role ∷ [];
            } in
            let targets = sorted (outgoing role) in
            let left = ap (cost outgoing) (release_all-remaining role targets begun) in
            rw (visit_role, e)
              (omega (
                arith,
                before,
                left,
                cost-discard role k.remaining e,
                release_all-length role targets begun,
                sorted-length (outgoing role),
                sorted-length (release_all role targets begun).ready,
              ))
      ]
