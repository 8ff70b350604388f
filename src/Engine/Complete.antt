-- ===== src/Engine/Complete.antt =====
-- `_topological_order` answers right: an order where there is one, the roles of a cycle where there
-- is none. Its fuel is never used up.
use synode.Prelude.{
  ℕ, zero, suc, ◌<◌, String, true, false, not, ◌&&◌, ◌≡◌, refl, sym, ap, subst, ◌∙◌, ◌⊎◌, List, [],
  ◌∷◌, ◌==◌, eq_iff, eq_refl, eqb, keep_if, length, mem_text, Distinct, Bool-cases, inl, inr, arith,
}
use synode.Policy.{is_empty}
use synode.Engine.Sorted.{
  sorted, unique, sorted-mem_text, sorted-length, unique-mem_text, keep_if-mem_text,
}
use synode.Engine.Order.{
  RoleEdge, within, sources_of, targets_of, Kahn, visit_role, Drained, drain, Order, concluded,
  known, start, fuel, topological_order,
}
use synode.Engine.Ordered.{Settled, Inv, sources, visit-Inv}
use synode.Engine.Costs.{size, visit_role-size}

List-cases :
    (xs : List String) → (xs ≡ []) ⊎ ((x : String) × (rest : List String) × (xs ≡ x ∷ rest))
List-cases [] = inl refl
List-cases (x ∷ xs) = inr (x, xs, refl)

-- The loop ends, within its fuel, with nothing that is ready.
record Drains (names : List String) (edges : List RoleEdge) (d : Drained) : Type 0 where
  last : Kahn
  ended : d ≡ Drained.drained last
  kept : Inv names edges last
  idle : last.ready ≡ []

module _ (names : List String) (edges : List RoleEdge) where
  abbrev outgoing : String → List String
  outgoing = targets_of (known names edges)

  drain-Drains :
      (n : ℕ) (k : Kahn)
      → Inv names edges k
      → size outgoing k < n
      → Drains names edges (drain outgoing n k)
  unfolding drain
  drain-Drains zero k i room = let bad : ⊥ = omega (arith, room) in absurd bad
  drain-Drains (suc n) k i room = elim (List-cases k.ready) [
    | inl e ↦ rw (drain, e) (record { last = k; ended = refl; kept = i; idle = e })
    | inr (role, rest, e) ↦
        rw (drain, e)
          (drain-Drains n (visit_role outgoing role (record k { ready = rest }))
            (visit-Inv names edges role rest k i e)
            (omega (arith, room, visit_role-size outgoing role rest k e)))
  ]

  start-Inv : Inv names edges (start names edges)
  unfolding start
  start-Inv = record {
    members = λ x. sym (unique-mem_text x names) ∙ ground arith;
    apart = λ x o. cc;
    distinct = tt;
    missing = λ t s. ground arith;
    waits = record {
      waiting = λ t m out. let ready = found t in ground (arith, ready, m, out);
      released = λ t m. let ready = found t in ground (arith, ready, m);
    };
    settled = tt;
  }
    where
      found :
          (t : String)
          → mem_text t (sorted (keep_if (λ t. is_empty (sources names edges t)) (unique names)))
            ≡ (mem_text t (unique names) && is_empty (sources names edges t))
      found t =
          sorted-mem_text t (keep_if (λ t. is_empty (sources names edges t)) (unique names))
          ∙ keep_if-mem_text (λ t. is_empty (sources names edges t)) t (unique names)

  -- The order has the roles, each once, and each after all that have an edge to it.
  abbrev pub IsOrder : List String → Type 0
  IsOrder order =
      ((x : String) → mem_text x order ≡ mem_text x names)
      × Distinct order
      × Settled (sources names edges) [] order

  -- Roles each of which has an edge to it from one of them.
  abbrev pub IsStuck : List String → Type 0
  IsStuck roles =
      (is_empty roles ≡ false)
      × ((t : String)
          → mem_text t roles ≡ true
          → mem_text t names ≡ true
            × (s : String) × (mem_text s (sources names edges t) ≡ true)
            × (mem_text s roles ≡ true))

  abbrev pub Correct : Order → Type 0
  Correct (Order.order order) = IsOrder order
  Correct (Order.cyclic roles) = IsStuck roles
  Correct Order.unfinished = ⊥

  empty_mem : (x : String) (xs : List String) → is_empty xs ≡ true → mem_text x xs ≡ false
  empty_mem x [] h = refl
  empty_mem x (y ∷ ys) h = cc

  some_mem : (xs : List String) → is_empty xs ≡ false → (x : String) × (mem_text x xs ≡ true)
  some_mem [] h = cc
  some_mem (x ∷ xs) h = (x, rw (eq_refl x) refl)

  empty_length : (xs : List String) → is_empty xs ≡ eqb (length xs) 0
  empty_length [] = refl
  empty_length (x ∷ xs) = ground arith

  sorted_empty : (xs : List String) → is_empty (sorted xs) ≡ is_empty xs
  sorted_empty xs =
      empty_length (sorted xs) ∙ (ap (λ n. eqb n 0) (sorted-length xs) ∙ sym (empty_length xs))

  -- A source of a known edge is a role.
  source_known :
      (es : List RoleEdge) (s t : String)
      → mem_text s (sources_of (within names es) t) ≡ true
      → mem_text s names ≡ true
  unfolding sources_of
  source_known [] s t m = cc
  source_known (e ∷ es) s t m =
      elim (Bool-cases (mem_text e.source names && mem_text e.target names)) [
        | inr out ↦ source_known es s t (rw out at m)
        | inl both ↦ elim (Bool-cases (e.target == t)) [
          | inr other ↦ source_known es s t (rw (both, other) at m)
          | inl here ↦ elim (Bool-cases (s == e.source)) [
            | inl same ↦
                subst (λ v. mem_text v names ≡ true) (sym ((eq_iff s e.source).0 same))
                  (ground (arith, both))
            | inr other ↦ source_known es s t (rw (both, here, other) at m)
          ]
        ]
      ]

  stuck :
      (k : Kahn)
      → Inv names edges k
      → k.ready ≡ []
      → is_empty k.remaining ≡ false
      → IsStuck (sorted k.remaining)
  stuck k i idle left = (sorted_empty k.remaining ∙ left, waits_for)
    where
      waits_for :
          (t : String)
          → mem_text t (sorted k.remaining) ≡ true
          → mem_text t names ≡ true
            × (s : String) × (mem_text s (sources names edges t) ≡ true)
            × (mem_text s (sorted k.remaining) ≡ true)
      waits_for t m =
          let here : mem_text t k.remaining ≡ true = sym (sorted-mem_text t k.remaining) ∙ m in
          let (s, inside) =
            some_mem (k.incoming t) (i.waits.waiting t here (ap (mem_text t) idle)) in
          let source : (mem_text s (sources names edges t) && not (mem_text s k.ordered)) ≡ true =
            sym (i.missing t s) ∙ inside in
          let member = source_known edges s t (ground (arith, source)) in
          let still : mem_text s k.remaining ≡ true = ground (arith, i.members s, member, source) in
          (
            (i.members t ∙ rw here refl),
            s,
            ground (arith, source),
            sorted-mem_text s k.remaining ∙ still,
          )

  concluded-Correct :
      (k : Kahn) → Inv names edges k → k.ready ≡ [] → Correct (concluded (Drained.drained k))
  concluded-Correct k i idle = elim (Bool-cases (is_empty k.remaining)) [
    | inl e ↦
        rw (concluded, e)
          (
            (λ x.
                let none_left = empty_mem x k.remaining e in sym (i.members x ∙ rw none_left refl)),
            i.distinct,
            i.settled,
          )
    | inr e ↦ rw (concluded, e) (stuck k i idle e)
  ]

  -- The roles are put in an order in which each comes once and after all that have an edge to it, or
  -- they are refused for some of them, each of which has an edge to it from one of those.
  pub topological_order-Correct : Correct (topological_order names edges)
  unfolding topological_order
  topological_order-Correct =
      let d = drain-Drains (fuel names edges) (start names edges) start-Inv (omega arith) in
      subst (λ e. Correct (concluded e)) (sym d.ended) (concluded-Correct d.last d.kept d.idle)

  -- What is settled avoids every stuck set.
  Settled-avoids :
      (roles : List String)
      → IsStuck roles
      → (before xs : List String)
      → ((s : String) → mem_text s before ≡ true → mem_text s roles ≡ false)
      → Settled (sources names edges) before xs
      → (x : String) → mem_text x xs ≡ true
      → mem_text x roles ≡ false
  Settled-avoids roles stuck_set before [] clean settled x m = cc
  Settled-avoids roles stuck_set before (y ∷ ys) clean settled x m =
      let head : mem_text y roles ≡ false = elim (Bool-cases (mem_text y roles)) [
        | inr e ↦ e
        | inl e ↦
            let (known_y, s, source, among) = stuck_set.1 y e in
            cc (clean s (settled.0 s source), among)
      ] in
      elim (Bool-cases (x == y)) [
        | inl e ↦ ap (λ v. mem_text v roles) ((eq_iff x y).0 e) ∙ head
        | inr e ↦
            Settled-avoids roles stuck_set (y ∷ before) ys (extended y before clean head) settled.1
              x (rw e at m)
      ]
    where
      extended :
          (y : String) (before : List String)
          → ((s : String) → mem_text s before ≡ true → mem_text s roles ≡ false)
          → mem_text y roles ≡ false
          → (s : String) → mem_text s (y ∷ before) ≡ true
          → mem_text s roles ≡ false
      extended y before clean head s m = elim (Bool-cases (s == y)) [
        | inl e ↦ ap (λ v. mem_text v roles) ((eq_iff s y).0 e) ∙ head
        | inr e ↦ clean s (rw e at m)
      ]

  stuck-unordered : (roles order : List String) → IsStuck roles → IsOrder order → ⊥
  stuck-unordered roles order stuck_set (members, distinct, settled) =
      let (t, m) = some_mem roles stuck_set.0 in
      let there : mem_text t order ≡ true = members t ∙ (stuck_set.1 t m).0 in
      cc (Settled-avoids roles stuck_set [] order (λ s m'. cc) settled t there, m)

  -- Where the roles can be put in an order at all, an order is found.
  pub topological_order-finds :
      (order : List String)
      → IsOrder order
      → (found : List String) × (topological_order names edges ≡ Order.order found)
  topological_order-finds order is_order =
      answer (topological_order names edges) refl topological_order-Correct
    where
      answer :
          (o : Order)
          → topological_order names edges ≡ o
          → Correct o
          → (found : List String) × (topological_order names edges ≡ Order.order found)
      answer (Order.order found) e c = (found, e)
      answer (Order.cyclic roles) e c = absurd (stuck-unordered roles order c is_order)
      answer Order.unfinished e c = absurd c
