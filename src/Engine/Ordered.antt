-- ===== src/Engine/Ordered.antt =====
-- The invariant of the loop of `_topological_order`, and what its result is.
use synode.Prelude.{
  String, true, false, not, ◌&&◌, ◌||◌, ◌≡◌, refl, sym, ap, subst, ◌∙◌, List, [], ◌∷◌, ◌++◌, ◌==◌,
  eq_iff, eq_refl, mem_text, Distinct, Distinct-append, Bool-cases, inl, inr, arith,
}
use synode.Policy.{is_empty}
use synode.Engine.Sorted.{
  sorted, unique, discard, sorted-mem_text, unique-mem_text, discard-mem_text,
}
use synode.Engine.Order.{
  RoleEdge, sources_of, targets_of, Kahn, release_all, take_role, visit_role, known,
}
use synode.Engine.Waits.{Waits, release_all-mem_text, release_all-Waits, mem_text-last}

-- Each role comes after all the roles that have an edge to it; those of `done` came before.
abbrev pub Settled : (String → List String) → List String → List String → Type 0
Settled sources done [] = Unit
Settled sources done (x ∷ xs) =
    ((s : String) → mem_text s (sources x) ≡ true → mem_text s done ≡ true)
    × Settled sources (x ∷ done) xs

Settled-snoc :
    (sources : String → List String) (done xs : List String) (x : String)
    → Settled sources done xs
    → ((s : String) → mem_text s (sources x) ≡ true → (mem_text s done || mem_text s xs) ≡ true)
    → Settled sources done (xs ++ x ∷ [])
Settled-snoc sources done [] x h f = ((λ s m. ground (arith, f s m)), tt)
Settled-snoc sources done (y ∷ ys) x h f =
    (h.0, Settled-snoc sources (y ∷ done) ys x h.1 (λ s m. ground (arith, f s m)))

eq_sym : (x y : String) → (x == y) ≡ (y == x)
eq_sym x y = ground (arith, eq_iff x y, eq_iff y x)

-- `t` is a target of `s` where `s` is a source of `t`.
targets-sources :
    (edges : List RoleEdge) (s t : String)
    → mem_text t (targets_of edges s) ≡ mem_text s (sources_of edges t)
unfolding targets_of sources_of unique
targets-sources [] s t = refl
targets-sources (e ∷ edges) s t =
    let made : mem_text t (unique (e.target ∷ targets_of edges s))
        ≡ (t == e.target || mem_text t (targets_of edges s)) =
      unique-mem_text t (e.target ∷ targets_of edges s) in
    let ih = targets-sources edges s t in
    elim (Bool-cases (e.source == s)) [
      | inl a ↦ elim (Bool-cases (e.target == t)) [
        | inl b ↦ rw (a, b) (made ∙ rw (eq_sym t e.target, eq_sym s e.source, a, b) refl)
        | inr b ↦ rw (a, b) (made ∙ rw (eq_sym t e.target, b) ih)
      ]
      | inr a ↦ elim (Bool-cases (e.target == t)) [
        | inl b ↦ rw (a, b) (ih ∙ rw (eq_sym s e.source, a) refl)
        | inr b ↦ rw (a, b) ih
      ]
    ]

module _ (names : List String) (edges : List RoleEdge) where
  abbrev pub sources : String → List String
  sources = sources_of (known names edges)

  pub record Inv (k : Kahn) : Type 0 where
    pub members : (x : String) → mem_text x names ≡ (mem_text x k.remaining || mem_text x k.ordered)
    pub apart : (x : String) → mem_text x k.ordered ≡ true → mem_text x k.remaining ≡ false
    pub distinct : Distinct k.ordered
    pub missing :
        (t s : String)
        → mem_text s (k.incoming t) ≡ (mem_text s (sources t) && not (mem_text s k.ordered))
    pub waits : Waits k
    pub settled : Settled sources [] k.ordered

  module _ (role : String) (rest : List String) (k : Kahn) (i : Inv k)
      (first : k.ready ≡ role ∷ rest) where
    -- What holds of a role among the ready ones.
    is_ready : (t : String) → mem_text t k.ready ≡ (t == role || mem_text t rest)
    is_ready t = ap (mem_text t) first

    skipped : mem_text role k.remaining ≡ false → Inv (record k { ready = rest })
    skipped gone = record {
      members = i.members;
      apart = i.apart;
      distinct = i.distinct;
      missing = i.missing;
      waits = record {
        waiting = λ t m out. i.waits.waiting t m (is_ready t ∙ (still t m out));
        released = λ t m. i.waits.released t (is_ready t ∙ rw m (ground arith));
      };
      settled = i.settled;
    }
      where
        still :
            (t : String)
            → mem_text t k.remaining ≡ true
            → mem_text t rest ≡ false
            → (t == role || mem_text t rest) ≡ false
        still t m out = elim (Bool-cases (t == role)) [
          | inl e ↦ cc (subst (λ v. mem_text v k.remaining ≡ true) ((eq_iff t role).0 e) m, gone)
          | inr e ↦ rw (e, out) refl
        ]

    abbrev begun : Kahn
    begun = record k {
      ready = rest;
      remaining = discard role k.remaining;
      ordered = k.ordered ++ role ∷ [];
    }

    begun-Waits : Waits begun
    begun-Waits = record {
      waiting = λ t m out.
          let m' : (mem_text t k.remaining && not (t == role)) ≡ true =
            sym (discard-mem_text t role k.remaining) ∙ m in
          i.waits.waiting t (ground (arith, m')) (is_ready t ∙ rw out (ground (arith, m')));
      released = λ t m. i.waits.released t (is_ready t ∙ rw m (ground arith));
    }

    -- A ready role waits for nothing, so all its sources are ordered.
    ready_settled : (s : String) → mem_text s (sources role) ≡ true → mem_text s k.ordered ≡ true
    ready_settled s m =
        let none_left = i.waits.released role (is_ready role ∙ rw (eq_refl role) refl) in
        let out : mem_text s (k.incoming role) ≡ false = empty_mem (k.incoming role) none_left in
        let gone : (mem_text s (sources role) && not (mem_text s k.ordered)) ≡ false =
          sym (i.missing role s) ∙ out in
        ground (arith, gone, m)
      where
        empty_mem : (xs : List String) → is_empty xs ≡ true → mem_text s xs ≡ false
        empty_mem [] h = refl
        empty_mem (x ∷ xs) h = cc

    -- What is left by the loop over the targets of `role`.
    record Passed (k' : Kahn) : Type 0 where
      waits : Waits k'
      remaining : k'.remaining ≡ discard role k.remaining
      ordered : k'.ordered ≡ k.ordered ++ role ∷ []
      missing :
          (t s : String)
          → mem_text s (k'.incoming t)
            ≡ (mem_text s (k.incoming t) && not (mem_text role (sources t) && s == role))

    module _ (there : mem_text role k.remaining ≡ true) (k' : Kahn) (p : Passed k') where
      left : (x : String) → mem_text x k'.remaining ≡ (mem_text x k.remaining && not (x == role))
      left x = ap (mem_text x) p.remaining ∙ discard-mem_text x role k.remaining

      done : (x : String) → mem_text x k'.ordered ≡ (mem_text x k.ordered || x == role)
      done x = ap (mem_text x) p.ordered ∙ mem_text-last x role k.ordered

      known_role : (x : String) → (x == role) ≡ true → mem_text x k.remaining ≡ true
      known_role x e = subst (λ v. mem_text v k.remaining ≡ true) (sym ((eq_iff x role).0 e)) there

      not_ordered : mem_text role k.ordered ≡ false
      not_ordered = elim (Bool-cases (mem_text role k.ordered)) [
        | inl o ↦ cc (i.apart role o, there)
        | inr o ↦ o
      ]

      members' :
          (x : String) → mem_text x names ≡ (mem_text x k'.remaining || mem_text x k'.ordered)
      members' x =
          rw (left x, done x)
            (elim (Bool-cases (x == role)) [
              | inl e ↦ ground (arith, i.members x, known_role x e, e)
              | inr e ↦ ground (arith, i.members x, e)
            ])

      apart' : (x : String) → mem_text x k'.ordered ≡ true → mem_text x k'.remaining ≡ false
      apart' x o = rw (left x) (elim (Bool-cases (x == role)) [
        | inl e ↦ ground (arith, e)
        | inr e ↦
            let o' : (mem_text x k.ordered || x == role) ≡ true = sym (done x) ∙ o in
            rw (i.apart x (ground (arith, o', e))) refl
      ])

      missing' :
          (t s : String)
          → mem_text s (k'.incoming t) ≡ (mem_text s (sources t) && not (mem_text s k'.ordered))
      missing' t s =
          p.missing t s
          ∙ rw (i.missing t s, done s)
              (elim (Bool-cases (s == role)) [
                | inl e ↦
                    let same : mem_text s (sources t) ≡ mem_text role (sources t) =
                      ap (λ v. mem_text v (sources t)) ((eq_iff s role).0 e) in
                    ground (arith, same, e)
                | inr e ↦ ground (arith, e)
              ])

      passed : Inv (record k' { ready = sorted k'.ready })
      passed = record {
        members = members';
        apart = apart';
        distinct =
            subst Distinct (sym p.ordered) (Distinct-append k.ordered role i.distinct not_ordered);
        missing = missing';
        waits = record {
          waiting = λ t m out. p.waits.waiting t m (sym (sorted-mem_text t k'.ready) ∙ out);
          released = λ t m. p.waits.released t (sym (sorted-mem_text t k'.ready) ∙ m);
        };
        settled =
            subst (Settled sources []) (sym p.ordered)
              (Settled-snoc sources [] k.ordered role i.settled (λ s m. ready_settled s m));
      }

    taken :
        mem_text role k.remaining ≡ true
        → Inv (take_role (targets_of (known names edges)) role (record k { ready = rest }))
    unfolding take_role
    taken there =
        let targets = sorted (targets_of (known names edges) role) in
        let (w, r, o) = release_all-Waits role targets begun begun-Waits in
        passed there (release_all role targets begun) (record {
          waits = w;
          remaining = r;
          ordered = o;
          missing = λ t s.
              release_all-mem_text role targets begun s t
              ∙ rw
                  (
                    sorted-mem_text t (targets_of (known names edges) role),
                    targets-sources (known names edges) role t,
                  )
                  refl;
        })

    -- A ready role is taken, or was taken before; both keep the invariant.
    pub visit-Inv :
        Inv (visit_role (targets_of (known names edges)) role (record k { ready = rest }))
    unfolding visit_role
    visit-Inv = elim (Bool-cases (mem_text role k.remaining)) [
      | inl e ↦ rw (visit_role, e) (taken e)
      | inr e ↦ rw (visit_role, e) (skipped e)
    ]
