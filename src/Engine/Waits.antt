-- ===== src/Engine/Waits.antt =====
-- Which roles wait, in the loop of `_topological_order`.
use synode.Prelude.{
  String, true, false, not, ◌&&◌, ◌||◌, ◌≡◌, refl, sym, ap, subst, ◌∙◌, List, [], ◌∷◌, ◌++◌, ◌==◌,
  eq_iff, mem_text, mem_text-append, Bool-cases, inl, inr, arith,
}
use synode.Policy.{is_empty}
use synode.Engine.Sorted.{discard, discard-mem_text}
use synode.Engine.Order.{Kahn, release, release_all}

-- Every role waits for nothing exactly where it is ready or no longer remains.
pub record Waits (k : Kahn) : Type 0 where
  pub waiting :
      (t : String)
      → mem_text t k.remaining ≡ true
      → mem_text t k.ready ≡ false
      → is_empty (k.incoming t) ≡ false
  pub released : (t : String) → mem_text t k.ready ≡ true → is_empty (k.incoming t) ≡ true

release-mem_text :
    (role t : String) (k : Kahn) (s u : String)
    → mem_text s ((release role t k).incoming u)
      ≡ (mem_text s (k.incoming u) && not (u == t && s == role))
unfolding release
release-mem_text role t k s u = elim (Bool-cases (u == t)) [
  | inl e ↦
      let same : mem_text s (k.incoming u) ≡ mem_text s (k.incoming t) =
        ap (λ v. mem_text s (k.incoming v)) ((eq_iff u t).0 e) in
      rw (e, same) (discard-mem_text s role (k.incoming t))
  | inr e ↦ rw e (ground arith)
]

pub release_all-mem_text :
    (role : String) (targets : List String) (k : Kahn) (s u : String)
    → mem_text s ((release_all role targets k).incoming u)
      ≡ (mem_text s (k.incoming u) && not (mem_text u targets && s == role))
unfolding release_all
release_all-mem_text role [] k s u = ground arith
release_all-mem_text role (t ∷ targets) k s u =
    release_all-mem_text role targets (release role t k) s u
    ∙ rw (release-mem_text role t k s u) (ground arith)

discard-empty :
    (x : String) (xs : List String) → is_empty xs ≡ true → is_empty (discard x xs) ≡ true
unfolding discard
discard-empty x [] h = refl
discard-empty x (y ∷ ys) h = cc

pub mem_text-last :
    (u t : String) (xs : List String) → mem_text u (xs ++ t ∷ []) ≡ (mem_text u xs || u == t)
mem_text-last u t xs = mem_text-append u xs (t ∷ []) ∙ ground arith

release-Waits : (role t : String) (k : Kahn) → Waits k → Waits (release role t k)
unfolding release
release-Waits role t k w = record { waiting = waits; released = ready }
  where
    waits :
        (u : String)
        → mem_text u k.remaining ≡ true
        → mem_text u (release role t k).ready ≡ false
        → is_empty ((release role t k).incoming u) ≡ false
    waits u m out = elim (Bool-cases (is_empty (discard role (k.incoming t)))) [
      | inl e ↦
          let out' : (mem_text u k.ready || u == t) ≡ false =
            sym (mem_text-last u t k.ready) ∙ (rw (release, e) at out) in
          let other : (u == t) ≡ false = ground (arith, out') in
          rw (release, other) (w.waiting u m (ground (arith, out')))
      | inr e ↦ elim (Bool-cases (u == t)) [
        | inl same ↦ rw (release, same) e
        | inr other ↦ rw (release, other) (w.waiting u m (rw (release, e) at out))
      ]
    ]

    ready :
        (u : String)
        → mem_text u (release role t k).ready ≡ true
        → is_empty ((release role t k).incoming u) ≡ true
    ready u m = elim (Bool-cases (is_empty (discard role (k.incoming t)))) [
      | inl e ↦ elim (Bool-cases (u == t)) [
        | inl same ↦ rw (release, same) e
        | inr other ↦
            let m' : (mem_text u k.ready || u == t) ≡ true =
              sym (mem_text-last u t k.ready) ∙ (rw (release, e) at m) in
            rw (release, other) (w.released u (ground (arith, m', other)))
      ]
      | inr e ↦
          let r = w.released u (rw (release, e) at m) in
          elim (Bool-cases (u == t)) [
            | inl same ↦
                let gone : is_empty (discard role (k.incoming t)) ≡ true =
                  discard-empty role (k.incoming t)
                    (subst (λ v. is_empty (k.incoming v) ≡ true) ((eq_iff u t).0 same) r) in
                cc (gone, e)
            | inr other ↦ rw (release, other) r
          ]
    ]

pub release_all-Waits :
    (role : String) (targets : List String) (k : Kahn)
    → Waits k
    → Waits (release_all role targets k)
      × ((release_all role targets k).remaining ≡ k.remaining)
      × ((release_all role targets k).ordered ≡ k.ordered)
unfolding release_all release
release_all-Waits role [] k w = (w, refl, refl)
release_all-Waits role (t ∷ targets) k w =
    release_all-Waits role targets (release role t k) (release-Waits role t k w)
