-- ===== src/Store/Sweep.antt =====
-- A loop that writes to each row that a query selected: afterwards the query selects none.
use synode.Prelude.{
  String, Bool, true, false, ◌≡◌, refl, sym, subst, none, some, List, [], ◌∷◌, map, mem_text, All,
  All-mono, keep_if, ◌==◌, eq_iff, eq_refl, Bool-cases, inl, inr, arith,
}
use synode.Store.Table.{find, update}
use synode.Store.Keys.{Unique, Unique-update}

module _ {A : Type 0} (key : A → String) (p : A → Bool) where
  -- The rows that `p` still selects are among those left.
  abbrev pub Among : List String → List A → Type 0
  Among left rows = All (λ r. p r ≡ true → mem_text (key r) left ≡ true) rows

  abbrev pub Left : List String → List A → Type 0
  Left left rows = Unique key rows × Among left rows

  Among-cons :
      (k : String) (left : List String) (rows : List A) → Among left rows → Among (k ∷ left) rows
  Among-cons k left rows h = All-mono _ _ (λ r m e. rw (m e) (ground arith)) rows h

  Among-start : (rows : List A) → Among (map key (keep_if p rows)) rows
  Among-start [] = tt
  Among-start (x ∷ rows) = elim (Bool-cases (p x)) [
    | inl e ↦
        let kept : keep_if p (x ∷ rows) ≡ x ∷ keep_if p rows = rw e refl in
        subst (λ ks. Among (map key ks) (x ∷ rows)) (sym kept)
          ((λ s. rw eq_refl), Among-cons (key x) _ rows (Among-start rows))
    | inr e ↦
        let kept : keep_if p (x ∷ rows) ≡ keep_if p rows = rw e refl in
        subst (λ ks. Among (map key ks) (x ∷ rows)) (sym kept) ((λ s. cc), Among-start rows)
  ]

  pub Left-start : (rows : List A) → Unique key rows → Left (map key (keep_if p rows)) rows
  Left-start rows u = (u, Among-start rows)

  pub Left-end : (rows : List A) → Among [] rows → keep_if p rows ≡ []
  Left-end [] h = refl
  Left-end (x ∷ rows) h = elim (Bool-cases (p x)) [
    | inl e ↦ let bad : false ≡ true = h.0 e in cc
    | inr e ↦ rw e (Left-end rows h.1)
  ]

  missing :
      (k : String) (rows : List A) → find key k rows ≡ none → All (λ r. (key r == k) ≡ false) rows
  unfolding find
  missing k [] h = tt
  missing k (x ∷ rows) h = elim (Bool-cases (key x == k)) [
    | inl e ↦ let found : some x ≡ none = rw e at h in cc
    | inr e ↦ (e, missing k rows (rw e at h))
  ]

  -- Rows with other keys need the first key no more.
  drop_key :
      (k : String) (left : List String) (rows : List A)
      → All (λ r. (key r == k) ≡ false) rows
      → Among (k ∷ left) rows
      → Among left rows
  drop_key k left [] n h = tt
  drop_key k left (x ∷ rows) n h = ((λ e. ground (arith, h.0 e, n.0)), drop_key k left rows n.1 h.1)

  module _ (k : String) (left : List String) (f : A → A) (off : (r : A) → p (f r) ≡ false) where
    Among-step :
        (rows : List A) → Unique key rows → Among (k ∷ left) rows → Among left (update key k f rows)
    unfolding update
    Among-step [] u h = tt
    Among-step (x ∷ rows) u h = elim (Bool-cases (key x == k)) [
      | inl e ↦
          let here : find key k rows ≡ none =
            subst (λ j. find key j rows ≡ none) ((eq_iff (key x) k).0 e) u.0 in
          rw e ((λ s. cc (off x, s)), drop_key k left rows (missing k rows here) h.1)
      | inr e ↦ rw e ((λ s. ground (arith, h.0 s, e)), Among-step rows u.1 h.1)
    ]

    pub Left-step :
        ((r : A) → key (f r) ≡ key r)
        → (rows : List A) → Left (k ∷ left) rows
        → Left left (update key k f rows)
    Left-step same rows (u, h) = (Unique-update key k f same rows u, Among-step rows u h)
