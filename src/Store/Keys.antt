-- ===== src/Store/Keys.antt =====
-- Tables in which no two rows have one key: a row of the table is the one that `find` returns.
use synode.Prelude.{
  String, ◌≡◌, refl, sym, subst, Bool, true, false, none, some, List, [], ◌∷◌, ◌++◌, ◌==◌, eq_iff,
  eq_refl, All, All-mono, keep_if, Bool-cases, inl, inr,
}
use synode.Store.Table.{find, update, ne_test}

module _ {ℓ} {A : Type ℓ} (key : A → String) where
  abbrev pub Unique : List A → Type ℓ
  Unique [] = Unit
  Unique (r ∷ rows) = (find key (key r) rows ≡ none) × Unique rows

  -- A later row has another key than the first.
  other_key :
      (x : A) (rows : List A) (k : String) (r : A)
      → find key (key x) rows ≡ none
      → find key k rows ≡ some r
      → (key x == k) ≡ false
  other_key x rows k r missing found = elim (Bool-cases (key x == k)) [
    | inl e ↦
        let same : key x ≡ k = (eq_iff (key x) k).0 e in
        cc (subst (λ j. find key j rows ≡ none) same missing)
    | inr e ↦ e
  ]

  still_found :
      (x : A) (rows : List A) (r : A)
      → find key (key x) rows ≡ none
      → find key (key r) rows ≡ some r
      → find key (key r) (x ∷ rows) ≡ some r
  unfolding find
  still_found x rows r missing h = rw (other_key x rows (key r) r missing h) h

  -- Each row that `p` selects is the one found by its key.
  pub found_kept :
      (p : A → Bool) (rows : List A)
      → Unique rows
      → All (λ r. (find key (key r) rows ≡ some r) × (p r ≡ true)) (keep_if p rows)
  unfolding find
  found_kept p [] u = tt
  found_kept p (x ∷ rows) u =
      let rest =
        All-mono (λ r. (find key (key r) rows ≡ some r) × (p r ≡ true))
          (λ r. (find key (key r) (x ∷ rows) ≡ some r) × (p r ≡ true))
          (λ r h. (still_found x rows r u.0 h.0, h.1)) (keep_if p rows) (found_kept p rows u.1) in
      elim (Bool-cases (p x)) [ inl e ↦ rw e ((rw eq_refl, e), rest) | inr e ↦ rw e rest ]

  module _ (k : String) (f : A → A) (same : (r : A) → key (f r) ≡ key r) where
    find-none-update :
        (j : String) (rows : List A)
        → find key j rows ≡ none
        → find key j (update key k f rows) ≡ none
    unfolding find update
    find-none-update j [] h = refl
    find-none-update j (x ∷ rows) h = elim (Bool-cases (key x == j)) [
      | inl e ↦ let found : some x ≡ none = rw e at h in cc
      | inr e ↦ elim (Bool-cases (key x == k)) [
        | inl e' ↦ rw (e', same x, e) (rw e at h)
        | inr e' ↦ rw (e', e) (find-none-update j rows (rw e at h))
      ]
    ]

    pub Unique-update : (rows : List A) → Unique rows → Unique (update key k f rows)
    unfolding update
    Unique-update [] u = tt
    Unique-update (x ∷ rows) u = elim (Bool-cases (key x == k)) [
      | inl e ↦ rw (e, same x) u
      | inr e ↦ rw e (find-none-update (key x) rows u.0, Unique-update rows u.1)
    ]

  find-none-append :
      (j : String) (rows : List A) (x : A)
      → find key j rows ≡ none
      → (key x == j) ≡ false
      → find key j (rows ++ x ∷ []) ≡ none
  unfolding find
  find-none-append j [] x h e = rw e
  find-none-append j (y ∷ rows) x h e = elim (Bool-cases (key y == j)) [
    | inl e' ↦ let found : some y ≡ none = rw e' at h in cc
    | inr e' ↦ rw e' (find-none-append j rows x (rw e' at h) e)
  ]

  pub Unique-append :
      (rows : List A) (x : A) → find key (key x) rows ≡ none → Unique rows → Unique (rows ++ x ∷ [])
  unfolding find
  Unique-append [] x h u = (refl, tt)
  Unique-append (y ∷ rows) x h u = elim (Bool-cases (key y == key x)) [
    | inl e ↦ let found : some y ≡ none = rw e at h in cc
    | inr e ↦ (
      find-none-append (key y) rows x u.0
          (ne_test (key x) (key y) (λ p. cc ((eq_iff (key y) (key x)).1 (sym p)))),
      Unique-append rows x (rw e at h) u.1,
    )
  ]
