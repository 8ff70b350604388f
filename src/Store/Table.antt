-- ===== src/Store/Table.antt =====
-- A database table as a list of rows with a text as primary key: `session.get`, and a write
-- through the object that it returned.
use synode.Prelude.{
  String, ◌≡◌, ◌≢◌, ◌⊎◌, refl, false, Option, none, some, List, [], ◌∷◌, ◌++◌, arith, ◌==◌, eq_iff,
  if◌then◌else◌, All, Bool-cases, inl, inr, sym, subst, ◌∙◌,
}

module _ {ℓ} {A : Type ℓ} (key : A → String) where
  -- `session.get(Record, k)`
  unfoldable pub find : String → List A → Option A
  find k [] = none
  find k (r ∷ rows) = if key r == k then some r else find k rows

  -- Assignments to the row that `find` returns.
  unfoldable pub update : String → (A → A) → List A → List A
  update k f [] = []
  update k f (r ∷ rows) = if key r == k then f r ∷ rows else r ∷ update k f rows

  pub find-key : (k : String) (rows : List A) (r : A) → find k rows ≡ some r → key r ≡ k
  unfolding find
  find-key k [] r h = cc
  find-key k (x ∷ rows) r h = elim (Bool-cases (key x == k)) [
    | inl e ↦ let same : some x ≡ some r = rw e at h in cc ((eq_iff (key x) k).0 e)
    | inr e ↦ find-key k rows r (rw e at h)
  ]

  pub find-append :
      (k : String) (xs ys : List A) (r : A) → find k xs ≡ some r → find k (xs ++ ys) ≡ some r
  unfolding find
  find-append k [] ys r h = cc
  find-append k (x ∷ xs) ys r h = ground (arith, find-append k xs ys r)

pub ne_test : (j k : String) → j ≢ k → (j == k) ≡ false
ne_test j k h = ground (arith, eq_iff j k)

module _ {ℓ} {A : Type ℓ} (key : A → String) (k : String) (f : A → A) where
  module _ (same : (r : A) → key (f r) ≡ key r) where
    pub find-update_self :
        (rows : List A) (r : A)
        → find key k rows ≡ some r
        → find key k (update key k f rows) ≡ some (f r)
    unfolding find update
    find-update_self [] r h = cc
    find-update_self (x ∷ rows) r h = elim (Bool-cases (key x == k)) [
      | inl e ↦ let found : some x ≡ some r = rw e at h in rw (e, same x, e) (cc)
      | inr e ↦ rw (e, e) (find-update_self rows r (rw e at h))
    ]

    pub find-update_ne :
        (j : String) (rows : List A) → k ≢ j → find key j (update key k f rows) ≡ find key j rows
    unfolding find update
    find-update_ne j [] h = refl
    find-update_ne j (x ∷ rows) h = elim (Bool-cases (key x == k)) [
      | inl e ↦
          let other : (key x == j) ≡ false =
            ne_test (key x) j (λ p. h (sym ((eq_iff (key x) k).0 e) ∙ p)) in
          rw (e, same x, other) refl
      | inr e ↦ rw (e, find-update_ne j rows h)
    ]

    -- What is found after the write was there before it, or is what `f` made of it.
    pub find-update_cases :
        (j : String) (rows : List A) (r : A)
        → find key j (update key k f rows) ≡ some r
        → (find key j rows ≡ some r) ⊎ ((old : A) × (find key j rows ≡ some old) × (r ≡ f old))
    unfolding find update
    find-update_cases j [] r h = inl h
    find-update_cases j (x ∷ rows) r h = elim (Bool-cases (key x == k)) [
      | inl e ↦ elim (Bool-cases (key x == j)) [
        | inl e' ↦ let made : some (f x) ≡ some r = rw (e, same x, e') at h in inr (x, rw e', cc)
        | inr e' ↦ inl (rw e' (rw (e, same x, e') at h))
      ]
      | inr e ↦ elim (Bool-cases (key x == j)) [
        | inl e' ↦ inl (rw e' (rw (e, e') at h))
        | inr e' ↦ rw e' (find-update_cases j rows r (rw (e, e') at h))
      ]
    ]

  -- Where the row that is found stays good under `f`, all rows stay good.
  pub All-update {κ} :
      (P : A → Type κ) (rows : List A) (r : A)
      → find key k rows ≡ some r
      → (P r → P (f r))
      → All P rows
      → All P (update key k f rows)
  unfolding find update
  All-update P [] r found keep h = tt
  All-update P (x ∷ rows) r found keep h = elim (Bool-cases (key x == k)) [
    | inl e ↦
        let here : some x ≡ some r = rw e at found in
        let same : x ≡ r = cc in
        rw e (subst (λ y. P (f y)) (sym same) (keep (subst P same h.0)), h.1)
    | inr e ↦ rw e (h.0, All-update P rows r (rw e at found) keep h.1)
  ]

  pub All-update_found {κ} :
      (P : A → Type κ) (rows : List A)
      → ((r : A) → find key k rows ≡ some r → P r → P (f r))
      → All P rows
      → All P (update key k f rows)
  unfolding find update
  All-update_found P [] keep h = tt
  All-update_found P (x ∷ rows) keep h = elim (Bool-cases (key x == k)) [
    | inl e ↦ rw e (keep x (rw e) h.0, h.1)
    | inr e ↦ rw e (h.0, All-update_found P rows (λ r found p. keep r (rw e found) p) h.1)
  ]

  pub All-update_any {κ} :
      (P : A → Type κ) (rows : List A)
      → ((r : A) → P r → P (f r))
      → All P rows
      → All P (update key k f rows)
  unfolding update
  All-update_any P [] keep h = tt
  All-update_any P (x ∷ rows) keep h = elim (Bool-cases (key x == k)) [
    | inl e ↦ rw e (keep x h.0, h.1)
    | inr e ↦ rw e (h.0, All-update_any P rows keep h.1)
  ]

module _ {ℓ κ} {A : Type ℓ} (key : A → String) (P : A → Type κ) where
  pub All-find : (k : String) (rows : List A) (r : A) → find key k rows ≡ some r → All P rows → P r
  unfolding find
  All-find k [] r found h = cc
  All-find k (x ∷ rows) r found h = elim (Bool-cases (key x == k)) [
    | inl e ↦
        let here : some x ≡ some r = rw e at found in let same : x ≡ r = cc in subst P same h.0
    | inr e ↦ All-find k rows r (rw e at found) h.1
  ]
