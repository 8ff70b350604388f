-- ===== src/Engine/Sorted.antt =====
-- `sorted(xs)` on texts, by their code points, and sets of texts as lists without repetition.
use Prim.Native.String.{compare}
use Prim.Native.Nat.{Ordering}
use synode.Prelude.{
  suc, String, Bool, true, false, not, ◌&&◌, ◌||◌, ◌≡◌, refl, ap, ◌∙◌, List, [], ◌∷◌, ◌==◌, eq_iff,
  if◌then◌else◌, keep_if, length, mem_text, mem_text-other, Bool-cases, inl, inr, arith,
}

-- `s <= t`
abbrev at_most : String → String → Bool
at_most s t = elim (compare s t) [ Ordering.gt ↦ false | _ ↦ true ]

unfoldable pub insert : String → List String → List String
insert x [] = x ∷ []
insert x (y ∷ ys) = let rest = insert x ys in if at_most x y then x ∷ y ∷ ys else y ∷ rest

unfoldable pub sorted : List String → List String
unfolding insert
sorted [] = []
sorted (x ∷ xs) = insert x (sorted xs)

-- The elements in the order of their first occurrence, each once.
unfoldable pub unique : List String → List String
unique [] = []
unique (x ∷ xs) = x ∷ keep_if (λ y. not (y == x)) (unique xs)

-- `xs.discard(x)`
unfoldable pub discard : String → List String → List String
discard x xs = keep_if (λ y. not (y == x)) xs

insert-mem_text :
    (z x : String) (ys : List String) → mem_text z (insert x ys) ≡ (z == x || mem_text z ys)
unfolding insert
insert-mem_text z x [] = refl
insert-mem_text z x (y ∷ ys) = elim (Bool-cases (at_most x y)) [
  | inl e ↦ rw e refl
  | inr e ↦ rw e (rw (insert-mem_text z x ys) (ground arith))
]

pub sorted-mem_text : (z : String) (xs : List String) → mem_text z (sorted xs) ≡ mem_text z xs
unfolding sorted
sorted-mem_text z [] = refl
sorted-mem_text z (x ∷ xs) = insert-mem_text z x (sorted xs) ∙ rw (sorted-mem_text z xs) refl

insert-length : (x : String) (ys : List String) → length (insert x ys) ≡ suc (length ys)
unfolding insert
insert-length x [] = refl
insert-length x (y ∷ ys) = elim (Bool-cases (at_most x y)) [
  | inl e ↦ rw e refl
  | inr e ↦ rw e (ap suc (insert-length x ys))
]

pub sorted-length : (xs : List String) → length (sorted xs) ≡ length xs
unfolding sorted
sorted-length [] = refl
sorted-length (x ∷ xs) = insert-length x (sorted xs) ∙ ap suc (sorted-length xs)

pub discard-mem_text :
    (z x : String) (xs : List String) → mem_text z (discard x xs) ≡ (mem_text z xs && not (z == x))
unfolding discard
discard-mem_text z x xs = mem_text-other z x xs

pub unique-mem_text : (z : String) (xs : List String) → mem_text z (unique xs) ≡ mem_text z xs
unfolding unique discard
unique-mem_text z [] = refl
unique-mem_text z (x ∷ xs) =
    let rest : mem_text z (discard x (unique xs)) ≡ (mem_text z xs && not (z == x)) =
      discard-mem_text z x (unique xs) ∙ rw (unique-mem_text z xs) refl in
    ground (arith, rest)

pub keep_if-mem_text :
    (p : String → Bool) (z : String) (xs : List String)
    → mem_text z (keep_if p xs) ≡ (mem_text z xs && p z)
keep_if-mem_text p z [] = refl
keep_if-mem_text p z (y ∷ ys) = elim (Bool-cases (z == y)) [
  | inl e ↦
      let same : p z ≡ p y = ap p ((eq_iff z y).0 e) in
      elim (Bool-cases (p y)) [
        | inl t ↦ rw (t, e, same, t) refl
        | inr f ↦ rw (f, e) (keep_if-mem_text p z ys ∙ rw (same, f) (ground arith))
      ]
  | inr e ↦ elim (Bool-cases (p y)) [
    | inl t ↦ rw (t, e) (keep_if-mem_text p z ys)
    | inr f ↦ rw (f, e) (keep_if-mem_text p z ys)
  ]
]
