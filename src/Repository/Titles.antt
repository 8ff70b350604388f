-- ===== src/Repository/Titles.antt =====
-- The titles of threads: `_thread_title` of src/synode/infrastructure/persistence/repository.py.
use synode.Prelude.{
  ℕ, zero, suc, ◌≤◌, String, false, ◌≡◌, ◌≢◌, arith, ◌==◌, ap, eq_refl, Bool-cases, inl, inr,
}
use synode.Repository.Threads.{thread_title, take_chars, split, join_words}

-- `len(text)`
abbrev pub chars : String → ℕ
chars String.[] = 0
chars (String.◌∷◌ c s) = suc (chars s)

take_chars-chars : (n : ℕ) (s : String) → chars (take_chars n s) ≤ n
unfolding take_chars
take_chars-chars zero s = omega arith
take_chars-chars (suc n) String.[] = omega arith
take_chars-chars (suc n) (String.◌∷◌ c s) = omega (arith, take_chars-chars n s)

take_chars-some : (n : ℕ) (s : String) → (s == "") ≡ false → take_chars (suc n) s ≢ ""
unfolding take_chars
take_chars-some n String.[] e = λ p. cc (e, eq_refl "")
take_chars-some n (String.◌∷◌ c s) e = λ p. omega (arith, ap chars p)

-- The title of a thread is never empty, and at most 120 characters long.
pub thread_title-bounds :
    (value : String) → (chars (thread_title value) ≤ 120) × (thread_title value ≢ "")
unfolding thread_title
thread_title-bounds value = elim (Bool-cases (join_words (split value) == "")) [
  | inl e ↦ rw e (omega arith, λ p. cc)
  | inr e ↦ rw e (
    take_chars-chars 120 (join_words (split value)),
    take_chars-some 119 (join_words (split value)) e,
  )
]
