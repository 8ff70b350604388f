-- ===== src/Prelude/Texts.antt =====
-- Texts: white space, `strip`, concatenation, and membership in a list of texts.
use Prim.Native.Char.{Char, code}
use Prim.Native.String.{String, ◌++◌ as ◌⊹◌}
use mathlib.Core.Path.{◌≡◌, refl, sym, subst, ap, ◌∙◌}
use mathlib.Core.Logic.{inl, inr}
use mathlib.Core.Bool.{Bool, true, false, not, ◌&&◌, ◌||◌}
use mathlib.Core.List.{List, [], ◌∷◌, ◌++◌}
use native.Mathlib.Omega.{arith}
use text.Mathlib.Text.{◌==◌}
use text.Mathlib.TextEquality.{eq_iff}
use text.Mathlib.TextEquality.{Char-path}
use synode.Prelude.Lists.{All, keep_if}
use text.Mathlib.TextLemmas.{nil-append, cons-append}
use synode.Prelude.Tests.{leb, eqb, Bool-cases, if◌then◌else◌}

-- `x in xs` for texts
abbrev pub mem_text : String → List String → Bool
mem_text x [] = false
mem_text x (y ∷ ys) = x == y || mem_text x ys

-- The characters that `str.isspace` accepts.
unfoldable pub is_space : Char → Bool
is_space ch =
    let c = code ch in
    (leb 9 c && leb c 13)
    || (leb 28 c && leb c 32)
    || eqb c 133
    || eqb c 160
    || eqb c 5760
    || (leb 8192 c && leb c 8202)
    || eqb c 8232
    || eqb c 8233
    || eqb c 8239
    || eqb c 8287
    || eqb c 12288

-- `not s.strip()`
unfoldable pub is_blank : String → Bool
unfolding is_space
is_blank String.[] = true
is_blank (String.◌∷◌ c s) = is_space c && is_blank s

pub is_blank-append : (s t : String) → is_blank (s ⊹ t) ≡ (is_blank s && is_blank t)
unfolding is_blank
is_blank-append String.[] t = rw nil-append
is_blank-append (String.◌∷◌ c s) t = rw cons-append (ground (arith, is_blank-append s t))

-- `s.rstrip()` and `s.strip()`
unfoldable pub strip_right : String → String
unfolding is_space
strip_right String.[] = String.[]
strip_right (String.◌∷◌ c s) =
    let rest = strip_right s in if is_space c && rest == "" then String.[] else String.◌∷◌ c rest

unfoldable pub strip : String → String
unfolding is_space strip_right
strip String.[] = String.[]
strip (String.◌∷◌ c s) =
    let rest = strip s in if is_space c then rest else strip_right (String.◌∷◌ c s)

strip_example : strip "  a b \n" ≡ "a b"
unfolding strip
strip_example = refl

-- A text that begins with a blank-free literal is not blank.
pub is_blank-prefix : (s t : String) → is_blank s ≡ false → is_blank (s ⊹ t) ≡ false
is_blank-prefix s t h = rw (is_blank-append, h)

-- What holds of all the texts of a list holds of one that is among them.
pub mem_text-All :
    (P : String → Type 0) (x : String) (xs : List String) → mem_text x xs ≡ true → All P xs → P x
mem_text-All P x [] m h = cc
mem_text-All P x (y ∷ ys) m h = elim (Bool-cases (x == y)) [
  | inl e ↦ subst P (sym ((eq_iff x y).0 e)) h.0
  | inr e ↦ mem_text-All P x ys (rw e at m) h.1
]

-- No text occurs twice.
abbrev pub Distinct : List String → Type 0
Distinct [] = Unit
Distinct (x ∷ xs) = (mem_text x xs ≡ false) × Distinct xs

-- `s.startswith(prefix)`
unfoldable pub starts_with : String → String → Bool
starts_with String.[] s = true
starts_with (String.◌∷◌ c p) String.[] = false
starts_with (String.◌∷◌ c p) (String.◌∷◌ d s) = eqb (code c) (code d) && starts_with p s

-- `s.endswith(suffix)`
unfoldable pub ends_with : String → String → Bool
ends_with suffix String.[] = suffix == ""
ends_with suffix (String.◌∷◌ c s) = String.◌∷◌ c s == suffix || ends_with suffix s

-- `s[:-1]`
unfoldable pub drop_last : String → String
drop_last String.[] = ""
drop_last (String.◌∷◌ c s) = let rest = drop_last s in if s == "" then "" else String.◌∷◌ c rest

pub starts_with-append : (p s : String) → starts_with p (p ⊹ s) ≡ true
unfolding starts_with
starts_with-append String.[] s = refl
starts_with-append (String.◌∷◌ c p) s = rw cons-append (ground (arith, starts_with-append p s))

-- A text that begins with another is that one and a rest.
pub starts_with-rest : (p s : String) → starts_with p s ≡ true → (rest : String) × (s ≡ p ⊹ rest)
unfolding starts_with
starts_with-rest String.[] s h = (s, sym (nil-append s))
starts_with-rest (String.◌∷◌ c p) String.[] h = cc
starts_with-rest (String.◌∷◌ c p) (String.◌∷◌ d s) h =
    let (rest, e) = starts_with-rest p s (ground (arith, h)) in
    let same : c ≡ d = Char-path c d (ground (arith, h)) in
    (rest, rw (cons-append c p rest, same) (ap (String.◌∷◌ d) e))

pub mem_text-append :
    (x : String) (xs ys : List String) → mem_text x (xs ++ ys) ≡ (mem_text x xs || mem_text x ys)
mem_text-append x [] ys = refl
mem_text-append x (y ∷ xs) ys = rw (mem_text-append x xs ys) (ground arith)

pub Distinct-append :
    (xs : List String) (x : String) → Distinct xs → mem_text x xs ≡ false → Distinct (xs ++ x ∷ [])
Distinct-append [] x d m = (refl, tt)
Distinct-append (y ∷ xs) x d m =
    let other : (y == x) ≡ false = ground (arith, m, eq_iff x y, eq_iff y x) in
    (
      (rw (mem_text-append y xs (x ∷ [])) (rw (d.0, other) refl)),
      Distinct-append xs x d.1 (ground (arith, m)),
    )

pub mem_text-other :
    (x k : String) (xs : List String)
    → mem_text x (keep_if (λ y. not (y == k)) xs) ≡ (mem_text x xs && not (x == k))
mem_text-other x k [] = refl
mem_text-other x k (y ∷ xs) = elim (Bool-cases (y == k)) [
  | inl e ↦
      let same : (x == y) ≡ (x == k) = ap (λ z. x == z) ((eq_iff y k).0 e) in
      rw (e, same, mem_text-other x k xs) (ground arith)
  | inr e ↦ elim (Bool-cases (x == y)) [
    | inl e' ↦
        let other : (x == k) ≡ false = ap (λ z. z == k) ((eq_iff x y).0 e') ∙ e in
        rw (e, e', other) refl
    | inr e' ↦ rw (e, e', mem_text-other x k xs) refl
  ]
]
