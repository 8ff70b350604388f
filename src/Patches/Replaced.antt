-- ===== src/Patches/Replaced.antt =====
-- The replacement of the first occurrence of a text.
use text.Mathlib.TextLemmas.{nil-append, cons-append}
use synode.Prelude.{
  zero, String, true, ◌≡◌, ◌≢◌, refl, sym, ◌∙◌, ap, inl, inr, ◌⊹◌, starts_with, starts_with-rest,
  Bool-cases,
}
use synode.Patches.Proposal.{char_count, count_from, drop_chars, replace_first}

drop_chars-append : (p s : String) → drop_chars (char_count p) (p ⊹ s) ≡ s
unfolding drop_chars char_count
drop_chars-append String.[] s = nil-append s
drop_chars-append (String.◌∷◌ c p) s = rw cons-append (drop_chars-append p s)

-- The text stands once between two others, and `after` is what they are with a new text there.
abbrev pub Replaced : String → String → String → String → Type 0
Replaced old new content after =
    (a : String) × (b : String) × (content ≡ a ⊹ (old ⊹ b)) × (after ≡ a ⊹ (new ⊹ b))

Replaced-here :
    (old new content : String)
    → starts_with old content ≡ true
    → Replaced old new content (new ⊹ drop_chars (char_count old) content)
Replaced-here old new content h =
    let (rest, e) = starts_with-rest old content h in
    (
      "",
      rest,
      e ∙ sym (nil-append (old ⊹ rest)),
      ap (λ t. new ⊹ t) (ap (drop_chars (char_count old)) e ∙ drop_chars-append old rest)
          ∙ sym (nil-append (new ⊹ rest)),
    )

pub replace_first-Replaced :
    (old new content : String)
    → count_from old zero content ≢ 0
    → Replaced old new content (replace_first old new content)
unfolding count_from replace_first
replace_first-Replaced old new String.[] h = absurd (h refl)
replace_first-Replaced old new (String.◌∷◌ c s) h =
    elim (Bool-cases (starts_with old (String.◌∷◌ c s))) [
      | inl e ↦ rw e (Replaced-here old new (String.◌∷◌ c s) e)
      | inr e ↦
          let (a, b, before, after) = replace_first-Replaced old new s (rw e at h) in
          (
            String.◌∷◌ c a,
            b,
            rw cons-append (ap (String.◌∷◌ c) before),
            rw (e, cons-append) (ap (String.◌∷◌ c) after),
          )
    ]
