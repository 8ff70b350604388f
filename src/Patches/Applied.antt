-- ===== src/Patches/Applied.antt =====
-- What `patched_content_by_path` of src/synode/validation/patches.py makes of a proposal without errors.
use synode.Prelude.{
  ℕ, suc, String, true, false, not, ◌&&◌, Option, none, some, List, [], ◌∷◌, ◌==◌, ◌≡◌, refl, sym,
  subst, ◌∙◌, ap, inl, inr, if◌then◌else◌, eqb, mem_text, Distinct, Bool-cases, Option-cases, All,
  eq_iff, arith,
}
use synode.Patches.Proposal.{
  FilePatch, PatchProposal, FileContext, Checks, file_at, count, replace_first, set_content,
  patched_content_by_path, validate_patch_proposal,
}
use synode.Patches.Replaced.{Replaced, replace_first-Replaced}
use synode.Patches.Validated.{Fits, validate_patch_proposal-Valid}

-- `[patch.path for patch in patches]`
abbrev pub paths : List FilePatch → List String
paths [] = []
paths (p ∷ patches) = p.path ∷ paths patches

with_content : String → Option FileContext → Option FileContext
with_content content none = none
with_content content (some f) = some (record f { content = content })

file_at-same :
    (path content : String) (files : List FileContext)
    → file_at path (set_content path content files) ≡ with_content content (file_at path files)
unfolding file_at with_content
file_at-same path content [] = refl
file_at-same path content (g ∷ files) = elim (Option-cases (file_at path files)) [
  | inr (k, e) ↦ rw (file_at-same path content files, e) refl
  | inl e ↦ elim (Bool-cases (g.path == path)) [
    | inl b ↦ rw (file_at-same path content files, e) (rw b (rw b refl))
    | inr b ↦ rw (file_at-same path content files, e) (rw b (rw b refl))
  ]
]

file_at-other :
    (path other content : String) (files : List FileContext)
    → (path == other) ≡ false
    → file_at path (set_content other content files) ≡ file_at path files
unfolding file_at
file_at-other path other content [] h = refl
file_at-other path other content (g ∷ files) h = elim (Option-cases (file_at path files)) [
  | inr (k, e) ↦ rw (file_at-other path other content files h, e) refl
  | inl e ↦ elim (Bool-cases (g.path == other)) [
    | inl b ↦
        let elsewhere : (g.path == path) ≡ false =
          ground (arith, h, b, eq_iff g.path other, eq_iff path other, eq_iff g.path path) in
        rw (file_at-other path other content files h, e) (rw b (rw elsewhere refl))
    | inr b ↦ rw (file_at-other path other content files h, e) (rw b refl)
  ]
]

-- What a patch does to the contents: nothing where it cannot be applied.
after : FilePatch → List FileContext → List FileContext
after p files = elim (file_at p.path files) [
  | none ↦ files
  | some f ↦
      if not (p.old_text == "") && eqb (count p.old_text f.content) 1
      then set_content p.path (replace_first p.old_text p.new_text f.content) files
      else files
]

patched-after :
    (index : ℕ) (p : FilePatch) (patches : List FilePatch) (files : List FileContext)
    → (patched_content_by_path index (p ∷ patches) files).0
      ≡ (patched_content_by_path (suc index) patches (after p files)).0
unfolding patched_content_by_path after
patched-after index p patches files = elim (Option-cases (file_at p.path files)) [
  | inl e ↦ rw (e, patched_content_by_path, after) refl
  | inr (f, e) ↦ elim (Bool-cases (p.old_text == "")) [
    | inl b ↦ rw (e, patched_content_by_path, after) (rw b refl)
    | inr b ↦ elim (Bool-cases (eqb (count p.old_text f.content) 1)) [
      | inl c ↦ rw (e, patched_content_by_path, after) (rw (b, c) refl)
      | inr c ↦ rw (e, patched_content_by_path, after) (rw (b, c) refl)
    ]
  ]
]

after-other :
    (path : String) (p : FilePatch) (files : List FileContext)
    → (path == p.path) ≡ false
    → file_at path (after p files) ≡ file_at path files
unfolding after
after-other path p files h = elim (Option-cases (file_at p.path files)) [
  | inl e ↦ rw (e, after) refl
  | inr (f, e) ↦ elim (Bool-cases (not (p.old_text == "") && eqb (count p.old_text f.content) 1)) [
    | inl c ↦ rw (e, after, c) (file_at-other path p.path _ files h)
    | inr c ↦ rw (e, after, c) refl
  ]
]

-- The file of a path that no patch names stays as it is.
untouched :
    (index : ℕ) (patches : List FilePatch) (files : List FileContext) (path : String)
    → mem_text path (paths patches) ≡ false
    → file_at path (patched_content_by_path index patches files).0 ≡ file_at path files
unfolding patched_content_by_path
untouched index [] files path h = refl
untouched index (p ∷ patches) files path h =
    ap (file_at path) (patched-after index p patches files)
    ∙ untouched (suc index) patches (after p files) path (ground (arith, h))
    ∙ after-other path p files (ground (arith, h))

-- The file of the patch, and the same with one text replaced.
abbrev pub Applied : List FileContext → List FileContext → FilePatch → Type 0
Applied files after p =
    (f : FileContext) × (g : FileContext) × (file_at p.path files ≡ some f)
    × (file_at p.path after ≡ some g)
    × Replaced p.old_text p.new_text f.content g.content

abbrev Ready : List FileContext → FilePatch → Type 0
Ready files p =
    (f : FileContext) × (file_at p.path files ≡ some f)
    × ((p.old_text == "") ≡ false)
    × (eqb (count p.old_text f.content) 1 ≡ true)

-- What holds of the patches of other paths than `k`, from one thing to another.
over_others :
    (k : String) (P Q : FilePatch → Type 0)
    → ((q : FilePatch) → (q.path == k) ≡ false → P q → Q q)
    → (patches : List FilePatch) → mem_text k (paths patches) ≡ false
    → All P patches
    → All Q patches
over_others k P Q carry [] m h = tt
over_others k P Q carry (q ∷ patches) m h = (
  carry q (ground (arith, m, eq_iff q.path k, eq_iff k q.path)) h.0,
  over_others k P Q carry patches (ground (arith, m)) h.1,
)

after-here :
    (p : FilePatch) (files : List FileContext) (f : FileContext)
    → file_at p.path files ≡ some f
    → (p.old_text == "") ≡ false
    → eqb (count p.old_text f.content) 1 ≡ true
    → after p files ≡ set_content p.path (replace_first p.old_text p.new_text f.content) files
unfolding after
after-here p files f e proper once = rw (e, after) (rw (proper, once) refl)

Applied-one :
    (index : ℕ) (p : FilePatch) (patches : List FilePatch) (files : List FileContext)
    → mem_text p.path (paths patches) ≡ false
    → Ready files p
    → Applied files (patched_content_by_path (suc index) patches (after p files)).0 p
unfolding count with_content
Applied-one index p patches files m (f, e, proper, once) =
    let content = replace_first p.old_text p.new_text f.content in
    (
      f,
      record f { content = content },
      e,
      untouched (suc index) patches (after p files) p.path m
          ∙ ap (file_at p.path) (after-here p files f e proper once)
          ∙ file_at-same p.path content files
          ∙ ap (with_content content) e,
      replace_first-Replaced p.old_text p.new_text f.content (ground (arith, once)),
    )

applied_errors :
    (index : ℕ) (p : FilePatch) (patches : List FilePatch) (files : List FileContext)
    → Ready files p
    → (patched_content_by_path index (p ∷ patches) files).1
      ≡ (patched_content_by_path (suc index) patches (after p files)).1
unfolding patched_content_by_path
applied_errors index p patches files (f, e, proper, once) =
    rw (after-here p files f e proper once, e, patched_content_by_path) (rw (proper, once) refl)

Applied-all :
    (index : ℕ) (patches : List FilePatch) (files : List FileContext)
    → Distinct (paths patches)
    → All (Ready files) patches
    → ((patched_content_by_path index patches files).1 ≡ [])
      × All (Applied files (patched_content_by_path index patches files).0) patches
unfolding patched_content_by_path
Applied-all index [] files d h = (refl, tt)
Applied-all index (p ∷ patches) files d h =
    let result = (patched_content_by_path (suc index) patches (after p files)).0 in
    let still =
      over_others p.path (Ready files) (Ready (after p files))
        (λ q other r. (r.0, after-other q.path p files other ∙ r.1, r.2, r.3)) patches d.0 h.1 in
    let (none_failed, rest) = Applied-all (suc index) patches (after p files) d.1 still in
    (
      applied_errors index p patches files h.0 ∙ none_failed,
      subst (λ result. All (Applied files result) (p ∷ patches))
          (sym (patched-after index p patches files))
          (
            Applied-one index p patches files d.0 h.0,
            over_others p.path (Applied (after p files) result) (Applied files result)
                (λ q other a. (a.0, a.1, sym (after-other q.path p files other) ∙ a.2, a.3, a.4))
                patches d.0 rest,
          ),
    )

-- The patches of a proposal without errors name each file once: all of them are applied, none of
-- them fails, and the file of each is what it was with the patch's text, at one place, replaced.
pub patched_content_by_path-Applied :
    (checks : Checks) (p : PatchProposal) (files : List FileContext) (catalog : List (List String))
    (required : List String)
    → validate_patch_proposal checks p files catalog required ≡ []
    → Distinct (paths p.patches)
    → ((patched_content_by_path 0 p.patches files).1 ≡ [])
      × All (Applied files (patched_content_by_path 0 p.patches files).0) p.patches
patched_content_by_path-Applied checks p files catalog required h d =
    Applied-all 0 p.patches files d
      (ready p.patches (validate_patch_proposal-Valid checks p files catalog required h).0)
  where
    ready : (patches : List FilePatch) → All (Fits files) patches → All (Ready files) patches
    ready [] h = tt
    ready (q ∷ patches) h = ((h.0.0, h.0.1, h.0.3, h.0.5), ready patches h.1)
