-- ===== src/Patches/Validated.antt =====
-- What a proposal without errors is: each patch has one place in the file it names, and each command
-- is safe.
use synode.Prelude.{
  ℕ, suc, String, Bool, true, false, not, ◌&&◌, ◌||◌, some, List, [], ◌∷◌, ◌++◌, ◌==◌, ◌≡◌, refl,
  inl, inr, eqb, Bool-cases, Option-cases, All, eq_iff, arith,
}
use synode.Policy.{is_empty}
use synode.Patches.Commands.{is_safe_command}
use synode.Patches.Proposal.{
  FilePatch, PatchProposal, FileContext, PatchError, Checks, file_at, count, patch_errors,
  text_errors, error_if, enumerated, proposes_patch, operator_errors, code_errors, in_catalog,
  command_errors, validate_patch_proposal,
}

append-empty : (xs ys : List PatchError) → xs ++ ys ≡ [] → (xs ≡ []) × (ys ≡ [])
append-empty [] ys h = (refl, h)
append-empty (x ∷ xs) ys h = cc

error_if-empty : (b : Bool) (e : PatchError) → error_if b e ≡ [] → b ≡ false
error_if-empty false e h = refl
error_if-empty true e h = cc

not-false : (b : Bool) → not b ≡ false → b ≡ true
not-false b h = ground arith

enumerated-empty :
    {A : Type 0} (f : ℕ → A → List PatchError) (P : A → Type 0)
    → ((index : ℕ) (x : A) → f index x ≡ [] → P x)
    → (index : ℕ) (xs : List A) → enumerated f index xs ≡ []
    → All P xs
enumerated-empty f P one index [] h = tt
enumerated-empty f P one index (x ∷ xs) h =
    let (here, later) = append-empty (f index x) (enumerated f (suc index) xs) h in
    (one index x here, enumerated-empty f P one (suc index) xs later)

-- The patch names a file of the context and its checksum, and what it replaces stands once there.
abbrev pub Fits : List FileContext → FilePatch → Type 0
Fits files p =
    (f : FileContext) × (file_at p.path files ≡ some f)
    × (p.expected_sha256 ≡ f.sha256)
    × ((p.old_text == "") ≡ false)
    × ((p.old_text == p.new_text) ≡ false)
    × (eqb (count p.old_text f.content) 1 ≡ true)

text_errors-right :
    (index : ℕ) (p : FilePatch) (f : FileContext)
    → text_errors index p f ≡ []
    → ((p.old_text == "") ≡ false)
      × ((p.old_text == p.new_text) ≡ false)
      × (eqb (count p.old_text f.content) 1 ≡ true)
unfolding text_errors
text_errors-right index p f h = elim (Bool-cases (p.old_text == "")) [
  | inl b ↦ cc (rw (b, text_errors) at h)
  | inr b ↦
      let (times, same) =
        append-empty
          (error_if (not (eqb (count p.old_text f.content) 1))
            (PatchError.occurrences index (count p.old_text f.content)))
          (error_if (p.old_text == p.new_text) (PatchError.identical index))
          (rw (b, text_errors) at h) in
      (b, error_if-empty _ _ same, not-false _ (error_if-empty _ _ times))
]

patch_errors-Fits :
    (files : List FileContext) (index : ℕ) (p : FilePatch)
    → patch_errors files index p ≡ []
    → Fits files p
unfolding patch_errors
patch_errors-Fits files index p h = elim (Option-cases (file_at p.path files)) [
  | inl e ↦ cc (rw (e, patch_errors) at h)
  | inr (f, e) ↦
      let (sums, texts) =
        append-empty
          (error_if (not (p.expected_sha256 == f.sha256)) (PatchError.wrong_checksum index))
          (text_errors index p f) (rw (e, patch_errors) at h) in
      let (proper, other, once) = text_errors-right index p f texts in
      (f, e, (eq_iff _ _).0 (not-false _ (error_if-empty _ _ sums)), proper, other, once)
]

-- The command is safe, and of the catalog where there is one.
abbrev pub Allowed : List (List String) → List String → Type 0
Allowed catalog argv =
    (is_safe_command argv ≡ true) × ((is_empty catalog || in_catalog argv catalog) ≡ true)

command_errors-Allowed :
    (catalog : List (List String)) (index : ℕ) (argv : List String)
    → command_errors catalog index argv ≡ []
    → Allowed catalog argv
unfolding command_errors
command_errors-Allowed catalog index argv h = elim (Bool-cases (is_empty argv)) [
  | inl e ↦ cc (rw (e, command_errors) at h)
  | inr e ↦ elim (Bool-cases (is_safe_command argv)) [
    | inl safe ↦ (safe, ground (arith, error_if-empty _ _ (rw (e, safe, command_errors) at h)))
    | inr unsafe ↦ cc (rw (e, unsafe, command_errors) at h)
  ]
]

-- A proposal without errors: each of its patches names a file of the context by its checksum and
-- replaces a text that is not empty, is another than the new one, and stands once in the file; each
-- of its commands is safe and of the catalog, where there is one; only an action `patch` has patches.
pub validate_patch_proposal-Valid :
    (checks : Checks) (p : PatchProposal) (files : List FileContext) (catalog : List (List String))
    (required : List String)
    → validate_patch_proposal checks p files catalog required ≡ []
    → All (Fits files) p.patches
      × All (Allowed catalog) p.verification_commands
      × ((proposes_patch p.action || is_empty p.patches) ≡ true)
unfolding validate_patch_proposal
validate_patch_proposal-Valid checks p files catalog required h =
    let (action, h₁) =
      append-empty
        (error_if (not (proposes_patch p.action) && not (is_empty p.patches))
          (PatchError.must_not_patch p.action))
        (operator_errors checks.delegates p
          ++ (enumerated (patch_errors files) 0 p.patches
              ++ (code_errors checks p files required
                  ++ enumerated (command_errors catalog) 0 p.verification_commands)))
        h in
    let (_, h₂) =
      append-empty (operator_errors checks.delegates p)
        (enumerated (patch_errors files) 0 p.patches
          ++ (code_errors checks p files required
              ++ enumerated (command_errors catalog) 0 p.verification_commands))
        h₁ in
    let (fitting, h₃) =
      append-empty (enumerated (patch_errors files) 0 p.patches)
        (code_errors checks p files required
          ++ enumerated (command_errors catalog) 0 p.verification_commands)
        h₂ in
    let (_, commands) =
      append-empty (code_errors checks p files required)
        (enumerated (command_errors catalog) 0 p.verification_commands) h₃ in
    (
      enumerated-empty (patch_errors files) (Fits files) (patch_errors-Fits files) 0 p.patches
          fitting,
      enumerated-empty (command_errors catalog) (Allowed catalog) (command_errors-Allowed catalog) 0
          p.verification_commands commands,
      ground (arith, error_if-empty _ _ action),
    )
