-- ===== src/Patches/Proposal.antt =====
-- `validate_patch_proposal` and `patched_content_by_path` of src/synode/validation/patches.py. The
-- checks of Python code, the symbols that a patch touches and the searches by regular expressions are
-- parameters.
use synode.Prelude.{
  ℕ, zero, suc, ◌-◌, String, Bool, true, false, not, ◌&&◌, ◌||◌, Option, none, some, List, [], ◌∷◌,
  ◌++◌, ◌==◌, ◌⊹◌, if◌then◌else◌, eqb, starts_with, keep_if,
}
use synode.Policy.{is_empty, coding_patch_proposal_contract}
use synode.Native.{LoopError, invalid_operator_question}
use synode.Patches.Commands.{is_safe_command}

pub data PatchAction : Type 0 where
  patch no_change needs_operator : PatchAction

pub record FilePatch : Type 0 where
  pub path : String
  pub expected_sha256 : String
  pub old_text : String
  pub new_text : String

pub record PatchProposal : Type 0 where
  pub action : PatchAction
  pub summary : String
  pub patches : List FilePatch
  pub verification_commands : List (List String)
  pub operator_question : Option String

pub record FileContext : Type 0 where
  pub path : String
  pub content : String
  pub sha256 : String

-- An error text, by what it reports; a number is the index of the patch or of the command.
pub data PatchError : Type 0 where
  must_not_patch : PatchAction → PatchError
  bad_question : LoopError → PatchError
  outside_context wrong_checksum empty_old_text identical : ℕ → PatchError
  occurrences occurrences_later : ℕ → ℕ → PatchError
  python : String → PatchError
  missing_symbols : List String → PatchError
  empty_command unsafe_command not_in_catalog : ℕ → PatchError

-- The file of a path: where a path comes twice, the dictionaries hold the last one.
unfoldable pub file_at : String → List FileContext → Option FileContext
file_at path [] = none
file_at path (f ∷ files) = elim (file_at path files) [
  | some g ↦ some g
  | none ↦ if f.path == path then some f else none
]

-- The number of characters of a text.
unfoldable pub char_count : String → ℕ
char_count String.[] = 0
char_count (String.◌∷◌ c s) = suc (char_count s)

-- `content.count(old)` where `old` is not empty: occurrences that do not overlap. The number says how
-- many characters of the last occurrence are still to be skipped.
unfoldable pub count_from : String → ℕ → String → ℕ
unfolding starts_with char_count
count_from old skip String.[] = 0
count_from old (suc skip) (String.◌∷◌ c s) = count_from old skip s
count_from old zero (String.◌∷◌ c s) =
    let here = count_from old (char_count old - 1) s in
    let later = count_from old zero s in
    if starts_with old (String.◌∷◌ c s) then suc here else later

unfoldable pub count : String → String → ℕ
unfolding count_from
count old content = count_from old zero content

unfoldable pub drop_chars : ℕ → String → String
drop_chars zero s = s
drop_chars (suc n) String.[] = String.[]
drop_chars (suc n) (String.◌∷◌ c s) = drop_chars n s

-- `content.replace(old, new, 1)`
unfoldable pub replace_first : String → String → String → String
unfolding starts_with drop_chars char_count
replace_first old new String.[] = String.[]
replace_first old new (String.◌∷◌ c s) =
    let rest = replace_first old new s in
    if starts_with old (String.◌∷◌ c s)
    then new ⊹ drop_chars (char_count old) (String.◌∷◌ c s)
    else String.◌∷◌ c rest

-- `if b: errors.append(e)`
abbrev pub error_if : Bool → PatchError → List PatchError
error_if b e = if b then e ∷ [] else []

-- What is wrong with the texts of a patch, where its file is found.
unfoldable pub text_errors : ℕ → FilePatch → FileContext → List PatchError
unfolding count
text_errors index p f =
    if p.old_text == ""
    then PatchError.empty_old_text index ∷ []
    else error_if (not (eqb (count p.old_text f.content) 1))
        (PatchError.occurrences index (count p.old_text f.content))
      ++ error_if (p.old_text == p.new_text) (PatchError.identical index)

unfoldable pub patch_errors : List FileContext → ℕ → FilePatch → List PatchError
unfolding file_at text_errors
patch_errors files index p = elim (file_at p.path files) [
  | none ↦ PatchError.outside_context index ∷ []
  | some f ↦
      error_if (not (p.expected_sha256 == f.sha256)) (PatchError.wrong_checksum index)
      ++ text_errors index p f
]

-- `patched_content[path] = content` on the dictionary, held as the files with their new content.
abbrev pub set_content : String → String → List FileContext → List FileContext
set_content path content [] = []
set_content path content (f ∷ files) =
    (if f.path == path then record f { content = content } else f) ∷ set_content path content files

-- The contents with the patches from the one of number `index` on applied, and what could not be.
unfoldable pub patched_content_by_path :
    ℕ → List FilePatch → List FileContext → List FileContext × List PatchError
unfolding file_at count replace_first
patched_content_by_path index [] files = (files, [])
patched_content_by_path index (p ∷ patches) files = elim (file_at p.path files) [
  | none ↦ patched_content_by_path (suc index) patches files
  | some f ↦
      let skipped = patched_content_by_path (suc index) patches files in
      let applied =
        patched_content_by_path (suc index) patches
          (set_content p.path (replace_first p.old_text p.new_text f.content) files) in
      if p.old_text == ""
      then skipped
      else if eqb (count p.old_text f.content) 1
      then applied
      else (skipped.0, PatchError.occurrences_later index (count p.old_text f.content) ∷ skipped.1)
]

-- `for index, x in enumerate(xs)`
abbrev pub enumerated : {A : Type 0} → (ℕ → A → List PatchError) → ℕ → List A → List PatchError
enumerated f index [] = []
enumerated f index (x ∷ xs) = f index x ++ enumerated f (suc index) xs

-- `argv in allowed`
abbrev pub same_command : List String → List String → Bool
same_command [] [] = true
same_command (x ∷ xs) (y ∷ ys) = x == y && same_command xs ys
same_command xs ys = false

abbrev pub in_catalog : List String → List (List String) → Bool
in_catalog argv [] = false
in_catalog argv (command ∷ catalog) = same_command argv command || in_catalog argv catalog

unfoldable pub command_errors : List (List String) → ℕ → List String → List PatchError
unfolding is_safe_command
command_errors allowed index argv =
    if is_empty argv
    then PatchError.empty_command index ∷ []
    else if not (is_safe_command argv)
    then PatchError.unsafe_command index ∷ []
    else error_if (not (is_empty allowed) && not (in_catalog argv allowed))
        (PatchError.not_in_catalog index)

abbrev pub proposes_patch : PatchAction → Bool
proposes_patch PatchAction.patch = true
proposes_patch _ = false

-- `proposal.operator_question or proposal.summary`
abbrev question_of : PatchProposal → String
question_of p = elim p.operator_question [
  | none ↦ p.summary
  | some q ↦ if q == "" then p.summary else q
]

abbrev pub operator_errors : (String → Bool) → PatchProposal → List PatchError
operator_errors delegates p = elim p.action [
  | PatchAction.needs_operator ↦
      elim (invalid_operator_question delegates coding_patch_proposal_contract (question_of p)) [
        | none ↦ []
        | some e ↦ PatchError.bad_question e ∷ []
      ]
  | _ ↦ []
]

-- What the validation asks of Python's parser and of regular expressions.
pub record Checks : Type 0 where
  pub delegates : String → Bool
  pub python_errors :
      PatchProposal → List FileContext → List FileContext → List PatchError → List String
  pub touches : PatchProposal → List FileContext → String → Bool

abbrev to_errors : List String → List PatchError
to_errors [] = []
to_errors (t ∷ ts) = PatchError.python t ∷ to_errors ts

-- The checks of a proposal to patch.
abbrev pub code_errors : Checks → PatchProposal → List FileContext → List String → List PatchError
code_errors checks p files required =
    let (patched, failed) = patched_content_by_path 0 p.patches files in
    let missing = keep_if (λ symbol. not (checks.touches p files symbol)) required in
    if proposes_patch p.action
    then to_errors (checks.python_errors p files patched failed)
      ++ error_if (not (is_empty missing)) (PatchError.missing_symbols missing)
    else []

unfoldable pub validate_patch_proposal :
    Checks → PatchProposal → List FileContext → List (List String) → List String → List PatchError
unfolding patch_errors command_errors invalid_operator_question patched_content_by_path
validate_patch_proposal checks p files allowed required =
    error_if (not (proposes_patch p.action) && not (is_empty p.patches))
      (PatchError.must_not_patch p.action)
    ++ (operator_errors checks.delegates p
        ++ (enumerated (patch_errors files) 0 p.patches
            ++ (code_errors checks p files required
                ++ enumerated (command_errors allowed) 0 p.verification_commands)))
