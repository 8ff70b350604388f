-- ===== src/Patches/Examples.antt =====
-- A proposal that changes one line of a file and runs its tests.
use synode.Prelude.{String, true, false, ◌||◌, none, List, [], ◌∷◌, ◌≡◌, ◌≢◌, refl, All}
use synode.Policy.{is_empty}
use synode.Patches.Commands.{is_safe_command}
use synode.Patches.Selected.{
  Runnable, Unrepeated, select_verification_commands, select_verification_commands-Runnable,
}
use synode.Patches.Proposal.{
  PatchAction, FilePatch, PatchProposal, FileContext, PatchError, Checks, patched_content_by_path,
  validate_patch_proposal, proposes_patch,
}
use synode.Patches.Validated.{Fits, Allowed, validate_patch_proposal-Valid}
use synode.Patches.Applied.{Applied, patched_content_by_path-Applied}

abbrev lenient : Checks
lenient = record {
  delegates = λ text. false;
  python_errors = λ p files patched failed. [];
  touches = λ p files symbol. true;
}

abbrev files : List FileContext
files =
    record {
      path = "a.py";
      content = "x = 1\ny = 2\n";
      sha256 = "0123456789abcdef0123456789abcdef0123456789abcdef0123456789abcdef";
    }
    ∷ []

abbrev change : FilePatch
change = record {
  path = "a.py";
  expected_sha256 = "0123456789abcdef0123456789abcdef0123456789abcdef0123456789abcdef";
  old_text = "y = 2";
  new_text = "y = 3";
}

abbrev proposal : PatchProposal
proposal = record {
  action = PatchAction.patch;
  summary = "set y";
  patches = change ∷ [];
  verification_commands = ("pytest" ∷ "-q" ∷ []) ∷ [];
  operator_question = none;
}

abbrev catalog : List (List String)
catalog = ("pytest" ∷ "-q" ∷ []) ∷ []

valid : validate_patch_proposal lenient proposal files catalog [] ≡ []
unfolding validate_patch_proposal
valid = refl

-- The second line is the one that changes.
changed :
    (patched_content_by_path 0 (change ∷ []) files).0
    ≡ record {
      path = "a.py";
      content = "x = 1\ny = 3\n";
      sha256 = "0123456789abcdef0123456789abcdef0123456789abcdef0123456789abcdef";
    }
      ∷ []
unfolding patched_content_by_path
changed = refl

-- A text that stands twice, under a wrong checksum, and a command that is not safe.
refused :
    validate_patch_proposal lenient
      (record proposal {
        patches = record change { old_text = " = "; expected_sha256 = "s2" } ∷ [];
        verification_commands = ("git" ∷ "push" ∷ []) ∷ [] ∷ [];
      })
      files
      catalog
      []
    ≡ PatchError.wrong_checksum 0
      ∷ PatchError.occurrences 0 2
      ∷ PatchError.unsafe_command 0
      ∷ PatchError.empty_command 1
      ∷ []
unfolding validate_patch_proposal
refused = refl

validate_patch_proposal-Valid_example :
    All (Fits files) proposal.patches
    × All (Allowed catalog) proposal.verification_commands
    × ((proposes_patch proposal.action || is_empty proposal.patches) ≡ true)
validate_patch_proposal-Valid_example =
    validate_patch_proposal-Valid lenient proposal files catalog [] valid

patched_content_by_path-Applied_example :
    ((patched_content_by_path 0 proposal.patches files).1 ≡ [])
    × All (Applied files (patched_content_by_path 0 proposal.patches files).0) proposal.patches
patched_content_by_path-Applied_example =
    patched_content_by_path-Applied lenient proposal files catalog [] valid (refl, tt)

-- The command that is of the catalog stays once; the others go.
chosen :
    select_verification_commands catalog
      (("git" ∷ "push" ∷ []) ∷ ("pytest" ∷ "-q" ∷ []) ∷ ("ls" ∷ []) ∷ ("pytest" ∷ "-q" ∷ []) ∷ [])
    ≡ catalog
unfolding select_verification_commands
chosen = refl

catalog_safe : All (λ c. is_safe_command c ≡ true) catalog
unfolding is_safe_command
catalog_safe = (refl, tt)

select_verification_commands-Runnable_example :
    (select_verification_commands catalog (("git" ∷ "push" ∷ []) ∷ []) ≢ [])
    × All (Runnable catalog) (select_verification_commands catalog (("git" ∷ "push" ∷ []) ∷ []))
    × Unrepeated [] (select_verification_commands catalog (("git" ∷ "push" ∷ []) ∷ []))
select_verification_commands-Runnable_example =
    select_verification_commands-Runnable catalog (("git" ∷ "push" ∷ []) ∷ []) catalog_safe
