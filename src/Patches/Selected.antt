-- ===== src/Patches/Selected.antt =====
-- `_select_verification_commands` and `_dedupe_commands` of src/synode/application/graph/engine.py: the
-- commands that verify an applied patch.
use synode.Prelude.{
  String, true, false, ◌&&◌, ◌||◌, ◌≡◌, ◌≢◌, refl, inl, inr, List, [], ◌∷◌, if◌then◌else◌, keep_if,
  All, Bool-cases, eq_refl, arith,
}
use synode.Policy.{is_empty}
use synode.Patches.Commands.{is_safe_command}
use synode.Patches.Proposal.{in_catalog, same_command}

-- The commands that are not in `seen` and not before in the list.
unfoldable pub dedupe_commands : List (List String) → List (List String) → List (List String)
dedupe_commands seen [] = []
dedupe_commands seen (command ∷ commands) =
    let again = dedupe_commands seen commands in
    let first = dedupe_commands (command ∷ seen) commands in
    if in_catalog command seen then again else command ∷ first

-- `allowed_commands[:1]`, or what is run where there is no catalog
abbrev pub fallback : List (List String) → List (List String)
fallback [] = ("pytest" ∷ "-q" ∷ []) ∷ []
fallback (command ∷ allowed) = command ∷ []

-- The commands of a proposal under a catalog.
unfoldable pub select_verification_commands :
    List (List String) → List (List String) → List (List String)
unfolding is_safe_command dedupe_commands
select_verification_commands allowed commands =
    let selected =
      keep_if (λ c. is_safe_command c && (is_empty allowed || in_catalog c allowed)) commands in
    if is_empty selected then fallback allowed else dedupe_commands [] selected

-- The command may be run: it is safe, and of the catalog where there is one.
abbrev pub Runnable : List (List String) → List String → Type 0
Runnable allowed c =
    (is_safe_command c ≡ true) × ((is_empty allowed || in_catalog c allowed) ≡ true)

-- No command comes twice, nor is one of those seen.
abbrev pub Unrepeated : List (List String) → List (List String) → Type 0
Unrepeated seen [] = Unit
Unrepeated seen (c ∷ cs) = (in_catalog c seen ≡ false) × Unrepeated (c ∷ seen) cs

dedupe-Unrepeated :
    (seen commands : List (List String)) → Unrepeated seen (dedupe_commands seen commands)
unfolding dedupe_commands
dedupe-Unrepeated seen [] = tt
dedupe-Unrepeated seen (c ∷ cs) = elim (Bool-cases (in_catalog c seen)) [
  | inl e ↦ rw e (dedupe-Unrepeated seen cs)
  | inr e ↦ rw e (e, dedupe-Unrepeated (c ∷ seen) cs)
]

dedupe-All :
    (P : List String → Type 0) (seen commands : List (List String))
    → All P commands
    → All P (dedupe_commands seen commands)
unfolding dedupe_commands
dedupe-All P seen [] h = tt
dedupe-All P seen (c ∷ cs) h = elim (Bool-cases (in_catalog c seen)) [
  | inl e ↦ rw e (dedupe-All P seen cs h.1)
  | inr e ↦ rw e (h.0, dedupe-All P (c ∷ seen) cs h.1)
]

dedupe-starts : (c : List String) (cs : List (List String)) → dedupe_commands [] (c ∷ cs) ≢ []
unfolding dedupe_commands
dedupe-starts c cs e = cc

keep_if-Runnable :
    (allowed commands : List (List String))
    → All
        (Runnable allowed)
        (keep_if (λ c. is_safe_command c && (is_empty allowed || in_catalog c allowed)) commands)
keep_if-Runnable allowed [] = tt
keep_if-Runnable allowed (c ∷ cs) =
    elim (Bool-cases (is_safe_command c && (is_empty allowed || in_catalog c allowed))) [
      | inl e ↦ rw e ((ground (arith, e), ground (arith, e)), keep_if-Runnable allowed cs)
      | inr e ↦ rw e (keep_if-Runnable allowed cs)
    ]

same_command_refl : (c : List String) → same_command c c ≡ true
same_command_refl [] = refl
same_command_refl (x ∷ xs) = rw (eq_refl x, same_command_refl xs) refl

fallback-right :
    (allowed : List (List String))
    → All (λ c. is_safe_command c ≡ true) allowed
    → (fallback allowed ≢ [])
      × All (Runnable allowed) (fallback allowed)
      × Unrepeated [] (fallback allowed)
unfolding is_safe_command
fallback-right [] h = ((λ e. cc), ((refl, refl), tt), (refl, tt))
fallback-right (c ∷ allowed) h = ((λ e. cc), ((h.0, rw (same_command_refl c) refl), tt), (refl, tt))

-- Where the commands of the catalog are safe, there is a command to run, each is safe and, where
-- there is a catalog, of it, and none comes twice, whatever commands the proposal names.
pub select_verification_commands-Runnable :
    (allowed commands : List (List String))
    → All (λ c. is_safe_command c ≡ true) allowed
    → (select_verification_commands allowed commands ≢ [])
      × All (Runnable allowed) (select_verification_commands allowed commands)
      × Unrepeated [] (select_verification_commands allowed commands)
unfolding select_verification_commands
select_verification_commands-Runnable allowed commands h =
    chosen (keep_if (λ c. is_safe_command c && (is_empty allowed || in_catalog c allowed)) commands)
      (keep_if-Runnable allowed commands)
  where
    chosen :
        (selected : List (List String))
        → All (Runnable allowed) selected
        → ((if is_empty selected then fallback allowed else dedupe_commands [] selected) ≢ [])
          × All
              (Runnable allowed)
              (if is_empty selected then fallback allowed else dedupe_commands [] selected)
          × Unrepeated []
              (if is_empty selected then fallback allowed else dedupe_commands [] selected)
    chosen [] r = fallback-right allowed h
    chosen (c ∷ cs) r = (
      dedupe-starts c cs,
      dedupe-All (Runnable allowed) [] (c ∷ cs) r,
      dedupe-Unrepeated [] (c ∷ cs),
    )
