-- ===== src/Tools/Roles.antt =====
-- The roles of src/synode/domain/roles.py: which tools a role allows.
use synode.Prelude.{
  String, Bool, true, ◌&&◌, ◌||◌, ◌≡◌, ◌⊎◌, inl, inr, List, [], ◌∷◌, ◌==◌, ◌⊹◌, any, arith,
  starts_with, ends_with, drop_last, starts_with-append, starts_with-rest, eq_iff, eq_refl,
  mem_text, Bool-cases, ◌↔◌, subst, sym,
}

-- Without the mission and the other texts that only the prompts read.
pub record RoleSpec : Type 0 where
  pub name : String
  pub allowed_tools : List String

-- What one entry of `allowed_tools` permits.
unfoldable pub permits : String → String → Bool
unfolding starts_with ends_with drop_last
permits tool_name allowed =
    (ends_with ".*" allowed && starts_with (drop_last allowed) tool_name) || allowed == tool_name

unfoldable pub allows_tool : RoleSpec → String → Bool
unfolding permits
allows_tool role tool_name = any (permits tool_name) role.allowed_tools

abbrev pub role_key : RoleSpec → String
role_key role = role.name

-- The tool is named by an entry, or is in the family that an entry with a star names.
abbrev pub Named : String → String → Type 0
Named tool_name allowed =
    (allowed ≡ tool_name)
    ⊎ ((ends_with ".*" allowed ≡ true) × (rest : String) × (tool_name ≡ drop_last allowed ⊹ rest))

permits-Named :
    (tool_name allowed : String) → (permits tool_name allowed ≡ true) ↔ Named tool_name allowed
unfolding permits
permits-Named tool_name allowed = (only, back)
  where
    only : permits tool_name allowed ≡ true → Named tool_name allowed
    only h = elim (Bool-cases (allowed == tool_name)) [
      | inl e ↦ inl ((eq_iff allowed tool_name).0 e)
      | inr e ↦
          let (rest, same) =
            starts_with-rest (drop_last allowed) tool_name (ground (arith, h, e)) in
          inr (ground (arith, h, e), rest, same)
    ]

    back : Named tool_name allowed → permits tool_name allowed ≡ true
    back (inl e) = subst (λ t. permits t allowed ≡ true) e (ground (arith, eq_refl allowed))
    back (inr (star, rest, e)) =
        subst (λ t. permits t allowed ≡ true) (sym e)
          (rw (star, starts_with-append (drop_last allowed) rest) (ground arith))

-- A role allows a tool just where one of the entries of `allowed_tools` is its name, or ends in
-- `.*` and is, up to the star, what the tool's name begins with.
pub allows_tool-Named :
    (role : RoleSpec) (tool_name : String)
    → (allows_tool role tool_name ≡ true) ↔ (
        (allowed : String) × (mem_text allowed role.allowed_tools ≡ true) × Named tool_name allowed)
unfolding allows_tool
allows_tool-Named role tool_name = (only role.allowed_tools, back role.allowed_tools)
  where
    only :
        (names : List String)
        → any (permits tool_name) names ≡ true
        → (allowed : String) × (mem_text allowed names ≡ true) × Named tool_name allowed
    only [] h = cc
    only (name ∷ names) h = elim (Bool-cases (permits tool_name name)) [
      | inl e ↦ (name, rw eq_refl (ground arith), (permits-Named tool_name name).0 e)
      | inr e ↦ let (allowed, m, n) = only names (rw e at h) in (allowed, rw m (ground arith), n)
    ]

    back :
        (names : List String)
        → ((allowed : String) × (mem_text allowed names ≡ true) × Named tool_name allowed)
        → any (permits tool_name) names ≡ true
    back [] (allowed, m, n) = cc
    back (name ∷ names) (allowed, m, n) = elim (Bool-cases (allowed == name)) [
      | inl e ↦
          rw
            (subst (λ a. permits tool_name a ≡ true) ((eq_iff allowed name).0 e)
              ((permits-Named tool_name allowed).1 n))
            (ground arith)
      | inr e ↦ rw (back names (allowed, rw e at m, n)) (ground arith)
    ]
