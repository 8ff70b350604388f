-- ===== src/Policy/Offered.antt =====
-- The tools that a phase of the native agent loop offers.
use synode.Prelude.{
  String, Bool, true, false, ◌||◌, ◌≡◌, refl, List, [], ◌∷◌, keep_if, mem_text, Bool-cases, inl,
  inr, arith, eq_refl, ◌==◌,
}
use synode.Policy.Loop.{
  NativeLoopMode, Phase, is_empty, strict_tools, phase_tools, native_loop_allowed_tools_for_phase,
}

mem_text-keep_if :
    (p : String → Bool) (x : String) (xs : List String)
    → mem_text x (keep_if p xs) ≡ true
    → mem_text x xs ≡ true
mem_text-keep_if p x [] m = m
mem_text-keep_if p x (y ∷ ys) m = elim (Bool-cases (p y)) [
  | inl e ↦
      let here : (x == y || mem_text x (keep_if p ys)) ≡ true = rw e at m in
      elim (Bool-cases (x == y)) [
        | inl s ↦ rw s refl
        | inr s ↦ rw s (mem_text-keep_if p x ys (rw s at here))
      ]
  | inr e ↦ rw (mem_text-keep_if p x ys (rw e at m)) (ground arith)
]

-- What is offered is allowed, and something is offered where something is allowed.
abbrev pub Offers : List String → List String → Type 0
Offers allowed offered =
    ((name : String) → mem_text name offered ≡ true → mem_text name allowed ≡ true)
    × (is_empty allowed ≡ false → is_empty offered ≡ false)

kept_some :
    (p : String → Bool) (x : String) (xs : List String)
    → p x ≡ true
    → is_empty (keep_if p (x ∷ xs)) ≡ false
kept_some p x xs e = rw e refl

strict_Offers :
    (allowed : List String) (phase : Phase) → Offers allowed (strict_tools allowed phase)
unfolding strict_tools
strict_Offers allowed phase =
    elim (Bool-cases (is_empty (keep_if (λ name. mem_text name (phase_tools phase)) allowed))) [
      | inl e ↦ rw e ((λ name m. mem_text-keep_if _ name allowed m), all_kept allowed)
      | inr e ↦ rw e ((λ name m. mem_text-keep_if _ name allowed m), λ some_allowed. e)
    ]
  where
    all_kept :
        (allowed : List String)
        → is_empty allowed ≡ false
        → is_empty (keep_if (λ name. mem_text name allowed) allowed) ≡ false
    all_kept [] e = e
    all_kept (x ∷ xs) e = kept_some (λ name. mem_text name (x ∷ xs)) x xs (rw eq_refl)

-- In every mode and phase, only allowed tools are offered, and where some tool is allowed some tool
-- is offered.
pub offered-allowed :
    (allowed : List String) (mode : NativeLoopMode) (phase : Phase)
    → Offers allowed (native_loop_allowed_tools_for_phase allowed mode phase)
unfolding native_loop_allowed_tools_for_phase
offered-allowed allowed NativeLoopMode.strict phase = strict_Offers allowed phase
offered-allowed allowed NativeLoopMode.guided phase = ((λ name m. m), λ e. e)
offered-allowed allowed NativeLoopMode.autonomous phase = ((λ name m. m), λ e. e)
