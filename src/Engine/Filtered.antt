-- ===== src/Engine/Filtered.antt =====
-- The calls of a plan that the supervisor's sanitizing leaves.
use synode.Prelude.{
  String, Bool, true, false, ◌≡◌, refl, sym, subst, ap, inl, inr, Option, none, some, List, [], ◌∷◌,
  ◌++◌, ◌==◌, mem_text, All, Bool-cases, Option-cases,
}
use synode.Store.{find}
use synode.Tools.{RoleSpec, role_key, allows_tool, allows_tool-Named, ToolCall, BaseTool, tool_key}
use synode.Engine.Supervisor.{
  WorkerPlanStep, SupervisorDecision, Dropped, DecisionError, first_error, check_each, drop_reason,
  sanitize_calls, allowed_of, sanitize_step, sanitize_plan, sanitize_supervisor_decision,
  is_system_role, check_role, check_call,
}

-- The error is about a call of a tool, not about the roles of the plan.
abbrev pub concerns_tools : DecisionError → Bool
concerns_tools (DecisionError.unknown_tool name) = true
concerns_tools (DecisionError.not_allowed role name) = true
concerns_tools _ = false

abbrev pub OnRoles : Option DecisionError → Type 0
OnRoles none = Unit
OnRoles (some e) = concerns_tools e ≡ false

pub first_error-OnRoles :
    (a b : Option DecisionError) → OnRoles a → OnRoles b → OnRoles (first_error a b)
first_error-OnRoles none b ha hb = hb
first_error-OnRoles (some e) b ha hb = ha

pub check_each-OnRoles :
    {A : Type 0} (check : A → Option DecisionError) (xs : List A)
    → All (λ x. OnRoles (check x)) xs
    → OnRoles (check_each check xs)
check_each-OnRoles check [] h = tt
check_each-OnRoles check (x ∷ xs) h =
    first_error-OnRoles (check x) (check_each check xs) h.0 (check_each-OnRoles check xs h.1)

pub everywhere : {A : Type 0} (P : A → Type 0) → ((x : A) → P x) → (xs : List A) → All P xs
everywhere P h [] = tt
everywhere P h (x ∷ xs) = (h x, everywhere P h xs)

module _ {S : Type 0} (tools : List (BaseTool S)) (roles : List RoleSpec) where
  pub sanitize_calls-kept :
      (allowed : List String) (role task : String) (calls : List ToolCall)
      → All
          (λ c. drop_reason tools roles allowed c.name ≡ none)
          (sanitize_calls tools roles allowed role task calls).0
  unfolding sanitize_calls
  sanitize_calls-kept allowed role task [] = tt
  sanitize_calls-kept allowed role task (call ∷ calls) =
      let rest = sanitize_calls-kept allowed role task calls in
      elim (Option-cases (drop_reason tools roles allowed call.name)) [
        | inl e ↦ rw (e, sanitize_calls) (e, rest)
        | inr (reason, e) ↦ rw (e, sanitize_calls) rest
      ]

  sanitize_calls-same :
      (allowed : List String) (role task : String) (calls : List ToolCall)
      → (sanitize_calls tools roles allowed role task calls).1 ≡ []
      → (sanitize_calls tools roles allowed role task calls).0 ≡ calls
  unfolding sanitize_calls
  sanitize_calls-same allowed role task [] h = refl
  sanitize_calls-same allowed role task (call ∷ calls) h =
      elim (Option-cases (drop_reason tools roles allowed call.name)) [
        | inl e ↦
            rw (e, sanitize_calls)
              (ap (λ cs. call ∷ cs)
                (sanitize_calls-same allowed role task calls (rw (e, sanitize_calls) at h)))
        | inr (reason, e) ↦ cc (rw (e, sanitize_calls) at h)
      ]

  sanitize_step-same :
      (step : WorkerPlanStep)
      → (sanitize_step tools roles step).1 ≡ []
      → (sanitize_step tools roles step).0 ≡ step
  unfolding sanitize_step
  sanitize_step-same step h = elim (Option-cases (allowed_of tools roles step.role)) [
    | inl e ↦ rw (e, sanitize_step) refl
    | inr (allowed, e) ↦
        rw (e, sanitize_step)
          (ap (λ calls. record step { tool_calls = calls })
            (sanitize_calls-same allowed step.role step.task step.tool_calls
              (rw (e, sanitize_step) at h)))
  ]

  sanitize_plan-same :
      (plan : List WorkerPlanStep)
      → (sanitize_plan tools roles plan).1 ≡ []
      → (sanitize_plan tools roles plan).0 ≡ plan
  unfolding sanitize_plan
  sanitize_plan-same [] h = refl
  sanitize_plan-same (step ∷ plan) h =
      let (here, later) = none_of (sanitize_step tools roles step).1 _ h in
      rw (sanitize_step-same step here, sanitize_plan-same plan later) refl
    where
      none_of : (xs ys : List Dropped) → xs ++ ys ≡ [] → (xs ≡ []) × (ys ≡ [])
      none_of [] ys h = (refl, h)
      none_of (x ∷ xs) ys h = cc

  pub sanitized_plan :
      (d : SupervisorDecision)
      → (sanitize_supervisor_decision tools roles d).0
        ≡ record d { plan = (sanitize_plan tools roles d.plan).0 }
  unfolding sanitize_supervisor_decision
  sanitized_plan d = dropped_or_not (sanitize_plan tools roles d.plan).1 refl
    where
      dropped_or_not :
          (dropped : List Dropped)
          → (sanitize_plan tools roles d.plan).1 ≡ dropped
          → (sanitize_supervisor_decision tools roles d).0
            ≡ record d { plan = (sanitize_plan tools roles d.plan).0 }
      dropped_or_not [] e = rw (e, sanitize_plan-same d.plan e) refl
      dropped_or_not (x ∷ xs) e = rw e refl

  pub check_role-OnRoles :
      (catalog : List String) (role : String) → OnRoles (check_role tools roles catalog role)
  unfolding check_role
  check_role-OnRoles catalog role = elim (Bool-cases (is_system_role role)) [
    | inl b ↦ rw b refl
    | inr b ↦ elim (Bool-cases (mem_text role catalog)) [
      | inr c ↦ rw (b, c) refl
      | inl c ↦ elim (Option-cases (find role_key role roles)) [
        | inl e ↦ rw (b, c, e) refl
        | inr (spec, e) ↦ rw (b, c, e) tt
      ]
    ]
  ]

  listed_allowed :
      (spec : RoleSpec) (name : String)
      → mem_text name spec.allowed_tools ≡ true
      → allows_tool spec name ≡ true
  listed_allowed spec name m = (allows_tool-Named spec name).1 (name, m, inl refl)

  not_dropped :
      (allowed : List String) (name : String) (tool : BaseTool S)
      → find tool_key name tools ≡ some tool
      → drop_reason tools roles allowed name ≡ none
      → mem_text name allowed ≡ true
  unfolding drop_reason
  not_dropped allowed name tool e k = elim (Bool-cases (mem_text name allowed)) [
    | inl m ↦ m
    | inr m ↦ cc (rw (e, m, drop_reason) at k)
  ]

  some-path : {A : Type 0} (x y : A) → some x ≡ some y → x ≡ y
  some-path x y h = cc

  allowed_of-spec :
      (allowed : List String) (role name : String) (spec : RoleSpec)
      → find role_key role roles ≡ some spec
      → allowed_of tools roles role ≡ some allowed
      → mem_text name allowed ≡ true
      → mem_text name spec.allowed_tools ≡ true
  unfolding allowed_of
  allowed_of-spec allowed role name spec f a m = elim (Bool-cases (role == "")) [
    | inl b ↦ cc (
        subst (λ xs. mem_text name xs ≡ true) (sym (some-path [] allowed (rw (b, allowed_of) at a)))
          m)
    | inr b ↦
        subst (λ xs. mem_text name xs ≡ true)
          (sym (some-path spec.allowed_tools allowed (rw (b, f, allowed_of) at a))) m
  ]

  -- A call that is not dropped is one that the role allows.
  pub check_call-passes :
      (allowed : List String) (role : String) (call : ToolCall)
      → allowed_of tools roles role ≡ some allowed
      → drop_reason tools roles allowed call.name ≡ none
      → OnRoles (check_call tools roles role call)
  unfolding check_call drop_reason
  check_call-passes allowed role call a k = elim (Option-cases (find tool_key call.name tools)) [
    | inl e ↦ cc (rw (e, drop_reason) at k)
    | inr (tool, e) ↦ elim (Option-cases (find role_key role roles)) [
      | inl f ↦ rw (e, f, check_call) refl
      | inr (spec, f) ↦
          rw
            (
              e,
              f,
              check_call,
              listed_allowed spec call.name (
                  allowed_of-spec allowed role call.name spec f a
                    (not_dropped allowed call.name tool e k)),
            )
            tt
    ]
  ]
