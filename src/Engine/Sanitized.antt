-- ===== src/Engine/Sanitized.antt =====
-- What is left of the supervisor's plan when the calls that a role must not make are dropped.
use synode.Prelude.{
  String, true, false, ◌≡◌, refl, sym, subst, inl, inr, Option, none, some, List, [], ◌∷◌, ◌==◌,
  mem_text, map, All, Bool-cases, Option-cases,
}
use synode.Store.{find}
use synode.Tools.{RoleSpec, role_key, allows_tool, ToolCall, BaseTool, tool_key}
use synode.Engine.Supervisor.{
  WorkerPlanStep, SupervisorDecision, DecisionError, worker_role_catalog, first_error, check_each,
  drop_reason, sanitize_calls, allowed_of, sanitize_step, sanitize_plan,
  sanitize_supervisor_decision, is_system_role, check_role, check_call, check_step, same_set,
  validate_supervisor_decision,
}
use synode.Engine.Filtered.{
  concerns_tools, OnRoles, first_error-OnRoles, check_each-OnRoles, everywhere, check_role-OnRoles,
  sanitize_calls-kept, check_call-passes, sanitized_plan,
}

module _ {S : Type 0} (tools : List (BaseTool S)) (roles : List RoleSpec) where
  unknown_role-first :
      (catalog : List String) (role : String) (rest : Option DecisionError)
      → allowed_of tools roles role ≡ none
      → OnRoles (first_error (check_role tools roles catalog role) rest)
  unfolding check_role allowed_of
  unknown_role-first catalog role rest a = elim (Bool-cases (is_system_role role)) [
    | inl b ↦ rw b refl
    | inr b ↦ elim (Bool-cases (mem_text role catalog)) [
      | inr c ↦ rw (b, c) refl
      | inl c ↦ elim (Option-cases (find role_key role roles)) [
        | inl e ↦ rw (b, c, e) refl
        | inr (spec, e) ↦ elim (Bool-cases (role == "")) [
          | inl empty ↦ cc (rw (empty, allowed_of) at a)
          | inr named ↦ cc (rw (named, e, allowed_of) at a)
        ]
      ]
    ]
  ]

  step_left :
      (step : WorkerPlanStep)
      → allowed_of tools roles step.role ≡ none
      → (sanitize_step tools roles step).0 ≡ step
  unfolding sanitize_step
  step_left step e = rw (e, sanitize_step) refl

  step_filtered :
      (step : WorkerPlanStep) (allowed : List String)
      → allowed_of tools roles step.role ≡ some allowed
      → (sanitize_step tools roles step).0 ≡ record step {
        tool_calls = (sanitize_calls tools roles allowed step.role step.task step.tool_calls).0;
      }
  unfolding sanitize_step
  step_filtered step allowed e = rw (e, sanitize_step) refl

  check_step-OnRoles :
      (catalog : List String) (step : WorkerPlanStep)
      → OnRoles (check_step tools roles catalog (sanitize_step tools roles step).0)
  unfolding check_step
  check_step-OnRoles catalog step = elim (Option-cases (allowed_of tools roles step.role)) [
    | inl e ↦
        subst (λ s. OnRoles (check_step tools roles catalog s)) (sym (step_left step e))
          (unknown_role-first catalog step.role
            (check_each (check_call tools roles step.role) step.tool_calls) e)
    | inr (allowed, e) ↦
        let calls = (sanitize_calls tools roles allowed step.role step.task step.tool_calls).0 in
        subst (λ s. OnRoles (check_step tools roles catalog s)) (sym (step_filtered step allowed e))
          (first_error-OnRoles (check_role tools roles catalog step.role)
            (check_each (check_call tools roles step.role) calls)
            (check_role-OnRoles tools roles catalog step.role)
            (check_each-OnRoles (check_call tools roles step.role) calls (
              all_pass allowed step.role e calls
                (sanitize_calls-kept tools roles allowed step.role step.task step.tool_calls))))
  ]
    where
      all_pass :
          (allowed : List String) (role : String)
          → allowed_of tools roles role ≡ some allowed
          → (calls : List ToolCall) → All (λ c. drop_reason tools roles allowed c.name ≡ none) calls
          → All (λ c. OnRoles (check_call tools roles role c)) calls
      all_pass allowed role e [] h = tt
      all_pass allowed role e (c ∷ calls) h =
          (check_call-passes tools roles allowed role c e h.0, all_pass allowed role e calls h.1)

  check_plan-OnRoles :
      (catalog : List String) (plan : List WorkerPlanStep)
      → All
          (λ step. OnRoles (check_step tools roles catalog step))
          (sanitize_plan tools roles plan).0
  unfolding sanitize_plan
  check_plan-OnRoles catalog [] = tt
  check_plan-OnRoles catalog (step ∷ plan) =
      (check_step-OnRoles catalog step, check_plan-OnRoles catalog plan)

  -- Whatever the supervisor plans, once its decision is sanitized, the validation refuses it only for
  -- its roles, never for a call of a tool.
  pub sanitized-validated :
      (active : List String) (d : SupervisorDecision) (e : DecisionError)
      → validate_supervisor_decision tools roles active
          (sanitize_supervisor_decision tools roles d).0
        ≡ some e
      → concerns_tools e ≡ false
  unfolding validate_supervisor_decision
  sanitized-validated active d e h = subst OnRoles h (
      rw (sanitized_plan tools roles d) (
        checked (sanitize_plan tools roles d.plan).0
          (check_plan-OnRoles (worker_role_catalog active roles) d.plan)))
    where
      checked :
          (plan : List WorkerPlanStep)
          → All
              (λ step. OnRoles (check_step tools roles (worker_role_catalog active roles) step))
              plan
          → OnRoles (validate_supervisor_decision tools roles active (record d { plan = plan }))
      checked plan steps =
          elim (Bool-cases
            (same_set d.selected_roles (map (λ (step : WorkerPlanStep). step.role) plan))) [
              | inr b ↦ rw b refl
              | inl b ↦ rw b (
                  first_error-OnRoles _ _
                    (check_each-OnRoles _ d.selected_roles (
                      everywhere _
                        (check_role-OnRoles tools roles (worker_role_catalog active roles))
                        d.selected_roles))
                    (check_each-OnRoles _ plan steps))
            ]

  -- A call that a role allows by an entry with a star alone passes the validation, and yet it is
  -- dropped.
  pub sanitize_step-drops :
      (step : WorkerPlanStep) (call : ToolCall) (spec : RoleSpec) (tool : BaseTool S)
      → find role_key step.role roles ≡ some spec
      → (step.role == "") ≡ false
      → find tool_key call.name tools ≡ some tool
      → allows_tool spec call.name ≡ true
      → mem_text call.name spec.allowed_tools ≡ false
      → (check_call tools roles step.role call ≡ none)
        × ((sanitize_step tools roles (record step { tool_calls = call ∷ [] })).0.tool_calls ≡ [])
  unfolding check_call sanitize_step allowed_of sanitize_calls drop_reason
  sanitize_step-drops step call spec tool f named t allowed unlisted = (
    rw (t, f, allowed, check_call) refl,
    rw (named, f, t, unlisted, sanitize_step, allowed_of, sanitize_calls, drop_reason) refl,
  )
