-- ===== src/Policy/Gate.antt =====
-- What the gate before a finish lets through.
use synode.Prelude.{
  ℕ, zero, suc, ◌+◌, ◌≤◌, ◌<◌, String, true, false, ◌≡◌, ◌≢◌, refl, none, some, List, [], ◌∷◌,
  mem_text, mem_text-All, ltb, is_some, arith, Bool-cases, Option-cases, inl, inr, ◌↔◌, subst,
}
use synode.Policy.Loop.{
  ToolResult, NativeLoopMode, Phase, GateError, mutation_tool_names, verification_tool_names,
  succeeded, last_from, last_tool_index, last_failed, unverified, is_empty, native_loop_phase,
  any_ok, has_verification_after_mutation, mutation_gate, native_loop_finish_gate_error,
}

-- `tool_results[i]` is a successful call of one of the tools.
abbrev pub CallAt : List ToolResult → List String → ℕ → Type 0
CallAt [] names i = ⊥
CallAt (r ∷ rs) names zero = succeeded names r ≡ true
CallAt (r ∷ rs) names (suc i) = CallAt rs names i

last_from-none :
    (results : List ToolResult) (names : List String) (k j : ℕ)
    → last_from k results names ≡ none
    → ¬ CallAt results names j
unfolding last_from
last_from-none [] names k j e c = c
last_from-none (r ∷ rs) names k zero e c = elim (Option-cases (last_from (suc k) rs names)) [
  | inl n ↦ let found : some k ≡ none = rw (n, c) at e in cc
  | inr (i, s) ↦ let found : some i ≡ none = rw s at e in cc
]
last_from-none (r ∷ rs) names k (suc j) e c = elim (Option-cases (last_from (suc k) rs names)) [
  | inl n ↦ last_from-none rs names (suc k) j n c
  | inr (i, s) ↦ let found : some i ≡ none = rw s at e in cc
]

last_from_bound :
    (results : List ToolResult) (names : List String) (k i : ℕ)
    → last_from k results names ≡ some i
    → (d : ℕ) × (i ≡ k + d) × CallAt results names d × ((j : ℕ) → CallAt results names j → j ≤ d)
unfolding last_from
last_from_bound [] names k i e = cc
last_from_bound (r ∷ rs) names k i e = elim (Option-cases (last_from (suc k) rs names)) [
  | inl n ↦ elim (Bool-cases (succeeded names r)) [
    | inl s ↦
        let here : some k ≡ some i = rw (n, s) at e in
        let eq : k ≡ i = cc in (zero, omega (arith, eq), s, λ j c. only_head r rs names k n j c)
    | inr f ↦ let missing : none ≡ some i = rw (n, f) at e in cc
  ]
  | inr (i', s) ↦
      let here : some i' ≡ some i = rw s at e in
      let (d, at, c, top) = last_from_bound rs names (suc k) i' s in
      let same : i' ≡ i = cc in
      (suc d, omega (arith, at, same), c, λ j h. later r rs names d top j h)
]
  where
    only_head :
        (r : ToolResult) (rs : List ToolResult) (names : List String) (k : ℕ)
        → last_from (suc k) rs names ≡ none
        → (j : ℕ) → CallAt (r ∷ rs) names j
        → j ≤ 0
    only_head r rs names k n zero c = omega arith
    only_head r rs names k n (suc j) c = absurd (last_from-none rs names (suc k) j n c)

    later :
        (r : ToolResult) (rs : List ToolResult) (names : List String) (d : ℕ)
        → ((j : ℕ) → CallAt rs names j → j ≤ d)
        → (j : ℕ) → CallAt (r ∷ rs) names j
        → j ≤ suc d
    later r rs names d top zero c = omega arith
    later r rs names d top (suc j) c = omega (arith, top j c)

-- A successful mutation at `i` has a successful verification behind it.
abbrev pub Verified : List ToolResult → Type 0
Verified results =
    (i : ℕ)
    → CallAt results mutation_tool_names i
    → (j : ℕ) × (i < j) × CallAt results verification_tool_names j

-- No tool both mutates and verifies.
succeeded-apart :
    (r : ToolResult)
    → succeeded mutation_tool_names r ≡ true
    → succeeded verification_tool_names r ≡ true
    → ⊥
succeeded-apart r m v =
    let other : mem_text r.tool_name verification_tool_names ≡ false =
      mem_text-All (λ name. mem_text name verification_tool_names ≡ false) r.tool_name
        mutation_tool_names (ground (arith, m)) (refl, (refl, tt)) in
    let same : mem_text r.tool_name verification_tool_names ≡ true = ground (arith, v) in
    cc (other, same)

CallAt-apart :
    (results : List ToolResult) (i : ℕ)
    → CallAt results mutation_tool_names i
    → CallAt results verification_tool_names i
    → ⊥
CallAt-apart [] i m v = m
CallAt-apart (r ∷ rs) zero m v = succeeded-apart r m v
CallAt-apart (r ∷ rs) (suc i) m v = CallAt-apart rs i m v

unverified-Verified : (results : List ToolResult) → unverified results ≡ false → Verified results
unfolding unverified last_tool_index
unverified-Verified results e i c = elim (Option-cases (last_from 0 results mutation_tool_names)) [
  | inl n ↦ absurd (last_from-none results mutation_tool_names 0 i n c)
  | inr (m, sm) ↦ elim (Option-cases (last_from 0 results verification_tool_names)) [
    | inl n ↦ let bad : true ≡ false = rw (unverified, last_tool_index, sm, n) at e in cc
    | inr (v, sv) ↦
        let (dm, am, cm, tm) = last_from_bound results mutation_tool_names 0 m sm in
        let (dv, av, cv, tv) = last_from_bound results verification_tool_names 0 v sv in
        let order : ltb v m ≡ false = rw (unverified, last_tool_index, sm, sv) at e in
        let apart : i ≢ dv =
          λ p. CallAt-apart results dv (subst (CallAt results mutation_tool_names) p c) cv in
        (dv, ground (arith, tm i c, am, av, order, apart), cv)
  ]
]

unverified-follows :
    (results : List ToolResult)
    → unverified results ≡ false
    → has_verification_after_mutation results ≡ true
unfolding unverified last_tool_index has_verification_after_mutation
unverified-follows results e = elim (Option-cases (last_from 0 results mutation_tool_names)) [
  | inl n ↦ rw (has_verification_after_mutation, last_tool_index, n) refl
  | inr (m, sm) ↦ elim (Option-cases (last_from 0 results verification_tool_names)) [
    | inl n ↦ let bad : true ≡ false = rw (unverified, last_tool_index, sm, n) at e in cc
    | inr (v, sv) ↦
        let (dm, am, cm, tm) = last_from_bound results mutation_tool_names 0 m sm in
        let (dv, av, cv, tv) = last_from_bound results verification_tool_names 0 v sv in
        let order : ltb v m ≡ false = rw (unverified, last_tool_index, sm, sv) at e in
        let apart : dm ≢ dv =
          λ p. CallAt-apart results dv (subst (CallAt results mutation_tool_names) p cm) cv in
        rw (has_verification_after_mutation, last_tool_index, sm, sv)
          (ground (arith, am, av, order, apart))
  ]
]

follows-unverified :
    (results : List ToolResult)
    → unverified results ≡ true
    → has_verification_after_mutation results ≡ false
      × (is_some (last_tool_index results mutation_tool_names) ≡ true)
unfolding unverified last_tool_index has_verification_after_mutation
follows-unverified results e = ground (arith, e)

-- The gate refuses just where the last mutation is unverified.
mutation_gate-unverified :
    (mode : NativeLoopMode) (results : List ToolResult)
    → (mutation_gate mode results ≡ none) ↔ (unverified results ≡ false)
unfolding mutation_gate
mutation_gate-unverified NativeLoopMode.strict results = (λ e. ground (arith, e), λ e. rw e refl)
mutation_gate-unverified NativeLoopMode.guided results = (λ e. ground (arith, e), λ e. rw e refl)
mutation_gate-unverified NativeLoopMode.autonomous results =
    elim (Bool-cases (unverified results)) [
      | inl e ↦
          let (f, m) = follows-unverified results e in
          (
            (λ none_given.
                let given : some GateError.autonomous_unverified ≡ none = rw (m, f) at none_given in
                cc),
            λ e'. cc,
          )
      | inr e ↦ ((λ none_given. e), λ e'. rw (unverified-follows results e) (ground arith))
    ]

last_ok :
    (results : List ToolResult)
    → is_empty results ≡ false
    → last_failed results ≡ false
    → any_ok results ≡ true
unfolding last_failed
last_ok [] e f = cc
last_ok (r ∷ []) e f = ground (arith, f)
last_ok (r ∷ s ∷ rs) e f = rw (last_ok (s ∷ rs) refl f) (ground arith)

gate_mutation :
    (mode : NativeLoopMode) (contract_id : String) (results : List ToolResult)
    → native_loop_finish_gate_error mode contract_id results ≡ none
    → mutation_gate mode results ≡ none
gate_mutation NativeLoopMode.strict contract_id results e =
    unfold native_loop_finish_gate_error in ground (arith, e)
gate_mutation NativeLoopMode.guided contract_id results e =
    unfold native_loop_finish_gate_error in ground (arith, e)
gate_mutation NativeLoopMode.autonomous contract_id results e =
    unfold native_loop_finish_gate_error in e

-- Where the gate lets a finish through, in any mode, every successful mutation is followed by a
-- successful verification.
pub finish_gate-Verified :
    (mode : NativeLoopMode) (contract_id : String) (results : List ToolResult)
    → native_loop_finish_gate_error mode contract_id results ≡ none
    → Verified results
finish_gate-Verified mode contract_id results e =
    unverified-Verified results
      ((mutation_gate-unverified mode results).0 (gate_mutation mode contract_id results e))

-- What the ladder of phases passed before it came to `finish_ready`.
finish_ready_facts :
    (contract_id : String) (trace : List String) (results : List ToolResult) (errors : List String)
    → native_loop_phase contract_id trace results errors ≡ Phase.finish_ready
    → (last_failed results ≡ false) × (is_empty results ≡ false) × (unverified results ≡ false)
unfolding native_loop_phase
finish_ready_facts contract_id trace results errors e = ground (arith, e)

verify_facts :
    (contract_id : String) (trace : List String) (results : List ToolResult) (errors : List String)
    → native_loop_phase contract_id trace results errors ≡ Phase.verify
    → unverified results ≡ true
unfolding native_loop_phase
verify_facts contract_id trace results errors e = ground (arith, e)

gate-verified :
    (mode : NativeLoopMode) (contract_id : String) (results : List ToolResult)
    → any_ok results ≡ true
    → mutation_gate mode results ≡ none
    → native_loop_finish_gate_error mode contract_id results ≡ none
unfolding native_loop_finish_gate_error
gate-verified NativeLoopMode.strict contract_id results o m = rw (o, m) refl
gate-verified NativeLoopMode.guided contract_id results o m = ground (arith, o, m)
gate-verified NativeLoopMode.autonomous contract_id results o m = m

-- The phase that says a run may finish is one in which the gate, in any mode, lets it.
pub finish_ready-gate :
    (mode : NativeLoopMode) (contract_id : String) (trace : List String) (results : List ToolResult)
    (errors : List String)
    → native_loop_phase contract_id trace results errors ≡ Phase.finish_ready
    → native_loop_finish_gate_error mode contract_id results ≡ none
finish_ready-gate mode contract_id trace results errors e =
    let (f, some_result, v) = finish_ready_facts contract_id trace results errors e in
    gate-verified mode contract_id results (last_ok results some_result f)
      ((mutation_gate-unverified mode results).1 v)

-- In the phase that asks for a verification no mode lets a run finish.
pub verify-gate :
    (mode : NativeLoopMode) (contract_id : String) (trace : List String) (results : List ToolResult)
    (errors : List String)
    → native_loop_phase contract_id trace results errors ≡ Phase.verify
    → native_loop_finish_gate_error mode contract_id results ≢ none
verify-gate mode contract_id trace results errors e passes =
    let v = verify_facts contract_id trace results errors e in
    let u =
      (mutation_gate-unverified mode results).0 (gate_mutation mode contract_id results passes) in
    cc (u, v)
