-- ===== src/Policy/Loop.antt =====
-- The native agent loop of src/synode/application/graph/native_loop_policy.py: its phases, the
-- tools that a phase offers, and the gate before a finish. Of the trace, only the actions are read.
use synode.Prelude.{
  ℕ, suc, String, Bool, true, false, not, ◌&&◌, ◌||◌, Option, none, some, List, [], ◌∷◌, ◌++◌, ◌==◌,
  any, keep_if, if◌then◌else◌, mem_text, ltb, is_some,
}

pub record ToolResult : Type 0 where
  pub tool_name : String
  pub ok : Bool

pub data NativeLoopMode : Type 0 where
  strict guided autonomous : NativeLoopMode

pub data Phase : Type 0 where
  inspect verify repair patch finish_ready : Phase

-- The reasons that the gate gives.
pub data GateError : Type 0 where
  strict_without_tool guided_without_tool unverified_mutation autonomous_unverified : GateError

abbrev pub discovery_tool_names : List String
discovery_tool_names =
    "native.fs_list" ∷ "native.fs_search" ∷ "native.fs_read" ∷ "native.git_status"
    ∷ "native.git_diff" ∷ "native.data_profile" ∷ []

abbrev pub mutation_tool_names : List String
mutation_tool_names = "native.fs_write" ∷ "native.patch_apply" ∷ []

abbrev pub verification_tool_names : List String
verification_tool_names =
    "native.verify" ∷ "native.shell" ∷ "native.git_status" ∷ "native.git_diff" ∷ []

abbrev pub coding_inspection_contract : String
coding_inspection_contract = "coding_inspection"

abbrev pub coding_patch_proposal_contract : String
coding_patch_proposal_contract = "coding_patch_proposal"

abbrev pub coding_contract_ids : List String
coding_contract_ids = coding_inspection_contract ∷ coding_patch_proposal_contract ∷ []

-- A successful call of one of the tools.
abbrev pub succeeded : List String → ToolResult → Bool
succeeded names r = mem_text r.tool_name names && r.ok

-- The last index of a successful call, where the list starts at index `k`.
unfoldable pub last_from : ℕ → List ToolResult → List String → Option ℕ
last_from k [] names = none
last_from k (r ∷ rs) names = elim (last_from (suc k) rs names) [
  | some i ↦ some i
  | none ↦ if succeeded names r then some k else none
]

unfoldable pub last_tool_index : List ToolResult → List String → Option ℕ
unfolding last_from
last_tool_index results names = last_from 0 results names

-- `any(not result.ok for result in tool_results[-1:])`
unfoldable pub last_failed : List ToolResult → Bool
last_failed [] = false
last_failed (r ∷ []) = not r.ok
last_failed (r ∷ s ∷ rs) = last_failed (s ∷ rs)

-- `last_verification is None or last_verification < last_mutation`
abbrev pub precedes : Option ℕ → ℕ → Bool
precedes none mutation = true
precedes (some verification) mutation = ltb verification mutation

-- The last mutation has no verification behind it.
unfoldable pub unverified : List ToolResult → Bool
unfolding last_tool_index
unverified results = elim (last_tool_index results mutation_tool_names) [
  | none ↦ false
  | some mutation ↦ precedes (last_tool_index results verification_tool_names) mutation
]

abbrev pub is_empty {ℓ} : {A : Type ℓ} → List A → Bool
is_empty [] = true
is_empty (x ∷ xs) = false

abbrev pub has_finish_attempt : List String → Bool
has_finish_attempt trace = any (λ action. action == "finish") trace

unfoldable pub native_loop_phase :
    {X : Type 0} → String → List String → List ToolResult → List X → Phase
unfolding unverified last_failed
native_loop_phase contract_id trace tool_results validation_errors =
    if not (is_empty validation_errors) || last_failed tool_results
    then Phase.repair
    else if is_empty tool_results
    then Phase.inspect
    else if unverified tool_results
    then Phase.verify
    else if contract_id == coding_patch_proposal_contract && not (has_finish_attempt trace)
    then Phase.patch
    else Phase.finish_ready

unfoldable pub phase_tools : Phase → List String
phase_tools Phase.inspect = discovery_tool_names
phase_tools Phase.verify = discovery_tool_names ++ verification_tool_names
phase_tools _ = discovery_tool_names ++ mutation_tool_names ++ verification_tool_names

-- `filtered or allowed_tools`; each name of the list is one of its set.
unfoldable pub strict_tools : List String → Phase → List String
unfolding phase_tools
strict_tools allowed phase =
    let filtered = keep_if (λ name. mem_text name (phase_tools phase)) allowed in
    if is_empty filtered then keep_if (λ name. mem_text name allowed) allowed else filtered

unfoldable pub native_loop_allowed_tools_for_phase :
    List String → NativeLoopMode → Phase → List String
unfolding strict_tools
native_loop_allowed_tools_for_phase allowed NativeLoopMode.strict phase = strict_tools allowed phase
native_loop_allowed_tools_for_phase allowed NativeLoopMode.guided phase = allowed
native_loop_allowed_tools_for_phase allowed NativeLoopMode.autonomous phase = allowed

unfoldable pub native_loop_duplicate_fail_after : NativeLoopMode → ℕ
native_loop_duplicate_fail_after NativeLoopMode.strict = 2
native_loop_duplicate_fail_after NativeLoopMode.guided = 3
native_loop_duplicate_fail_after NativeLoopMode.autonomous = 4

abbrev pub any_ok : List ToolResult → Bool
any_ok results = any (λ r. r.ok) results

-- `last_verification is not None and last_verification > last_mutation`
abbrev pub follows : Option ℕ → ℕ → Bool
follows none mutation = false
follows (some verification) mutation = ltb mutation verification

unfoldable pub has_verification_after_mutation : List ToolResult → Bool
unfolding last_tool_index
has_verification_after_mutation results = elim (last_tool_index results mutation_tool_names) [
  | none ↦ true
  | some mutation ↦ follows (last_tool_index results verification_tool_names) mutation
]

-- The gate behind its first two tests.
unfoldable pub mutation_gate : NativeLoopMode → List ToolResult → Option GateError
unfolding unverified has_verification_after_mutation
mutation_gate NativeLoopMode.autonomous results =
    if not (is_some (last_tool_index results mutation_tool_names))
    then none
    else if not (has_verification_after_mutation results)
    then some GateError.autonomous_unverified
    else none
mutation_gate _ results = if unverified results then some GateError.unverified_mutation else none

unfoldable pub native_loop_finish_gate_error :
    NativeLoopMode → String → List ToolResult → Option GateError
unfolding mutation_gate
native_loop_finish_gate_error NativeLoopMode.strict contract_id results =
    if not (any_ok results)
    then some GateError.strict_without_tool
    else mutation_gate NativeLoopMode.strict results
native_loop_finish_gate_error NativeLoopMode.guided contract_id results =
    if mem_text contract_id coding_contract_ids && not (any_ok results)
    then some GateError.guided_without_tool
    else mutation_gate NativeLoopMode.guided results
native_loop_finish_gate_error NativeLoopMode.autonomous contract_id results =
    mutation_gate NativeLoopMode.autonomous results
