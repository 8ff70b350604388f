-- ===== src/Native/Action.antt =====
-- What `_run_native_loop` of src/synode/application/graph/engine.py keeps from step to step, the
-- actions of src/synode/domain/runtime/decisions.py, and the interface to what the loop calls: the
-- model, the tools, the operator, the store of traces, and the libraries that validate and print.
use synode.Prelude.{
  ℕ, suc, ◌-◌, String, Bool, not, ◌||◌, Option, none, some, List, [], ◌∷◌, ◌==◌, if◌then◌else◌,
  strip, ends_with,
}
use synode.Domain.{OperatorResponseType}
use synode.Store.{Json}
use synode.Tools.{ToolCall, Outcome}
use synode.Policy.{ToolResult, NativeLoopMode, Phase, GateError, coding_patch_proposal_contract}

-- An action that the model's answer was validated as. Its variants say which fields there are.
pub data NativeLoopAction : Type 0 where
  tool_call : String → ToolCall → NativeLoopAction
  finish : String → Json → NativeLoopAction
  needs_operator : String → String → NativeLoopAction

-- The texts of `validation_errors` and of the exceptions, by what they report.
pub data LoopError : Type 0 where
  invalid_action : String → LoopError
  not_available not_allowed : String → LoopError
  duplicate repeated : String → LoopError
  no_question delegated : LoopError
  gate_closed : GateError → LoopError
  invalid_payload : String → LoopError
  exceeded : ℕ → String → LoopError
  approval_required : LoopError

-- An entry of the trace: its fields that the loop reads again or that its theorems speak of.
pub record TraceStep : Type 0 where
  pub step : ℕ
  pub phase : Phase
  pub action : String
  pub call : Option ToolCall
  pub observation : Option ToolResult
  pub error : Option LoopError

pub record LoopState : Type 0 where
  pub tool_results : List ToolResult
  pub trace : List TraceStep
  pub validation_errors : List LoopError
  pub seen_tool_calls : List (String × ℕ)

-- How the loop ends: its result, or the exception that leaves it.
pub data Exit : Type 0 where
  finished : Json → Exit
  failed : LoopError → Exit
  awaits_approval : String → Exit
  suspended : Exit
  rejected : String → Exit
  raised : String → Exit

-- What is sent to the model beside the fixed context: the step, the steps that remain, the phase,
-- the tools that it offers, and the state.
pub record LoopRequest : Type 0 where
  pub loop_step : ℕ
  pub remaining_steps : ℕ
  pub phase : Phase
  pub allowed_tools : List String
  pub state : LoopState

pub data Reply : Type 0 where
  action : NativeLoopAction → Reply
  unreadable : String → Reply
  crashed : String → Reply

-- `interrupt(...)`: it suspends the graph, or gives the response that the graph was resumed with.
pub data OperatorReply : Type 0 where
  responded : Option OperatorResponseType → Option String → OperatorReply
  malformed : OperatorReply
  interrupted : OperatorReply

pub data Validated : Type 0 where
  valid : Json → Validated
  invalid : String → Validated

-- What the loop calls, over the state `E` of all of it.
pub record Surroundings (E : Type 0) : Type 0 where
  pub ask_model : LoopRequest → E → Reply × E
  pub execute : ToolCall → E → Outcome × E
  pub ask_operator : String → E → OperatorReply × E
  pub persist : String → List TraceStep → Option LoopError → E → E
  pub validate_payload : String → Json → Validated
  pub dumps : ToolCall → String
  -- One of the patterns for delegated work is found in the question, in lower case.
  pub delegates : String → Bool

-- The node that the loop runs for, and the setting, where a negative one counts as zero.
pub record Node : Type 0 where
  pub contract_id : String
  pub mode : NativeLoopMode
  pub allowed_tools : List String
  pub native_loop_max_steps : ℕ

-- `max(1, native_loop_max_steps)`
abbrev pub max_steps : Node → ℕ
max_steps node = suc (node.native_loop_max_steps - 1)

-- `_invalid_operator_request_reason`, where the question is never empty before it is stripped.
unfoldable pub invalid_operator_question : (String → Bool) → String → String → Option LoopError
invalid_operator_question delegates contract_id question =
    let text = strip question in
    if text == ""
    then some LoopError.no_question
    else if not (contract_id == coding_patch_proposal_contract)
    then none
    else if not (ends_with "?" text) || delegates text
    then some LoopError.delegated
    else none

-- `seen_tool_calls.get(signature, 0)`
unfoldable pub times_seen : String → List (String × ℕ) → ℕ
times_seen signature [] = 0
times_seen signature ((s, n) ∷ seen) = if s == signature then n else times_seen signature seen

-- `seen_tool_calls[signature] = n`
unfoldable pub mark_seen : String → ℕ → List (String × ℕ) → List (String × ℕ)
mark_seen signature n [] = (signature, n) ∷ []
mark_seen signature n ((s, m) ∷ seen) =
    let rest = mark_seen signature n seen in if s == signature then (s, n) ∷ seen else (s, m) ∷ rest
