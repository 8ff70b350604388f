-- ===== src/Native/Loop.antt =====
-- `_run_native_loop` of src/synode/application/graph/engine.py. A turn is one pass of the body of its
-- `for` loop: it goes on with the next step, or the loop ends.
use synode.Prelude.{
  ℕ, zero, suc, ◌-◌, String, not, Option, none, some, List, [], ◌∷◌, ◌++◌, ◌==◌, if◌then◌else◌, map,
  mem_text, leb,
}
use synode.Domain.{OperatorResponseType}
use synode.Store.{Json}
use synode.Tools.{ToolCall, Outcome, ToolResult as Answer}
use synode.Policy.{
  ToolResult, Phase, native_loop_phase, native_loop_allowed_tools_for_phase,
  native_loop_duplicate_fail_after, native_loop_finish_gate_error,
}
use synode.Native.Action.{
  NativeLoopAction, LoopError, TraceStep, LoopState, Exit, LoopRequest, Reply, OperatorReply,
  Validated, Surroundings, Node, max_steps, invalid_operator_question, times_seen, mark_seen,
}

pub data Turn : Type 0 where
  next : LoopState → Turn
  leave : Exit → LoopState → Turn

abbrev pub actions : LoopState → List String
actions s = map (λ t. t.action) s.trace

-- What `_execute_native_tool` makes of the answer of the tool executor.
pub data Executed : Type 0 where
  observed : ToolResult → Executed
  needs_approval : String → Executed
  broke : String → Executed

abbrev observe : Answer → Executed
observe a = Executed.observed (record { tool_name = a.tool_name; ok = a.ok })

abbrev pub execute_native_tool : Outcome → Executed
execute_native_tool (Outcome.raised text) = Executed.broke text
execute_native_tool Outcome.cancelled = Executed.broke "cancelled"
execute_native_tool (Outcome.returned a) = elim a.approval_id [
  | none ↦ observe a
  | some id ↦ if id == "" then observe a else Executed.needs_approval id
]

-- `default or ""` for an optional message
abbrev message_or : String → Option String → String
message_or default none = default
message_or default (some text) = if text == "" then default else text

module _ {E : Type 0} (env : Surroundings E) (node : Node) where
  abbrev pub phase_of : LoopState → Phase
  phase_of s = native_loop_phase node.contract_id (actions s) s.tool_results s.validation_errors

  abbrev pub offered : Phase → List String
  offered phase = native_loop_allowed_tools_for_phase node.allowed_tools node.mode phase

  module _ (index : ℕ) (phase : Phase) where
    abbrev pub entry : String → Option ToolCall → Option ToolResult → Option LoopError → TraceStep
    entry action call observation error = record {
      step = suc index;
      phase = phase;
      action = action;
      call = call;
      observation = observation;
      error = error;
    }

    -- A step whose error the next request tells the model.
    unfoldable pub reproach : String → Option ToolCall → LoopError → LoopState → LoopState
    reproach action call error s = record s {
      validation_errors = error ∷ [];
      trace = s.trace ++ entry action call none (some error) ∷ [];
    }

    abbrev traced : TraceStep → LoopState → LoopState
    traced t s = record s { trace = s.trace ++ t ∷ [] }

    -- A tool call that was executed, or would have been: its signature is marked already.
    unfoldable pub after_call : ToolCall → Executed → LoopState → E → Turn × E
    after_call call (Executed.observed result) s e = (
      Turn.next (record s {
        tool_results = s.tool_results ++ result ∷ [];
        validation_errors = [];
        trace = s.trace ++ entry "tool_call" (some call) (some result) none ∷ [];
      }),
      e,
    )
    after_call call (Executed.needs_approval id) s e =
        let s' = traced (entry "tool_call" (some call) none (some LoopError.approval_required)) s in
        (Turn.leave (Exit.awaits_approval id) s', env.persist "waiting_approval" s'.trace none e)
    after_call call (Executed.broke text) s e = (Turn.leave (Exit.raised text) s, e)

    unfoldable pub call_fresh : ToolCall → LoopState → E → Turn × E
    unfolding after_call
    call_fresh call s e =
        let marked : LoopState = record s {
          seen_tool_calls = mark_seen (env.dumps call) 1 s.seen_tool_calls;
        } in
        let (outcome, e') = env.execute call e in
        after_call call (execute_native_tool outcome) marked e'

    unfoldable pub call_repeated : ToolCall → ℕ → LoopState → Turn
    unfolding reproach
    call_repeated call count s = Turn.next (
        reproach "tool_call" (some call) (LoopError.duplicate call.name)
          (record s { seen_tool_calls = mark_seen (env.dumps call) (suc count) s.seen_tool_calls }))

    unfoldable pub call_failed : ToolCall → LoopState → E → Turn × E
    call_failed call s e =
        let error = LoopError.repeated call.name in
        let s' = traced (entry "tool_call" (some call) none (some error)) s in
        (Turn.leave (Exit.failed error) s', env.persist "failed" s'.trace (some error) e)

    unfoldable pub on_tool_call : ToolCall → LoopState → E → Turn × E
    unfolding reproach call_fresh call_repeated call_failed
    on_tool_call call s e =
        let count = times_seen (env.dumps call) s.seen_tool_calls in
        if not (mem_text call.name (offered phase))
        then (
          Turn.next (
              reproach "tool_call" (some call)
                (if mem_text call.name node.allowed_tools
                  then LoopError.not_available call.name
                  else LoopError.not_allowed call.name)
                s),
          e,
        )
        else if leb (native_loop_duplicate_fail_after node.mode) count
        then call_failed call s e
        else if leb 1 count
        then (call_repeated call count s, e)
        else call_fresh call s e

    abbrev pub answered : OperatorReply → LoopState → Turn
    answered (OperatorReply.responded (some OperatorResponseType.reject) message) s =
        Turn.leave (Exit.rejected (message_or "operator rejected native loop request" message)) s
    answered (OperatorReply.responded type message) s = Turn.next (record s {
      validation_errors = [];
      trace = s.trace ++ entry "needs_operator" none none none ∷ [];
    })
    answered OperatorReply.malformed s =
        Turn.leave (Exit.raised "operator response must be a JSON object") s
    answered OperatorReply.interrupted s = Turn.leave Exit.suspended s

    unfoldable pub on_needs_operator : String → LoopState → E → Turn × E
    unfolding invalid_operator_question reproach
    on_needs_operator question s e =
        elim (invalid_operator_question env.delegates node.contract_id question) [
          | some error ↦ (Turn.next (reproach "needs_operator" none error s), e)
          | none ↦ let (reply, e') = env.ask_operator question e in (answered reply s, e')
        ]

    abbrev pub concluded : Validated → LoopState → E → Turn × E
    concluded (Validated.valid payload) s e =
        let s' = traced (entry "finish" none none none) s in
        (Turn.leave (Exit.finished payload) s', env.persist "completed" s'.trace none e)
    concluded (Validated.invalid text) s e =
        (Turn.next (reproach "finish" none (LoopError.invalid_payload text) s), e)

    unfoldable pub on_finish : Json → LoopState → E → Turn × E
    unfolding reproach
    on_finish payload s e =
        elim (native_loop_finish_gate_error node.mode node.contract_id s.tool_results) [
          | some error ↦ (Turn.next (reproach "finish" none (LoopError.gate_closed error) s), e)
          | none ↦ concluded (env.validate_payload node.contract_id payload) s e
        ]

    unfoldable pub on_reply : Reply → LoopState → E → Turn × E
    unfolding on_tool_call on_needs_operator on_finish reproach
    on_reply (Reply.action (NativeLoopAction.tool_call summary call)) s e = on_tool_call call s e
    on_reply (Reply.action (NativeLoopAction.needs_operator summary question)) s e =
        on_needs_operator question s e
    on_reply (Reply.action (NativeLoopAction.finish summary payload)) s e = on_finish payload s e
    on_reply (Reply.unreadable text) s e =
        (Turn.next (reproach "invalid_action" none (LoopError.invalid_action text) s), e)
    on_reply (Reply.crashed text) s e = (Turn.leave (Exit.raised text) s, e)

  unfoldable pub turn : ℕ → LoopState → E → Turn × E
  unfolding on_reply
  turn index s e =
      let phase = phase_of s in
      let request : LoopRequest = record {
        loop_step = suc index;
        remaining_steps = max_steps node - index;
        phase = phase;
        allowed_tools = offered phase;
        state = s;
      } in
      let (reply, e') = env.ask_model request e in on_reply index phase reply s e'

  abbrev pub carry_on : (LoopState → E → (Exit × LoopState) × E) → Turn → E → (Exit × LoopState) × E
  carry_on rest (Turn.next s) e = rest s e
  carry_on rest (Turn.leave exit s) e = ((exit, s), e)

  -- The steps from `index` on, of which `n` are left.
  unfoldable pub steps_left : ℕ → ℕ → LoopState → E → (Exit × LoopState) × E
  unfolding turn
  steps_left zero index s e =
      let error = LoopError.exceeded (max_steps node) node.contract_id in
      ((Exit.failed error, s), env.persist "failed" s.trace (some error) e)
  steps_left (suc n) index s e =
      let (t, e') = turn index s e in carry_on (steps_left n (suc index)) t e'

  abbrev pub fresh_state : LoopState
  fresh_state = record {
    tool_results = [];
    trace = [];
    validation_errors = [];
    seen_tool_calls = [];
  }

  unfoldable pub run_native_loop : E → (Exit × LoopState) × E
  unfolding steps_left
  run_native_loop e = steps_left (max_steps node) 0 fresh_state e
