-- ===== src/Native/Guarded.antt =====
-- What the native loop can do to its surroundings.
use synode.Prelude.{
  ℕ, zero, suc, String, true, ◌≡◌, Option, List, mem_text, Bool-cases, Option-cases, inl, inr, leb,
}
use synode.Store.{Json}
use synode.Tools.{ToolCall}
use synode.Policy.{Phase, native_loop_duplicate_fail_after, native_loop_finish_gate_error}
use synode.Policy.Offered.{offered-allowed}
use synode.Native.Action.{
  NativeLoopAction, LoopError, TraceStep, LoopState, Exit, LoopRequest, Reply, Validated,
  Surroundings, Node, max_steps, invalid_operator_question, times_seen,
}
use synode.Native.Loop.{
  Turn, Executed, execute_native_tool, offered, phase_of, after_call, call_fresh, call_failed,
  on_tool_call, on_needs_operator, on_finish, on_reply, turn, carry_on, steps_left, fresh_state,
  run_native_loop, concluded,
}

-- `I` survives what the loop may do: questions to the model and to the operator, records of traces,
-- and executions of calls of the node's tools.
pub record Survives {E : Type 0} (env : Surroundings E) (node : Node) (I : E → Type 0)
    : Type 0 where
  pub asking : (r : LoopRequest) (e : E) → I e → I (env.ask_model r e).1
  pub operator : (question : String) (e : E) → I e → I (env.ask_operator question e).1
  pub tracing :
      (status : String) (trace : List TraceStep) (error : Option LoopError) (e : E)
      → I e
      → I (env.persist status trace error e)
  pub executing :
      (call : ToolCall) (e : E)
      → mem_text call.name node.allowed_tools ≡ true
      → I e
      → I (env.execute call e).1

module _ {E : Type 0} (env : Surroundings E) (node : Node) (I : E → Type 0)
    (kept : Survives env node I) where
  module _ (n : ℕ) (phase : Phase) (s : LoopState) where
    after_call-kept :
        (call : ToolCall) (x : Executed) (s' : LoopState) (e : E)
        → I e
        → I (after_call env node n phase call x s' e).1
    unfolding after_call
    after_call-kept call (Executed.observed result) s' e i = i
    after_call-kept call (Executed.needs_approval id) s' e i = kept.tracing _ _ _ e i
    after_call-kept call (Executed.broke text) s' e i = i

    on_tool_call-kept :
        (call : ToolCall) (e : E) → I e → I (on_tool_call env node n phase call s e).1
    unfolding on_tool_call call_fresh call_failed
    on_tool_call-kept call e i = elim (Bool-cases (mem_text call.name (offered env node phase))) [
      | inr f ↦ rw f i
      | inl t ↦
          let count = times_seen (env.dumps call) s.seen_tool_calls in
          elim (Bool-cases (leb (native_loop_duplicate_fail_after node.mode) count)) [
            | inl d ↦ rw (t, d) (kept.tracing _ _ _ e i)
            | inr d ↦ elim (Bool-cases (leb 1 count)) [
              | inl r ↦ rw (t, d, r) i
              | inr r ↦
                  let allowed =
                    (offered-allowed node.allowed_tools node.mode phase).0 call.name t in
                  rw (t, d, r)
                    (after_call-kept call (execute_native_tool (env.execute call e).0) _ _
                      (kept.executing call e allowed i))
            ]
          ]
    ]

    on_needs_operator-kept :
        (question : String) (e : E) → I e → I (on_needs_operator env node n phase question s e).1
    unfolding on_needs_operator
    on_needs_operator-kept question e i =
        elim (Option-cases (invalid_operator_question env.delegates node.contract_id question)) [
          | inl q ↦ rw (on_needs_operator, q) (kept.operator question e i)
          | inr (error, q) ↦ rw (on_needs_operator, q) i
        ]

    concluded-kept : (v : Validated) (e : E) → I e → I (concluded env node n phase v s e).1
    concluded-kept (Validated.valid payload) e i = kept.tracing _ _ _ e i
    concluded-kept (Validated.invalid text) e i = i

    on_finish-kept : (payload : Json) (e : E) → I e → I (on_finish env node n phase payload s e).1
    unfolding on_finish
    on_finish-kept payload e i =
        elim (Option-cases
          (native_loop_finish_gate_error node.mode node.contract_id s.tool_results)) [
            | inl g ↦ rw (on_finish, g) (concluded-kept _ e i)
            | inr (error, g) ↦ rw (on_finish, g) i
          ]

    on_reply-kept : (reply : Reply) (e : E) → I e → I (on_reply env node n phase reply s e).1
    unfolding on_reply
    on_reply-kept (Reply.action (NativeLoopAction.tool_call summary call)) e i =
        on_tool_call-kept call e i
    on_reply-kept (Reply.action (NativeLoopAction.needs_operator summary question)) e i =
        on_needs_operator-kept question e i
    on_reply-kept (Reply.action (NativeLoopAction.finish summary payload)) e i =
        on_finish-kept payload e i
    on_reply-kept (Reply.unreadable text) e i = i
    on_reply-kept (Reply.crashed text) e i = i

  turn-kept : (n : ℕ) (s : LoopState) (e : E) → I e → I (turn env node n s e).1
  unfolding turn
  turn-kept n s e i = on_reply-kept n (phase_of env node s) s _ _ (kept.asking _ e i)

  carry_on-kept :
      (rest : LoopState → E → (Exit × LoopState) × E) (t : Turn) (e : E)
      → ((s : LoopState) (e : E) → I e → I (rest s e).1)
      → I e
      → I (carry_on env node rest t e).1
  carry_on-kept rest (Turn.next s) e ih i = ih s e i
  carry_on-kept rest (Turn.leave exit s) e ih i = i

  steps_left-kept : (m n : ℕ) (s : LoopState) (e : E) → I e → I (steps_left env node m n s e).1
  unfolding steps_left
  steps_left-kept zero n s e i = kept.tracing _ _ _ e i
  steps_left-kept (suc m) n s e i =
      carry_on-kept (steps_left env node m (suc n)) (turn env node n s e).0 (turn env node n s e).1
        (λ s' e' i'. steps_left-kept m (suc n) s' e' i') (turn-kept n s e i)

  -- Whatever survives questions to the model and to the operator, records of traces, and executions
  -- of calls of the node's allowed tools survives the loop: it executes no other call.
  pub run_native_loop-kept : (e : E) → I e → I (run_native_loop env node e).1
  unfolding run_native_loop
  run_native_loop-kept e i = steps_left-kept (max_steps node) 0 (fresh_state env node) e i
