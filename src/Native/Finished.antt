-- ===== src/Native/Finished.antt =====
-- How the native loop ends, whatever the model answers and whatever the tools do.
use synode.Prelude.{
  ℕ, zero, suc, ◌+◌, ◌≤◌, ◌<◌, String, ◌≡◌, refl, Option, none, some, List, [], ◌∷◌, ◌++◌, mem_text,
  Bool-cases, Option-cases, inl, inr, arith, leb,
}
use synode.Domain.{OperatorResponseType}
use synode.Store.{Json}
use synode.Tools.{ToolCall}
use synode.Policy.{Phase, native_loop_duplicate_fail_after, native_loop_finish_gate_error}
use synode.Policy.Gate.{Verified, finish_gate-Verified}
use synode.Native.Action.{
  NativeLoopAction, LoopError, TraceStep, LoopState, Exit, Reply, OperatorReply, Validated,
  Surroundings, Node, max_steps, invalid_operator_question, times_seen, mark_seen,
}
use synode.Native.Loop.{
  Turn, Executed, execute_native_tool, offered, phase_of, reproach, after_call, call_fresh,
  call_repeated, call_failed, on_tool_call, on_needs_operator, on_finish, on_reply, turn, carry_on,
  steps_left, fresh_state, run_native_loop, entry, answered, concluded,
}
use synode.Native.Once.{Good, Good-quiet, Good-marked, Good-call, mark_seen-Seen}

module _ {E : Type 0} (env : Surroundings E) (node : Node) where
  -- What the result or the exception says of the state, after `n` steps.
  abbrev pub Sound : ℕ → Exit → LoopState → Type 0
  Sound n (Exit.finished payload) s =
      Verified s.tool_results
      × (proposed : Json) × (env.validate_payload node.contract_id proposed
          ≡ Validated.valid payload)
  Sound n (Exit.failed (LoopError.exceeded limit contract)) s = n ≡ max_steps node
  Sound n exit s = Unit

  -- Where the loop ended after `n` steps or fewer.
  pub record Ended (n : ℕ) (exit : Exit) (s : LoopState) : Type 0 where
    pub used : ℕ
    pub bound : used ≤ n
    pub good : Good env.dumps used s
    pub sound : Sound used exit s

  -- A turn from a good state after `n` steps.
  abbrev Kept : ℕ → Turn → Type 0
  Kept n (Turn.next s) = Good env.dumps (suc n) s
  Kept n (Turn.leave exit s) = Ended (suc n) exit s

  module _ (n : ℕ) (phase : Phase) (s : LoopState) (g : Good env.dumps n s) where
    reproached :
        (action : String) (call : Option ToolCall) (error : LoopError)
        → Kept n (Turn.next (reproach env node n phase action call error s))
    unfolding reproach
    reproached action call error = Good-quiet env.dumps n s g _ _ s.seen_tool_calls refl (λ x h. h)

    -- The loop is left by a last entry that executed nothing.
    left_traced :
        (t : TraceStep) (seen : List (String × ℕ)) (exit : Exit)
        → t.observation ≡ none
        → ((x : String) → 0 < times_seen x s.seen_tool_calls → 0 < times_seen x seen)
        → Sound (suc n) exit (record s { trace = s.trace ++ t ∷ []; seen_tool_calls = seen })
        → Ended (suc n) exit (record s { trace = s.trace ++ t ∷ []; seen_tool_calls = seen })
    left_traced t seen exit quiet keep sound = record {
      used = suc n;
      bound = omega arith;
      good = Good-quiet env.dumps n s g t s.validation_errors seen quiet keep;
      sound = sound;
    }

    left_there : (exit : Exit) → Sound n exit s → Ended (suc n) exit s
    left_there exit sound = record { used = n; bound = omega arith; good = g; sound = sound }

    call_fresh-Kept :
        (call : ToolCall) (e : E)
        → times_seen (env.dumps call) s.seen_tool_calls ≡ 0
        → Kept n (call_fresh env node n phase call s e).0
    unfolding call_fresh after_call
    call_fresh-Kept call e zero_times = go (execute_native_tool (env.execute call e).0)
      where
        k : String
        k = env.dumps call

        go :
            (x : Executed)
            → Kept n
                (after_call env node n phase call x
                  (record s { seen_tool_calls = mark_seen (env.dumps call) 1 s.seen_tool_calls })
                  (env.execute call e).1).0
        go (Executed.observed result) = Good-call env.dumps n s g _ call result refl refl zero_times
        go (Executed.needs_approval id) =
            left_traced _ _ _ refl (λ x h. mark_seen-Seen (env.dumps call) x 0 s.seen_tool_calls h)
              tt
        go (Executed.broke text) = record {
          used = n;
          bound = omega arith;
          good = Good-marked env.dumps n s g (env.dumps call) 0;
          sound = tt;
        }

    on_tool_call-Kept :
        (call : ToolCall) (e : E) → Kept n (on_tool_call env node n phase call s e).0
    unfolding on_tool_call call_repeated call_failed
    on_tool_call-Kept call e = elim (Bool-cases (mem_text call.name (offered env node phase))) [
      | inr f ↦ rw f (reproached "tool_call" (some call) _)
      | inl t ↦
          let count = times_seen (env.dumps call) s.seen_tool_calls in
          elim (Bool-cases (leb (native_loop_duplicate_fail_after node.mode) count)) [
            | inl d ↦ rw (t, d) (left_traced _ s.seen_tool_calls _ refl (λ x h. h) tt)
            | inr d ↦ elim (Bool-cases (leb 1 count)) [
              | inl r ↦
                  rw (t, d, r)
                    (Good-quiet env.dumps n s g _ _ _ refl
                      (λ x h. mark_seen-Seen (env.dumps call) x count s.seen_tool_calls h))
              | inr r ↦ rw (t, d, r) (call_fresh-Kept call e (ground (arith, r)))
            ]
          ]
    ]

    on_needs_operator-Kept :
        (question : String) (e : E) → Kept n (on_needs_operator env node n phase question s e).0
    unfolding on_needs_operator
    on_needs_operator-Kept question e =
        elim (Option-cases (invalid_operator_question env.delegates node.contract_id question)) [
          | inl q ↦ rw (on_needs_operator, q) (go (env.ask_operator question e).0)
          | inr (error, q) ↦ rw (on_needs_operator, q) (reproached "needs_operator" none error)
        ]
      where
        resumed : Good env.dumps (suc n) (record s {
          validation_errors = [];
          trace = s.trace ++ entry env node n phase "needs_operator" none none none ∷ [];
        })
        resumed = Good-quiet env.dumps n s g _ [] s.seen_tool_calls refl (λ x h. h)

        go : (reply : OperatorReply) → Kept n (answered env node n phase reply s)
        go (OperatorReply.responded none message) = resumed
        go (OperatorReply.responded (some OperatorResponseType.reject) message) = left_there _ tt
        go (OperatorReply.responded (some OperatorResponseType.approve) message) = resumed
        go (OperatorReply.responded (some OperatorResponseType.edit) message) = resumed
        go (OperatorReply.responded (some OperatorResponseType.respond) message) = resumed
        go OperatorReply.malformed = left_there _ tt
        go OperatorReply.interrupted = left_there _ tt

    on_finish-Kept : (payload : Json) (e : E) → Kept n (on_finish env node n phase payload s e).0
    unfolding on_finish
    on_finish-Kept payload e =
        elim (Option-cases
          (native_loop_finish_gate_error node.mode node.contract_id s.tool_results)) [
            | inl open_gate ↦
                rw (on_finish, open_gate)
                  (go open_gate (env.validate_payload node.contract_id payload) refl)
            | inr (error, shut) ↦
                rw (on_finish, shut) (reproached "finish" none (LoopError.gate_closed error))
          ]
      where
        go :
            native_loop_finish_gate_error node.mode node.contract_id s.tool_results ≡ none
            → (v : Validated) → env.validate_payload node.contract_id payload ≡ v
            → Kept n (concluded env node n phase v s e).0
        go gate (Validated.valid result) h =
            left_traced _ s.seen_tool_calls _ refl (λ x seen. seen)
              (finish_gate-Verified node.mode node.contract_id s.tool_results gate, payload, h)
        go gate (Validated.invalid text) h =
            reproached "finish" none (LoopError.invalid_payload text)

    on_reply-Kept : (reply : Reply) (e : E) → Kept n (on_reply env node n phase reply s e).0
    unfolding on_reply
    on_reply-Kept (Reply.action (NativeLoopAction.tool_call summary call)) e =
        on_tool_call-Kept call e
    on_reply-Kept (Reply.action (NativeLoopAction.needs_operator summary question)) e =
        on_needs_operator-Kept question e
    on_reply-Kept (Reply.action (NativeLoopAction.finish summary payload)) e =
        on_finish-Kept payload e
    on_reply-Kept (Reply.unreadable text) e =
        reproached "invalid_action" none (LoopError.invalid_action text)
    on_reply-Kept (Reply.crashed text) e = left_there _ tt

  turn-Kept : (n : ℕ) (s : LoopState) (e : E) → Good env.dumps n s → Kept n (turn env node n s e).0
  unfolding turn
  turn-Kept n s e g = on_reply-Kept n (phase_of env node s) s g _ _

  abbrev pub EndsWell : (Exit × LoopState) × E → Type 0
  EndsWell end = Ended (max_steps node) end.0.0 end.0.1

  carry_on-Ended :
      (rest : LoopState → E → (Exit × LoopState) × E) (n : ℕ) (t : Turn) (e : E)
      → suc n ≤ max_steps node
      → ((s : LoopState) (e : E) → Good env.dumps (suc n) s → EndsWell (rest s e))
      → Kept n t
      → EndsWell (carry_on env node rest t e)
  carry_on-Ended rest n (Turn.next s) e room ih k = ih s e k
  carry_on-Ended rest n (Turn.leave exit s) e room ih k = record {
    used = k.used;
    bound = omega (arith, room, k.bound);
    good = k.good;
    sound = k.sound;
  }

  steps_left-Ended :
      (m n : ℕ) (s : LoopState) (e : E)
      → m + n ≡ max_steps node
      → Good env.dumps n s
      → EndsWell (steps_left env node m n s e)
  unfolding steps_left
  steps_left-Ended zero n s e budget g = record {
    used = n;
    bound = omega (arith, budget);
    good = g;
    sound = omega (arith, budget);
  }
  steps_left-Ended (suc m) n s e budget g =
      carry_on-Ended (steps_left env node m (suc n)) n (turn env node n s e).0
        (turn env node n s e).1 (omega (arith, budget))
        (λ s' e' g'. steps_left-Ended m (suc n) s' e' (omega (arith, budget)) g')
        (turn-Kept n s e g)

  -- However the model answers and the tools behave, the loop ends after at most the allowed number
  -- of steps, with every step in its trace and no call executed twice; its results are what the
  -- executed calls observed. Where it returns a payload, that payload came out of the contract's
  -- validation and every successful mutation is followed by a successful verification; where it gives
  -- up for lack of steps, it has used all of them.
  pub run_native_loop-Ended : (e : E) → EndsWell (run_native_loop env node e)
  unfolding run_native_loop
  run_native_loop-Ended e =
      steps_left-Ended (max_steps node) 0 (fresh_state env node) e (omega arith)
        (record { steps = refl; once = tt; known = tt; results = refl })
