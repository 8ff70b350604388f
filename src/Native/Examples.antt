-- ===== src/Native/Examples.antt =====
-- The native loop with a model that follows a script, and the loop's theorems at it.
use synode.Prelude.{
  ℕ, suc, zero, String, true, false, ◌≡◌, refl, none, some, List, [], ◌∷◌, ◌==◌, Bool-cases, inl,
  inr, All, mem_text, ap,
}
use synode.Domain.{ToolRisk}
use synode.Store.{find}
use synode.Service.{World}
use synode.Samples.{running_db}
use synode.Tools.{RoleSpec, BaseTool, ToolCall, Outcome, requires_approval, Permitted, tool_key}
use synode.Policy.{
  NativeLoopMode, native_loop_phase, native_loop_allowed_tools_for_phase,
  native_loop_duplicate_fail_after, native_loop_finish_gate_error,
}
use synode.Native.Action.{
  NativeLoopAction, Reply, OperatorReply, Validated, Surroundings, Node, Exit, LoopState,
  times_seen, mark_seen,
}
use synode.Native.Loop.{
  run_native_loop, steps_left, turn, on_reply, on_tool_call, call_fresh, after_call, on_finish,
}
use synode.Native.Guarded.{run_native_loop-kept}
use synode.Native.Finished.{EndsWell, run_native_loop-Ended}
use synode.Native.Connected.{over_gateway, loop-kept}

abbrev call_of : String → ToolCall
call_of name = record { name = name; arguments = "{}" }

-- First a write, then a look at the differences, then the end.
abbrev script : ℕ → Reply
script (suc zero) = Reply.action (NativeLoopAction.tool_call "write" (call_of "native.fs_write"))
script (suc (suc zero)) =
    Reply.action (NativeLoopAction.tool_call "look" (call_of "native.git_diff"))
script n = Reply.action (NativeLoopAction.finish "done" "{\"summary\": \"done\"}")

abbrev observation : String → Outcome
observation name = Outcome.returned (record {
  tool_name = name;
  ok = true;
  risk = ToolRisk.read;
  output = "{}";
  error = none;
  approval_id = none;
})

-- The surroundings list the calls that were executed.
abbrev scripted : Surroundings (List String)
scripted = record {
  ask_model = λ request names. (script request.loop_step, names);
  execute = λ call names. (observation call.name, call.name ∷ names);
  ask_operator = λ question names. (OperatorReply.interrupted, names);
  persist = λ status trace error names. names;
  validate_payload = λ contract payload. Validated.valid payload;
  dumps = λ call. call.name;
  delegates = λ question. false;
}

abbrev node : Node
node = record {
  contract_id = "node_summary";
  mode = NativeLoopMode.guided;
  allowed_tools = "native.fs_write" ∷ "native.git_diff" ∷ [];
  native_loop_max_steps = 5;
}

abbrev exit_of : {E : Type 0} → (Exit × LoopState) × E → Exit
exit_of end = end.0.0

script_example :
    exit_of (run_native_loop scripted node []) ≡ Exit.finished "{\"summary\": \"done\"}"
unfolding run_native_loop steps_left turn on_reply on_tool_call call_fresh after_call on_finish
    native_loop_phase native_loop_allowed_tools_for_phase native_loop_duplicate_fail_after
    times_seen mark_seen native_loop_finish_gate_error
script_example = refl

run_native_loop-Ended_example : EndsWell scripted node (run_native_loop scripted node [])
run_native_loop-Ended_example = run_native_loop-Ended scripted node []

abbrev OnlyAllowed : List String → Type 0
OnlyAllowed names = All (λ name. mem_text name node.allowed_tools ≡ true) names

run_native_loop-kept_example : OnlyAllowed (run_native_loop scripted node []).1
run_native_loop-kept_example =
    run_native_loop-kept scripted node OnlyAllowed
      (record {
        asking = λ r e i. i;
        operator = λ q e i. i;
        tracing = λ s t r e i. i;
        executing = λ call e allowed i. (allowed, i);
      })
      [] tt

-- A gateway whose sandbox is never there, and a tool that always writes.
abbrev coder : RoleSpec
coder = record { name = "coder"; allowed_tools = "native.*" ∷ [] }

abbrev fs_write : BaseTool (List String)
fs_write = record {
  name = "native.fs_write";
  classify = λ arguments. ToolRisk.write;
  run = λ context arguments files. (observation "native.fs_write", arguments ∷ files);
}

abbrev base : Surroundings (World (List String))
base = record {
  ask_model = λ request w. (script request.loop_step, w);
  execute = λ call w. (observation call.name, w);
  ask_operator = λ question w. (OperatorReply.interrupted, w);
  persist = λ status trace error w. w;
  validate_payload = λ contract payload. Validated.valid payload;
  dumps = λ call. call.name;
  delegates = λ question. false;
}

abbrev connected : Surroundings (World (List String))
connected =
    over_gateway (λ files. some "no container") (fs_write ∷ []) (coder ∷ []) "r" "coder" none
      (λ w. "a") (λ e. "error") base

-- The one tool of the registry.
the_tool :
    (name : String) (tool : BaseTool (List String))
    → find tool_key name (fs_write ∷ []) ≡ some tool
    → tool ≡ fs_write
unfolding find
the_tool name tool h = elim (Bool-cases ("native.fs_write" == name)) [
  | inl e ↦ let same : some fs_write ≡ some tool = rw e at h in cc
  | inr e ↦ let gone : none ≡ some tool = rw e at h in cc
]

-- Without a sandbox nothing is permitted, since the tool always writes.
nothing-Permitted :
    (call : ToolCall) (before after : World (List String))
    → ¬ Permitted
        (λ files. some "no container")
        (fs_write ∷ [])
        (coder ∷ [])
        "r"
        "coder"
        none
        call
        none
        before
        after
unfolding requires_approval
nothing-Permitted call before after p =
    let risky : requires_approval (p.tool.classify call.arguments) ≡ true =
      ap (λ t. requires_approval (t.classify call.arguments))
        (the_tool call.name p.tool p.tool_found) in
    cc (p.sandboxed risky)

loop-kept_example :
    (run_native_loop connected node (record { db = running_db; outside = [] })).1.outside ≡ []
loop-kept_example =
    loop-kept (λ files. some "no container") (fs_write ∷ []) (coder ∷ []) "r" "coder" none
      (λ w. "a") (λ e. "error") base node (λ files. files ≡ [])
      (λ call before after p j. absurd (nothing-Permitted call before after p)) (λ r w j. j)
      (λ q w j. j) (λ s t r w j. j) (record { db = running_db; outside = [] }) refl
