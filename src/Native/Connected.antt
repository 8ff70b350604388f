-- ===== src/Native/Connected.antt =====
-- The native loop whose tools are those of the gateway: `deps.tool_executor` of
-- src/synode/application/graph/engine.py is the `ToolGateway` of src/synode/infrastructure/tools/base.py.
use synode.Prelude.{String, Option, none, inl, inr, List, sym, subst}
use synode.Store.{Error, Result, ok, err}
use synode.Service.{World}
use synode.Tools.{
  RoleSpec, BaseTool, ToolCall, ToolResult, Outcome, execute, Permitted, execute-Permitted,
}
use synode.Native.Action.{LoopRequest, TraceStep, LoopError, Surroundings, Node}
use synode.Native.Loop.{run_native_loop}
use synode.Native.Guarded.{Survives, run_native_loop-kept}

-- What the graph's node sees of an answer of the gateway; `show` gives the text of an exception.
abbrev pub outcome_of : (Error → String) → Result ToolResult → Outcome
outcome_of show (ok result) = Outcome.returned result
outcome_of show (err Error.task_cancelled) = Outcome.cancelled
outcome_of show (err e) = Outcome.raised (show e)

module _ {S : Type 0} (sandbox : S → Option String) (tools : List (BaseTool S))
    (roles : List RoleSpec) (run : String) (role : String) (workspace : Option String)
    (new_id : World S → String) (show : Error → String) (base : Surroundings (World S)) where
  abbrev gateway_call : ToolCall → World S → Outcome × World S
  gateway_call call w =
      let (result, w') = execute sandbox tools roles (new_id w) run role workspace call none w in
      (outcome_of show result, w')

  abbrev pub over_gateway : Surroundings (World S)
  over_gateway = record base { execute = gateway_call }

  -- Let `J` speak of what the tools act on, and be kept by every run of a tool that the gateway
  -- permits to this role in this run, and by the model, the operator and the store of traces. Then
  -- the whole loop over the gateway keeps it.
  pub loop-kept :
      (node : Node) (J : S → Type 0)
      → ((call : ToolCall) (before after : World S)
          → Permitted sandbox tools roles run role workspace call none before after
          → J before.outside
          → J after.outside)
      → ((r : LoopRequest) (w : World S) → J w.outside → J (base.ask_model r w).1.outside)
      → ((question : String) (w : World S)
          → J w.outside
          → J (base.ask_operator question w).1.outside)
      → ((status : String) (trace : List TraceStep) (error : Option LoopError) (w : World S)
          → J w.outside
          → J (base.persist status trace error w).outside)
      → (w : World S) → J w.outside
      → J (run_native_loop over_gateway node w).1.outside
  loop-kept node J permitted asking operator tracing w j =
      run_native_loop-kept over_gateway node (λ v. J v.outside) survives w j
    where
      survives : Survives over_gateway node (λ v. J v.outside)
      survives = record {
        asking = asking;
        operator = operator;
        tracing = tracing;
        executing = λ call v allowed h.
            elim (execute-Permitted sandbox tools roles run role workspace call none (new_id v) v) [
              | inl e ↦ subst J (sym e) h
              | inr p ↦ permitted call v _ p h
            ];
      }
