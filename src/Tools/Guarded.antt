-- ===== src/Tools/Guarded.antt =====
-- What has to hold before a tool runs, and what every call leaves in the audits.
use synode.Prelude.{
  String, true, ◌≡◌, refl, sym, subst, ◌⊎◌, inl, inr, Option, none, some, is_some, List, [], ◌∷◌,
  ◌++◌, Option-cases,
}
use synode.Domain.{ToolRisk, EventType}
use synode.Store.{Db, Details, Error, Result, ok, err, find, find-key, committed, modify, ◌>>=◌}
use synode.Repository.{add_event}
use synode.Service.{World}
use synode.Tools.Roles.{RoleSpec, role_key, allows_tool}
use synode.Tools.Admission.{
  ToolResult, ToolCall, ToolContext, Outcome, BaseTool, Admission, tool_key, requires_approval,
  known_approval, add_tool_audit, audit_row, admit,
}
use synode.Tools.Gateway.{unavailable, conclude, perform, go_ahead, continue, execute}
use synode.Tools.Admits.{Logged, Admits, admit_rule}
use synode.Tools.Approved.{Approved, known_approval-Approved}

module _ {S : Type 0} (sandbox : S → Option String) (tools : List (BaseTool S))
    (roles : List RoleSpec) (run : String) (name : String) (workspace : Option String)
    (call : ToolCall) (approved : Option String) where
  abbrev here : ToolContext
  here = record { run_id = run; role = name; workspace = workspace }

  -- The tool ran, once, from the state that the call found, and was permitted to: the role allows it,
  -- and where it writes or destroys the call was approved and the sandbox was there.
  pub record Permitted (before after : World S) : Type 0 where
    pub role : RoleSpec
    pub role_found : find role_key name roles ≡ some role
    pub tool : BaseTool S
    pub tool_found : find tool_key call.name tools ≡ some tool
    pub allowed : allows_tool role call.name ≡ true
    pub approval :
        requires_approval (tool.classify call.arguments) ≡ true
        → (id : String) × Approved run role call approved before.db id
    pub sandboxed :
        requires_approval (tool.classify call.arguments) ≡ true → sandbox before.outside ≡ none
    pub ran : after.outside ≡ (tool.run here call.arguments before.outside).1

  -- The call with this id for an approval that it may have to ask for.
  abbrev executed : String → World S → Result ToolResult × World S
  executed id w = execute sandbox tools roles id run name workspace call approved w

  -- The task was cancelled while the tool ran: that the tool started is recorded, and no audit is.
  pub record Interrupted (before after : World S) : Type 0 where
    pub tool : BaseTool S
    pub tool_found : find tool_key call.name tools ≡ some tool
    pub cut : (tool.run here call.arguments before.outside).0 ≡ Outcome.cancelled
    pub unlogged : after.db ≡ record before.db {
      events =
          before.db.events
          ++ record {
            run_id = run;
            event_type = EventType.tool_started;
            role = some name;
            payload = Details.tool call.name (tool.classify call.arguments) "running" none;
          }
            ∷ [];
    }

  -- What a call leaves: its result is logged, once; where it raises nothing has changed, or the task
  -- was cancelled while the tool ran.
  abbrev pub Accounted : World S → Result ToolResult × World S → Type 0
  Accounted w (ok result, w') = Logged run name call.name w.db.audits w'.db.audits
  Accounted w (err e, w') = (w' ≡ w) ⊎ ((e ≡ Error.task_cancelled) × Interrupted w w')

  module _ (role : RoleSpec) (tool : BaseTool S) (approval : Option String) (w : World S) where
    conclude-outside :
        (outcome : Outcome) (w' : World S)
        → (conclude sandbox here tool call approval outcome w').1.outside ≡ w'.outside
    unfolding add_tool_audit add_event modify ◌>>=◌
    conclude-outside (Outcome.returned result) w' = refl
    conclude-outside (Outcome.raised text) w' = refl
    conclude-outside Outcome.cancelled w' = refl

    go_ahead-outside :
        ((go_ahead sandbox here tool call approval w).1.outside ≡ w.outside)
        ⊎ ((requires_approval (tool.classify call.arguments) ≡ true → sandbox w.outside ≡ none)
            × ((go_ahead sandbox here tool call approval w).1.outside
                ≡ (tool.run here call.arguments w.outside).1))
    unfolding go_ahead perform add_tool_audit add_event modify ◌>>=◌
    go_ahead-outside =
        elim (Option-cases (unavailable sandbox (tool.classify call.arguments) w.outside)) [
          | inl e ↦ rw (go_ahead, e) (inr ((λ r. available r e), conclude-outside _ _))
          | inr (text, e) ↦ rw (go_ahead, e) (inl refl)
        ]
      where
        available :
            requires_approval (tool.classify call.arguments) ≡ true
            → unavailable sandbox (tool.classify call.arguments) w.outside ≡ none
            → sandbox w.outside ≡ none
        available r e = rw r at e

    logged :
        (risk : ToolRisk) (status : String)
        → Logged run name call.name w.db.audits
            (w.db.audits ++ audit_row run name call.name risk status approval ∷ [])
    logged risk status = record {
      audit = audit_row run name call.name risk status approval;
      of_run = refl;
      of_role = refl;
      of_tool = refl;
      added = refl;
    }

    perform-Accounted :
        find tool_key call.name tools ≡ some tool
        → (outcome : Outcome) → (tool.run here call.arguments w.outside).0 ≡ outcome
        → Accounted w (perform sandbox here tool call approval w)
    unfolding perform add_tool_audit add_event modify ◌>>=◌
    perform-Accounted found (Outcome.returned result) e = rw (perform, e) (logged _ _)
    perform-Accounted found (Outcome.raised text) e = rw (perform, e) (logged _ _)
    perform-Accounted found Outcome.cancelled e =
        rw (perform, e)
          (inr (refl, record { tool = tool; tool_found = found; cut = e; unlogged = refl }))

    go_ahead-Accounted :
        find tool_key call.name tools ≡ some tool
        → Accounted w (go_ahead sandbox here tool call approval w)
    unfolding go_ahead add_tool_audit add_event modify ◌>>=◌
    go_ahead-Accounted found =
        elim (Option-cases (unavailable sandbox (tool.classify call.arguments) w.outside)) [
          | inl e ↦ rw (go_ahead, e) (perform-Accounted found _ refl)
          | inr (text, e) ↦ rw (go_ahead, e) (logged _ _)
        ]

  -- What the two theorems say of a call that came to `end`.
  abbrev Kept : World S → Result ToolResult × World S → Type 0
  Kept w end = ((end.1.outside ≡ w.outside) ⊎ Permitted w end.1) × Accounted w end

  module _ (role : RoleSpec) (tool : BaseTool S) (w : World S)
      (role_found : find role_key name roles ≡ some role)
      (tool_found : find tool_key call.name tools ≡ some tool) where
    approved_call :
        (approval : Option String) (risk : ToolRisk)
        → (requires_approval risk ≡ true → is_some approval ≡ true)
        → known_approval run role call risk approved w.db ≡ approval
        → requires_approval risk ≡ true
        → (id : String) × Approved run role call approved w.db id
    approved_call none risk has known r = cc (has r)
    approved_call (some id) risk has known r =
        (id, known_approval-Approved run role call risk approved w.db id known)

    went_ahead :
        (approval : Option String)
        → Admits run role call
            (tool.classify call.arguments)
            approved
            w.db
            (Admission.admitted approval)
            w.db
        → Kept w (go_ahead sandbox here tool call approval w)
    went_ahead approval h = (
      elim (go_ahead-outside role tool approval w) [
        | inl e ↦ inl e
        | inr (sandboxed, ran) ↦ inr (record {
          role = role;
          role_found = role_found;
          tool = tool;
          tool_found = tool_found;
          allowed = h.1;
          approval = approved_call approval (tool.classify call.arguments) h.2 h.3;
          sandboxed = sandboxed;
          ran = ran;
        })
      ],
      go_ahead-Accounted role tool approval w tool_found,
    )

    settled :
        (admission : Admission) (db : Db)
        → Admits run role call (tool.classify call.arguments) approved w.db admission db
        → Kept w (continue sandbox tools roles here tool call admission (record w { db = db }))
    settled (Admission.answered result) db h = (
      inl refl,
      subst (λ n. Logged run n call.name w.db.audits db.audits)
          (find-key role_key name roles role role_found) h,
    )
    settled (Admission.admitted approval) db h =
        subst (λ d. Kept w (go_ahead sandbox here tool call approval (record w { db = d })))
          (sym h.0) (went_ahead approval (refl, h.1, h.2, h.3))

    began :
        (id : String) (r : Result (Admission × Db))
        → admit run role call (tool.classify call.arguments) id approved w.db ≡ r
        → Kept w (executed id w)
    unfolding execute
    began id (ok (admission, db)) e =
        rw (execute, role_found, tool_found, e)
          (settled admission db
            (committed (admit_rule run role call _ approved w.db id) w.db admission db refl e))
    began id (err error) e = rw (execute, role_found, tool_found, e) (inl refl, inl refl)

  execute-Kept : (id : String) (w : World S) → Kept w (executed id w)
  unfolding execute
  execute-Kept id w = elim (Option-cases (find role_key name roles)) [
    | inl e ↦ rw (execute, e) (inl refl, inl refl)
    | inr (role, e) ↦ elim (Option-cases (find tool_key call.name tools)) [
      | inl e' ↦ rw (execute, e, e') (inl refl, inl refl)
      | inr (tool, e') ↦ began role tool w e e' id _ refl
    ]
  ]

  -- A call of the gateway leaves what the tools act on as it was, or it ran the named tool on it:
  -- then the role allows the tool, and where the tool's own classification of the call is to write
  -- or to destroy, the caller named an approval or one was granted for this role, these arguments
  -- and this run, and the sandbox was available.
  pub execute-Permitted :
      (id : String) (w : World S)
      → ((executed id w).1.outside ≡ w.outside) ⊎ Permitted w (executed id w).1
  execute-Permitted id w = (execute-Kept id w).0

  -- A call of the gateway that returns, whatever it answers, adds one row to the audits, of its run,
  -- role and tool. One that raises changes nothing, unless the task is cancelled while the tool runs:
  -- then the database has the event of the tool's start and no audit.
  pub execute-Accounted : (id : String) (w : World S) → Accounted w (executed id w)
  execute-Accounted id w = (execute-Kept id w).1
