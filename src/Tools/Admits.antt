-- ===== src/Tools/Admits.antt =====
-- What the first session of the gateway decides: what it logs, and what holds where it admits.
use synode.Prelude.{
  String, true, false, not, ◌&&◌, ◌≡◌, refl, ap, subst, Option, none, is_some, List, [], ◌∷◌, ◌++◌,
  arith,
}
use synode.Domain.{ToolRisk}
use synode.Store.{
  Db, ToolAudit, Triple, Triple-bind, Triple-given, Triple-if, gets_rule, then_rule, pure, modify,
  ◌>>=◌,
}
use synode.Repository.{add_event}
use synode.Tools.Roles.{RoleSpec, allows_tool}
use synode.Tools.Admission.{
  ToolResult, ToolCall, Admission, requires_approval, known_approval, add_tool_audit, audit_row,
  deny, ask, admit,
}
use synode.Tools.Frames.{create_approval_tools}

-- One audit was added, of this run, role and tool.
pub record Logged (run role tool : String) (before after : List ToolAudit) : Type 0 where
  pub audit : ToolAudit
  pub of_run : audit.run_id ≡ run
  pub of_role : audit.role ≡ role
  pub of_tool : audit.tool_name ≡ tool
  pub added : after ≡ before ++ audit ∷ []

add_tool_audit_rule :
    (run role tool : String) (risk : ToolRisk) (status : String) (approval : Option String)
    (l : List ToolAudit)
    → Triple
        (λ db. db.audits ≡ l)
        (add_tool_audit run role tool risk status approval)
        (λ _ db. Logged run role tool l db.audits)
unfolding add_tool_audit add_event modify ◌>>=◌
add_tool_audit_rule run role tool risk status approval l = record {
  at = λ db h. record {
    audit = audit_row run role tool risk status approval;
    of_run = refl;
    of_role = refl;
    of_tool = refl;
    added = ap (λ rows. rows ++ audit_row run role tool risk status approval ∷ []) h;
  };
}

-- What the admission says: an answered call is logged, and an admitted one has changed nothing, is
-- allowed to the role, and has an approval where its risk asks for one.
abbrev pub Admits :
    String → RoleSpec → ToolCall → ToolRisk → Option String → Db → Admission → Db → Type 0
Admits run role call risk approved before (Admission.answered result) db =
    Logged run role.name call.name before.audits db.audits
Admits run role call risk approved before (Admission.admitted approval) db =
    (db ≡ before)
    × (allows_tool role call.name ≡ true)
    × (requires_approval risk ≡ true → is_some approval ≡ true)
    × (known_approval run role call risk approved before ≡ approval)

module _ (run : String) (role : RoleSpec) (call : ToolCall) (risk : ToolRisk)
    (approved : Option String) (before : Db) where
  abbrev Allows : Admission → Db → Type 0
  Allows = Admits run role call risk approved before

  answer_rule :
      (status : String) (approval : Option String) (result : ToolResult)
      → Triple
          (λ db. db.audits ≡ before.audits)
          (add_tool_audit run role.name call.name risk status approval >>= λ _.
            pure (Admission.answered result))
          Allows
  unfolding pure
  answer_rule status approval result =
      Triple-bind (λ _ db. Logged run role.name call.name before.audits db.audits) _ _ _
        (add_tool_audit_rule run role.name call.name risk status approval before.audits)
        (λ _. record { at = λ db h. h })

  ask_rule :
      (id : String) → Triple (λ db. db.audits ≡ before.audits) (ask run role call risk id) Allows
  unfolding ask
  ask_rule id =
      then_rule _ _ _
        (create_approval_tools (λ audits rows. audits ≡ before.audits) (λ audits rows a h. h) id run
          call.name risk _ _)
        (λ a. answer_rule _ _ _)

  pass_rule :
      (approval : Option String)
      → allows_tool role call.name ≡ true
      → (requires_approval risk && not (is_some approval)) ≡ false
      → Triple
          (λ db. (db ≡ before) × (known_approval run role call risk approved db ≡ approval))
          (pure (Admission.admitted approval))
          Allows
  unfolding pure
  pass_rule approval allowed e = record {
    at = λ db h. (
      h.0,
      allowed,
      λ r. ground (arith, e, r),
      subst (λ d. known_approval run role call risk approved d ≡ approval) h.0 h.1,
    );
  }

  pub admit_rule :
      (id : String) → Triple (λ db. db ≡ before) (admit run role call risk id approved) Allows
  unfolding admit deny pure
  admit_rule id =
      Triple-if _ (not (allows_tool role call.name)) (deny run role call risk) _
        (λ e. Triple-given (λ db h. ap (λ d. d.audits) h) (answer_rule "denied" none _))
        (λ allowed. gets_rule _ (known_approval run role call risk approved) _ λ approval.
          Triple-if _ (requires_approval risk && not (is_some approval)) (ask run role call risk id)
            (pure (Admission.admitted approval))
            (λ e. Triple-given (λ db h. ap (λ d. d.audits) h.0) (ask_rule id))
            (λ e. pass_rule approval (ground (arith, allowed)) e))
