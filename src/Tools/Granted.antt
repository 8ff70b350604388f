-- ===== src/Tools/Granted.antt =====
-- An approval that the gateway asked for and an operator granted lets the call through.
use synode.Prelude.{
  ℕ, String, Bool, true, false, ◌≡◌, refl, ◌∙◌, ap, inl, inr, Option, none, some, is_some, List, [],
  ◌∷◌, ◌++◌, ◌==◌, eq_refl, Bool-cases, Option-cases,
}
use synode.Domain.{ToolRisk, ApprovalStatus, EventType}
use synode.Store.{
  Db, Approval, ApprovalPayload, Details, ok, find, update, approval_key, Triple, Keeps, committed,
  Triple-bind, then_rule, insert_rule, raise_if_rule, Keeps-modify, keeps_rules, pure, modify,
  ◌>>=◌, gets,
}
use synode.Repository.{
  create_approval, insert_approval, decide_approval, decided, write_approval, require_approval,
  add_event,
}
use synode.Tools.Roles.{RoleSpec, allows_tool}
use synode.Tools.Admission.{
  ToolCall, ToolResult, Admission, requires_approval, grants, find_last, find_existing_approval,
  known_approval, ask, admit,
}
use synode.Tools.Frames.{
  OnTools, add_event_tools, set_run_status_tools, announce_approval_tools, add_tool_audit_tools,
}

find_last-append :
    (p : Approval → Bool) (rows : List Approval) (a : Approval)
    → p a ≡ true
    → find_last p (rows ++ a ∷ []) ≡ some a
unfolding find_last
find_last-append p [] a h = rw h refl
find_last-append p (b ∷ rows) a h = rw (find_last-append p rows a h) refl

-- A write by a new key changes the new row only.
update-append :
    (id : String) (f : Approval → Approval) (rows : List Approval) (a : Approval)
    → find approval_key id rows ≡ none
    → a.id ≡ id
    → update approval_key id f (rows ++ a ∷ []) ≡ rows ++ f a ∷ []
unfolding find update
update-append id f [] a h e = rw (e, eq_refl id) refl
update-append id f (b ∷ rows) a h e = elim (Bool-cases (b.id == id)) [
  | inl t ↦ let found : some b ≡ none = rw t at h in cc
  | inr g ↦ rw (g, update-append id f rows a (rw g at h) e) refl
]

module _ (id run tool : String) (risk : ToolRisk) (role arguments : String) where
  -- The last row is the new approval, pending, for this call.
  abbrev Asked : List Approval → Type 0
  Asked rows =
      (before : List Approval) × (a : Approval) × (rows ≡ before ++ a ∷ [])
      × (find approval_key id before ≡ none)
      × (a.id ≡ id)
      × (a.run_id ≡ run)
      × (a.tool_name ≡ tool)
      × (a.payload ≡ ApprovalPayload.tool_call role arguments)

  create_approval-Asked :
      (reason : String)
      → Triple
          (λ db. Unit {0})
          (create_approval id run tool risk reason (ApprovalPayload.tool_call role arguments))
          (λ _. OnTools (λ audits. Asked))
  unfolding create_approval insert_approval
  create_approval-Asked reason =
      Triple-bind (λ _. OnTools (λ audits. Asked)) _ _ _
        (insert_rule (OnTools (λ audits. Asked)) _ _ _ (λ db u fresh. (
          db.approvals,
          _,
          refl,
          absent (find approval_key id db.approvals) fresh,
          refl,
          refl,
          refl,
          refl,
        )))
        (λ _.
          search
            (
              keeps_rules,
              set_run_status_tools (λ audits. Asked),
              add_event_tools (λ audits. Asked),
              announce_approval_tools (λ audits. Asked),
            )
            depth 12)
    where
      absent : (o : Option Approval) → is_some o ≡ false → o ≡ none
      absent none h = refl
      absent (some a) h = cc

  module _ (reason : Option String) where
    abbrev approve_row : ℕ → Approval → Approval
    approve_row now a = decided ApprovalStatus.approved reason now a

    granted :
        (a : Approval) (now : ℕ)
        → a.run_id ≡ run
        → a.tool_name ≡ tool
        → a.payload ≡ ApprovalPayload.tool_call role arguments
        → grants run tool role arguments (approve_row now a) ≡ true
    unfolding grants decided
    granted a now r t p = rw (r, t, p, eq_refl run, eq_refl tool, eq_refl role, eq_refl arguments)

    -- The approval as the gateway looks it up.
    abbrev Found : Db → Type 0
    Found db = find_existing_approval run tool role arguments db ≡ some id

    write-Found :
        Triple
          (OnTools (λ audits. Asked))
          (write_approval id (decided ApprovalStatus.approved reason))
          (λ _. Found)
    unfolding write_approval modify find_existing_approval decided
    write-Found = record {
      at = λ db h.
          let (before, a, e, fresh, i, r, t, p) = h in
          let row : update approval_key id (approve_row db.now) db.approvals
              ≡ before ++ approve_row db.now a ∷ [] =
            ap (update approval_key id (approve_row db.now)) e
            ∙ update-append id (approve_row db.now) before a fresh i in
          let last =
            find_last-append (grants run tool role arguments) before (approve_row db.now a)
              (granted a db.now r t p) in
          rw (row, last) (ap some i);
    }

    event_Found :
        (r : String) (type : EventType) (by : Option String) (d : Details)
        → Keeps Found (add_event r type by d)
    unfolding add_event find_existing_approval
    event_Found r type by d = Keeps-modify _ (λ db h. h)

    -- What was asked for is found once it is approved.
    decide-Found :
        Triple
          (OnTools (λ audits. Asked))
          (decide_approval id ApprovalStatus.approved reason)
          (λ _. Found)
    unfolding decide_approval require_approval
    decide-Found = then_rule _ _ _ (search keeps_rules) λ a. raise_if_rule _ _ _ _ λ pending.
        Triple-bind (λ _. Found) _ _ _ write-Found (λ _. search (keeps_rules, event_Found))

module _ (run : String) (role : RoleSpec) (call : ToolCall) (risk : ToolRisk) (id : String) where
  abbrev Waiting : List Approval → Type 0
  Waiting = Asked id run call.name risk role.name call.arguments

  ask-Waiting :
      Triple (λ db. Unit {0}) (ask run role call risk id) (λ _. OnTools (λ audits. Waiting))
  unfolding ask
  ask-Waiting =
      Triple-bind (λ _. OnTools (λ audits. Waiting)) _ _ _
        (create_approval-Asked id run call.name risk role.name call.arguments _)
        (λ _. search (keeps_rules, add_tool_audit_tools Waiting))

  asked :
      (db db1 : Db) (result : ToolResult)
      → allows_tool role call.name ≡ true
      → requires_approval risk ≡ true
      → admit run role call risk id none db ≡ ok (Admission.answered result, db1)
      → Waiting db1.approvals
  unfolding admit known_approval ◌>>=◌ gets pure
  asked db db1 result allowed risky e =
      elim (Option-cases (find_existing_approval run call.name role.name call.arguments db)) [
        | inl n ↦
            committed ask-Waiting db (Admission.answered result) db1 tt
              (rw (admit, allowed, risky, n) at e)
        | inr (other, s) ↦
            let bad : ok (Admission.admitted (some other), db)
                ≡ ok (Admission.answered result, db1) =
              rw (admit, allowed, risky, s) at e in
            cc
      ]

  -- A risky call of an allowed tool that is answered by asking for an approval is, once that approval
  -- is granted, admitted when it is repeated, under that approval.
  pub admit-granted :
      (db db1 db2 : Db) (result : ToolResult) (reason : Option String) (a : Approval)
      (other : String)
      → allows_tool role call.name ≡ true
      → requires_approval risk ≡ true
      → admit run role call risk id none db ≡ ok (Admission.answered result, db1)
      → decide_approval id ApprovalStatus.approved reason db1 ≡ ok (a, db2)
      → admit run role call risk other none db2 ≡ ok (Admission.admitted (some id), db2)
  unfolding admit known_approval ◌>>=◌ gets pure
  admit-granted db db1 db2 result reason a other allowed risky e d =
      let found =
        committed (decide-Found id run call.name risk role.name call.arguments reason) db1 a db2
          (asked db db1 result allowed risky e) d in
      rw (admit, known_approval, allowed, risky, found) refl
