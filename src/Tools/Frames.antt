-- ===== src/Tools/Frames.antt =====
-- What the repository's methods leave alone among audits and approvals.
use synode.Prelude.{ℕ, String, Option, none, some, List, [], ◌∷◌, ◌++◌}
use synode.Domain.{RunStatus, ThreadMessageAuthorType, ThreadMessageType, EventType, ToolRisk}
use synode.Store.{
  ToolAudit, Approval, ApprovalPayload, Run, Details, Db, Keeps, Keeps-bind, Keeps-modify,
  Keeps-raise_if, Keeps-gets, Keeps-or_raise, Keeps-pure, keeps_rules,
}
use synode.Repository.{
  require_thread, write_thread, touch_thread, add_thread_message, add_event, require_run, write_run,
  set_run_status, announce_approval, insert_approval, create_approval,
}
use synode.Tools.Admission.{add_tool_audit}

module _ (K : List ToolAudit → List Approval → Type 0) where
  abbrev pub OnTools : Db → Type 0
  OnTools db = K db.audits db.approvals

  touch_thread_tools : (id : String) → Keeps OnTools (touch_thread id)
  unfolding touch_thread require_thread write_thread
  touch_thread_tools id =
      Keeps-bind _ _ (Keeps-bind _ _ (Keeps-gets _) (λ o. Keeps-or_raise o _))
        (λ _. Keeps-modify _ (λ db h. h))

  pub add_event_tools :
      (id : String) (type : EventType) (role : Option String) (d : Details)
      → Keeps OnTools (add_event id type role d)
  unfolding add_event
  add_event_tools id type role d = Keeps-modify _ (λ db h. h)

  add_thread_message_tools :
      (thread : String) (by : ThreadMessageAuthorType) (name : String) (type : ThreadMessageType)
      (content : String) (run : Option String)
      → Keeps OnTools (add_thread_message thread by name type content run)
  unfolding add_thread_message
  add_thread_message_tools thread by name type content run =
      Keeps-bind _ _ (Keeps-raise_if _ _)
        (λ _. Keeps-bind _ _ (Keeps-modify _ (λ db h. h)) (λ _. touch_thread_tools thread))

  write_run_tools : (id : String) (f : ℕ → Run → Run) → Keeps OnTools (write_run id f)
  unfolding write_run
  write_run_tools id f = Keeps-modify _ (λ db h. h)

  pub set_run_status_tools :
      (id : String) (status : RunStatus) (answer error : Option String)
      → Keeps OnTools (set_run_status id status answer error)
  unfolding set_run_status require_run
  set_run_status_tools id status answer error =
      search (keeps_rules, write_run_tools, touch_thread_tools)

  pub announce_approval_tools :
      (run : Option Run) (id name reason : String)
      → Keeps OnTools (announce_approval run id name reason)
  unfolding announce_approval
  announce_approval_tools none id name reason = Keeps-pure tt
  announce_approval_tools (some run) id name reason = add_thread_message_tools _ _ _ _ _ _

  module _
      (grow : (audits : List ToolAudit) (rows : List Approval) (a : Approval)
        → K audits rows
        → K audits (rows ++ a ∷ [])) where
    insert_approval_tools : (a : Approval) → Keeps OnTools (insert_approval a)
    unfolding insert_approval
    insert_approval_tools a = Keeps-bind _ _ (Keeps-gets _) (λ taken.
        Keeps-bind _ _ (Keeps-raise_if _ _)
          (λ _. Keeps-modify _ (λ db h. grow db.audits db.approvals a h)))

    pub create_approval_tools :
        (id run tool : String) (risk : ToolRisk) (reason : String) (payload : ApprovalPayload)
        → Keeps OnTools (create_approval id run tool risk reason payload)
    unfolding create_approval
    create_approval_tools id run tool risk reason payload =
        search
          (
            keeps_rules, insert_approval_tools, set_run_status_tools, add_event_tools,
            announce_approval_tools,
          )
          depth 12

-- What does not read the audits.
pub add_tool_audit_tools :
    (K : List Approval → Type 0) (run role tool : String) (risk : ToolRisk) (status : String)
    (approval : Option String)
    → Keeps (OnTools (λ audits. K)) (add_tool_audit run role tool risk status approval)
unfolding add_tool_audit
add_tool_audit_tools K run role tool risk status approval =
    Keeps-bind _ _ (Keeps-modify _ (λ db h. h)) (λ _. add_event_tools (λ audits. K) _ _ _ _)
