-- ===== src/Tools/Examples.antt =====
-- Calls of the gateway on a small database, and the gateway's theorems at them.
use synode.Prelude.{
  String, true, ◌≡◌, refl, none, some, starts_with, ends_with, drop_last, is_blank, is_space, strip,
  List, [], ◌∷◌, ◌⊎◌, mem_text,
}
use synode.Domain.{ToolRisk, ApprovalStatus}
use synode.Store.{
  Db, ok, err, Result, find, update, ◌>>=◌, gets, modify, or_raise, pure, raise, raise_if,
}
use synode.Repository.{
  decide_approval, decided, require_approval, write_approval, create_approval, insert_approval,
  set_run_status, require_run, write_run, with_status, stamp, touch_thread, require_thread,
  write_thread, announce_approval, add_thread_message, add_event,
}
use synode.Service.{World}
use synode.Samples.{running_db}
use synode.Tools.Roles.{RoleSpec, allows_tool, permits, Named, allows_tool-Named}
use synode.Tools.Admission.{
  ToolCall, ToolResult, Outcome, BaseTool, Admission, admit, requires_approval,
  find_existing_approval, find_last, grants, known_approval, add_tool_audit, ask, deny,
}
use synode.Tools.Gateway.{execute, go_ahead, perform}
use synode.Tools.Guarded.{Permitted, Accounted, execute-Permitted, execute-Accounted}
use synode.Tools.Granted.{admit-granted}

abbrev coder : RoleSpec
coder = record { name = "coder"; allowed_tools = "native.fs_*" ∷ "native.*" ∷ [] }

-- What the tool acts on is the list of what was written.
abbrev fs_write : BaseTool (List String)
fs_write = record {
  name = "native.fs_write";
  classify = λ arguments. ToolRisk.write;
  run = λ context arguments files. (
    Outcome.returned (record {
      tool_name = "native.fs_write";
      ok = true;
      risk = ToolRisk.write;
      output = "{}";
      error = none;
      approval_id = none;
    }),
    arguments ∷ files,
  );
}

abbrev write_call : ToolCall
write_call = record { name = "native.fs_write"; arguments = "a.txt" }

abbrev world : World (List String)
world = record { db = running_db; outside = [] }

abbrev call_gateway : World (List String) → Result ToolResult × World (List String)
call_gateway w =
    execute (λ files. none) (fs_write ∷ []) (coder ∷ []) "a" "r" "coder" none write_call none w

allows_tool-Named_example :
    (allowed : String) × (mem_text allowed coder.allowed_tools ≡ true)
    × Named "native.fs_write" allowed
unfolding allows_tool permits starts_with ends_with drop_last
allows_tool-Named_example = (allows_tool-Named coder "native.fs_write").0 refl

-- Without an approval the call is answered and nothing is written.
asks_example : (call_gateway world).1.outside ≡ []
unfolding execute go_ahead perform allows_tool permits starts_with ends_with drop_last find update
    ◌>>=◌ gets modify or_raise pure raise raise_if is_blank is_space strip create_approval
    insert_approval set_run_status require_run write_run with_status stamp touch_thread
    require_thread write_thread announce_approval add_thread_message add_event admit ask deny
    add_tool_audit known_approval requires_approval find_existing_approval find_last grants
asks_example = refl

execute-Permitted_example :
    ((call_gateway world).1.outside ≡ [])
    ⊎ Permitted
        (λ files. none)
        (fs_write ∷ [])
        (coder ∷ [])
        "r"
        "coder"
        none
        write_call
        none
        world
        (call_gateway world).1
execute-Permitted_example =
    execute-Permitted (λ files. none) (fs_write ∷ []) (coder ∷ []) "r" "coder" none write_call none
      "a" world

execute-Accounted_example :
    Accounted
      (λ files. none)
      (fs_write ∷ [])
      (coder ∷ [])
      "r"
      "coder"
      none
      write_call
      none
      world
      (call_gateway world)
execute-Accounted_example =
    execute-Accounted (λ files. none) (fs_write ∷ []) (coder ∷ []) "r" "coder" none write_call none
      "a" world

-- The database after the gateway has asked, and after an operator has agreed.
abbrev asked_db : Db
asked_db = (call_gateway world).1.db

abbrev db_of : {A : Type 0} → Db → Result (A × Db) → Db
db_of default (ok (a, db)) = db
db_of default (err e) = default

abbrev agreed_db : Db
agreed_db = db_of asked_db (decide_approval "a" ApprovalStatus.approved none asked_db)

-- Then the call is let through.
writes_example : (call_gateway (record { db = agreed_db; outside = [] })).1.outside ≡ "a.txt" ∷ []
unfolding execute go_ahead perform allows_tool permits starts_with ends_with drop_last find update
    ◌>>=◌ gets modify or_raise pure raise raise_if is_blank is_space strip create_approval
    insert_approval set_run_status require_run write_run with_status stamp touch_thread
    require_thread write_thread announce_approval add_thread_message add_event admit ask deny
    add_tool_audit known_approval requires_approval find_existing_approval find_last grants
    decide_approval require_approval write_approval decided
writes_example = refl

admit-granted_example :
    admit "r" coder write_call ToolRisk.write "b" none agreed_db
    ≡ ok (Admission.admitted (some "a"), agreed_db)
unfolding execute go_ahead perform allows_tool permits starts_with ends_with drop_last find update
    ◌>>=◌ gets modify or_raise pure raise raise_if is_blank is_space strip create_approval
    insert_approval set_run_status require_run write_run with_status stamp touch_thread
    require_thread write_thread announce_approval add_thread_message add_event admit ask deny
    add_tool_audit known_approval requires_approval find_existing_approval find_last grants
    decide_approval require_approval write_approval decided
admit-granted_example =
    admit-granted "r" coder write_call ToolRisk.write "a" running_db asked_db agreed_db _ none _ "b"
      refl refl refl refl

-- A tool that only reads, whose run is cut by the cancellation of the task: the audits stay empty.
abbrev slow_read : BaseTool (List String)
slow_read = record {
  name = "native.fs_read";
  classify = λ arguments. ToolRisk.read;
  run = λ context arguments files. (Outcome.cancelled, files);
}

cut_example :
    (execute
      (λ files. none)
      (slow_read ∷ [])
      (coder ∷ [])
      "a"
      "r"
      "coder"
      none
      (record { name = "native.fs_read"; arguments = "a.txt" })
      none
      world).1.db.audits
    ≡ []
unfolding execute go_ahead perform allows_tool permits starts_with ends_with drop_last find ◌>>=◌
    gets modify pure add_event admit known_approval requires_approval
cut_example = refl
