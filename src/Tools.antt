-- ===== src/Tools.antt =====
-- Tools: the roles that may use them, their registry, and the gateway that runs them.
mod Roles
mod Admission
mod Gateway
mod Frames
mod Admits
mod Approved
mod Guarded
mod Granted
mod Examples
pub use Roles.{RoleSpec, role_key, allows_tool-Named}
unfoldable pub use Roles.{permits, allows_tool}
pub use Admission.{ToolResult, ToolCall, ToolContext, Outcome, BaseTool, tool_key}
unfoldable pub use Admission.{requires_approval, register, unregister_prefix}
unfoldable pub use Gateway.{execute}
pub use Guarded.{Permitted, Accounted, execute-Permitted, execute-Accounted}
