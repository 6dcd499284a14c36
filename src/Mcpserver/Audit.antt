-- ===== src/Mcpserver/Audit.antt =====
-- internal/platform/audit/audit.go: the audit record of a tool call.
use booknow_mcp_service.Base.{ℤ, String, Option, List, Bool}

-- `Status`, `Risk`
pub data Status : Type 0 where
  succeeded failed denied : Status

pub data Risk : Type 0 where
  read write : Risk

-- A value of a summary, which is a map[string]any of texts, integers and flags.
pub data Value : Type 0 where
  text : String → Value
  number : ℤ → Value
  flag : Bool → Value

abbrev pub Summary : Type 0
Summary = List (String × Value)

-- `ToolCall`; a nil summary is `none`.
pub record ToolCall : Type 0 where
  pub tenant_id : String
  pub connection_id : String
  pub actor_user_id : String
  pub client_id : String
  pub request_id : String
  pub tool_name : String
  pub risk : Risk
  pub summary : Option Summary
  pub status : Status
  pub error_code : String
  pub duration : ℤ
