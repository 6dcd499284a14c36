-- ===== src/Postgres/Audit.antt =====
-- internal/repository/postgres/audit.go: the row of an audited call.
use booknow_mcp_service.Base.{
  suc, ◌-ℤ◌, ◌+◌, ◌/◌, ℤ, pos, negsuc, String, Option, none, some, [], other, wrapped, Result, ok,
  err, ◌>>=◌, wrap_err,
}
use booknow_mcp_service.Mcpserver.Audit.{Risk, Status, Summary, ToolCall}

-- The arguments of `insertToolCallSQL`; risk and status are written as their texts.
pub record AuditRow : Type 0 where
  pub tenant_id : String
  pub connection_id : String
  pub actor_user_id : String
  pub client_id : String
  pub request_id : String
  pub tool_name : String
  pub risk : Risk
  pub summary_json : String
  pub status : Status
  pub error_code : String
  pub duration_ms : ℤ

abbrev pub summary_or_empty : Option Summary → Summary
summary_or_empty none = []
summary_or_empty (some s) = s

-- `math.Round(float64(d.Microseconds()) / 1000)`
unfoldable pub milliseconds : ℤ → ℤ
milliseconds (pos n) = pos ((n / 1000 + 500) / 1000)
milliseconds (negsuc n) = pos 0 -ℤ pos ((suc n / 1000 + 500) / 1000)

abbrev pub audit_row : ToolCall → String → AuditRow
audit_row c json = record {
  tenant_id = c.tenant_id;
  connection_id = c.connection_id;
  actor_user_id = c.actor_user_id;
  client_id = c.client_id;
  request_id = c.request_id;
  tool_name = c.tool_name;
  risk = c.risk;
  summary_json = json;
  status = c.status;
  error_code = c.error_code;
  duration_ms = milliseconds c.duration;
}

abbrev encoded : ToolCall → Option String → Result AuditRow
encoded c none = err (wrapped "encode audit summary" (other "json"))
encoded c (some json) = ok (audit_row c json)

-- `RecordToolCall`; `encode` is json.Marshal, and `exec` what the insert answers.
unfoldable pub record_tool_call :
    (Summary → Option String) → (AuditRow → Result (Unit {0})) → ToolCall → Result (Unit {0})
record_tool_call encode exec c = do
  r ← encoded c (encode (summary_or_empty c.summary))
  wrap_err "insert mcp tool call" (exec r)
