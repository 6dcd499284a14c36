-- ===== src/Mcpserver/Call.antt =====
-- internal/mcpserver/server.go: register, audit and the health tool.
pub mod Laws
use booknow_mcp_service.Base.{
  ℤ, String, Option, none, some, List, [], ◌∷◌, Bool, true, false, if◌then◌else◌, Result, ok, err,
}
use booknow_mcp_service.Tenant.{Access}
use booknow_mcp_service.Mcpserver.Audit.{Risk, read, write, Summary, ToolCall}
use booknow_mcp_service.Mcpserver.Errors.{Class, classify, error_of}

-- `toolEnv`: the access, and whether calls are audited (`Deps.Audit` is set).
pub record ToolEnv : Type 0 where
  pub access : Access
  pub audits : Bool

-- `toolSpec` over a database in state W; an empty risk and a nil summary are `none`.
pub record ToolSpec (W In Out : Type 0) : Type 0 where
  pub name : String
  pub summary : Option (In → Summary)
  pub run : W → In → Result Out × W
  pub risk : Option Risk

-- What a call changes: the database, and the calls handed to the audit recorder, the last first. The
-- recorder's failures are only logged.
pub record World (W : Type 0) : Type 0 where
  pub db : W
  pub audited : List ToolCall

-- What the client gets.
pub data Reply (Out : Type 0) : Type 0 where
  answered : Out → Reply Out
  tool_error : String → Reply Out

abbrev pub risk_or_read : Option Risk → Risk
risk_or_read none = read
risk_or_read (some r) = r

abbrev pub summary_of : {In : Type 0} → Option (In → Summary) → In → Option Summary
summary_of none x = none
summary_of (some f) x = some (f x)

-- The record that `toolEnv.audit` writes; the request id is rand.Text.
abbrev pub tool_call :
    ToolEnv → String → Risk → Option Summary → Class → (request_id : String) → ℤ → ToolCall
tool_call env name risk summary c request_id duration = record {
  tenant_id = env.access.tenant_id;
  connection_id = env.access.connection_id;
  actor_user_id = env.access.user_id;
  client_id = env.access.client_id;
  request_id = request_id;
  tool_name = name;
  risk = risk;
  summary = summary;
  status = c.status;
  error_code = c.code;
  duration = duration;
}

-- `toolEnv.audit`
abbrev pub audit : ToolEnv → ToolCall → List ToolCall → List ToolCall
audit env entry calls = if env.audits then entry ∷ calls else calls

-- What `register` returns: the client error, if there is one, else the output. A result without a
-- client error is a success.
abbrev pub reply : {Out : Type 0} → Option String → Result Out → Reply Out
reply none (ok out) = answered out
reply none (err e) = tool_error ""
reply (some message) result = tool_error message

-- A call of a registered tool: it runs, it is audited, and its error is made safe for the client.
unfoldable pub call :
    {W In Out : Type 0}
    → ToolEnv
    → ToolSpec W In Out
    → (request_id : String) → (duration : ℤ) → In
    → World W
    → Reply Out × World W
call env spec request_id duration x st =
    let (result, db) = spec.run st.db x in
    let c = classify (error_of result) in
    let entry =
      tool_call env spec.name (risk_or_read spec.risk) (summary_of spec.summary x) c request_id
        duration in
    (reply c.client_error result, record { db = db; audited = audit env entry st.audited })

-- The output of the health tool, and the tool.
pub record HealthOutput : Type 0 where
  pub status : String
  pub tenant : String
  pub role : String

abbrev pub health_tool : {W : Type 0} → ToolEnv → ToolSpec W (Unit {0}) HealthOutput
health_tool env = record {
  name = "health";
  summary = none;
  run = λ w x.
      (ok (record { status = "ok"; tenant = env.access.tenant_slug; role = env.access.role }), w);
  risk = none;
}
