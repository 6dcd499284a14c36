-- ===== src/Mcpserver/Call/Laws.antt =====
-- server.go: every call of a tool is audited.
use booknow_mcp_service.Base.{ℤ, String, ◌∷◌, true, Result, ok, err, ◌≡◌, refl, ◌↔◌}
use booknow_mcp_service.Mcpserver.Audit.{succeeded, ToolCall}
use booknow_mcp_service.Mcpserver.Errors.{Class, classify, error_of}
use booknow_mcp_service.Mcpserver.Errors.Laws.{classify-IsFailure}
use booknow_mcp_service.Mcpserver.Call.{
  ToolEnv, ToolSpec, World, Reply, answered, tool_error, risk_or_read, summary_of, tool_call, reply,
  call,
}

abbrev pub IsAnswered : {Out : Type 0} → Reply Out → Type 0
IsAnswered (answered out) = Unit
IsAnswered (tool_error message) = ⊥

-- The audit of a call: one record in front of the earlier ones, with the identity of the connection
-- and the tool, that says of the outcome what the client was told.
pub record IsAudited {W In Out : Type 0} (env : ToolEnv) (spec : ToolSpec W In Out) (x : In)
    (before : World W) (after : Reply Out × World W) : Type 0 where
  pub entry : ToolCall
  pub appended : after.1.audited ≡ entry ∷ before.audited
  pub tenant_is : entry.tenant_id ≡ env.access.tenant_id
  pub connection_is : entry.connection_id ≡ env.access.connection_id
  pub actor_is : entry.actor_user_id ≡ env.access.user_id
  pub tool_is : entry.tool_name ≡ spec.name
  pub summary_is : entry.summary ≡ summary_of spec.summary x
  pub status_iff : (entry.status ≡ succeeded) ↔ IsAnswered (after.0)
  pub code_iff : (entry.error_code ≡ "") ↔ IsAnswered (after.0)
  pub db_is : after.1.db ≡ (spec.run before.db x).1

-- The class of a result says whether the client gets an answer.
abbrev Agrees : {Out : Type 0} → Class → Reply Out → Type 0
Agrees c r = ((c.status ≡ succeeded) ↔ IsAnswered r) × ((c.code ≡ "") ↔ IsAnswered r)

classify-Agrees :
    {Out : Type 0} (r : Result Out)
    → Agrees (classify (error_of r)) (reply (classify (error_of r)).client_error r)
classify-Agrees (ok out) = unfold classify in ((λ h. tt, λ h. refl), (λ h. tt, λ h. refl))
classify-Agrees (err e) =
    let f = classify-IsFailure e in
    rw f.has_message ((λ h. f.not_succeeded h, λ h. absurd h), (λ h. f.has_code h, λ h. absurd h))

-- Every call of a tool, whether it succeeds or fails, appends one audit record where calls are
-- audited: of the connection's tenant, user and tool, with the summary of the input, and with a
-- status and a code that say whether the client got an answer. The database is as the tool left it.
pub call-IsAudited :
    {W In Out : Type 0} (env : ToolEnv) (spec : ToolSpec W In Out) (request_id : String)
    (duration : ℤ) (x : In) (st : World W)
    → env.audits ≡ true
    → IsAudited env spec x st (call env spec request_id duration x st)
unfolding call
call-IsAudited env spec request_id duration x st on =
    let r = (spec.run st.db x).0 in
    let c = classify (error_of r) in
    let agrees = classify-Agrees r in
    record {
      entry =
          tool_call env spec.name (risk_or_read spec.risk) (summary_of spec.summary x) c request_id
            duration;
      appended = rw on refl;
      tenant_is = refl;
      connection_is = refl;
      actor_is = refl;
      tool_is = refl;
      summary_is = refl;
      status_iff = agrees.0;
      code_iff = agrees.1;
      db_is = refl;
    }
