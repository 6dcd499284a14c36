-- ===== src/Mcpserver/Tools/Laws.antt =====
-- draft_tools.go: what the tools that write change and audit.
use booknow_mcp_service.Base.{ℤ, String, true, ◌≡◌, ◌⊎◌}
use booknow_mcp_service.Tenant.{Access}
use booknow_mcp_service.Drafts.Types.{Actor, CreateInput, ConfirmInput}
use booknow_mcp_service.Drafts.Service.{Drafts}
use booknow_mcp_service.Drafts.Service.Creation.{IsInsert, create-writes}
use booknow_mcp_service.Drafts.Service.Confirming.{IsConfirmation, confirm-writes}
use booknow_mcp_service.Mcpserver.Call.{ToolEnv, World, call}
use booknow_mcp_service.Mcpserver.Call.Laws.{IsAudited, call-IsAudited}
use booknow_mcp_service.Mcpserver.Tools.{actor_of, create_tool, confirm_tool}

-- Who acts, by the access that the request was granted.
abbrev pub granted_actor : Access → Actor
granted_actor a = record {
  tenant_id = a.tenant_id;
  connection_id = a.connection_id;
  user_id = a.user_id;
}

module _ {W : Type 0} (env : ToolEnv) (s : Drafts W) (request_id : String) (duration : ℤ)
    (st : World W) where
  abbrev pub IsAuditedCreate : CreateInput → Type 0
  IsAuditedCreate x =
      let after = call env (create_tool env s) request_id duration x st in
      IsAudited env (create_tool env s) x st after
      × ((after.1.db ≡ st.db) ⊎ IsInsert s st.db (granted_actor env.access) x (after.1.db))

  abbrev pub IsAuditedConfirm : ConfirmInput → Type 0
  IsAuditedConfirm x =
      let after = call env (confirm_tool env s) request_id duration x st in
      IsAudited env (confirm_tool env s) x st after
      × ((after.1.db ≡ st.db) ⊎ IsConfirmation s st.db (granted_actor env.access) x (after.1.db))

-- Where calls are audited, a call of either tool that writes leaves an audit record that agrees with the
-- answer, and changes the database by one checked insert, or one confirmation of the connection's own
-- draft, at most, on behalf of the tenant, connection and user that the request was granted.
pub draft_tools-IsAudited :
    {W : Type 0} (env : ToolEnv) (s : Drafts W) (request_id : String) (duration : ℤ) (st : World W)
    (x : CreateInput) (y : ConfirmInput)
    → env.audits ≡ true
    → IsAuditedCreate env s request_id duration st x
      × IsAuditedConfirm env s request_id duration st y
unfolding call
draft_tools-IsAudited env s request_id duration st x y on = (
  (
    call-IsAudited env (create_tool env s) request_id duration x st on,
    create-writes s st.db (actor_of env) x,
  ),
  (
    call-IsAudited env (confirm_tool env s) request_id duration y st on,
    confirm-writes s st.db (actor_of env) y,
  ),
)
