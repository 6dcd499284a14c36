-- ===== src/Tests/Mcp.antt =====
-- The theorems on the tools at concrete calls.
use booknow_mcp_service.Base.{pos, [], true, refl}
use booknow_mcp_service.Tenant.{Access}
use booknow_mcp_service.Mcpserver.Call.{ToolEnv, World, call, health_tool}
use booknow_mcp_service.Mcpserver.Call.Laws.{IsAudited, call-IsAudited}
use booknow_mcp_service.Mcpserver.Tools.Laws.{
  IsAuditedCreate, IsAuditedConfirm, draft_tools-IsAudited,
}
use booknow_mcp_service.Tests.Drafts.{Inserts, drafts, eva_at_ten, approval}

abbrev access : Access
access = record {
  user_id = "u";
  client_id = "client";
  connection_id = "c";
  tenant_id = "t";
  tenant_slug = "salon";
  role = "owner";
  scopes = [];
}

abbrev env : ToolEnv
env = record { access = access; audits = true }

abbrev before : World Inserts
before = record { db = []; audited = [] }

call-IsAudited_example :
    IsAudited env (health_tool env) tt before (call env (health_tool env) "r" (pos 1) tt before)
call-IsAudited_example = call-IsAudited env (health_tool env) "r" (pos 1) tt before refl

draft_tools-IsAudited_example :
    IsAuditedCreate env drafts "r" (pos 1) before (eva_at_ten "key-0002")
    × IsAuditedConfirm env drafts "r" (pos 1) before approval
draft_tools-IsAudited_example =
    draft_tools-IsAudited env drafts "r" (pos 1) before (eva_at_ten "key-0002") approval refl
