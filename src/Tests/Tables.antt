-- ===== src/Tests/Tables.antt =====
-- The query of accesses over concrete tables.
use booknow_mcp_service.Base.{pos, String, [], ◌∷◌, none, some, true, ◌≡◌, refl}
use booknow_mcp_service.Tenant.{Identity, Access, granted, resolve, find_mcp_access, check_record}
use booknow_mcp_service.Tenant.Tables.{
  ConnectionRow, AccessTables, find_mcp_access_sql, mcp_module_slug, access_rows, precedes,
}
use booknow_mcp_service.Tenant.Tables.Entitled.{IsBacked, resolve-IsEntitled}
use booknow_mcp_service.Tests.Fixtures.{id_a}

abbrev caller : Identity
caller = record { user_id = id_a; client_id = "client"; expires_at = pos 0 }

abbrev connection : String → String → ConnectionRow
connection id status = record {
  id = id;
  tenant_id = "salon";
  auth_user_id = id_a;
  oauth_client_id = "client";
  status = status;
  scopes = [];
  updated_at = pos 7;
  created_at = pos 1;
}

-- A revoked connection, which is newer, and an active one, with a second tenant that has no module.
abbrev tables : AccessTables
tables = record {
  mcp_connections =
      record (connection "old" "revoked") { updated_at = pos 9 } ∷ connection "new" "active" ∷ [];
  tenants =
      record { id = "other"; slug = "other"; status = "active" }
      ∷ record { id = "salon"; slug = "salon"; status = "active" }
      ∷ [];
  tenant_users =
      record { tenant_id = "salon"; auth_user_id = id_a; is_active = none; role = some "manager" }
      ∷ [];
  modules = record { id = "m"; slug = mcp_module_slug } ∷ [];
  tenant_modules = record { tenant_id = "salon"; module_id = "m"; is_enabled = some true } ∷ [];
}

abbrev access : Access
access = record {
  user_id = id_a;
  client_id = "client";
  connection_id = "new";
  tenant_id = "salon";
  tenant_slug = "salon";
  role = "manager";
  scopes = [];
}

resolved :
    resolve
      (λ user client. find_mcp_access (find_mcp_access_sql tables user client mcp_module_slug))
      caller
    ≡ granted access
unfolding resolve find_mcp_access check_record access_rows precedes
resolved = refl

resolve-IsEntitled_example : IsBacked tables caller access
resolve-IsEntitled_example = resolve-IsEntitled tables caller access resolved
