-- ===== src/Tests/Access.antt =====
-- The theorems on the gate of the endpoint at concrete inputs.
use booknow_mcp_service.Base.{
  ℕ, pos, String, List, [], ◌∷◌, some, true, false, ◌≡◌, refl, ◌↔◌, ◌≢◌, ok, trim_space, codes,
}
use booknow_mcp_service.Tenant.{
  Identity, tenant_inactive, AccessErr, denied, wrapped, failed, AccessRecord, Answer, granted,
  access_of, resolve, row, query_error, find_mcp_access,
}
use booknow_mcp_service.Tenant.Laws.{IsActive, Found, resolve-granted_iff}
use booknow_mcp_service.Auth.{Claims, bearer_token, cut_space, equal_fold}
use booknow_mcp_service.Httpapi.Access.{
  Request, GateState, Gate, require_mcp_access, usage_policy, passed,
}
use booknow_mcp_service.Httpapi.Access.Laws.{IsRejection, require_mcp_access-IsRejection}
use booknow_mcp_service.Tests.Fixtures.{id_a}

abbrev caller : Identity
caller = record { user_id = id_a; client_id = "client"; expires_at = pos 0 }

abbrev grant : AccessRecord
grant = record {
  connection_id = "c";
  connection_active = true;
  scopes = [];
  tenant_id = "t";
  tenant_slug = "salon";
  tenant_active = true;
  member_found = true;
  member_active = true;
  role = "manager";
  module_enabled = true;
}

abbrev find : String → String → Answer AccessRecord
find user client = find_mcp_access (row grant)

resolve-granted_iff_example : (resolve find caller ≡ granted (access_of caller grant)) ↔ (
    (caller.client_id ≢ "")
    × Found (λ r. (access_of caller r ≡ access_of caller grant) × IsActive r) (find id_a "client"))
resolve-granted_iff_example = resolve-granted_iff find caller (access_of caller grant)

abbrev broken : String → String → Answer AccessRecord
broken user client = find_mcp_access (query_error "timeout")

abbrev failure : AccessErr
failure = wrapped "find mcp access" (wrapped "query mcp access" (failed "timeout"))

abbrev claims : Claims
claims = record {
  subject = id_a;
  expires_at = pos 0;
  client_id = "client";
  role = "authenticated";
  is_anonymous = false;
}

-- A gate whose limiter counts the requests and lets them through.
abbrev gate : Gate ℕ
gate = record {
  verify = λ token. ok caller;
  resolve = λ id. granted (access_of id grant);
  rate_limit = some (λ n id. ((true, pos 0), n));
  has_usage = true;
  metadata_url = "https://example.com";
}

abbrev fresh : GateState ℕ
fresh = record { limiter = 0; last = []; recorded = [] }

abbrev posted : List String → Request
posted authorization = record {
  authorization = authorization;
  origin = "";
  method = "POST";
  requested_method = "";
}

posted-passed :
    (require_mcp_access gate (pos 0) (posted ("Bearer token" ∷ [])) fresh).0
    ≡ passed (access_of caller grant)
unfolding require_mcp_access usage_policy bearer_token cut_space trim_space equal_fold codes
posted-passed = refl

require_mcp_access-IsRejection_example :
    IsRejection fresh (require_mcp_access gate (pos 0) (posted []) fresh)
require_mcp_access-IsRejection_example =
    require_mcp_access-IsRejection gate (pos 0) (posted []) fresh

abbrev denial : AccessErr
denial = wrapped "resolve" (denied tenant_inactive)
