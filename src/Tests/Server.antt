-- ===== src/Tests/Server.antt =====
-- The theorems on the wired endpoint, the rate limiter and the throttle at concrete inputs.
use booknow_mcp_service.Base.{
  ℕ, suc, bytes, pos, String, List, [], ◌∷◌, none, some, true, false, codes, trim_space, ◌≡◌, refl,
  All, arith, sub_instants, ◌-ℤ◌,
}
use booknow_mcp_service.Business.Checks.{is_uuid}
use booknow_mcp_service.Tenant.{
  Access, AccessRecord, row, resolve, check_record, find_mcp_access, access_of,
}
use booknow_mcp_service.Auth.{Claims, verify, check_claims, bearer_token, cut_space, equal_fold}
use booknow_mcp_service.Platform.Ratelimit.{Rate, Limiter, bucket_of, allow}
use booknow_mcp_service.Platform.Ratelimit.Laws.{
  HasUniqueKeys, table_of, swept_table, own_limiter, IsMetered, updated, allow-refines,
}
use booknow_mcp_service.Platform.Ratelimit.Memory.{IsTrim, allow-IsTrim}
use booknow_mcp_service.Httpapi.Usage.Coverage.{Use, recorded_of, IsCovered, due-IsCovered}
use booknow_mcp_service.Httpapi.Usage.Once.{IsOrdered, IsApart, due-IsApart}
use booknow_mcp_service.Httpapi.Access.{
  Request, passed, origin_guard, require_mcp_access, usage_policy,
}
use booknow_mcp_service.Server.{Deps, initial, endpoint}
use booknow_mcp_service.Server.Endpoint.{IsServed, endpoint-IsServed}
use booknow_mcp_service.Tests.Fixtures.{id_a}
use booknow_mcp_service.Tests.Config.{config}

-- A rate limiter that counts the reservations and never makes a call wait.
abbrev rate : Rate ℕ (Unit {0})
rate = record {
  new_limiter = λ interval burst. 0;
  reserve = λ now n. ((pos 0, tt), suc n);
  cancel_at = λ now r n. n;
}

abbrev grant : AccessRecord
grant = record {
  connection_id = "c";
  connection_active = true;
  scopes = [];
  tenant_id = "t";
  tenant_slug = "salon";
  tenant_active = true;
  member_found = true;
  member_active = true;
  role = "owner";
  module_enabled = true;
}

abbrev claims : Claims
claims = record {
  subject = id_a;
  expires_at = pos 0;
  client_id = "client";
  role = "authenticated";
  is_anonymous = false;
}

abbrev deps : Deps
deps = record {
  config = config;
  rows = λ user client. row grant;
  parse = λ token. some claims;
  authorization_server = "https://db.co/auth/v1";
  twilio = none;
}

abbrev request : Request
request = record {
  authorization = "Bearer token" ∷ [];
  origin = "https://mcp.co";
  method = "POST";
  requested_method = "";
}

abbrev granted_access : Access
granted_access =
    access_of (record { user_id = id_a; client_id = "client"; expires_at = pos 0 }) grant

request-passed :
    (endpoint rate deps (λ s. s) (pos 0) request (initial rate deps)).0 ≡ passed granted_access
unfolding endpoint origin_guard require_mcp_access usage_policy bearer_token cut_space trim_space
    equal_fold codes verify check_claims is_uuid resolve check_record find_mcp_access allow bytes
request-passed = refl

endpoint-IsServed_example :
    IsServed rate deps (λ s. s) (pos 0) request (initial rate deps) granted_access
endpoint-IsServed_example =
    endpoint-IsServed rate deps (λ s. s) (pos 0) request (initial rate deps) granted_access
      request-passed

abbrev limiter : Limiter ℕ
limiter = record {
  per_minute = 60;
  buckets = ("a", record { limiter = 5; last_seen = pos 0 }) ∷ [];
  last_sweep = pos 0;
}

limiter-HasUniqueKeys : HasUniqueKeys limiter.buckets
unfolding bucket_of
limiter-HasUniqueKeys = (refl, tt)

allow-refines_example :
    (after : ℕ) × IsMetered rate
      (pos 1)
      (rate.reserve
        (pos 1)
        (own_limiter rate 60 (swept_table (pos 1) (pos 0) (table_of limiter) "b")))
      ((allow rate (pos 1) "b" limiter).0)
      after
    × ((k : String)
        → table_of ((allow rate (pos 1) "b" limiter).1) k
          ≡ updated rate (pos 1) "b" after (swept_table (pos 1) (pos 0) (table_of limiter)) k)
    × HasUniqueKeys ((allow rate (pos 1) "b" limiter).1.buckets)
allow-refines_example = allow-refines rate (pos 1) "b" limiter limiter-HasUniqueKeys

allow-IsTrim_example : IsTrim (pos 1) ((allow rate (pos 1) "b" limiter).1)
unfolding sub_instants ◌-ℤ◌
allow-IsTrim_example = allow-IsTrim rate (pos 1) "b" limiter (omega arith) (omega arith, tt)

abbrev uses : List Use
uses = (pos 0, "a") ∷ (pos 1, "b") ∷ (pos 30000000000, "a") ∷ (pos 60000000000, "a") ∷ []

due-IsCovered_example : All (IsCovered (recorded_of uses [] [])) uses
due-IsCovered_example = due-IsCovered uses

uses-IsOrdered : IsOrdered (pos 0) uses
uses-IsOrdered = (omega arith, (omega arith, (omega arith, (omega arith, tt))))

due-IsApart_example : IsApart (recorded_of uses [] [])
due-IsApart_example = due-IsApart (pos 0) uses uses-IsOrdered
