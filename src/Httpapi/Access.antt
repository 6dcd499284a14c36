-- ===== src/Httpapi/Access.antt =====
-- internal/httpapi/mcp.go and mcp_usage.go: originGuard, requireMCPAccess and applyUsagePolicy.
pub mod Laws
pub mod Refusals
pub mod Cors
use booknow_mcp_service.Base.{
  ℕ, ◌+◌, ◌-◌, ◌/◌, ℤ, pos, negsuc, String, List, [], ◌∷◌, ◌++◌, map, Option, none, some, Bool,
  true, false, not, ◌&&◌, ◌||◌, any, leb_ℤ, if◌then◌else◌, str_eq, concat, Result, ok, err,
}
use booknow_mcp_service.Tenant.{
  Identity, Denial, client_required, connection_not_found, connection_revoked, tenant_inactive,
  membership_inactive, role_forbidden, module_disabled, AccessErr, denied, access_denied, failed,
  wrapped, Access, Answer, granted, refused, is_access_denied,
}
use booknow_mcp_service.Auth.{bearer_token}
use booknow_mcp_service.Httpapi.Usage.{Last, due}
use booknow_mcp_service.Httpapi.Denials.{DenialText, denial_for}

-- The headers that are set before a rejection.
pub data Header : Type 0 where
  www_authenticate : String → Header
  retry_after : ℤ → Header

-- What `writeRPCError` writes, with the headers set before it.
pub record Rejection : Type 0 where
  pub status : ℕ
  pub code : ℤ
  pub message : String
  pub error_code : String
  pub headers : List Header

-- What becomes of a request: a rejection, the answer to a preflight, or the next handler's call.
pub data Outcome (A : Type 0) : Type 0 where
  rejected : Rejection → Outcome A
  preflight : Outcome A
  passed : A → Outcome A

-- What the handlers read of a request.
pub record Request : Type 0 where
  pub authorization : List String
  pub origin : String
  pub method : String
  pub requested_method : String

-- Is an origin on the list? `to_lower` is strings.ToLower.
abbrev pub is_listed : (String → String) → List String → String → Bool
is_listed to_lower allowed origin = any (λ o. str_eq (to_lower o) (to_lower origin)) allowed

-- `originGuard`; the headers that it sets for an allowed origin are those of `cors_headers`.
unfoldable pub origin_guard : (String → String) → List String → Request → Outcome (Unit {0})
origin_guard to_lower allowed r =
    if str_eq r.origin ""
    then passed tt
    else if not (is_listed to_lower allowed r.origin)
    then rejected (record {
      status = 403;
      code = negsuc 31999;
      message = "Origin not allowed.";
      error_code = "ORIGIN_NOT_ALLOWED";
      headers = [];
    })
    else if str_eq r.method "OPTIONS" && not (str_eq r.requested_method "")
    then preflight
    else passed tt

-- The state of the process that the gate changes: the limiter's, the throttle's, and the connections
-- whose use was recorded, the last first.
pub record GateState (L : Type 0) : Type 0 where
  pub limiter : L
  pub last : Last
  pub recorded : List String

-- `MCPConfig` with the collaborators of the gate: token verification, access resolution, the optional
-- rate limiter over its state, and whether uses are recorded; and the address of the metadata.
pub record Gate (L : Type 0) : Type 0 where
  pub verify : String → Result Identity
  pub resolve : Identity → Answer Access
  pub rate_limit : Option (L → String → (Bool × ℤ) × L)
  pub has_usage : Bool
  pub metadata_url : String

-- `max(1, int(math.Ceil(retryAfter.Seconds())))`
unfoldable pub retry_seconds : ℤ → ℤ
retry_seconds (pos n) =
    let seconds = pos ((n + 999999999) / 1000000000) in
    if leb_ℤ seconds (pos 1) then pos 1 else seconds
retry_seconds (negsuc n) = pos 1

abbrev pub rate_limited : ℤ → Rejection
rate_limited wait = record {
  status = 429;
  code = negsuc 31999;
  message =
      "Demasiadas solicitudes para esta conexión MCP. Espera unos segundos antes de reintentar.";
  error_code = "RATE_LIMITED";
  headers = retry_after (retry_seconds wait) ∷ [];
}

-- The recording of a use, if it is due.
abbrev record_use : {L : Type 0} → Gate L → ℤ → String → GateState L → GateState L
record_use g now id st =
    let (is_due, last) = due now id st.last in
    if g.has_usage
    then (record st { last = last; recorded = if is_due then id ∷ st.recorded else st.recorded })
    else st

abbrev pub limited :
    {L : Type 0} → Gate L → ℤ → Access → (Bool × ℤ) × L → GateState L → Outcome Access × GateState L
limited g now a ((true, wait), l) st =
    (passed a, record_use g now a.connection_id (record st { limiter = l }))
limited g now a ((false, wait), l) st = (rejected (rate_limited wait), record st { limiter = l })

abbrev pub policy :
    {L : Type 0}
    → Gate L
    → ℤ
    → Access
    → Option (L → String → (Bool × ℤ) × L)
    → GateState L
    → Outcome Access × GateState L
policy g now a none st = (passed a, record_use g now a.connection_id st)
policy g now a (some allow) st = limited g now a (allow st.limiter a.connection_id) st

-- `applyUsagePolicy`, with the access of the request that passes
unfoldable pub usage_policy :
    {L : Type 0} → Gate L → ℤ → Access → GateState L → Outcome Access × GateState L
usage_policy g now a st = policy g now a g.rate_limit st

abbrev pub challenge : {L : Type 0} → Gate L → String
challenge g = concat "resource_metadata=\"" (concat g.metadata_url "\"")

abbrev pub unauthenticated : String → String → Rejection
unauthenticated message header = record {
  status = 401;
  code = negsuc 32000;
  message = message;
  error_code = "";
  headers = www_authenticate header ∷ [];
}

abbrev pub refusal : Option DenialText → Rejection
refusal none = record {
  status = 500;
  code = negsuc 32602;
  message = "Internal error.";
  error_code = "";
  headers = [];
}
refusal (some d) = record {
  status = 403;
  code = negsuc 32001;
  message = d.message;
  error_code = d.code;
  headers = [];
}

abbrev pub resolved :
    {L : Type 0} → Gate L → ℤ → Answer Access → GateState L → Outcome Access × GateState L
resolved g now (granted a) st = usage_policy g now a st
resolved g now (refused e) st = (rejected (refusal (denial_for e)), st)

abbrev pub identified :
    {L : Type 0} → Gate L → ℤ → Result Identity → GateState L → Outcome Access × GateState L
identified g now (ok id) st = resolved g now (g.resolve id) st
identified g now (err e) st = (
  rejected (
      unauthenticated "Invalid or expired access token."
        (concat "Bearer error=\"invalid_token\", " (challenge g))),
  st,
)

abbrev pub tokened :
    {L : Type 0} → Gate L → ℤ → Option String → GateState L → Outcome Access × GateState L
tokened g now none st =
    (rejected (unauthenticated "Authentication required." (concat "Bearer " (challenge g))), st)
tokened g now (some token) st = identified g now (g.verify token) st

-- `requireMCPAccess`: a request that passes reaches the next handler with its access.
unfoldable pub require_mcp_access :
    {L : Type 0} → Gate L → ℤ → Request → GateState L → Outcome Access × GateState L
require_mcp_access g now r st = tokened g now (bearer_token r.authorization) st
