-- ===== src/Httpapi/Router.antt =====
-- internal/httpapi/router.go: the routes, the probes and the plain replies. chi matches the paths.
use booknow_mcp_service.Base.{
  ℕ, String, List, [], ◌∷◌, Option, none, some, Bool, ◌&&◌, ◌||◌, str_eq, Err, concat,
  if◌then◌else◌,
}

pub record Response : Type 0 where
  pub status : ℕ
  pub body : String
  pub headers : List (String × String)

-- `writePlain`
abbrev pub plain_reply : ℕ → String → Response
plain_reply status text = record {
  status = status;
  body = text;
  headers = ("Content-Type", "text/plain; charset=utf-8") ∷ ("Cache-Control", "no-store") ∷ [];
}

-- `healthz`
abbrev pub healthz : Response
healthz = plain_reply 200 "ok\n"

-- `readyz`, from the error of the ping
unfoldable pub readyz : Option Err → Response
readyz none = plain_reply 200 "ok\n"
readyz (some e) = plain_reply 503 "unavailable\n"

-- The handlers of `NewRouter`; `unrouted` is what chi answers itself, 404 or 405.
pub data Route : Type 0 where
  health ready metadata mcp webhook unrouted : Route

-- Which parts are mounted: `deps.MCP.Tokens != nil && deps.MCP.Access != nil`, and
-- `deps.Twilio.Validator != nil`.
pub record Mounts : Type 0 where
  pub tokens : Bool
  pub access : Bool
  pub validator : Bool

abbrev pub mcp_path : String
mcp_path = "/mcp"

abbrev pub protected_resource_path : String
protected_resource_path = "/.well-known/oauth-protected-resource"

abbrev is_metadata : String → Bool
is_metadata path =
    str_eq path protected_resource_path || str_eq path "/.well-known/oauth-protected-resource/mcp"

-- `NewRouter` with `mountMCP` and `mountTwilio`
unfoldable pub route : Mounts → String → String → Route
route m method path =
    if str_eq path "/healthz" && str_eq method "GET"
    then health
    else if str_eq path "/readyz" && str_eq method "GET"
    then ready
    else if (m.tokens && m.access) && is_metadata path
    then metadata
    else if (m.tokens && m.access) && str_eq path mcp_path
    then mcp
    else if m.validator && (str_eq path "/webhooks/twilio" && str_eq method "POST")
    then webhook
    else unrouted

-- The fields of oauthex.ProtectedResourceMetadata that `mountMCP` sets.
pub record Metadata : Type 0 where
  pub resource : String
  pub authorization_servers : List String
  pub scopes_supported : List String
  pub bearer_methods_supported : List String

abbrev pub mcp_scopes_supported : List String
mcp_scopes_supported = "openid" ∷ "profile" ∷ "email" ∷ "offline_access" ∷ []

-- The metadata of `mountMCP`
unfoldable pub metadata_of : String → String → Metadata
metadata_of public_url authorization_server = record {
  resource = concat public_url mcp_path;
  authorization_servers = authorization_server ∷ [];
  scopes_supported = mcp_scopes_supported;
  bearer_methods_supported = "header" ∷ [];
}

-- The line of `requestLogger`, without the request id and the latency.
pub record LogLine : Type 0 where
  pub method : String
  pub route : String
  pub status : ℕ

abbrev pub route_or_path : Option String → String → String
route_or_path none path = path
route_or_path (some pattern) path = if str_eq pattern "" then path else pattern

-- `requestLogger`, from the pattern of chi's route context, if there is one
unfoldable pub log_line : Option String → String → String → Response → LogLine
log_line pattern method path response = record {
  method = method;
  route = route_or_path pattern path;
  status = response.status;
}
