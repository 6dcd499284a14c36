-- ===== src/Server.antt =====
-- cmd/api-server/main.go: what `run` builds, and the gate of /mcp with its collaborators in place.
pub mod Laws
pub mod Endpoint
use booknow_mcp_service.Base.{
  ℤ, pos, pos_part, ℕ, String, List, [], ◌∷◌, Option, none, some, Bool, true, false, not, code,
  ◌==◌, ◌&&◌, str_eq, concat, Err, other, wrapped, Result, ok, err, ◌>>=◌, wrap_err, if◌then◌else◌,
}
use booknow_mcp_service.Auth.{Claims, verify}
use booknow_mcp_service.Auth.Verifier.{Jwt, issuer_url, new_verifier}
use booknow_mcp_service.Tenant.{Access, AccessRow, resolve, find_mcp_access}
use booknow_mcp_service.Config.Reads.{Fault, Reads, valid, faulty}
use booknow_mcp_service.Config.Origins.{Texts}
use booknow_mcp_service.Config.Load.{Env, Config, load}
use booknow_mcp_service.Platform.Ratelimit.{Rate, Limiter, new, allow}
use booknow_mcp_service.Twilio.Signature.{Validator, new_validator}
use booknow_mcp_service.Httpapi.Router.{Mounts, mcp_path, protected_resource_path}
use booknow_mcp_service.Httpapi.Access.{
  Request, Outcome, rejected, preflight, passed, GateState, Gate, origin_guard, require_mcp_access,
}

-- What the process gets from outside: the pool, which answers the access query, and the packages that
-- check tokens, with their type of keys; each may fail.
pub record Outside (K : Type 0) : Type 0 where
  pub new_pool : (database_url : String) → (max_conns : ℤ) → Result (String → String → AccessRow)
  pub jwt : Jwt K

-- The webhook, where it is configured.
pub record Webhook : Type 0 where
  pub validator : Validator
  pub account_sid : String

-- `httpapi.Deps` with the configuration it is built from.
pub record Deps : Type 0 where
  pub config : Config
  pub rows : String → String → AccessRow
  pub parse : String → Option Claims
  pub authorization_server : String
  pub twilio : Option Webhook

pub data Startup : Type 0 where
  started : Deps → Startup
  load_failed : Fault → List Fault → Startup
  start_failed : Err → Startup

-- The webhook of `run`.
unfoldable pub start_twilio : Texts → Config → Result (Option Webhook)
start_twilio texts c =
    if str_eq c.twilio.auth_token ""
    then ok none
    else (wrap_err "init twilio webhook"
          (new_validator texts c.twilio.auth_token c.twilio.webhook_url)
        >>= λ v. ok (some (record { validator = v; account_sid = c.twilio.account_sid })))

-- `run` from the configuration to the router.
unfoldable pub build : {K : Type 0} → Outside K → Texts → Config → Result Deps
build o texts c = do
  rows ← wrap_err "connect database" (o.new_pool c.database_url c.db_max_conns)
  parse ← wrap_err "init token verifier" (new_verifier o.jwt c.supabase_url c.jwt_audience)
  twilio ← start_twilio texts c
  ok (record {
    config = c;
    rows = rows;
    parse = parse;
    authorization_server = issuer_url c.supabase_url;
    twilio = twilio;
  })

abbrev pub outcome : Result Deps → Startup
outcome (ok d) = started d
outcome (err e) = start_failed e

abbrev pub built : {K : Type 0} → Outside K → Texts → Reads Config → Startup
built o texts (valid c) = outcome (build o texts c)
built o texts (faulty f fs) = load_failed f fs

-- `run` up to the server
unfoldable pub start : {K : Type 0} → Outside K → Env → Startup
start o e = built o e.texts (load e)

abbrev is_some {ℓ} : {A : Type ℓ} → Option A → Bool
is_some none = false
is_some (some a) = true

-- The routes that `NewRouter` mounts for the collaborators of `run`.
abbrev pub mounts_of : Deps → Mounts
mounts_of d = record { tokens = true; access = true; validator = is_some d.twilio }

-- The metadata's address in `mountMCP`
abbrev pub metadata_url : Config → String
metadata_url c = concat c.mcp.public_url (concat protected_resource_path mcp_path)

module _ {B R : Type 0} (rate : Rate B R) (d : Deps) where
  -- `MCPConfig` as `run` fills it, at a time
  abbrev pub gate_at : ℤ → Gate (Limiter B)
  gate_at now = record {
    verify = verify d.parse;
    resolve = resolve (λ user client. find_mcp_access (d.rows user client));
    rate_limit = some (λ l key. allow rate now key l);
    has_usage = true;
    metadata_url = metadata_url d.config;
  }

  -- The state that the process starts with.
  abbrev pub initial : GateState (Limiter B)
  initial = record {
    limiter = new (pos_part d.config.mcp.rate_limit_per_minute);
    last = [];
    recorded = [];
  }

  abbrev pub guarded :
      ℤ
      → Request
      → Outcome (Unit {0})
      → GateState (Limiter B)
      → Outcome Access × GateState (Limiter B)
  guarded now r (rejected x) st = (rejected x, st)
  guarded now r preflight st = (preflight, st)
  guarded now r (passed u) st = require_mcp_access (gate_at now) now r st

  -- The handler of /mcp in `mountMCP`, up to the MCP server.
  unfoldable pub endpoint :
      (String → String)
      → ℤ
      → Request
      → GateState (Limiter B)
      → Outcome Access × GateState (Limiter B)
  endpoint to_lower now r st =
      guarded now r (origin_guard to_lower d.config.mcp.allowed_origins r) st
