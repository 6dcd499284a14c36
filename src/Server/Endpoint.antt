-- ===== src/Server/Endpoint.antt =====
-- internal/httpapi/mcp.go behind cmd/api-server/main.go: what a request shows that reaches the MCP server.
use booknow_mcp_service.Base.{
  ℤ, String, List, [], ◌∷◌, some, true, false, any, Any, str_eq, eq_iff, ◌≡◌, ◌≢◌, refl, ◌⊎◌, arith,
}
use booknow_mcp_service.Tenant.{Identity, Access, access_of, find_mcp_access}
use booknow_mcp_service.Tenant.Laws.{IsActive, Found, resolve-granted_iff}
use booknow_mcp_service.Auth.{Claims, bearer_token}
use booknow_mcp_service.Auth.Laws.{Parsed, verify_iff}
use booknow_mcp_service.Business.Checks.{is_uuid}
use booknow_mcp_service.Platform.Ratelimit.{Rate, Limiter, allow}
use booknow_mcp_service.Httpapi.Access.{
  Request, Outcome, rejected, preflight, passed, GateState, origin_guard,
}
use booknow_mcp_service.Httpapi.Access.Laws.{IsAdmitted, not_passed, require_mcp_access-IsAdmitted}
use booknow_mcp_service.Server.{Deps, gate_at, guarded, endpoint}

-- The origin of a request is absent or one of the allowed.
abbrev pub IsOwnOrigin : (String → String) → List String → Request → Type 0
IsOwnOrigin to_lower allowed r = (r.origin ≡ "") ⊎ Any (λ o. to_lower o ≡ to_lower r.origin) allowed

any-Any :
    (to_lower : String → String) (origin : String) (allowed : List String)
    → any (λ o. str_eq (to_lower o) (to_lower origin)) allowed ≡ true
    → Any (λ o. to_lower o ≡ to_lower origin) allowed
any-Any to_lower origin [] h = cc
any-Any to_lower origin (o ∷ allowed) h =
    ground (arith, any-Any to_lower origin allowed, eq_iff (to_lower o) (to_lower origin))

origin_guard-IsOwnOrigin :
    (to_lower : String → String) (allowed : List String) (r : Request) {u : Unit {0}}
    → origin_guard to_lower allowed r ≡ passed u
    → IsOwnOrigin to_lower allowed r
unfolding origin_guard
origin_guard-IsOwnOrigin to_lower allowed r h =
    ground (arith, eq_iff r.origin "", any-Any to_lower r.origin allowed)

-- The claims of a token, for the identity that the request runs with.
abbrev pub ClaimsHold : Identity → Claims → Type 0
ClaimsHold id c =
    (is_uuid c.subject ≡ true)
    × (c.role ≡ "authenticated")
    × (c.is_anonymous ≡ false)
    × (record { user_id = c.subject; client_id = c.client_id; expires_at = c.expires_at } ≡ id)

module _ {B R : Type 0} (rate : Rate B R) (d : Deps) where
  -- What a served request has shown, down to the claims of its token and the row of its connection.
  pub record IsServed (to_lower : String → String) (now : ℤ) (r : Request)
      (st : GateState (Limiter B)) (a : Access) : Type 0 where
    pub own_origin : IsOwnOrigin to_lower d.config.mcp.allowed_origins r
    pub token : String
    pub bears : bearer_token r.authorization ≡ some token
    pub identity : Identity
    pub claims : Parsed (ClaimsHold identity) (d.parse token)
    pub bound : identity.client_id ≢ ""
    pub active :
        Found
          (λ x. (access_of identity x ≡ a) × IsActive x)
          (find_mcp_access (d.rows identity.user_id identity.client_id))
    pub in_rate : (allow rate now a.connection_id st.limiter).0.0 ≡ true

  served :
      (to_lower : String → String) (now : ℤ) (r : Request) (st : GateState (Limiter B)) (a : Access)
      → IsOwnOrigin to_lower d.config.mcp.allowed_origins r
      → IsAdmitted (gate_at rate d now) r st a
      → IsServed to_lower now r st a
  served to_lower now r st a own admitted =
      let (bound, active) =
        (resolve-granted_iff (λ user client. find_mcp_access (d.rows user client)) admitted.identity
            a).0
          admitted.allowed in
      record {
        own_origin = own;
        token = admitted.token;
        bears = admitted.bears;
        identity = admitted.identity;
        claims = (verify_iff d.parse admitted.token admitted.identity).0 admitted.verified;
        bound = bound;
        active = active;
        in_rate = admitted.in_rate;
      }

  guarded-IsServed :
      (to_lower : String → String) (now : ℤ) (r : Request) (st : GateState (Limiter B)) (a : Access)
      (answer : Outcome (Unit {0}))
      → origin_guard to_lower d.config.mcp.allowed_origins r ≡ answer
      → (guarded rate d now r answer st).0 ≡ passed a
      → IsServed to_lower now r st a
  guarded-IsServed to_lower now r st a (rejected x) e h = absurd (not_passed h)
  guarded-IsServed to_lower now r st a preflight e h = cc
  guarded-IsServed to_lower now r st a (passed u) e h =
      served to_lower now r st a
        (origin_guard-IsOwnOrigin to_lower d.config.mcp.allowed_origins r e)
        (require_mcp_access-IsAdmitted (gate_at rate d now) now r st a h)

-- With the collaborators that the program wires in, a request reaches the MCP server only with an
-- allowed origin or none, a single bearer token whose claims are those of a signed-in user with a
-- UUID, a client-bound connection whose row is active in every respect and gives the access, and room
-- in the connection's own bucket.
pub endpoint-IsServed :
    {B R : Type 0} (rate : Rate B R) (d : Deps) (to_lower : String → String) (now : ℤ) (r : Request)
    (st : GateState (Limiter B)) (a : Access)
    → (endpoint rate d to_lower now r st).0 ≡ passed a
    → IsServed rate d to_lower now r st a
unfolding endpoint
endpoint-IsServed rate d to_lower now r st a h =
    guarded-IsServed rate d to_lower now r st a
      (origin_guard to_lower d.config.mcp.allowed_origins r) refl h
