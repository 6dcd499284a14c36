-- ===== src/Auth/Laws.antt =====
-- jwt.go: which tokens are accepted.
use booknow_mcp_service.Base.{String, Option, none, some, true, false, eq_iff, ◌≡◌, ◌↔◌, arith, ok}
use booknow_mcp_service.Business.Checks.{is_uuid}
use booknow_mcp_service.Tenant.{Identity}
use booknow_mcp_service.Auth.{Claims, check_claims, verified, verify}

-- The parser accepts the token, with claims that satisfy a predicate.
abbrev pub Parsed : (Claims → Type 0) → Option Claims → Type 0
Parsed P none = ⊥
Parsed P (some c) = P c

check_claims_iff :
    (c : Claims) (id : Identity)
    → (check_claims c ≡ ok id) ↔ (
        (is_uuid c.subject ≡ true)
        × (c.role ≡ "authenticated")
        × (c.is_anonymous ≡ false)
        × (record { user_id = c.subject; client_id = c.client_id; expires_at = c.expires_at } ≡ id))
unfolding check_claims
check_claims_iff c id = ground (arith, eq_iff c.role "authenticated")

verified_iff :
    (o : Option Claims) (id : Identity)
    → (verified o ≡ ok id)
      ↔ Parsed
          (λ c.
            (is_uuid c.subject ≡ true)
            × (c.role ≡ "authenticated")
            × (c.is_anonymous ≡ false)
            × (record { user_id = c.subject; client_id = c.client_id; expires_at = c.expires_at }
                ≡ id))
          o
verified_iff none id = ground arith
verified_iff (some c) id = check_claims_iff c id

-- A token is verified exactly when the parser accepts it and its claims are those of a signed-in user:
-- a UUID as subject, the role `authenticated`, and not anonymous; the identity is that of the claims.
pub verify_iff :
    (parse : String → Option Claims) (token : String) (id : Identity)
    → (verify parse token ≡ ok id)
      ↔ Parsed
          (λ c.
            (is_uuid c.subject ≡ true)
            × (c.role ≡ "authenticated")
            × (c.is_anonymous ≡ false)
            × (record { user_id = c.subject; client_id = c.client_id; expires_at = c.expires_at }
                ≡ id))
          (parse token)
unfolding verify
verify_iff parse token id = verified_iff (parse token) id
