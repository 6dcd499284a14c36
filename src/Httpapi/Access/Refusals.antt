-- ===== src/Httpapi/Access/Refusals.antt =====
-- mcp.go and mcp_usage.go: the codes of denials, and how long a limited client waits.
use Prim.Native.Nat.{◌*◌}
use booknow_mcp_service.Base.{
  ℕ, ◌+◌, ◌-◌, ◌/◌, ◌≤◌, ◌<◌, pos, String, some, Bool, true, false, ◌≡◌, refl, ◌⊎◌, inl, inr, arith,
  leb, Bool-cases,
}
use booknow_mcp_service.Tenant.{
  Denial, client_required, connection_not_found, connection_revoked, tenant_inactive,
  membership_inactive, role_forbidden, module_disabled, AccessErr, denied, access_denied, failed,
  wrapped, is_access_denied,
}
use booknow_mcp_service.Httpapi.Access.{refusal, retry_seconds}
use booknow_mcp_service.Httpapi.Denials.{same_denial, is_denial, denial_in, denial_for}

-- The status of a refusal: 403 for a denial, 500 for any other failure.
abbrev pub status_for : Bool → ℕ
status_for true = 403
status_for false = 500

-- A refused access is answered with 403 exactly when the error wraps ErrAccessDenied, however deep,
-- and with 500 otherwise.
pub refusal-status_for :
    (e : AccessErr) → (refusal (denial_for e)).status ≡ status_for (is_access_denied e)
unfolding denial_in is_denial is_access_denied
refusal-status_for (denied client_required) = refl
refusal-status_for (denied connection_not_found) = refl
refusal-status_for (denied connection_revoked) = refl
refusal-status_for (denied tenant_inactive) = refl
refusal-status_for (denied membership_inactive) = refl
refusal-status_for (denied role_forbidden) = refl
refusal-status_for (denied module_disabled) = refl
refusal-status_for access_denied = refl
refusal-status_for (failed text) = refl
refusal-status_for (wrapped text e) = refusal-status_for e

-- The code that each denial has for a client.
abbrev pub code_of : Denial → String
code_of client_required = "MCP_CLIENT_REQUIRED"
code_of connection_not_found = "MCP_CONNECTION_NOT_FOUND"
code_of connection_revoked = "MCP_CONNECTION_REVOKED"
code_of tenant_inactive = "TENANT_INACTIVE"
code_of membership_inactive = "MEMBER_INACTIVE"
code_of role_forbidden = "ROLE_FORBIDDEN"
code_of module_disabled = "MODULE_DISABLED"

same_denial-eq : (d k : Denial) → same_denial d k ≡ true → d ≡ k
same_denial-eq d k h = ground arith

refusal-denied : (d : Denial) → (refusal (denial_for (denied d))).error_code ≡ code_of d
unfolding denial_in is_denial
refusal-denied client_required = refl
refusal-denied connection_not_found = refl
refusal-denied connection_revoked = refl
refusal-denied tenant_inactive = refl
refusal-denied membership_inactive = refl
refusal-denied role_forbidden = refl
refusal-denied module_disabled = refl

-- A denial, however it is wrapped, is answered with its own code.
pub refusal-code_of :
    (d : Denial) (e : AccessErr)
    → is_denial (some d) e ≡ true
    → (refusal (denial_for e)).error_code ≡ code_of d
unfolding denial_in is_denial
refusal-code_of d (denied k) h = rw (same_denial-eq d k h) (refusal-denied k)
refusal-code_of d access_denied h = cc
refusal-code_of d (failed text) h = cc
refusal-code_of d (wrapped text e) h = refusal-code_of d e h

-- The seconds of Retry-After are at least one and cover the wait, and are the least such.
pub retry_seconds_bounds :
    (n : ℕ)
    → (k : ℕ) × (retry_seconds (pos n) ≡ pos k)
      × (1 ≤ k)
      × (n ≤ k * 1000000000)
      × ((k ≡ 1) ⊎ ((k - 1) * 1000000000 < n))
unfolding retry_seconds
retry_seconds_bounds n =
    let q = (n + 999999999) / 1000000000 in
    elim (Bool-cases (leb q 1)) [
      | inl h ↦ (1, ground arith, ground arith, ground arith, inl refl)
      | inr h ↦ (q, ground arith, ground arith, ground arith, ground arith)
    ]
