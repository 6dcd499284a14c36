-- ===== src/Httpapi/Denials.antt =====
-- internal/httpapi/mcp.go: the denials of requireMCPAccess and denialFor.
use booknow_mcp_service.Base.{
  String, List, [], ◌∷◌, Option, none, some, Bool, true, false, if◌then◌else◌,
}
use booknow_mcp_service.Tenant.{
  Denial, client_required, connection_not_found, connection_revoked, tenant_inactive,
  membership_inactive, role_forbidden, module_disabled, AccessErr, denied, access_denied, failed,
  wrapped,
}

-- `denial`: the error looked for (ErrAccessDenied is `none`), the code and the message
pub record DenialText : Type 0 where
  pub target : Option Denial
  pub code : String
  pub message : String

abbrev pub same_denial : Denial → Denial → Bool
same_denial client_required client_required = true
same_denial connection_not_found connection_not_found = true
same_denial connection_revoked connection_revoked = true
same_denial tenant_inactive tenant_inactive = true
same_denial membership_inactive membership_inactive = true
same_denial role_forbidden role_forbidden = true
same_denial module_disabled module_disabled = true
same_denial _ _ = false

abbrev is_target : Option Denial → Denial → Bool
is_target none d = true
is_target (some t) d = same_denial t d

abbrev is_root : Option Denial → Bool
is_root none = true
is_root (some t) = false

-- `errors.Is(err, target)`
unfoldable pub is_denial : Option Denial → AccessErr → Bool
is_denial target (denied d) = is_target target d
is_denial target access_denied = is_root target
is_denial target (failed text) = false
is_denial target (wrapped text e) = is_denial target e

abbrev pub denials : List DenialText
denials =
    record {
      target = some client_required;
      code = "MCP_CLIENT_REQUIRED";
      message =
          "El token no está vinculado a un cliente OAuth. Conecta el cliente MCP mediante el flujo de consentimiento.";
    }
    ∷ record {
      target = some connection_not_found;
      code = "MCP_CONNECTION_NOT_FOUND";
      message =
          "No existe una conexión MCP autorizada para este usuario y cliente. Completa el flujo de consentimiento.";
    }
    ∷ record {
      target = some connection_revoked;
      code = "MCP_CONNECTION_REVOKED";
      message = "Esta conexión MCP ha sido revocada.";
    }
    ∷ record {
      target = some tenant_inactive;
      code = "TENANT_INACTIVE";
      message = "El negocio asociado a la conexión no está activo.";
    }
    ∷ record {
      target = some membership_inactive;
      code = "MEMBER_INACTIVE";
      message = "El usuario no tiene una membresía activa en este negocio.";
    }
    ∷ record {
      target = some role_forbidden;
      code = "ROLE_FORBIDDEN";
      message =
          "El rol del usuario no permite usar el MCP (roles permitidos: owner, admin, manager).";
    }
    ∷ record {
      target = some module_disabled;
      code = "MODULE_DISABLED";
      message = "El módulo BookNow Business MCP no está habilitado para este negocio.";
    }
    ∷ record { target = none; code = "ACCESS_DENIED"; message = "Acceso denegado." }
    ∷ []

-- The loop of `denialFor`.
unfoldable pub denial_in : List DenialText → AccessErr → Option DenialText
denial_in [] e = none
denial_in (d ∷ ds) e = if is_denial d.target e then some d else denial_in ds e

-- `denialFor`
abbrev pub denial_for : AccessErr → Option DenialText
denial_for e = denial_in denials e
