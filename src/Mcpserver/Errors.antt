-- ===== src/Mcpserver/Errors.antt =====
-- internal/mcpserver/server.go: classify, and the codes of the audit.
pub mod Laws
use booknow_mcp_service.Base.{
  String, Option, none, some, Bool, true, false, if◌then◌else◌, invalid_argument, not_found,
  conflict, forbidden, Err, Result, ok, err,
}
use booknow_mcp_service.Business.Checks.{is_kind, client_message}
use booknow_mcp_service.Mcpserver.Audit.{Status, succeeded, failed, denied}

abbrev pub code_invalid_argument : String
code_invalid_argument = "INVALID_ARGUMENT"

abbrev pub code_not_found : String
code_not_found = "NOT_FOUND"

abbrev pub code_conflict : String
code_conflict = "CONFLICT"

abbrev pub code_forbidden : String
code_forbidden = "FORBIDDEN"

abbrev pub code_internal : String
code_internal = "INTERNAL"

abbrev pub internal_error_message : String
internal_error_message = "Error interno al ejecutar la herramienta. Inténtalo de nuevo más tarde."

-- What `classify` gives of an error: the status, the code and the message for the client.
pub record Class : Type 0 where
  pub status : Status
  pub code : String
  pub client_error : Option String

abbrev pub class : Status → String → String → Class
class status code message = record { status = status; code = code; client_error = some message }

abbrev pub class_internal : Class
class_internal = class failed code_internal internal_error_message

-- The switch of `classify` where errors.As finds the message of a business.Error, or none.
abbrev pub class_with : Err → Option String → Class
class_with e none = class_internal
class_with e (some message) =
    if is_kind invalid_argument e
    then class failed code_invalid_argument message
    else if is_kind not_found e
    then class failed code_not_found message
    else if is_kind conflict e
    then class failed code_conflict message
    else if is_kind forbidden e
    then class denied code_forbidden message
    else class_internal

-- `classify`; `none` is a nil error.
unfoldable pub classify : Option Err → Class
classify none = record { status = succeeded; code = ""; client_error = none }
classify (some e) = class_with e (client_message e)

-- The error that a function returns with its result.
abbrev pub error_of {ℓ} : {A : Type ℓ} → Result A → Option Err
error_of (ok a) = none
error_of (err e) = some e
