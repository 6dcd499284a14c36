-- ===== src/Mcpserver/Errors/Laws.antt =====
-- server.go: what classify tells a client.
use booknow_mcp_service.Base.{
  String, Option, none, some, Kind, invalid_argument, not_found, conflict, forbidden, Err, business,
  sentinel, fault, wrapped, other, ◌≡◌, ◌≢◌, refl, arith, eq_iff, if_cases,
}
use booknow_mcp_service.Business.Checks.{is_kind, client_message}
use booknow_mcp_service.Mcpserver.Audit.{Status, succeeded, failed, denied}
use booknow_mcp_service.Mcpserver.Errors.{
  Class, class, class_internal, class_with, classify, code_invalid_argument, code_not_found,
  code_conflict, code_forbidden,
}

-- The business.Error at the end of a chain of wrapped errors.
pub origin : Err → Option (Kind × String)
origin (business k message) = some (k, message)
origin (wrapped text e) = origin e
origin (sentinel k) = none
origin (fault f) = none
origin (other text) = none

-- The class of each kind, and of an error without a business.Error.
abbrev pub class_of : Option (Kind × String) → Class
class_of none = class_internal
class_of (some (invalid_argument, message)) = class failed code_invalid_argument message
class_of (some (not_found, message)) = class failed code_not_found message
class_of (some (conflict, message)) = class failed code_conflict message
class_of (some (forbidden, message)) = class denied code_forbidden message

-- An error is classified by the business.Error at the end of its chain alone: a client reads its
-- message and never a text that wraps it, and any other error is the generic internal one.
pub classify-origin : (e : Err) → classify (some e) ≡ class_of (origin e)
unfolding classify origin is_kind client_message
classify-origin (business invalid_argument message) = refl
classify-origin (business not_found message) = refl
classify-origin (business conflict message) = refl
classify-origin (business forbidden message) = refl
classify-origin (wrapped text e) = classify-origin e
classify-origin (sentinel k) = refl
classify-origin (fault f) = refl
classify-origin (other text) = refl

-- A class that stands for a failure: its status, its code and its message say so.
pub record IsFailure (c : Class) : Type 0 where
  pub not_succeeded : c.status ≢ succeeded
  pub has_code : c.code ≢ ""
  pub message : String
  pub has_message : c.client_error ≡ some message

failed_not : ◌≢◌ {A = Status} failed succeeded
failed_not h = cc

denied_not : ◌≢◌ {A = Status} denied succeeded
denied_not h = cc

failure : (s : Status) (code m : String) → s ≢ succeeded → code ≢ "" → IsFailure (class s code m)
failure s code m p q = record { not_succeeded = p; has_code = q; message = m; has_message = refl }

internal-IsFailure : IsFailure class_internal
internal-IsFailure = failure failed "INTERNAL" _ failed_not (ground (arith, eq_iff "INTERNAL" ""))

class_with-IsFailure : (e : Err) (m : Option String) → IsFailure (class_with e m)
class_with-IsFailure e none = internal-IsFailure
class_with-IsFailure e (some m) =
    if_cases IsFailure (is_kind invalid_argument e)
      (failure failed code_invalid_argument m failed_not
        (ground (arith, eq_iff code_invalid_argument "")))
      (if_cases IsFailure (is_kind not_found e)
        (failure failed code_not_found m failed_not (ground (arith, eq_iff code_not_found "")))
        (if_cases IsFailure (is_kind conflict e)
          (failure failed code_conflict m failed_not (ground (arith, eq_iff code_conflict "")))
          (if_cases IsFailure (is_kind forbidden e)
            (failure denied code_forbidden m denied_not (ground (arith, eq_iff code_forbidden "")))
            internal-IsFailure)))

pub classify-IsFailure : (e : Err) → IsFailure (classify (some e))
unfolding classify
classify-IsFailure e = class_with-IsFailure e (client_message e)
