-- ===== src/Platform/Logging.antt =====
-- internal/platform/logging/logging.go: how entries are shaped for Cloud Logging.
pub mod Laws
pub mod Entries
use booknow_mcp_service.Base.{
  ℤ, pos, negsuc, String, List, [], ◌∷◌, Bool, true, false, str_eq, leb_ℤ, if◌then◌else◌,
}

-- The value of a `slog.Attr`: a level, or any other, shown as a text.
pub data LogValue : Type 0 where
  level : ℤ → LogValue
  plain : String → LogValue

pub record Attr : Type 0 where
  pub key : String
  pub value : LogValue

-- `severity`, by slog's levels: Info 0, Warn 4, Error 8
unfoldable pub severity : ℤ → String
severity lvl =
    if leb_ℤ (pos 8) lvl
    then "ERROR"
    else if leb_ℤ (pos 4) lvl
    then "WARNING"
    else if leb_ℤ (pos 0) lvl
    then "INFO"
    else "DEBUG"

abbrev pub severity_value : LogValue → LogValue
severity_value (level lvl) = plain (severity lvl)
severity_value (plain s) = plain s

-- `cloudLoggingAttr` of a top-level attribute
unfoldable pub top_attr : Attr → Attr
top_attr a =
    if str_eq a.key "msg"
    then record a { key = "message" }
    else if str_eq a.key "level"
    then record { key = "severity"; value = severity_value a.value }
    else a

-- `cloudLoggingAttr`
unfoldable pub cloud_logging_attr : List String → Attr → Attr
cloud_logging_attr [] a = top_attr a
cloud_logging_attr (g ∷ groups) a = a

-- slog.HandlerOptions, as far as `New` sets it
pub record HandlerOptions : Type 0 where
  pub level : ℤ
  pub replace_attr : List String → Attr → Attr

-- `New`; `new_json_handler` is slog.New of slog.NewJSONHandler.
unfoldable pub new_logger {ℓ} :
    {Writer Logger : Type ℓ} → (Writer → HandlerOptions → Logger) → Writer → ℤ → Logger
new_logger new_json_handler w least =
    new_json_handler w (record { level = least; replace_attr = cloud_logging_attr })
