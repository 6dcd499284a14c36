-- ===== src/Platform/Logging/Entries.antt =====
-- logging.go: the entries of the logger that New builds.
use booknow_mcp_service.Base.{
  ℤ, String, List, [], ◌∷◌, map, Option, none, some, leb_ℤ, if◌then◌else◌, ◌≡◌,
}
use booknow_mcp_service.Platform.Logging.{
  Attr, level, plain, HandlerOptions, severity, top_attr, cloud_logging_attr, new_logger,
}

-- The attributes that slog puts before those of the call, without the time.
abbrev built_in : ℤ → String → List Attr
built_in lvl message =
    record { key = "level"; value = level lvl } ∷ record { key = "msg"; value = plain message } ∷ []

module _ {Writer Logger : Type 0} (new_json_handler : Writer → HandlerOptions → Logger)
    (entry : Logger → ℤ → String → Option (List Attr))
    (entry-new_json_handler : (w : Writer) (options : HandlerOptions) (lvl : ℤ) (message : String)
      → entry (new_json_handler w options) lvl message ≡ (
          if leb_ℤ options.level lvl
          then some (map (options.replace_attr []) (built_in lvl message))
          else none)) where
  -- A logger of `New` writes what is at least at its level and nothing else, with the severity first and
  -- the text as "message".
  entry-new_logger :
      (w : Writer) (least lvl : ℤ) (message : String)
      → entry (new_logger new_json_handler w least) lvl message ≡ (
          if leb_ℤ least lvl
          then some (
              record { key = "severity"; value = plain (severity lvl) }
              ∷ record { key = "message"; value = plain message }
              ∷ [])
          else none)
  unfolding new_logger cloud_logging_attr top_attr
  entry-new_logger w least lvl message =
      entry-new_json_handler w (record { level = least; replace_attr = cloud_logging_attr }) lvl
        message
