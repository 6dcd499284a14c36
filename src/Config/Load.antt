-- ===== src/Config/Load.antt =====
-- internal/config/config.go: Load, loadMCP and loadTwilio.
use booknow_mcp_service.Base.{
  sid_shape, ℤ, pos, String, List, [], Option, none, some, ◌&&◌, ◌||◌, not, str_eq, trim_space,
  leb_ℤ, ◌*w◌, minute, if◌then◌else◌,
}
use booknow_mcp_service.Config.Reads.{
  OriginFault, Fault, port_invalid, app_env_invalid, db_max_conns_invalid, rate_limit_invalid,
  draft_ttl_invalid, database_url_required, supabase_url_invalid, mcp_public_url_invalid,
  allowed_origins_invalid, twilio_incomplete, twilio_account_invalid, twilio_url_invalid,
  twilio_url_without_path, twilio_url_insecure, Reads, valid, faulty, both, map_reads,
}
use booknow_mcp_service.Config.Texts.{with_default, atoi, parse_int32}
use booknow_mcp_service.Config.Origins.{
  Url, Texts, Origin, origin, refused, development, parse_origin, parse_origin_list,
}

abbrev pub staging : String
staging = "staging"

abbrev pub production : String
production = "production"

abbrev pub max_db_conns : ℤ
max_db_conns = pos 50

abbrev pub max_rate_limit_per_minute : ℤ
max_rate_limit_per_minute = pos 10000

abbrev pub max_draft_ttl_minutes : ℤ
max_draft_ttl_minutes = pos 60

-- `twilioSettings`
pub record TwilioSettings : Type 0 where
  pub auth_token : String
  pub webhook_url : String
  pub account_sid : String

-- The MCP fields of a Config.
pub record McpSettings : Type 0 where
  pub public_url : String
  pub allowed_origins : List String
  pub rate_limit_per_minute : ℤ
  pub draft_ttl : ℤ

pub record Config : Type 0 where
  pub port : ℤ
  pub env : String
  pub log_level : ℤ
  pub database_url : String
  pub db_max_conns : ℤ
  pub supabase_url : String
  pub jwt_audience : String
  pub mcp : McpSettings
  pub twilio : TwilioSettings

-- What the process reads: os.Getenv, and the library's texts with `Level.UnmarshalText`, which gives
-- a level or its error.
pub record Env : Type 0 where
  pub getenv : String → String
  pub texts : Texts
  pub parse_level : String → Reads ℤ

-- `n, err := …; if err != nil || n < 1 || n > max`
unfoldable pub number_up_to : ℤ → Fault → Option ℤ → Reads ℤ
number_up_to top fault none = faulty fault []
number_up_to top fault (some n) =
    if leb_ℤ (pos 1) n && leb_ℤ n top then valid n else faulty fault []

unfoldable pub origin_read {ℓ} : {A : Type ℓ} → (OriginFault → Fault) → Origin A → Reads A
origin_read fault (origin o) = valid o
origin_read fault (refused f) = faulty (fault f) []

-- The environment's name: `strings.ToLower(withDefault(getenv("APP_ENV"), EnvDevelopment))`
unfoldable pub app_env : Env → String
app_env e = e.texts.to_lower (with_default (e.getenv "APP_ENV") development)

abbrev pub read_port : Env → Reads ℤ
read_port e =
    number_up_to (pos 65535) (port_invalid (e.getenv "PORT"))
      (atoi (with_default (e.getenv "PORT") "8080"))

unfoldable pub read_env : String → Reads String
read_env name =
    if str_eq name development || str_eq name staging || str_eq name production
    then valid name
    else faulty (app_env_invalid name) []

abbrev pub read_database_url : Env → Reads String
read_database_url e =
    if str_eq (trim_space (e.getenv "DATABASE_URL")) ""
    then faulty database_url_required []
    else valid (trim_space (e.getenv "DATABASE_URL"))

abbrev pub read_max_conns : Env → Reads ℤ
read_max_conns e =
    number_up_to max_db_conns (db_max_conns_invalid (e.getenv "DB_MAX_CONNS"))
      (parse_int32 (with_default (e.getenv "DB_MAX_CONNS") "5"))

abbrev pub read_rate_limit : Env → Reads ℤ
read_rate_limit e =
    number_up_to max_rate_limit_per_minute
      (rate_limit_invalid (e.getenv "MCP_RATE_LIMIT_PER_MINUTE"))
      (atoi (with_default (e.getenv "MCP_RATE_LIMIT_PER_MINUTE") "60"))

abbrev pub read_draft_ttl : Env → Reads ℤ
read_draft_ttl e =
    number_up_to max_draft_ttl_minutes (draft_ttl_invalid (e.getenv "MCP_DRAFT_TTL_MINUTES"))
      (atoi (with_default (e.getenv "MCP_DRAFT_TTL_MINUTES") "10"))

abbrev pub mcp_settings : String × (List String × (ℤ × ℤ)) → McpSettings
mcp_settings (url, (origins, (limit, ttl))) = record {
  public_url = url;
  allowed_origins = origins;
  rate_limit_per_minute = limit;
  draft_ttl = ttl *w minute;
}

-- `loadMCP`
unfoldable pub load_mcp : Env → String → Reads McpSettings
load_mcp e env = map_reads mcp_settings (
    both (origin_read mcp_public_url_invalid (parse_origin e.texts env (e.getenv "MCP_PUBLIC_URL")))
      (both
        (origin_read allowed_origins_invalid
          (parse_origin_list e.texts env (e.getenv "MCP_ALLOWED_ORIGINS")))
        (both (read_rate_limit e) (read_draft_ttl e))))

abbrev pub no_twilio : TwilioSettings
no_twilio = record { auth_token = ""; webhook_url = ""; account_sid = "" }

-- The tests of `loadTwilio` on the parsed webhook URL; `IsAbs` is a scheme that is not empty.
unfoldable pub twilio_of : String → TwilioSettings → Option Url → Reads TwilioSettings
twilio_of env t none = faulty (twilio_url_invalid t.webhook_url) []
twilio_of env t (some u) =
    if str_eq u.scheme "" || str_eq u.host "" || u.has_user
    then faulty (twilio_url_invalid t.webhook_url) []
    else if str_eq u.path "" || str_eq u.path "/"
    then faulty (twilio_url_without_path t.webhook_url) []
    else if not (str_eq u.scheme "https")
        && (not (str_eq u.scheme "http") || not (str_eq env development))
    then faulty (twilio_url_insecure t.webhook_url) []
    else if not (sid_shape "AC" t.account_sid)
    then faulty twilio_account_invalid []
    else valid t

-- `loadTwilio` on the trimmed texts
unfoldable pub twilio_settings : Texts → String → TwilioSettings → Reads TwilioSettings
twilio_settings texts env t =
    if str_eq t.auth_token "" && str_eq t.webhook_url ""
    then valid no_twilio
    else if str_eq t.auth_token "" || str_eq t.webhook_url ""
    then faulty twilio_incomplete []
    else twilio_of env t (texts.parse_url t.webhook_url)

-- `loadTwilio`
unfoldable pub load_twilio : Env → String → Reads TwilioSettings
load_twilio e env = twilio_settings e.texts env (record {
  auth_token = trim_space (e.getenv "TWILIO_AUTH_TOKEN");
  webhook_url = trim_space (e.getenv "TWILIO_WEBHOOK_URL");
  account_sid = trim_space (e.getenv "TWILIO_ACCOUNT_SID");
})

-- The settings in the order in which `load` finds their faults.
abbrev pub Settings : Type 0
Settings = ℤ × (String × (ℤ × (String × (ℤ × (String × (McpSettings × TwilioSettings))))))

abbrev pub config_of : Env → Settings → Config
config_of e (port, (env, (level, (database, (conns, (supabase, (mcp, twilio))))))) = record {
  port = port;
  env = env;
  log_level = level;
  database_url = database;
  db_max_conns = conns;
  supabase_url = supabase;
  jwt_audience = trim_space (with_default (e.getenv "SUPABASE_JWT_AUDIENCE") "authenticated");
  mcp = mcp;
  twilio = twilio;
}

unfoldable pub settings : Env → Reads Settings
settings e = both (read_port e) (
    both (read_env (app_env e)) (
      both (e.parse_level (with_default (e.getenv "LOG_LEVEL") "info")) (
        both (read_database_url e) (
          both (read_max_conns e) (
            both
              (origin_read supabase_url_invalid
                (parse_origin e.texts (app_env e) (e.getenv "SUPABASE_URL")))
              (both (load_mcp e (app_env e)) (load_twilio e (app_env e))))))))

-- `load`
abbrev pub load : Env → Reads Config
load e = map_reads (config_of e) (settings e)
