-- ===== src/Tests/Config.antt =====
-- The theorems on the configuration at a development environment with a webhook, and at an empty one.
use booknow_mcp_service.Base.{
  ℤ, pos, String, [], ◌∷◌, none, some, false, str_eq, if◌then◌else◌, ok, trim_left, trim_right,
  trim_space, is_space, has_prefix, trim_prefix, hex_run, sid_shape, concat, ◌*w◌, ◌*ℤ◌, wrap64,
  ◌≡◌, refl,
}
use booknow_mcp_service.Config.Reads.{
  Reads, valid, faulty, log_level_invalid, both, map_reads, faults,
}
use booknow_mcp_service.Config.Texts.{
  with_default, digits_from, digits, signed_digits, atoi, parse_int32, split_commas, only_slashes,
}
use booknow_mcp_service.Config.Origins.{
  Url, Texts, origin_of, parsed_origin, parse_origin, parse_items, parse_origin_list,
}
use booknow_mcp_service.Config.Load.{
  Env, Config, number_up_to, origin_read, app_env, read_env, load_mcp, twilio_of, twilio_settings,
  load_twilio, settings, load,
}
use booknow_mcp_service.Config.Laws.{IsSane, all_faults, load-IsSane, faults-load}
use booknow_mcp_service.Server.{start_twilio}
use booknow_mcp_service.Server.Laws.{webhook_of, load-start_twilio}

abbrev url_of : String → String → Url
url_of host path = record {
  scheme = "https";
  has_user = false;
  host = host;
  path = path;
  raw_query = "";
  fragment = "";
}

abbrev pub texts : Texts
texts = record {
  parse_url = λ s.
      if str_eq s "https://db.co"
      then some (url_of "db.co" "")
      else if str_eq s "https://mcp.co"
      then some (url_of "mcp.co" "/")
      else if str_eq s "https://mcp.co/hook"
      then some (url_of "mcp.co" "/hook")
      else none;
  to_lower = λ s. s;
}

abbrev account : String
account = "AC0123456789abcdef0123456789abcdef"

abbrev variables : String → String
variables name =
    if str_eq name "DATABASE_URL"
    then "postgres://db"
    else if str_eq name "SUPABASE_URL"
    then " https://db.co"
    else if str_eq name "MCP_PUBLIC_URL"
    then "https://mcp.co"
    else if str_eq name "MCP_ALLOWED_ORIGINS"
    then "https://db.co, ,https://mcp.co"
    else if str_eq name "TWILIO_AUTH_TOKEN"
    then "secret "
    else if str_eq name "TWILIO_WEBHOOK_URL"
    then "https://mcp.co/hook"
    else if str_eq name "TWILIO_ACCOUNT_SID"
    then account
    else ""

abbrev level_of : String → Reads ℤ
level_of s = if str_eq s "info" then valid (pos 0) else faulty (log_level_invalid s) []

abbrev env : Env
env = record { getenv = variables; texts = texts; parse_level = level_of }

abbrev pub config : Config
config = record {
  port = pos 8080;
  env = "development";
  log_level = pos 0;
  database_url = "postgres://db";
  db_max_conns = pos 5;
  supabase_url = "https://db.co";
  jwt_audience = "authenticated";
  mcp = record {
    public_url = "https://mcp.co";
    allowed_origins = "https://db.co" ∷ "https://mcp.co" ∷ [];
    rate_limit_per_minute = pos 60;
    draft_ttl = pos 600000000000;
  };
  twilio = record {
    auth_token = "secret";
    webhook_url = "https://mcp.co/hook";
    account_sid = account;
  };
}

env-loads : load env ≡ valid config
unfolding settings map_reads both number_up_to origin_read app_env read_env load_mcp twilio_of
    twilio_settings load_twilio with_default digits_from digits signed_digits atoi parse_int32
    split_commas only_slashes origin_of parsed_origin parse_origin parse_items parse_origin_list
    trim_left trim_right trim_space is_space has_prefix trim_prefix hex_run sid_shape concat ◌*w◌
    ◌*ℤ◌ wrap64
env-loads = refl

load-IsSane_example : IsSane env config
load-IsSane_example = load-IsSane env config env-loads

load-start_twilio_example : start_twilio texts config ≡ ok (webhook_of config.twilio)
load-start_twilio_example = load-start_twilio env config env-loads

abbrev empty_env : Env
empty_env = record { getenv = λ name. ""; texts = texts; parse_level = level_of }

faults-load_example : faults (load empty_env) ≡ all_faults empty_env
faults-load_example = faults-load empty_env
