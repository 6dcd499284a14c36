-- ===== src/Config/Laws.antt =====
-- internal/config/config.go: what a loaded configuration satisfies, and the faults of a refused one.
use booknow_mcp_service.Base.{
  sid_shape, ℤ, pos, negsuc, ℕ, ◌≤◌, ◌*◌, wrap64, String, List, ◌++◌, Option, none, some, true,
  eq_iff, trim_space, All, ◌≡◌, ◌≢◌, sym, ap, ◌∙◌, ◌⊎◌, inl, inr, arith, Option-cases, ◌≤ℤ◌, ◌*w◌,
  ◌*ℤ◌, minute, hour,
}
use booknow_mcp_service.Config.Reads.{
  supabase_url_invalid, mcp_public_url_invalid, allowed_origins_invalid, OriginFault, Fault, Reads,
  valid, both, faults, both-eq-valid, map_reads-eq-valid, faults-both, faults-map_reads,
}
use booknow_mcp_service.Config.Texts.{with_default, atoi, parse_int32, split_commas}
use booknow_mcp_service.Config.Origins.{
  Texts, Origin, origin, refused, development, parse_origin, parse_origin_list,
}
use booknow_mcp_service.Config.Origins.Laws.{
  IsOrigin, not_eq, parse_origin-IsOrigin, parse_items-IsOrigin,
}
use booknow_mcp_service.Config.Load.{
  max_draft_ttl_minutes, Env, Config, McpSettings, TwilioSettings, staging, production,
  max_db_conns, max_rate_limit_per_minute, number_up_to, origin_read, read_port, read_env,
  read_database_url, read_max_conns, read_rate_limit, read_draft_ttl, mcp_settings, load_mcp,
  no_twilio, twilio_of, twilio_settings, load_twilio, app_env, config_of, settings, load,
}

-- The webhook is not configured, or configured whole.
abbrev pub IsWebhook : TwilioSettings → Type 0
IsWebhook t =
    (t ≡ no_twilio)
    ⊎ ((t.auth_token ≢ "") × (t.webhook_url ≢ "") × (sid_shape "AC" t.account_sid ≡ true))

number_up_to-eq-valid :
    (top : ℤ) (fault : Fault) (m : Option ℤ) (n : ℤ)
    → number_up_to top fault m ≡ valid n
    → (pos 1 ≤ℤ n) × (n ≤ℤ top)
unfolding number_up_to
number_up_to-eq-valid top fault none n h = cc
number_up_to-eq-valid top fault (some k) n h = ground arith

origin_read-eq-valid {ℓ} :
    {A : Type ℓ} (fault : OriginFault → Fault) (m : Origin A) {a : A}
    → origin_read fault m ≡ valid a
    → m ≡ origin a
unfolding origin_read
origin_read-eq-valid fault (origin o) h = cc
origin_read-eq-valid fault (refused f) h = cc

ttl_exact : (n : ℕ) → n ≤ 60 → pos n *w minute ≡ pos (n * 60000000000)
unfolding ◌*w◌ ◌*ℤ◌ wrap64
ttl_exact n high = ground arith

ttl_bounds : (n : ℤ) → pos 1 ≤ℤ n → n ≤ℤ pos 60 → (minute ≤ℤ n *w minute) × (n *w minute ≤ℤ hour)
ttl_bounds (negsuc n) low high = ground arith
ttl_bounds (pos n) low high = ground (arith, ttl_exact n)

read_env-lem :
    (name : String) (env : String)
    → read_env name ≡ valid env
    → (env ≡ name) × ((env ≡ development) ⊎ (env ≡ staging) ⊎ (env ≡ production))
unfolding read_env
read_env-lem name env h =
    ground (arith, eq_iff name development, eq_iff name staging, eq_iff name production)

twilio_settings-IsWebhook :
    (texts : Texts) (env : String) (t : TwilioSettings) (s : TwilioSettings)
    → twilio_settings texts env t ≡ valid s
    → IsWebhook s
unfolding twilio_settings twilio_of
twilio_settings-IsWebhook texts env t s h = elim (Option-cases (texts.parse_url t.webhook_url)) [
  | inl none_parsed ↦ ground (arith, not_eq t.auth_token "", not_eq t.webhook_url "")
  | inr (u, parsed) ↦ ground (arith, not_eq t.auth_token "", not_eq t.webhook_url "")
]

-- What a configuration promises to the process.
pub record IsSane (e : Env) (c : Config) : Type 0 where
  pub port_range : (pos 1 ≤ℤ c.port) × (c.port ≤ℤ pos 65535)
  pub conns_range : (pos 1 ≤ℤ c.db_max_conns) × (c.db_max_conns ≤ℤ max_db_conns)
  pub limit_range :
      (pos 1 ≤ℤ c.mcp.rate_limit_per_minute)
      × (c.mcp.rate_limit_per_minute ≤ℤ max_rate_limit_per_minute)
  pub ttl_range : (minute ≤ℤ c.mcp.draft_ttl) × (c.mcp.draft_ttl ≤ℤ hour)
  pub known_env : (c.env ≡ development) ⊎ ((c.env ≡ staging) ⊎ (c.env ≡ production))
  pub has_database : c.database_url ≢ ""
  pub supabase_origin : IsOrigin e.texts c.env c.supabase_url
  pub public_origin : IsOrigin e.texts c.env c.mcp.public_url
  pub browser_origins : All (IsOrigin e.texts c.env) c.mcp.allowed_origins
  pub webhook : IsWebhook c.twilio

-- What `loadMCP` promises.
abbrev McpPromise : Texts → String → McpSettings → Type 0
McpPromise texts env m =
    ((pos 1 ≤ℤ m.rate_limit_per_minute) × (m.rate_limit_per_minute ≤ℤ max_rate_limit_per_minute))
    × ((minute ≤ℤ m.draft_ttl) × (m.draft_ttl ≤ℤ hour))
    × IsOrigin texts env m.public_url
    × All (IsOrigin texts env) m.allowed_origins

load_mcp-McpPromise :
    (e : Env) (env : String) (m : McpSettings) → load_mcp e env ≡ valid m → McpPromise e.texts env m
unfolding load_mcp parse_origin_list
load_mcp-McpPromise e env m h =
    let ((url, (origins, (limit, ttl))), read, built) = map_reads-eq-valid mcp_settings _ h in
    let (public_read, rest) = both-eq-valid _ _ read in
    let (list_read, numbers) = both-eq-valid _ _ rest in
    let (limit_read, ttl_read) = both-eq-valid (read_rate_limit e) (read_draft_ttl e) numbers in
    let public_origin = origin_read-eq-valid mcp_public_url_invalid _ public_read in
    let browser_origins = origin_read-eq-valid allowed_origins_invalid _ list_read in
    let (low, high) =
      number_up_to-eq-valid max_draft_ttl_minutes _
        (atoi (with_default (e.getenv "MCP_DRAFT_TTL_MINUTES") "10")) ttl ttl_read in
    rw (sym built) (
      number_up_to-eq-valid max_rate_limit_per_minute _
          (atoi (with_default (e.getenv "MCP_RATE_LIMIT_PER_MINUTE") "60")) limit limit_read,
      ttl_bounds ttl low high,
      parse_origin-IsOrigin e.texts env (e.getenv "MCP_PUBLIC_URL") url public_origin,
      parse_items-IsOrigin e.texts env (split_commas (e.getenv "MCP_ALLOWED_ORIGINS")) origins
          browser_origins,
    )

load_twilio-IsWebhook :
    (e : Env) (env : String) (s : TwilioSettings) → load_twilio e env ≡ valid s → IsWebhook s
unfolding load_twilio
load_twilio-IsWebhook e env s h = twilio_settings-IsWebhook e.texts env _ s h

moved : (P : String → Type 0) {a b : String} → a ≡ b → P a → P b
moved P same p = rw (sym same) p

database_url-lem : (e : Env) (url : String) → read_database_url e ≡ valid url → url ≢ ""
database_url-lem e url h = ground (arith, not_eq (trim_space (e.getenv "DATABASE_URL")) "")

-- A configuration that loads is within the code's limits: ports, pool, rate and draft lifetime in
-- their ranges, a known environment, a database, secure origins, and a webhook that is whole or absent.
pub load-IsSane : (e : Env) (c : Config) → load e ≡ valid c → IsSane e c
unfolding settings
load-IsSane e c h =
    let ((port, (env, (level, (database, (conns, (supabase, (mcp, twilio))))))), read, built) =
      map_reads-eq-valid (config_of e) (settings e) h in
    let (port_read, rest1) = both-eq-valid _ _ read in
    let (env_read, rest2) = both-eq-valid _ _ rest1 in
    let (level_read, rest3) = both-eq-valid _ _ rest2 in
    let (database_read, rest4) = both-eq-valid _ _ rest3 in
    let (conns_read, rest5) = both-eq-valid _ _ rest4 in
    let (supabase_read, rest6) = both-eq-valid _ _ rest5 in
    let (mcp_read, twilio_read) = both-eq-valid _ _ rest6 in
    let (same, known) = read_env-lem (app_env e) env env_read in
    let (limit_range, ttl_range, public_origin, browser_origins) =
      load_mcp-McpPromise e (app_env e) mcp mcp_read in
    rw (sym built) (record {
      port_range =
          number_up_to-eq-valid (pos 65535) _ (atoi (with_default (e.getenv "PORT") "8080")) port
            port_read;
      conns_range =
          number_up_to-eq-valid max_db_conns _
            (parse_int32 (with_default (e.getenv "DB_MAX_CONNS") "5")) conns conns_read;
      limit_range = limit_range;
      ttl_range = ttl_range;
      known_env = known;
      has_database = database_url-lem e database database_read;
      supabase_origin =
          moved (λ n. IsOrigin e.texts n supabase) (sym same)
            (parse_origin-IsOrigin e.texts (app_env e) (e.getenv "SUPABASE_URL") supabase
              (origin_read-eq-valid supabase_url_invalid _ supabase_read));
      public_origin = moved (λ n. IsOrigin e.texts n mcp.public_url) (sym same) public_origin;
      browser_origins =
          moved (λ n. All (IsOrigin e.texts n) mcp.allowed_origins) (sym same) browser_origins;
      webhook = load_twilio-IsWebhook e (app_env e) twilio twilio_read;
    })

-- The webhook's settings of a loaded configuration are those that `loadTwilio` gives.
pub load-load_twilio :
    (e : Env) (c : Config) → load e ≡ valid c → load_twilio e (app_env e) ≡ valid c.twilio
unfolding settings
load-load_twilio e c h =
    let (x, read, made) = map_reads-eq-valid (config_of e) (settings e) h in
    let (a1, rest1) = both-eq-valid _ _ read in
    let (a2, rest2) = both-eq-valid _ _ rest1 in
    let (a3, rest3) = both-eq-valid _ _ rest2 in
    let (a4, rest4) = both-eq-valid _ _ rest3 in
    let (a5, rest5) = both-eq-valid _ _ rest4 in
    let (a6, rest6) = both-eq-valid _ _ rest5 in
    let (a7, twilio_read) = both-eq-valid _ _ rest6 in
    twilio_read ∙ ap (λ (k : Config). valid k.twilio) made

-- The faults of each MCP setting.
abbrev pub mcp_faults : Env → String → List Fault
mcp_faults e env =
    faults
      (origin_read mcp_public_url_invalid (parse_origin e.texts env (e.getenv "MCP_PUBLIC_URL")))
    ++ (faults (
          origin_read allowed_origins_invalid
            (parse_origin_list e.texts env (e.getenv "MCP_ALLOWED_ORIGINS")))
        ++ (faults (read_rate_limit e) ++ faults (read_draft_ttl e)))

-- The faults of each setting, in the order of the source; the webhook's settings are one, of which the
-- first fault is reported.
abbrev pub all_faults : Env → List Fault
all_faults e =
    faults (read_port e)
    ++ (faults (read_env (app_env e))
        ++ (faults (e.parse_level (with_default (e.getenv "LOG_LEVEL") "info"))
            ++ (faults (read_database_url e)
                ++ (faults (read_max_conns e)
                    ++ (faults (
                          origin_read supabase_url_invalid
                            (parse_origin e.texts (app_env e) (e.getenv "SUPABASE_URL")))
                        ++ (mcp_faults e (app_env e) ++ faults (load_twilio e (app_env e))))))))

after {ℓ κ} :
    {A : Type ℓ} {B : Type κ} (m : Reads A) (n : Reads B) {fs : List Fault}
    → faults n ≡ fs
    → faults (both m n) ≡ faults m ++ fs
after m n later = faults-both m n ∙ ap (λ t. faults m ++ t) later

faults-load_mcp : (e : Env) (env : String) → faults (load_mcp e env) ≡ mcp_faults e env
unfolding load_mcp
faults-load_mcp e env =
    faults-map_reads mcp_settings _
    ∙ after _ _ (after _ _ (faults-both (read_rate_limit e) (read_draft_ttl e)))

-- A load reports the faults of all settings, in the order of the settings, never only those of the first:
-- of the port, the environment, the level, the database's URL and pool, the Supabase URL, the MCP public
-- URL, the allowed origins, the rate limit, the drafts' lifetime, and the webhook.
pub faults-load : (e : Env) → faults (load e) ≡ all_faults e
unfolding settings
faults-load e =
    faults-map_reads (config_of e) (settings e)
    ∙ after (read_port e) _ (
        after (read_env (app_env e)) _ (
          after (e.parse_level (with_default (e.getenv "LOG_LEVEL") "info")) _ (
            after (read_database_url e) _ (
              after (read_max_conns e) _ (
                after _ _ (
                  faults-both (load_mcp e (app_env e)) (load_twilio e (app_env e))
                  ∙ ap (λ t. t ++ faults (load_twilio e (app_env e)))
                      (faults-load_mcp e (app_env e))))))))
