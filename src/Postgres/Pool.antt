-- ===== src/Postgres/Pool.antt =====
-- internal/repository/postgres/pool.go: the pool, over what pgxpool gives.
use booknow_mcp_service.Base.{
  ℤ, pos, minute, ◌*ℤ◌, String, List, [], ◌∷◌, Option, none, some, Err, wrapped, Result, ok, err,
  ◌>>=◌, wrap_err,
}

-- The settings that `newPoolConfig` adds to a parsed configuration of type C.
pub record PoolConfig (C : Type 0) : Type 0 where
  pub parsed : C
  pub max_conns : ℤ
  pub min_conns : ℤ
  pub max_conn_lifetime : ℤ
  pub max_conn_idle_time : ℤ
  pub health_check_period : ℤ
  pub application_name : String

abbrev pub pool_application : String
pool_application = "booknow-mcp-service"

-- pgxpool: ParseConfig, NewWithConfig and Ping.
pub record Pgx (C P : Type 0) : Type 0 where
  pub parse_config : String → Result C
  pub new_with_config : PoolConfig C → Result P
  pub ping : P → Option Err

-- `newPoolConfig`
unfoldable pub new_pool_config : {C P : Type 0} → Pgx C P → String → ℤ → Result (PoolConfig C)
new_pool_config pgx database_url max_conns = do
  parsed ← wrap_err "parse DATABASE_URL" (pgx.parse_config database_url)
  ok (record {
    parsed = parsed;
    max_conns = max_conns;
    min_conns = pos 0;
    max_conn_lifetime = pos 30 *ℤ minute;
    max_conn_idle_time = pos 5 *ℤ minute;
    health_check_period = minute;
    application_name = pool_application;
  })

-- A pool that answers no ping is closed: it is among the closed pools of the result.
abbrev pub pinged : {P : Type 0} → P → Option Err → Result P × List P
pinged pool none = (ok pool, [])
pinged pool (some e) = (err (wrapped "ping postgres" e), pool ∷ [])

abbrev pub opened : {C P : Type 0} → Pgx C P → Result P → Result P × List P
opened pgx (ok pool) = pinged pool (pgx.ping pool)
opened pgx (err e) = (err (wrapped "create postgres pool" e), [])

abbrev pub configured : {C P : Type 0} → Pgx C P → Result (PoolConfig C) → Result P × List P
configured pgx (ok c) = opened pgx (pgx.new_with_config c)
configured pgx (err e) = (err e, [])

-- `NewPool`, with the pools that it closed
unfoldable pub new_pool : {C P : Type 0} → Pgx C P → String → ℤ → Result P × List P
new_pool pgx database_url max_conns = configured pgx (new_pool_config pgx database_url max_conns)
