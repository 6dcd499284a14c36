-- ===== src/Postgres.antt =====
-- internal/repository/postgres: what the stores make of the rows of their queries. The SQL runs in
-- the database, so the answer to each query is a parameter.
pub mod Schedules
pub mod Business
pub mod Drafts
pub mod Audit
pub mod Pool
use booknow_mcp_service.Base.{
  String, List, [], ◌∷◌, Option, none, some, Err, other, wrapped, Result, ok, err, ◌>>=◌, wrap_err,
}

-- What QueryRow and Scan give: pgx.ErrNoRows, the scanned row, or another error.
pub data Row {ℓ} (A : Type ℓ) : Type ℓ where
  no_rows : Row A
  row : A → Row A
  query_error : Err → Row A

-- What Query gives: its rows as they scan, and the error that ended them.
pub record Rows {ℓ} (A : Type ℓ) : Type ℓ where
  pub scanned : List (Result A)
  pub ended : Option Err

-- A lookup: no rows are the store's own error, any other error is wrapped.
unfoldable pub lookup_row {ℓ} : {A : Type ℓ} → Err → String → Row A → Result A
lookup_row missing text no_rows = err missing
lookup_row missing text (row a) = ok a
lookup_row missing text (query_error e) = err (wrapped text e)

-- A query that always has a row.
unfoldable pub only_row {ℓ} : {A : Type ℓ} → String → Row A → Result A
only_row text no_rows = err (wrapped text (other "no rows in result set"))
only_row text (row a) = ok a
only_row text (query_error e) = err (wrapped text e)

-- The loop of `collect`.
unfoldable pub scan_all {ℓ} : {A : Type ℓ} → List (Result A) → Result (List A)
scan_all [] = ok []
scan_all (r ∷ rs) = r >>= λ a. scan_all rs >>= λ rest. ok (a ∷ rest)

abbrev rows_end {ℓ} : {A : Type ℓ} → Option Err → List A → Result (List A)
rows_end none values = ok values
rows_end (some e) values = err e

-- `collect`, of the answer to Query
unfoldable pub collect {ℓ} : {A : Type ℓ} → Result (Rows A) → Result (List A)
collect answer = answer >>= λ rows. scan_all rows.scanned >>= λ values. rows_end rows.ended values

-- mcp_access.go, `RecordConnectionUse`; `exec` runs the statement for a connection.
unfoldable pub record_connection_use : (String → Result (Unit {0})) → String → Result (Unit {0})
record_connection_use exec connection_id = wrap_err "record mcp connection use" (exec connection_id)
