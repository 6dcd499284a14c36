-- ===== src/Lib.antt =====
-- booknow-mcp-service: the core of the MCP server through which assistants read a business's
-- schedule and book appointments.
--
-- The process (cmd/api-server) reads its configuration (internal/config), opens the database and
-- mounts the routes (internal/httpapi/router.go). A request to /mcp passes the gate
-- (internal/httpapi/mcp.go), which checks the origin, takes the bearer token and verifies it
-- (internal/auth), resolves the tenant and role from the database (internal/tenant), and applies the
-- rate limit (internal/platform/ratelimit) and the throttle of recorded uses
-- (internal/httpapi/mcp_usage.go). A tool (internal/mcpserver), whose calls are audited, then calls a
-- use case: the reports and slots of internal/application/business, or the creation and confirmation
-- of drafts of internal/application/drafts, which check slots with the former. Both read and write
-- through the stores of internal/repository/postgres. Apart from this, a webhook
-- (internal/httpapi/twilio.go) takes the messages that Twilio has signed
-- (internal/integration/twilio).
--
-- Files and code:
--   Base                shared helpers: tests, lists, integers, durations, texts, errors as values
--   Platform            internal/platform: Pii (MaskPhone), Ratelimit (Allow, sweep), Logging
--                       (cloudLoggingAttr, severity)
--   Business/Types      internal/application/business/types.go
--   Business/Slots      internal/application/business/slots.go: Clock (parseClock), Intervals
--                       (subtract, intersect), Hours (effectOf, branchConstraints,
--                       specialistWindows, applyBranch, branchDayHours), Compute (candidateStarts,
--                       computeSlots)
--   Business/Dates      internal/application/business/dates.go
--   Business/Checks     the argument checks of service.go (pageAndLimit, IsUUID, escapeLike,
--                       entityErr) and errors.go
--   Business/Service    service.go: Reports (Snapshot, ScheduleSummary, ListAppointments,
--                       SearchCustomers) and Booking (AvailableSlots, CheckSlot, catalog, slotDay,
--                       daySlots)
--   Drafts              internal/application/drafts: Types, Parse (parseCreate, parseKey), View
--                       (status, view, humanSummary), Service (Create, Confirm) and its proofs:
--                       Creation, Answers, Approval, Confirming, Retry, Reconfirm
--   Database            docs/handoff/sql/booknow_mcp_service_phase6_drafts.sql
--                       (confirm_mcp_appointment_draft) and the statements of
--                       internal/repository/postgres/drafts.go, over tables as lists
--   Tenant              internal/tenant/resolver.go, and FindMCPAccess of
--                       internal/repository/postgres/mcp_access.go; Tables, its query over the
--                       tables
--   Auth                internal/auth: BearerToken, Verify, and Verifier (NewVerifier, keyfunc)
--   Httpapi             internal/httpapi: Usage (usageThrottle), Denials (denialFor), Access (with Cors:
--                       originGuard, requireMCPAccess, applyUsagePolicy), Router (NewRouter, the probes,
--                       the metadata of mountMCP, requestLogger), Webhook (twilioWebhook)
--   Twilio              internal/integration/twilio: Form (url.Values), Inbound (ParseInbound),
--                       Signature (Signature, NewValidator, ValidateForm)
--   Mcpserver           internal/mcpserver: Errors (classify), Call (register, audit, the health tool),
--                       Tools (the business and draft tools); Audit is internal/platform/audit
--   Postgres            internal/repository/postgres: Schedules and Business (BusinessStore), Drafts
--                       (DraftStore), Audit (RecordToolCall), Pool (NewPool)
--   Config              internal/config: Texts (strconv and strings as load uses them), Origins
--                       (parseOrigin, parseOriginList), Reads (the collected faults), Load (load,
--                       loadMCP, loadTwilio)
--   Server              cmd/api-server/main.go: what run builds, and the gate of /mcp with its
--                       collaborators
--   Tests               data, and the theorems at concrete inputs
--
-- How the code is read. Go strings are native texts, valid UTF-8, with their code points and bytes
-- as views. An int is an integer; a time.Duration is an integer in nanoseconds whose sums and
-- products wrap at 64 bits, and Time.Sub saturates; an instant is an integer of nanoseconds. Money
-- is in whole hundredths. An error is a value; a nil pointer is `none`; a Go map is an association
-- list with one entry for each key. The clock is read once in a call.
--
-- Parameters, for code that is not of the repository: the calendar and the tz database (package
-- time), encoding/json, unicode.IsDigit, strings.ToLower, url.Parse and url.ParseQuery,
-- mime.ParseMediaType, HMAC-SHA1 and base64, the parsing of log levels, the printing of times and
-- amounts, the JWT parser and the client of the JWKS, the token bucket of golang.org/x/time/rate,
-- pgx, and the answers of the database to each statement. The reports read a store that answers each
-- query; the drafts work on a store with a state, which the insert and the confirmation change and
-- the lookups read. What a theorem relies on is among its hypotheses: that base64 decodes what it
-- encodes, and that the database finds what it inserted. Where the database is a model (Database),
-- the tables that its statements only read, gen_random_uuid, and its constraints other than those of
-- the drafts and of the appointments' times are parameters, an instant is kept as it is given, and
-- each statement is a transaction of its own, one after another.
--
-- Fuel: the inner loop of candidateStarts runs on fuel, one round more than the whole steps of
-- thirty minutes between the first candidate and the last start. It is enough for windows
-- from midnight on, none past 2 ^ 61 nanoseconds, and a need that is positive and at most as long;
-- the windows of a day are such.
--
-- Not modelled: SQL other than findMCPAccessSQL, the statements of drafts and
-- confirm_mcp_appointment_draft; the titles, descriptions and schemas of the tools; the logger's
-- output but for its attributes; the run of the server, with its signals, shutdown and time-outs;
-- the refreshes of the keys. Contexts and time-outs are left out of a call: a call that they cut
-- off is an error of the parameter. Handlers of one process run one after another in the model,
-- as the mutexes of the throttle and of the rate limiter make them.
pub mod Base
pub mod Platform
pub mod Business
pub mod Drafts
pub mod Tenant
pub mod Auth
pub mod Httpapi
pub mod Postgres
pub mod Database
pub mod Mcpserver
pub mod Config
pub mod Twilio
pub mod Server
pub mod Tests
