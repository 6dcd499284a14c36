-- ===== src/Database.antt =====
-- The database of drafts and appointments, as far as the repository's SQL says what it does:
-- confirm_mcp_appointment_draft (docs/handoff/sql/booknow_mcp_service_phase6_drafts.sql) and the
-- statements of internal/repository/postgres/drafts.go.
-- A statement runs as one transaction. The newest rows stand first. An instant is kept as it is given;
-- ids are texts in canonical form.
pub mod Confirm
pub mod Store
pub mod Conflicts
pub mod Bookings
pub mod Keys
pub mod Finds
pub mod Inserts
pub mod Confirmations
pub mod Kept
pub mod Links
pub mod Booked
pub mod Linked
pub mod Calls
use booknow_mcp_service.Base.{
  ℤ, String, List, [], ◌∷◌, map, Option, none, some, Bool, true, false, not, ◌&&◌, ◌||◌, any, ltb_ℤ,
  if◌then◌else◌, str_eq, concat, Err, other,
}
use booknow_mcp_service.Business.Types.{Time}
use booknow_mcp_service.Business.Dates.{before}
use booknow_mcp_service.Drafts.Types.{Customer, Variant, NewDraft, Draft, DraftStore}
use booknow_mcp_service.Postgres.{Row, no_rows, row, query_error}
use booknow_mcp_service.Postgres.Drafts.{
  AppointmentJson, ConfirmJson, ConfirmRow, answer, raised, failed, DraftDb, Prefixes, draft_store,
}

-- A row of mcp_appointment_drafts: the inserted columns and the others.
pub record DraftRow : Type 0 where
  pub id : String
  pub booking : NewDraft
  pub status : String
  pub confirmed_appointment_id : Option String

-- A row of appointments.
pub record AppointmentRow : Type 0 where
  pub id : String
  pub tenant_id : String
  pub branch_id : String
  pub customer_id : String
  pub specialist_id : Option String
  pub service_id : String
  pub service_variant_id : Option String
  pub scheduled_at : Time
  pub ends_at : Option Time
  pub duration_minutes : ℤ
  pub status : String
  pub customer_notes : Option String
  pub estimated_price : Option ℤ
  pub currency_code : Option String
  pub source : String

-- A row of appointment_services.
pub record AppointmentServiceRow : Type 0 where
  pub appointment_id : String
  pub service_id : String
  pub service_variant_id : Option String
  pub specialist_id : Option String
  pub duration_minutes : ℤ
  pub price : Option ℤ

-- A row of tenant_users; a null is_active is `none`.
pub record TenantUser : Type 0 where
  pub tenant_id : String
  pub auth_user_id : String
  pub is_active : Option Bool
  pub role : String

pub record Database : Type 0 where
  pub tenant_users : List TenantUser
  pub drafts : List DraftRow
  pub appointments : List AppointmentRow
  pub appointment_services : List AppointmentServiceRow

-- The names that selectDraftSQL joins to a draft.
pub record Names : Type 0 where
  pub first_name : String
  pub last_name : String
  pub service : String
  pub variant : Option String
  pub branch : String
  pub timezone : String
  pub specialist : Option String

-- What the statements take from elsewhere: the tables that they only read, gen_random_uuid, and the
-- other constraints of the tables, which refuse a row with an error.
pub record Surroundings : Type 0 where
  pub customer : (customer_id tenant_id : String) → Row Customer
  pub variant : (variant_id tenant_id service_id : String) → Row Variant
  pub names : NewDraft → Option Names
  pub new_id : Database → String
  pub refuses_draft : NewDraft → Option Err
  pub refuses_appointment : AppointmentRow → Option Err

-- The first row that passes a test.
unfoldable pub find_row {ℓ} : {A : Type ℓ} → (A → Bool) → List A → Option A
find_row p [] = none
find_row p (x ∷ xs) = if p x then some x else find_row p xs

abbrev pub has_id : String → DraftRow → Bool
has_id id d = str_eq d.id id

abbrev pub has_tenant_id : String → String → DraftRow → Bool
has_tenant_id tenant id d = str_eq d.booking.tenant_id tenant && str_eq d.id id

abbrev pub has_key : String → String → DraftRow → Bool
has_key connection key d =
    str_eq d.booking.connection_id connection && str_eq d.booking.idempotency_key key

abbrev pub has_tenant_key : String → String → String → DraftRow → Bool
has_tenant_key tenant connection key d =
    str_eq d.booking.tenant_id tenant && has_key connection key d

-- A row of selectDraftSQL.
abbrev pub draft_of : DraftRow → Names → Draft
draft_of d n = record {
  id = d.id;
  tenant_id = d.booking.tenant_id;
  connection_id = d.booking.connection_id;
  customer_id = d.booking.customer_id;
  service_id = d.booking.service_id;
  variant_id = d.booking.variant_id;
  branch_id = d.booking.branch_id;
  specialist_id = d.booking.specialist_id;
  scheduled_at = d.booking.scheduled_at;
  ends_at = d.booking.ends_at;
  duration_minutes = d.booking.duration_minutes;
  estimated_price = d.booking.estimated_price;
  currency_code = d.booking.currency_code;
  customer_notes = d.booking.customer_notes;
  status = d.status;
  idempotency_key = d.booking.idempotency_key;
  expires_at = d.booking.expires_at;
  confirmed_appointment_id = d.confirmed_appointment_id;
  customer_first_name = n.first_name;
  customer_last_name = n.last_name;
  service_name = n.service;
  variant_name = n.variant;
  branch_name = n.branch;
  branch_timezone = n.timezone;
  specialist_name = n.specialist;
}

abbrev pub named : DraftRow → Option Names → Row Draft
named d none = no_rows
named d (some n) = row (draft_of d n)

-- selectDraftSQL with a condition
abbrev pub selected : Surroundings → Option DraftRow → Row Draft
selected o none = no_rows
selected o (some d) = named d (o.names d.booking)

abbrev pub is_some {ℓ} : {A : Type ℓ} → Option A → Bool
is_some none = false
is_some (some a) = true

abbrev pub unique_violation : Err
unique_violation = other "duplicate key value violates unique constraint"

abbrev pub stored_unless : Option Err → String → NewDraft → Database → Row String × Database
stored_unless (some e) id d db = (query_error e, db)
stored_unless none id d db = (
  row id,
  record db {
    drafts =
        record { id = id; booking = d; status = "draft"; confirmed_appointment_id = none }
        ∷ db.drafts;
  },
)

-- insertDraftSQL
unfoldable pub insert_draft_sql : Surroundings → Database → NewDraft → Row String × Database
insert_draft_sql o db d =
    let id = o.new_id db in
    if is_some (find_row (has_key d.connection_id d.idempotency_key) db.drafts)
    then (no_rows, db)
    else if is_some (find_row (has_id id) db.drafts)
    then (query_error unique_violation, db)
    else stored_unless (o.refuses_draft d) id d db
