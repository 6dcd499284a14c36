-- ===== src/Postgres/Drafts.antt =====
-- internal/repository/postgres/drafts.go: DraftStore.
pub mod Laws
use booknow_mcp_service.Base.{
  ℤ, pos, ◌*w◌, String, Option, none, some, List, [], ◌∷◌, Bool, true, false, if◌then◌else◌,
  has_prefix, minute, draft_not_found, unauthorized, invalid_status, draft_expired,
  specialist_unavailable, DraftFault, fault, Err, wrapped, other, Result, ok, err, ◌>>=◌,
}
use booknow_mcp_service.Business.Types.{Time}
use booknow_mcp_service.Business.Dates.{add_time}
use booknow_mcp_service.Drafts.Types.{
  Customer, Variant, NewDraft, Draft, AppointmentRecord, Confirmation, DraftStore,
}
use booknow_mcp_service.Postgres.{Row, no_rows, row, query_error, lookup_row}

-- `InsertDraft`: a row is the id; no rows mean that the key is used.
unfoldable pub inserted_id : Row String → Result (Option String)
inserted_id no_rows = ok none
inserted_id (row id) = ok (some id)
inserted_id (query_error e) = err (wrapped "insert draft" e)

-- `confirmErrors`, in some order: Go ranges over the map in an order of its own.
abbrev pub Prefixes : Type 0
Prefixes = List (String × DraftFault)

abbrev pub confirm_errors : Prefixes
confirm_errors =
    ("DRAFT_NOT_FOUND:", draft_not_found)
    ∷ ("UNAUTHORIZED:", unauthorized)
    ∷ ("INVALID_DRAFT_STATUS:", invalid_status)
    ∷ ("DRAFT_EXPIRED:", draft_expired)
    ∷ ("SPECIALIST_UNAVAILABLE:", specialist_unavailable)
    ∷ []

-- The loop over the prefixes.
unfoldable pub fault_in : Prefixes → String → Option DraftFault
fault_in [] message = none
fault_in ((p, f) ∷ ps) message = if has_prefix message p then some f else fault_in ps message

-- The JSON of a confirmation, as encoding/json decodes it.
pub record AppointmentJson : Type 0 where
  pub id : String
  pub status : String
  pub source : String
  pub scheduled_at : Time
  pub ends_at : Option Time
  pub duration_minutes : ℤ
  pub estimated_price : Option ℤ
  pub currency_code : Option String

-- `confirmResult`
pub record ConfirmJson : Type 0 where
  pub idempotent : Bool
  pub appointment : Option AppointmentJson

-- What the call of confirm_mcp_appointment_draft gives: the JSON, which decodes or does not, the
-- message of a RAISE EXCEPTION, or another error.
pub data ConfirmRow : Type 0 where
  answer : Option ConfirmJson → ConfirmRow
  raised : String → ConfirmRow
  failed : Err → ConfirmRow

abbrev pub ends_or : Time → Option Time → Time
ends_or t none = t
ends_or t (some u) = u

abbrev pub record_of : AppointmentJson → AppointmentRecord
record_of a = record {
  id = a.id;
  status = a.status;
  source = a.source;
  scheduled_at = a.scheduled_at;
  ends_at = ends_or (add_time a.scheduled_at (a.duration_minutes *w minute)) a.ends_at;
  duration_minutes = a.duration_minutes;
  estimated_price = a.estimated_price;
  currency_code = a.currency_code;
}

abbrev pub confirmation_of : Bool → Option AppointmentJson → Result Confirmation
confirmation_of idempotent none = err (other "confirm draft: result without appointment")
confirmation_of idempotent (some a) =
    ok (record { idempotent = idempotent; appointment = record_of a })

abbrev pub raised_error : String → Option DraftFault → Err
raised_error message (some f) = fault f
raised_error message none = wrapped "confirm draft" (other message)

-- `Confirm`, of the answer of the database and with an order of the prefixes
unfoldable pub confirmed_row : Prefixes → ConfirmRow → Result Confirmation
confirmed_row order (answer none) = err (wrapped "decode confirmation" (other "json"))
confirmed_row order (answer (some json)) = confirmation_of json.idempotent json.appointment
confirmed_row order (raised message) = err (raised_error message (fault_in order message))
confirmed_row order (failed e) = err (wrapped "confirm draft" e)

-- What the database answers to each statement, and its state after the two that write.
pub record DraftDb (W : Type 0) : Type 0 where
  pub customer : W → (customer_id tenant_id : String) → Row Customer
  pub variant : W → (variant_id tenant_id service_id : String) → Row Variant
  pub by_key : W → (tenant_id connection_id key : String) → Row Draft
  pub by_id : W → (tenant_id draft_id : String) → Row Draft
  pub insert : W → NewDraft → Row String × W
  pub confirm : W → (draft_id actor_user_id : String) → ConfirmRow × W

-- `DraftStore` of package postgres
abbrev pub draft_store : {W : Type 0} → Prefixes → DraftDb W → DraftStore W
draft_store order db = record {
  customer = λ w t c. lookup_row (fault draft_not_found) "query customer" (db.customer w c t);
  variant =
      λ w t s v. lookup_row (fault draft_not_found) "query service variant" (db.variant w v t s);
  draft_by_key =
      λ w t c key. lookup_row (fault draft_not_found) "query draft" (db.by_key w t c key);
  draft = λ w t id. lookup_row (fault draft_not_found) "query draft" (db.by_id w t id);
  insert_draft = λ w d. (inserted_id (db.insert w d).0, (db.insert w d).1);
  confirm = λ w id user. (confirmed_row order (db.confirm w id user).0, (db.confirm w id user).1);
}
