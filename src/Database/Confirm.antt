-- ===== src/Database/Confirm.antt =====
-- docs/handoff/sql/booknow_mcp_service_phase6_drafts.sql: confirm_mcp_appointment_draft.
use booknow_mcp_service.Base.{
  String, List, [], ◌∷◌, map, Option, none, some, Bool, true, false, not, ◌&&◌, ◌||◌, any,
  if◌then◌else◌, str_eq, concat, Err, other,
}
use booknow_mcp_service.Business.Types.{Time}
use booknow_mcp_service.Business.Dates.{before}
use booknow_mcp_service.Drafts.Types.{NewDraft}
use booknow_mcp_service.Postgres.Drafts.{AppointmentJson, ConfirmRow, answer, raised, failed}
use booknow_mcp_service.Database.{
  AppointmentRow, AppointmentServiceRow, Database, DraftRow, Surroundings, TenantUser, find_row,
  has_id, unique_violation,
}

-- `status in ('pending', 'confirmed', 'in_progress')`
abbrev pub is_booked : String → Bool
is_booked s = str_eq s "pending" || (str_eq s "confirmed" || str_eq s "in_progress")

abbrev pub is_specialist : String → Option String → Bool
is_specialist specialist none = false
is_specialist specialist (some p) = str_eq p specialist

abbrev pub same_specialist : String → String → AppointmentRow → Bool
same_specialist tenant specialist a =
    str_eq a.tenant_id tenant && (is_specialist specialist a.specialist_id && is_booked a.status)

-- `tstzrange(s, e, '[)') && tstzrange(t, u, '[)')`; an end before its start is an error.
abbrev pub ranges_overlap : Time → Option Time → Time → Time → Option Bool
ranges_overlap s none t u = if before u t then none else some (before t u && before s u)
ranges_overlap s (some e) t u =
    if before e s || before u t
    then none
    else some (before s e && (before t u && (before s u && before t e)))

abbrev pub exists_or : Option Bool → Option Bool → Option Bool
exists_or none rest = none
exists_or (some true) rest = some true
exists_or (some false) rest = rest

-- Whether an appointment of the specialist overlaps a draft.
unfoldable pub overlaps : String → NewDraft → List AppointmentRow → Option Bool
overlaps specialist d [] = some false
overlaps specialist d (a ∷ rows) =
    let rest = overlaps specialist d rows in
    if same_specialist d.tenant_id specialist a
    then exists_or (ranges_overlap a.scheduled_at a.ends_at d.scheduled_at d.ends_at) rest
    else rest

abbrev pub checked_overlap : Option String → NewDraft → List AppointmentRow → Option Bool
checked_overlap none d rows = some false
checked_overlap (some specialist) d rows = overlaps specialist d rows

-- The appointment of a draft.
abbrev pub appointment_of : String → NewDraft → AppointmentRow
appointment_of id d = record {
  id = id;
  tenant_id = d.tenant_id;
  branch_id = d.branch_id;
  customer_id = d.customer_id;
  specialist_id = d.specialist_id;
  service_id = d.service_id;
  service_variant_id = d.variant_id;
  scheduled_at = d.scheduled_at;
  ends_at = some d.ends_at;
  duration_minutes = d.duration_minutes;
  status = "pending";
  customer_notes = d.customer_notes;
  estimated_price = d.estimated_price;
  currency_code = d.currency_code;
  source = "mcp";
}

abbrev pub service_of : String → NewDraft → AppointmentServiceRow
service_of id d = record {
  appointment_id = id;
  service_id = d.service_id;
  service_variant_id = d.variant_id;
  specialist_id = d.specialist_id;
  duration_minutes = d.duration_minutes;
  price = d.estimated_price;
}

-- The update of the draft with an id.
abbrev pub confirm_row : String → String → DraftRow → DraftRow
confirm_row id appointment d =
    if has_id id d
    then (record d { status = "confirmed"; confirmed_appointment_id = some appointment })
    else d

abbrev pub book : String → String → NewDraft → Database → Database
book draft_id id d db = record db {
  drafts = map (confirm_row draft_id id) db.drafts;
  appointments = appointment_of id d ∷ db.appointments;
  appointment_services = service_of id d ∷ db.appointment_services;
}

abbrev pub json_of : AppointmentRow → AppointmentJson
json_of a = record {
  id = a.id;
  status = a.status;
  source = a.source;
  scheduled_at = a.scheduled_at;
  ends_at = a.ends_at;
  duration_minutes = a.duration_minutes;
  estimated_price = a.estimated_price;
  currency_code = a.currency_code;
}

abbrev pub maybe_json : Option AppointmentRow → Option AppointmentJson
maybe_json none = none
maybe_json (some a) = some (json_of a)

-- The object that the function returns.
abbrev pub result : Bool → String → Database → ConfirmRow
result idempotent id db = answer (
    some (record {
      idempotent = idempotent;
      appointment = maybe_json (find_row (λ (a : AppointmentRow). str_eq a.id id) db.appointments);
    }))

abbrev pub booked_unless :
    Option Err → String → String → NewDraft → Database → ConfirmRow × Database
booked_unless (some e) draft_id id d db = (failed e, db)
booked_unless none draft_id id d db =
    let after = book draft_id id d db in (result false id after, after)

-- Steps 4 and 5, after the test for overlaps
abbrev pub confirm_free :
    Surroundings → Database → String → NewDraft → Option Bool → ConfirmRow × Database
confirm_free o db draft_id d none =
    (failed (other "range lower bound must be less than or equal to range upper bound"), db)
confirm_free o db draft_id d (some true) =
    (raised "SPECIALIST_UNAVAILABLE: El especialista ya no está disponible en este horario.", db)
confirm_free o db draft_id d (some false) =
    let id = o.new_id db in
    if any (λ (a : AppointmentRow). str_eq a.id id) db.appointments
    then (failed unique_violation, db)
    else booked_unless (o.refuses_appointment (appointment_of id d)) draft_id id d db

-- The else branch of step 3
abbrev pub confirm_draft :
    Surroundings → Time → Database → String → DraftRow → ConfirmRow × Database
confirm_draft o now db draft_id d =
    if not (str_eq d.status "draft")
    then (
      raised (
          concat "INVALID_DRAFT_STATUS: El borrador no está en estado draft (estado actual: "
            (concat d.status ").")),
      db,
    )
    else if before d.booking.expires_at now
    then (raised "DRAFT_EXPIRED: El borrador de cita ha expirado.", db)
    else confirm_free o db draft_id d.booking
        (checked_overlap d.booking.specialist_id d.booking db.appointments)

-- Step 3, for a status and an appointment's id
abbrev pub confirm_by :
    Surroundings
    → Time
    → Database
    → String
    → DraftRow
    → Bool
    → Option String
    → ConfirmRow × Database
confirm_by o now db draft_id d true (some id) = (result true id db, db)
confirm_by o now db draft_id d true none = confirm_draft o now db draft_id d
confirm_by o now db draft_id d false id = confirm_draft o now db draft_id d

-- `coalesce(tu.is_active, true)`
abbrev pub or_true : Option Bool → Bool
or_true none = true
or_true (some b) = b

-- Whether the user manages the tenant.
abbrev pub manages : String → String → TenantUser → Bool
manages tenant user u =
    str_eq u.tenant_id tenant
    && (str_eq u.auth_user_id user
        && (or_true u.is_active
            && (str_eq u.role "owner" || (str_eq u.role "admin" || str_eq u.role "manager"))))

abbrev pub confirm_found :
    Surroundings → Time → Database → String → String → Option DraftRow → ConfirmRow × Database
confirm_found o now db draft_id user none =
    (raised "DRAFT_NOT_FOUND: El borrador de cita no existe.", db)
confirm_found o now db draft_id user (some d) =
    if not (any (manages d.booking.tenant_id user) db.tenant_users)
    then (raised "UNAUTHORIZED: No tienes permisos para confirmar este borrador.", db)
    else confirm_by o now db draft_id d (str_eq d.status "confirmed") d.confirmed_appointment_id

-- confirm_mcp_appointment_draft, in a transaction that starts at a time
unfoldable pub confirm_mcp_appointment_draft :
    Surroundings → Time → Database → (draft_id user : String) → ConfirmRow × Database
confirm_mcp_appointment_draft o now db draft_id user =
    confirm_found o now db draft_id user (find_row (has_id draft_id) db.drafts)
