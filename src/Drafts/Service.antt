-- ===== src/Drafts/Service.antt =====
-- internal/application/drafts/service.go: Create; Service/Confirm has Confirm.
-- A call reads the clock once, and no other call changes the database between its lookups; what
-- other calls did before an insert or a confirmation is in what the store answers to it.
pub mod Laws
pub mod Creation
pub mod Answers
pub mod Confirm
pub mod Confirming
pub mod Approval
pub mod Reconfirm
pub mod Schedule
pub mod Retry
use booknow_mcp_service.Base.{
  ℕ, ℤ, pos, ◌+ℤ◌, ◌*w◌, String, Option, none, some, Bool, true, false, not, ◌&&◌, ◌||◌,
  if◌then◌else◌, str_eq, eq_ℤ, leb_ℤ, trim_space, minute, ◌⊎◌, inl, inr, not_found, conflict,
  forbidden, invalid_argument, draft_not_found, unauthorized, invalid_status, draft_expired,
  specialist_unavailable, Err, business, Result, ok, err, guard, wrap_err, wrapped, ◌>>=◌, ◌>>◌, [],
  ◌∷◌,
}
use booknow_mcp_service.Business.Types.{Time}
use booknow_mcp_service.Business.Types.Booking.{SlotCheckInput, SlotCheck}
use booknow_mcp_service.Business.Checks.{is_uuid}
use booknow_mcp_service.Business.Dates.{in_zone, zone_name, add_time}
use booknow_mcp_service.Business.Service.{deref}
use booknow_mcp_service.Drafts.Types.{
  Actor, Customer, Variant, NewDraft, Draft, AppointmentRecord, Confirmation, CreateInput,
  ConfirmInput, DraftView, ConfirmResult, DraftStore, is_fault,
}
use booknow_mcp_service.Drafts.Parse.{CreateRequest, parse_key, parse_create}
use booknow_mcp_service.Drafts.View.{
  Format, status, status_draft, status_confirmed, status_expired, view, join, branch_location,
}

-- `Service`, with the clock as it is read in the call.
pub record Drafts (W : Type 0) : Type 0 where
  pub store : DraftStore W
  pub slots : String → SlotCheckInput → Result SlotCheck
  pub ttl : ℤ
  pub now : Time
  pub format : Format
  pub to_lower : String → String

-- `equalPtr`
abbrev pub equal_ptr : Option String → Option String → Bool
equal_ptr a b = str_eq (deref a) (deref b)

-- Whether a stored draft has the data of a request.
abbrev pub same_data : Draft → CreateRequest → Bool
same_data d req =
    str_eq d.customer_id req.customer_id
    && (str_eq d.service_id req.service_id
        && (str_eq d.branch_id req.branch_id
            && (equal_ptr d.variant_id req.variant_id
                && (equal_ptr d.specialist_id req.specialist_id
                    && (equal_ptr d.customer_notes req.notes
                        && eq_ℤ d.scheduled_at.at req.scheduled_at.at)))))

-- `Service.reuse`
unfoldable pub reuse : {W : Type 0} → Drafts W → Draft → CreateRequest → Result DraftView
reuse s d req =
    if same_data d req
    then ok (view s.format s.now d true)
    else err (
        business conflict
          "idempotencyKey ya se usó para un borrador con otros datos. Usa una clave nueva para una reserva distinta.")

-- `entityErr`, with the entity it lets through
unfoldable pub known_entity {ℓ} : {A : Type ℓ} → String → (A → Bool) → Result A → Result A
known_entity message active (ok a) = if active a then ok a else err (business not_found message)
known_entity message active (err e) =
    if is_fault draft_not_found e
    then err (business not_found message)
    else err (wrapped "lookup" e)

-- The draft that a key was used for, if any.
abbrev pub found_by_key : Result Draft → Result (Option Draft)
found_by_key (ok d) = ok (some d)
found_by_key (err e) =
    if is_fault draft_not_found e then ok none else err (wrapped "find draft by key" e)

-- The variant of a request; none is a variant without modifiers.
abbrev pub find_variant :
    {W : Type 0} → Drafts W → W → String → String → Option String → Result (Option Variant)
find_variant s w tenant_id service_id none = ok none
find_variant s w tenant_id service_id (some id) =
    known_entity "La variante no existe, no está activa o no pertenece al servicio." (λ v. v.active)
      (s.store.variant w tenant_id service_id id)
    >>= λ v. ok (some v)

abbrev pub extra_minutes : Option Variant → ℤ
extra_minutes none = pos 0
extra_minutes (some v) = v.duration_modifier

abbrev pub extra_price : Option Variant → ℤ
extra_price none = pos 0
extra_price (some v) = v.price_modifier

abbrev pub is_some {ℓ} : {A : Type ℓ} → Option A → Bool
is_some none = false
is_some (some a) = true

abbrev pub slot_check_input : CreateRequest → Option Variant → SlotCheckInput
slot_check_input req variant = record {
  service_id = req.service_id;
  branch_id = req.branch_id;
  specialist_id = deref req.specialist_id;
  start = req.scheduled_at;
  extra_minutes = extra_minutes variant;
}

-- The draft to insert for a request whose slot was checked.
abbrev pub new_draft :
    {W : Type 0} → Drafts W → Actor → CreateRequest → Option Variant → SlotCheck → NewDraft
new_draft s actor req variant check = record {
  tenant_id = actor.tenant_id;
  connection_id = actor.connection_id;
  actor_user_id = actor.user_id;
  customer_id = req.customer_id;
  service_id = req.service_id;
  variant_id = req.variant_id;
  branch_id = req.branch_id;
  specialist_id = req.specialist_id;
  scheduled_at = req.scheduled_at;
  ends_at = add_time req.scheduled_at (check.duration_minutes *w minute);
  duration_minutes = check.duration_minutes;
  estimated_price = some (check.service.base_price +ℤ extra_price variant);
  currency_code = check.service.currency_code;
  customer_notes = req.notes;
  idempotency_key = req.key;
  expires_at = add_time s.now s.ttl;
}

-- `Create` from the customer to the insert: the draft to insert.
unfoldable pub plan : {W : Type 0} → Drafts W → W → Actor → CreateRequest → Result NewDraft
plan s w actor req = do
  customer ←
      known_entity "El cliente no existe o no está activo en este negocio." (λ v. v.active)
        (s.store.customer w actor.tenant_id req.customer_id)
  variant ← find_variant s w actor.tenant_id req.service_id req.variant_id
  check ← wrap_err "check slot" (s.slots actor.tenant_id (slot_check_input req variant))
  guard (not check.service.requires_specialist || is_some req.specialist_id) (
      business invalid_argument
        "specialistId es obligatorio para este servicio. Usa list_available_slots para ver los especialistas libres.")
  guard check.available (
      business conflict
        "El horario solicitado no está disponible. Consulta list_available_slots y elige otro horario.")
  ok (new_draft s actor req variant check)

-- `Create` after the insert
abbrev pub inserted :
    {W : Type 0} → Drafts W → W → Actor → CreateRequest → Result (Option String) → Result DraftView
inserted s w actor req (err e) = err (wrapped "insert draft" e)
inserted s w actor req (ok none) = do
  d ←
      wrap_err "find concurrent draft"
        (s.store.draft_by_key w actor.tenant_id actor.connection_id req.key)
  reuse s d req
inserted s w actor req (ok (some id)) = do
  d ← wrap_err "read created draft" (s.store.draft w actor.tenant_id id)
  ok (view s.format s.now d false)

abbrev pub insert :
    {W : Type 0} → Drafts W → W → Actor → CreateRequest → Result NewDraft → Result DraftView × W
insert s w actor req (err e) = (err e, w)
insert s w actor req (ok d) =
    let (answer, after) = s.store.insert_draft w d in (inserted s after actor req answer, after)

abbrev pub create_from :
    {W : Type 0}
    → Drafts W
    → W
    → Actor
    → CreateRequest
    → Result (Option Draft)
    → Result DraftView × W
create_from s w actor req (err e) = (err e, w)
create_from s w actor req (ok (some d)) = (reuse s d req, w)
create_from s w actor req (ok none) = insert s w actor req (plan s w actor req)

abbrev pub create_parsed :
    {W : Type 0} → Drafts W → W → Actor → Result CreateRequest → Result DraftView × W
create_parsed s w actor (err e) = (err e, w)
create_parsed s w actor (ok req) =
    create_from s w actor req
      (found_by_key (s.store.draft_by_key w actor.tenant_id actor.connection_id req.key))

-- `Service.Create`
unfoldable pub create : {W : Type 0} → Drafts W → W → Actor → CreateInput → Result DraftView × W
create s w actor x =
    create_parsed s w actor (parse_create s.to_lower s.format.calendar.parse_rfc3339 x)
