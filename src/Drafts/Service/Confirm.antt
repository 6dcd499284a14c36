-- ===== src/Drafts/Service/Confirm.antt =====
-- internal/application/drafts/service.go: Confirm.
use booknow_mcp_service.Base.{
  String, ◌&&◌, ◌||◌, if◌then◌else◌, str_eq, trim_space, not_found, conflict, forbidden,
  invalid_argument, draft_not_found, unauthorized, invalid_status, draft_expired,
  specialist_unavailable, Err, business, Result, ok, err, guard, wrapped, ◌>>=◌, ◌>>◌, [], ◌∷◌,
}
use booknow_mcp_service.Business.Checks.{is_uuid}
use booknow_mcp_service.Business.Dates.{in_zone, zone_name}
use booknow_mcp_service.Drafts.Types.{
  Actor, Draft, Confirmation, ConfirmInput, ConfirmResult, is_fault,
}
use booknow_mcp_service.Drafts.Parse.{parse_key}
use booknow_mcp_service.Drafts.View.{
  status, status_draft, status_confirmed, status_expired, join, branch_location,
}
use booknow_mcp_service.Drafts.Service.{Drafts}

abbrev pub expired_error : Err
expired_error =
    business conflict
      "El borrador expiró sin confirmarse. Crea uno nuevo con otra idempotencyKey si el usuario aún quiere la cita."

abbrev pub no_draft : Err
no_draft = business not_found "El borrador no existe o no pertenece a esta conexión."

-- `confirmError`
unfoldable pub confirm_error : Err → Err
confirm_error e =
    if is_fault draft_not_found e
    then no_draft
    else if is_fault unauthorized e
    then business forbidden "Ya no tienes permisos para confirmar citas en este negocio."
    else if is_fault draft_expired e
    then expired_error
    else if is_fault invalid_status e
    then business conflict "El borrador ya no está pendiente y no se puede confirmar."
    else if is_fault specialist_unavailable e
    then business conflict
        "El especialista ya no está disponible en ese horario. Consulta list_available_slots y crea un nuevo borrador."
    else wrapped "confirm draft" e

-- The lookup of the draft to confirm.
abbrev pub stored_draft : Result Draft → Result Draft
stored_draft (ok d) = ok d
stored_draft (err e) =
    if is_fault draft_not_found e then err no_draft else err (wrapped "read draft" e)

-- The switch on the status of the draft to confirm.
abbrev pub confirmable : String → Result (Unit {0})
confirmable st =
    if str_eq st status_draft || str_eq st status_confirmed
    then ok tt
    else if str_eq st status_expired
    then err expired_error
    else err
        (business conflict (join ("El borrador no se puede confirmar (estado: " ∷ st ∷ ")." ∷ [])))

-- `Confirm` before the confirmation: the normalized id of the draft, and the draft.
unfoldable pub pending :
    {W : Type 0} → Drafts W → W → Actor → ConfirmInput → Result (String × Draft)
pending s w actor x = do
  let draft_id = s.to_lower (trim_space x.draft_id)
  guard (is_uuid draft_id) (business invalid_argument "draftId debe ser un UUID válido.")
  key ← parse_key x.idempotency_key
  d ← stored_draft (s.store.draft w actor.tenant_id draft_id)
  guard (str_eq d.connection_id actor.connection_id && str_eq d.idempotency_key key) no_draft
  confirmable (status s.now d)
  ok (draft_id, d)

-- `Confirm` after the confirmation
abbrev pub confirmed :
    {W : Type 0} → Drafts W → String → Draft → Result Confirmation → Result ConfirmResult
confirmed s draft_id d (err e) = err (confirm_error e)
confirmed s draft_id d (ok c) =
    let loc = branch_location s.format.calendar d.branch_timezone in
    ok (record {
      draft_id = draft_id;
      idempotent = c.idempotent;
      timezone = zone_name loc;
      appointment = record c.appointment {
        scheduled_at = in_zone c.appointment.scheduled_at loc;
        ends_at = in_zone c.appointment.ends_at loc;
      };
      message =
          if c.idempotent
          then "El borrador ya estaba confirmado; se devuelve la cita existente."
          else "Cita creada en estado pendiente.";
    })

abbrev pub confirm_pending :
    {W : Type 0} → Drafts W → W → Actor → Result (String × Draft) → Result ConfirmResult × W
confirm_pending s w actor (err e) = (err e, w)
confirm_pending s w actor (ok (draft_id, d)) =
    let (answer, after) = s.store.confirm w draft_id actor.user_id in
    (confirmed s draft_id d answer, after)

-- `Service.Confirm`
unfoldable pub confirm :
    {W : Type 0} → Drafts W → W → Actor → ConfirmInput → Result ConfirmResult × W
confirm s w actor x = confirm_pending s w actor (pending s w actor x)
