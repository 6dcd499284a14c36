-- ===== src/Database/Kept.antt =====
-- A confirmation that succeeded is kept, for any later call.
use booknow_mcp_service.Base.{
  String, map, Option, none, some, Bool, true, str_eq, ◌≡◌, refl, sym, ap, ◌∙◌, inl, inr, ok,
  ok-injective,
}
use booknow_mcp_service.Business.Types.{Time}
use booknow_mcp_service.Drafts.Types.{NewDraft, Draft, Confirmation}
use booknow_mcp_service.Drafts.Service.Creation.{err_not_ok}
use booknow_mcp_service.Drafts.Service.Reconfirm.{KeepsConfirmations}
use booknow_mcp_service.Postgres.Drafts.{
  Prefixes, ConfirmRow, confirmed_row, confirmation_of, AppointmentJson,
}
use booknow_mcp_service.Database.{
  DraftRow, AppointmentRow, Database, Surroundings, find_row, has_id, has_tenant_id, draft_of,
}
use booknow_mcp_service.Database.Confirm.{confirm_row, maybe_json, confirm_mcp_appointment_draft}
use booknow_mcp_service.Database.Store.{store_of}
use booknow_mcp_service.Database.Keys.{
  IsKeyed, IsRead, lookup-IsRead, IsRead-lookup, find_row-IsKeyed, same_text, text_same,
  some-injective,
}
use booknow_mcp_service.Database.Finds.{has_tenant_id-eq}
use booknow_mcp_service.Database.Confirmations.{
  IsConfirmed-confirm_mcp_appointment_draft, find_row-confirm_row, stays_if, confirm_row-booking,
  confirm_row-status, IsSettled, confirm_mcp_appointment_draft-IsSettled,
}

confirmation_of-again :
    (again repeated : Bool) (json : Option AppointmentJson) (c : Confirmation)
    → confirmation_of repeated json ≡ ok c
    → (e : Confirmation) × (confirmation_of again json ≡ ok e)
      × (e.idempotent ≡ again)
      × (e.appointment ≡ c.appointment)
confirmation_of-again again repeated none c h = absurd (err_not_ok h)
confirmation_of-again again repeated (some a) c h =
    (_, refl, refl, ap (λ (k : Confirmation). k.appointment) (ok-injective h))

module _ (to_lower : String → String) (order : Prefixes) (o : Surroundings) (now later : Time)
    (db : Database) (id user : String) (c : Confirmation)
    (answered : ((store_of order o now).confirm db id user).0 ≡ ok c) where
  settled : IsSettled db id user (confirm_mcp_appointment_draft o now db id user)
  settled = confirm_mcp_appointment_draft-IsSettled order o now db id user c answered

  -- A second confirmation answers the same appointment and changes nothing.
  abbrev IsAgain : Database → Type 0
  IsAgain after =
      (e : Confirmation) × ((store_of order o later).confirm after id user ≡ (ok e, after))
      × (e.idempotent ≡ true)
      × (e.appointment ≡ c.appointment)

  confirms-IsAgain : IsAgain ((confirm_mcp_appointment_draft o now db id user).1)
  unfolding confirmed_row
  confirms-IsAgain =
      let after = (confirm_mcp_appointment_draft o now db id user).1 in
      let (e, gives, repeated, booked) =
        confirmation_of-again true settled.repeated
          (maybe_json
            (find_row (λ (a : AppointmentRow). str_eq a.id settled.appointment) after.appointments))
          c (ap (confirmed_row order) (sym settled.answer_is) ∙ answered) in
      (
        e,
        ap (λ (r : ConfirmRow × Database). (confirmed_row order r.0, r.1))
              (IsConfirmed-confirm_mcp_appointment_draft o later after id user settled.appointment
                settled.confirmed)
            ∙ ap (λ z. (z, after)) gives,
        repeated,
        booked,
      )

  module _ (tenant : String) (d : Draft) (keyed : IsKeyed to_lower db.drafts)
      (read : (store_of order o now).draft db tenant id ≡ ok d) where
    -- The draft that was read, after the confirmation.
    abbrev IsKept : Database → Type 0
    IsKept after =
        (e : Draft) × ((store_of order o later).draft after tenant id ≡ ok e)
        × (e.connection_id ≡ d.connection_id)
        × (e.idempotency_key ≡ d.idempotency_key)
        × (e.branch_timezone ≡ d.branch_timezone)
        × (e.status ≡ "confirmed")

    is_read : IsRead o (find_row (has_tenant_id tenant id) db.drafts) d
    is_read = lookup-IsRead o _ _ (find_row (has_tenant_id tenant id) db.drafts) d read

    read_id : is_read.stored.id ≡ id
    read_id = (has_tenant_id-eq tenant id db.drafts is_read.stored is_read.found_is).1

    -- The row that is read is the one that is confirmed.
    found_by_id : find_row (has_id id) db.drafts ≡ some is_read.stored
    found_by_id =
        find_row-IsKeyed to_lower (has_tenant_id tenant id) (has_id id) db.drafts is_read.stored
          keyed is_read.found_is (text_same read_id) (λ e hit. same_text e.id id hit ∙ sym read_id)

    unchanged-IsKept : (confirm_mcp_appointment_draft o now db id user).1 ≡ db → IsKept db
    unchanged-IsKept same =
        let c = settled.confirmed in
        let is : is_read.stored ≡ c.row = some-injective (
          sym found_by_id
          ∙ ap (λ (w : Database). find_row (has_id id) w.drafts) (sym same)
          ∙ c.found) in
        (
          d,
          read,
          refl,
          refl,
          refl,
          ap (λ (e : Draft). e.status) (sym is_read.draft_is)
              ∙ ap (λ (r : DraftRow). r.status) is
              ∙ c.status_is,
        )

    updated-IsKept :
        (after : Database)
        → after.drafts ≡ map (confirm_row id settled.appointment) db.drafts
        → IsKept after
    updated-IsKept after is =
        let stored = is_read.stored in
        let update = confirm_row id settled.appointment in
        let by_id = has_tenant_id tenant id in
        let booked = confirm_row-booking id settled.appointment stored in
        let shown = is_read.draft_is in
        (
          draft_of (update stored) is_read.joined,
          IsRead-lookup o _ _ (find_row by_id after.drafts) (update stored) is_read.joined
              (ap (find_row by_id) is
                ∙ find_row-confirm_row by_id id settled.appointment db.drafts stored
                    (λ e. stays_if (λ (r : DraftRow). by_id r) (has_id id e) _ e refl)
                    is_read.found_is)
              (ap o.names booked ∙ is_read.joined_is),
          ap (λ (b : NewDraft). b.connection_id) booked ∙ ap (λ (e : Draft). e.connection_id) shown,
          ap (λ (b : NewDraft). b.idempotency_key) booked
              ∙ ap (λ (e : Draft). e.idempotency_key) shown,
          ap (λ (e : Draft). e.branch_timezone) shown,
          confirm_row-status id settled.appointment stored (text_same read_id),
        )

    draft-IsKept : IsKept ((confirm_mcp_appointment_draft o now db id user).1)
    draft-IsKept = elim settled.drafts_are [
      | inl same ↦ rw same (unchanged-IsKept same)
      | inr updated ↦ updated-IsKept ((confirm_mcp_appointment_draft o now db id user).1) updated
    ]

-- The draft store over the database keeps what it confirmed, for any later call.
pub store-KeepsConfirmations :
    (to_lower : String → String) (order : Prefixes) (o : Surroundings) (now later : Time)
    → KeepsConfirmations
        (store_of order o now)
        (store_of order o later)
        (λ db. IsKeyed to_lower db.drafts)
store-KeepsConfirmations to_lower order o now later = record {
  kept = λ db tenant id user d c keyed read answered.
      draft-IsKept to_lower order o now later db id user c answered tenant d keyed read;
  again =
      λ db id user c answered. confirms-IsAgain to_lower order o now later db id user c answered;
}
