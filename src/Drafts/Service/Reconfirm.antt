-- ===== src/Drafts/Service/Reconfirm.antt =====
-- service.go: a call of Confirm that succeeded can be repeated.
use booknow_mcp_service.Base.{String, true, ◌≡◌, refl, sym, ap, ◌∙◌, Result, ok, err, ok-injective}
use booknow_mcp_service.Business.Types.{Time}
use booknow_mcp_service.Drafts.Types.{
  Actor, Draft, Confirmation, AppointmentRecord, ConfirmInput, ConfirmResult, DraftStore,
}
use booknow_mcp_service.Drafts.View.{status, branch_location}
use booknow_mcp_service.Business.Dates.{Calendar, in_zone, zone_name}
use booknow_mcp_service.Drafts.Service.{Drafts}
use booknow_mcp_service.Drafts.Service.Confirm.{
  confirmable, pending, confirmed, confirm_pending, confirm,
}
use booknow_mcp_service.Drafts.Service.Creation.{err_not_ok}
use booknow_mcp_service.Drafts.Service.Confirming.{IsPending, pending-IsPending}
use booknow_mcp_service.Drafts.Service.Approval.{IsOwn-confirm, at_call}

-- What a store promises, in the states that it keeps to, of a confirmation that succeeds, to a later
-- call: the draft stays that of its connection and
-- key, in its branch, and is confirmed; and to confirm it again changes nothing and gives the same
-- appointment.
pub record KeepsConfirmations {W : Type 0} (store second : DraftStore W) (IsKept : W → Type 0)
    : Type 0 where
  pub kept :
      (w : W) (tenant_id id user : String) (d : Draft) (c : Confirmation)
      → IsKept w
      → store.draft w tenant_id id ≡ ok d
      → (store.confirm w id user).0 ≡ ok c
      → (e : Draft) × (second.draft ((store.confirm w id user).1) tenant_id id ≡ ok e)
        × (e.connection_id ≡ d.connection_id)
        × (e.idempotency_key ≡ d.idempotency_key)
        × (e.branch_timezone ≡ d.branch_timezone)
        × (e.status ≡ "confirmed")
  pub again :
      (w : W) (id user : String) (c : Confirmation)
      → (store.confirm w id user).0 ≡ ok c
      → (e : Confirmation) × (second.confirm ((store.confirm w id user).1) id user
          ≡ (ok e, (store.confirm w id user).1))
        × (e.idempotent ≡ true)
        × (e.appointment ≡ c.appointment)

confirmed_stays :
    (now : Time) (d : Draft) → d.status ≡ "confirmed" → confirmable (status now d) ≡ ok tt
unfolding status
confirmed_stays now d e = rw e refl

-- The answers to two confirmations of one draft agree in the appointment.
abbrev pub SameBooking : ConfirmResult → ConfirmResult → Type 0
SameBooking q r =
    (q.idempotent ≡ true)
    × (q.draft_id ≡ r.draft_id)
    × (q.timezone ≡ r.timezone)
    × (q.appointment ≡ r.appointment)

-- The appointment of an answer, shown in the zone of a branch.
abbrev shown_in : Calendar → String → AppointmentRecord → AppointmentRecord
shown_in cal name a =
    let loc = branch_location cal name in
    record a { scheduled_at = in_zone a.scheduled_at loc; ends_at = in_zone a.ends_at loc }

confirmed-SameBooking :
    {W : Type 0} (s : Drafts W) (draft_id : String) (d e : Draft) (c k : Confirmation)
    (r : ConfirmResult)
    → e.branch_timezone ≡ d.branch_timezone
    → k.idempotent ≡ true
    → k.appointment ≡ c.appointment
    → confirmed s draft_id d (ok c) ≡ ok r
    → (q : ConfirmResult) × (confirmed s draft_id e (ok k) ≡ ok q) × SameBooking q r
confirmed-SameBooking s draft_id d e c k r zone repeated booked h =
    let shape = ok-injective h in
    let cal = s.format.calendar in
    (
      _,
      refl,
      (
        repeated,
        ap (λ (q : ConfirmResult). q.draft_id) shape,
        ap (λ (z : String). zone_name (branch_location cal z)) zone
            ∙ ap (λ (q : ConfirmResult). q.timezone) shape,
        ap (λ (z : String). shown_in cal z k.appointment) zone
            ∙ ap (λ a. shown_in cal d.branch_timezone a) booked
            ∙ ap (λ (q : ConfirmResult). q.appointment) shape,
      ),
    )

module _ {W : Type 0} (s : Drafts W) (w : W) (actor : Actor) (x : ConfirmInput) (r : ConfirmResult)
    (second : DraftStore W) (later : Time) (IsKept : W → Type 0)
    (keeps : KeepsConfirmations s.store second IsKept) (is_kept : IsKept w) where
  -- The answer of a repetition.
  abbrev IsRepeated : W → Type 0
  IsRepeated after =
      (q : ConfirmResult) × (confirm (at_call s second later) after actor x ≡ (ok q, after))
      × SameBooking q r

  confirmed-IsRepeated :
      (draft_id : String) (d : Draft) (answer : Result Confirmation)
      → IsPending s w actor x draft_id d
      → (s.store.confirm w draft_id actor.user_id).0 ≡ answer
      → confirmed s draft_id d answer ≡ ok r
      → IsRepeated ((s.store.confirm w draft_id actor.user_id).1)
  confirmed-IsRepeated draft_id d (err e) p answered h = absurd (err_not_ok h)
  confirmed-IsRepeated draft_id d (ok c) p answered h =
      let after = (s.store.confirm w draft_id actor.user_id).1 in
      let (e, found, connection, key, zone, is) =
        keeps.kept w actor.tenant_id draft_id actor.user_id d c is_kept p.stored answered in
      let (again, same, repeated, booked) = keeps.again w draft_id actor.user_id c answered in
      let (q, answer, agree) =
        confirmed-SameBooking s draft_id d e c again r zone repeated booked h in
      (
        q,
        IsOwn-confirm (at_call s second later) after actor x draft_id e (record {
          id_is = p.id_is;
          id_valid = p.id_valid;
          stored = found;
          own_connection = connection ∙ p.own_connection;
          own_key = p.own_key ∙ ap ok (sym key);
        })
            ∙ rw (confirmed_stays later e is) (rw (same, answer) refl),
        agree,
      )

  confirm_pending-IsRepeated :
      (found : Result (String × Draft))
      → pending s w actor x ≡ found
      → (confirm_pending s w actor found).0 ≡ ok r
      → IsRepeated ((confirm_pending s w actor found).1)
  confirm_pending-IsRepeated (err e) found h = absurd (err_not_ok h)
  confirm_pending-IsRepeated (ok (draft_id, d)) found h =
      confirmed-IsRepeated draft_id d ((s.store.confirm w draft_id actor.user_id).0)
        (pending-IsPending s w actor x draft_id d found) refl h

-- Where a confirmation that succeeds is kept, a call of Confirm that succeeded can be repeated at any
-- later time, also after the draft would have expired: the repetition succeeds, changes nothing, and
-- answers the same appointment, marked as confirmed before.
pub confirm-confirm :
    {W : Type 0} (s : Drafts W) (w : W) (actor : Actor) (x : ConfirmInput) (r : ConfirmResult)
    (second : DraftStore W) (later : Time) (IsKept : W → Type 0)
    → KeepsConfirmations s.store second IsKept
    → IsKept w
    → (confirm s w actor x).0 ≡ ok r
    → (q : ConfirmResult) × (confirm (at_call s second later) ((confirm s w actor x).1) actor x
        ≡ (ok q, (confirm s w actor x).1))
      × SameBooking q r
unfolding confirm
confirm-confirm s w actor x r second later IsKept keeps is_kept h =
    confirm_pending-IsRepeated s w actor x r second later IsKept keeps is_kept (pending s w actor x)
      refl h
