-- ===== src/Drafts/Service/Schedule.antt =====
-- service.go of both packages: drafts that are created over business.Service.CheckSlot.
use booknow_mcp_service.Base.{
  ℤ, pos, ◌+w◌, ◌*w◌, ◌+ℤ◌, ◌≤ℤ◌, ◌<ℤ◌, String, List, Any, ◌≡◌, refl, sym, ap, ◌⊎◌, inl, inr,
  minute, ok, ◌∙◌,
}
use booknow_mcp_service.Business.Types.{Time}
use booknow_mcp_service.Business.Types.Booking.{Slot}
use booknow_mcp_service.Business.Service.{Service, deref}
use booknow_mcp_service.Business.Service.Booking.{SlotCatalog, catalog, day_slots, check_slot}
use booknow_mcp_service.Business.Service.Booking.Laws.{check_slot-IsAnswer}
use booknow_mcp_service.Drafts.Types.{Actor, NewDraft, CreateInput}
use booknow_mcp_service.Drafts.Parse.{CreateRequest}
use booknow_mcp_service.Drafts.Service.{Drafts, create, slot_check_input, extra_minutes}
use booknow_mcp_service.Drafts.Service.Laws.{IsBooking}
use booknow_mcp_service.Drafts.Service.Creation.{create-writes}

-- A draft on the schedule: its service and branch are in the catalog of the tenant, and its start is
-- the start of one of the slots that are computed for its specialist on some day.
pub record IsOnSchedule (b : Service) (tenant_id : String) (d : NewDraft) : Type 0 where
  pub catalog_used : SlotCatalog
  pub catalog_found : catalog b tenant_id d.service_id d.branch_id ≡ ok catalog_used
  pub extra : ℤ
  pub duration_is : d.duration_minutes ≡ catalog_used.service.duration_minutes +w extra
  pub positive : pos 0 <ℤ d.duration_minutes
  pub not_past : b.now.at ≤ℤ d.scheduled_at.at
  pub ends_is : d.ends_at.at ≡ d.scheduled_at.at +ℤ (d.duration_minutes *w minute)
  pub day : Time
  pub slots : List Slot
  pub slots_computed :
      day_slots b tenant_id catalog_used day (deref d.specialist_id) extra ≡ ok slots
  pub on_slot : Any (λ v. v.start.at ≡ d.scheduled_at.at) slots

IsBooking-IsOnSchedule :
    {W : Type 0} (b : Service) (s : Drafts W) (w : W) (actor : Actor) (req : CreateRequest)
    (d : NewDraft)
    → s.slots ≡ check_slot b
    → IsBooking s w actor req d
    → IsOnSchedule b actor.tenant_id d
IsBooking-IsOnSchedule b s w actor req d wired k =
    let input = slot_check_input req k.variant in
    let asked : check_slot b actor.tenant_id input ≡ ok k.check =
      ap (λ f. f actor.tenant_id input) (sym wired) ∙ k.slot_checked in
    let answer = check_slot-IsAnswer b actor.tenant_id input k.check asked in
    rw (← k.draft_is) (record {
      catalog_used = answer.catalog_used;
      catalog_found = answer.catalog_found;
      extra = extra_minutes k.variant;
      duration_is = answer.duration_is;
      positive = answer.positive;
      not_past = answer.not_past;
      ends_is = refl;
      day = answer.day;
      slots = answer.slots;
      slots_computed = answer.slots_computed;
      on_slot = answer.available_iff.0 k.slot_available;
    })

-- Where the drafts check slots with the business service, Create leaves the database as it is or
-- inserts one draft on the schedule: of a service and a branch of the tenant's catalog, with a
-- positive duration, not in the past, ending its duration after its start, and starting at one of
-- the slots that are computed for its specialist.
pub create-IsOnSchedule :
    {W : Type 0} (b : Service) (s : Drafts W) (w : W) (actor : Actor) (x : CreateInput)
    → s.slots ≡ check_slot b
    → ((create s w actor x).1 ≡ w)
      ⊎ ((d : NewDraft) × ((s.store.insert_draft w d).1 ≡ (create s w actor x).1)
          × IsOnSchedule b actor.tenant_id d)
create-IsOnSchedule b s w actor x wired = elim (create-writes s w actor x) [
  | inl same ↦ inl same
  | inr k ↦
      inr (k.draft, k.after_is, IsBooking-IsOnSchedule b s w actor k.req k.draft wired k.booked)
]
