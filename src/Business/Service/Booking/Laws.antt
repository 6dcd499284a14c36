-- ===== src/Business/Service/Booking/Laws.antt =====
-- service.go: what CheckSlot answers.
use booknow_mcp_service.Base.{
  ℤ, pos, pos_part, neg_part, ◌≤ℤ◌, ◌<ℤ◌, ◌+w◌, String, List, [], ◌∷◌, Bool, true, false, not, ◌||◌,
  ltb_ℤ, eq_ℤ, if◌then◌else◌, Bool-cases, str_eq, trim_space, ◌≡◌, refl, ap, ◌⊎◌, inl, inr, ◌↔◌,
  Any, All, arith, ok, guard, guard-eq-ok, >>=-eq-ok, ok-injective, wrap_err,
}
use booknow_mcp_service.Business.Types.{Time, Ref}
use booknow_mcp_service.Business.Types.Booking.{Slot, SlotCheckInput, SlotCheck}
use booknow_mcp_service.Business.Checks.{is_uuid, required_uuid, optional_uuid, active_entity}
use booknow_mcp_service.Business.Checks.Laws.{active_entity-eq-ok, required_uuid-eq-ok}
use booknow_mcp_service.Business.Dates.{in_zone, before, zone_name}
use booknow_mcp_service.Business.Slots.Compute.Table.{Ascending, eq_ℤ_iff}
use booknow_mcp_service.Business.Slots.Compute.Listing.{
  Offers, start_instants, compute_slots-Ascending,
}
use booknow_mcp_service.Business.Service.{Service}
use booknow_mcp_service.Business.Service.Booking.{
  SlotCatalog, availability_query, catalog, slot_day, day_slots, find_start, check_slot,
}

module _ (at : ℤ) where
  pub find_start-available_iff :
      (check : SlotCheck) (slots : List Slot)
      → ((find_start at check slots).available ≡ true)
        ↔ ((check.available ≡ true) ⊎ Any (λ s. s.start.at ≡ at) slots)
  unfolding find_start
  find_start-available_iff check [] = ground arith
  find_start-available_iff check (slot ∷ slots) = ground (
    arith,
    eq_ℤ_iff slot.start.at at,
    find_start-available_iff check slots,
    find_start-available_iff (record check { available = true; specialists = slot.specialists })
        slots,
  )

  -- The loop changes the availability and the specialists only.
  find_start_keeps :
      (check : SlotCheck) (slots : List Slot)
      → ((find_start at check slots).service ≡ check.service)
        × ((find_start at check slots).branch ≡ check.branch)
        × ((find_start at check slots).duration_minutes ≡ check.duration_minutes)
  unfolding find_start
  find_start_keeps check [] = (refl, refl, refl)
  find_start_keeps check (slot ∷ slots) = ground (
    arith,
    find_start_keeps check slots,
    find_start_keeps (record check { available = true; specialists = slot.specialists }) slots,
  )

  -- Past the instant no slot starts at it.
  find_start_after :
      (check : SlotCheck) (slots : List Slot)
      → All (λ t. at <ℤ t) (start_instants slots)
      → find_start at check slots ≡ check
  unfolding find_start
  find_start_after check [] h = refl
  find_start_after check (slot ∷ slots) (lt, h) = ground (arith, find_start_after check slots h)

  Any_after :
      (r : Ref) (slots : List Slot)
      → All (λ t. at <ℤ t) (start_instants slots)
      → Offers slots at r
      → ⊥
  Any_after r (slot ∷ slots) (lt, h) (inl (same, n)) =
      absurd (omega (arith, ap pos_part same, ap neg_part same))
  Any_after r (slot ∷ slots) (lt, h) (inr o) = Any_after r slots h o
  Any_after r [] h o = o

  abbrev found : SlotCheck → Slot → SlotCheck
  found check slot = record check { available = true; specialists = slot.specialists }

  find_start-cons :
      (check : SlotCheck) (slot : Slot) (slots : List Slot) {b : Bool}
      → eq_ℤ slot.start.at at ≡ b
      → find_start at check (slot ∷ slots)
        ≡ find_start at (if b then found check slot else check) slots
  unfolding find_start
  find_start-cons check slot slots e =
      ap (λ b. find_start at (if b then found check slot else check) slots) e

  -- Where the starts ascend, the specialists of the answer are those offered at the instant.
  pub find_start-specialists_iff :
      (check : SlotCheck) (slots : List Slot) (r : Ref)
      → check.specialists ≡ []
      → Ascending (start_instants slots)
      → Any (λ y. y ≡ r) (find_start at check slots).specialists ↔ Offers slots at r
  find_start-specialists_iff check [] r e a = unfold find_start in ground arith
  find_start-specialists_iff check (slot ∷ slots) r e (below, a) =
      elim (Bool-cases (eq_ℤ slot.start.at at)) [
        | inl here ↦
            let same = (eq_ℤ_iff slot.start.at at).0 here in
            let after : All (λ t. at <ℤ t) (start_instants slots) = rw same at below in
            rw
              (
                find_start-cons check slot slots here,
                find_start_after (found check slot) slots after,
              )
              (ground (arith, same, Any_after r slots after))
        | inr other ↦ rw (find_start-cons check slot slots other) (
            ground (arith, find_start-specialists_iff check slots r e a, eq_ℤ_iff slot.start.at at))
      ]

-- What an answered slot check has established: the service and branch were found, the duration is
-- positive and the instant has not passed, its local day was accepted, and `slots` are the slots
-- computed for that day, in which the answer was looked up.
pub record IsAnswer (s : Service) (tenant_id : String) (x : SlotCheckInput) (check : SlotCheck)
    : Type 0 where
  pub catalog_used : SlotCatalog
  pub catalog_found : catalog s tenant_id x.service_id x.branch_id ≡ ok catalog_used
  pub service_is : check.service ≡ catalog_used.service
  pub branch_is : check.branch ≡ catalog_used.branch
  pub duration_is :
      check.duration_minutes ≡ catalog_used.service.duration_minutes +w x.extra_minutes
  pub positive : pos 0 <ℤ check.duration_minutes
  pub not_past : s.now.at ≤ℤ x.start.at
  pub day : Time
  pub day_accepted :
      slot_day s (s.calendar.format_date (in_zone x.start catalog_used.loc)) catalog_used.loc
      ≡ ok day
  pub slots : List Slot
  pub slots_computed :
      day_slots s tenant_id catalog_used day x.specialist_id x.extra_minutes ≡ ok slots
  pub available_iff : (check.available ≡ true) ↔ Any (λ v. v.start.at ≡ x.start.at) slots
  pub specialists_iff : (r : Ref) → Any (λ y. y ≡ r) check.specialists ↔ Offers slots x.start.at r

-- The slots of a day come from computeSlots, so their starts ascend.
pub day_slots-Ascending :
    (s : Service) (tenant_id : String) (c : SlotCatalog) (day : Time) (specialist_id : String)
    (extra : ℤ) (slots : List Slot)
    → day_slots s tenant_id c day specialist_id extra ≡ ok slots
    → Ascending (start_instants slots)
unfolding day_slots
day_slots-Ascending s tenant_id c day specialist_id extra slots e =
    let (u, valid, e1) = >>=-eq-ok (optional_uuid "specialistId" specialist_id) _ e in
    let (a, read, e2) =
      >>=-eq-ok
        (wrap_err "availability"
          (s.store.availability (availability_query s tenant_id c day specialist_id)))
        _ e1 in
    let (v, known, e3) = >>=-eq-ok (guard (str_eq specialist_id "" || a.specialist_found) _) _ e2 in
    let same = ok-injective e3 in rw (← same) (compute_slots-Ascending _)

-- A check that answers used a catalog of the tenant, a positive duration, an instant that is not past
-- and a local day that slotDay accepts; its slot is available exactly when a slot computed for that
-- day starts at the instant, and its specialists are exactly those whom these slots offer then.
pub check_slot-IsAnswer :
    (s : Service) (tenant_id : String) (x : SlotCheckInput) (check : SlotCheck)
    → check_slot s tenant_id x ≡ ok check
    → IsAnswer s tenant_id x check
unfolding check_slot
check_slot-IsAnswer s tenant_id x check e =
    let (c, found_catalog, e1) = >>=-eq-ok (catalog s tenant_id x.service_id x.branch_id) _ e in
    let duration = c.service.duration_minutes +w x.extra_minutes in
    let (u, positive, e2) = >>=-eq-ok (guard (ltb_ℤ (pos 0) duration) _) _ e1 in
    let (v, not_past, e3) = >>=-eq-ok (guard (not (before x.start s.now)) _) _ e2 in
    let (day, accepted, e4) =
      >>=-eq-ok (slot_day s (s.calendar.format_date (in_zone x.start c.loc)) c.loc) _ e3 in
    let (slots, computed, e5) =
      >>=-eq-ok (day_slots s tenant_id c day x.specialist_id x.extra_minutes) _ e4 in
    let start : SlotCheck = record {
      service = c.service;
      branch = c.branch;
      timezone = zone_name c.loc;
      duration_minutes = duration;
      available = false;
      specialists = [];
    } in
    let answer : find_start x.start.at start slots ≡ check = ok-injective e5 in
    let (same_service, same_branch, same_duration) = find_start_keeps x.start.at start slots in
    let ascending =
      day_slots-Ascending s tenant_id c day x.specialist_id x.extra_minutes slots computed in
    rw (← answer) (record {
      catalog_used = c;
      catalog_found = found_catalog;
      service_is = same_service;
      branch_is = same_branch;
      duration_is = same_duration;
      positive = rw same_duration (ground (arith, guard-eq-ok (ltb_ℤ (pos 0) duration) _ positive));
      not_past = ground (arith, guard-eq-ok (not (before x.start s.now)) _ not_past);
      day = day;
      day_accepted = accepted;
      slots = slots;
      slots_computed = computed;
      available_iff = ground (arith, find_start-available_iff x.start.at start slots);
      specialists_iff = λ r. find_start-specialists_iff x.start.at start slots r refl ascending;
    })

-- A catalog is answered for UUIDs only, and its service and branch are active ones that the store
-- returned for the tenant.
pub catalog-active :
    (s : Service) (tenant_id service_id branch_id : String) (c : SlotCatalog)
    → catalog s tenant_id service_id branch_id ≡ ok c
    → (is_uuid (trim_space service_id) ≡ true)
      × (is_uuid (trim_space branch_id) ≡ true)
      × (s.store.slot_service tenant_id service_id ≡ ok c.service)
      × (c.service.active ≡ true)
      × (s.store.slot_branch tenant_id branch_id ≡ ok c.branch)
      × (c.branch.active ≡ true)
unfolding catalog
catalog-active s tenant_id service_id branch_id c e =
    let (u, service_valid, e1) = >>=-eq-ok (required_uuid "serviceId" service_id) _ e in
    let (v, branch_valid, e2) = >>=-eq-ok (required_uuid "branchId" branch_id) _ e1 in
    let (service, service_found, e3) =
      >>=-eq-ok (active_entity _ (λ v. v.active) (s.store.slot_service tenant_id service_id)) _
        e2 in
    let (branch, branch_found, e4) =
      >>=-eq-ok (active_entity _ (λ v. v.active) (s.store.slot_branch tenant_id branch_id)) _ e3 in
    let a =
      active_entity-eq-ok _ (λ v. v.active) (s.store.slot_service tenant_id service_id)
        service_found in
    let b =
      active_entity-eq-ok _ (λ v. v.active) (s.store.slot_branch tenant_id branch_id)
        branch_found in
    let same = ok-injective e4 in
    rw (← same) (
      required_uuid-eq-ok _ _ service_valid,
      required_uuid-eq-ok _ _ branch_valid,
      a.0,
      a.1,
      b.0,
      b.1,
    )
