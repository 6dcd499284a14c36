-- ===== src/Business/Slots/Compute/Listing.antt =====
-- slots.go, computeSlots: the slots of a day, and what a caller finds in them.
use booknow_mcp_service.Base.{
  ℕ, ◌<◌, ◌≤◌, ℤ, pos, pos_part, neg_part, List, [], ◌∷◌, map, some, true, false, leb_ℤ, ◌≡◌, ap,
  ◌⊎◌, inl, inr, ◌↔◌, Any, Any-map_iff, Any-imp, arith, ◌≤ℤ◌, ◌+ℤ◌, +ℤ_parts, eq_of_parts, sort,
  sort-Any, ◌*w◌, minute, ◌<ℤ◌, All, Option-cases,
}
use booknow_mcp_service.Business.Types.{Ref}
use booknow_mcp_service.Business.Types.Booking.{Slot}
use booknow_mcp_service.Business.Slots.Intervals.{Interval, range, Inside, Apart}
use booknow_mcp_service.Business.Slots.Hours.{DayHours, branch_constraints, apply_branch}
use booknow_mcp_service.Business.Slots.Hours.Windows.{Fits-apply_branch_iff}
use booknow_mcp_service.Business.Slots.Hours.InDay.{apply_branch-InDay}
use booknow_mcp_service.Business.Slots.Compute.{
  SlotInput, SlotMap, slot_refs, by_slot, ref_le, slot_at, slots_of, need_of, whole_day,
  candidate_starts, compute_slots,
}
use booknow_mcp_service.Business.Slots.Compute.Starts.{OnGrid, far, candidate_starts_iff}
use booknow_mcp_service.Business.Slots.Compute.Table.{
  keys, Has, Has-keys-update_slots, Has-keys_of_refs, Distinct, Ascending, sort-Ascending,
}
use booknow_mcp_service.Business.Slots.Compute.Offers.{
  IsBookable, by_slot_iff, by_slot-Distinct, All-IsNear, range_positive,
}

-- Some slot of the list starts at the instant, with the specialist among those free.
abbrev pub Offers : List Slot → ℤ → Ref → Type 0
Offers slots at r = Any (λ s. (s.start.at ≡ at) × Any (λ y. y ≡ r) s.specialists) slots

+ℤ_cancel_left : (a b c : ℤ) → a +ℤ b ≡ a +ℤ c → b ≡ c
+ℤ_cancel_left a b c e =
    eq_of_parts b c (omega (arith, +ℤ_parts a b, +ℤ_parts a c, ap pos_part e, ap neg_part e))

module _ (x : SlotInput) (m : SlotMap) (t : ℤ) (r : Ref) where
  -- The slot of key k starts at the offset t and names the specialist.
  abbrev Matches : ℤ → Type 0
  Matches k = (x.day.at +ℤ k ≡ x.day.at +ℤ t) × Any (λ y. y ≡ r) (sort ref_le (slot_refs k m))

  refs_of_match : (ks : List ℤ) → Any Matches ks → Any (λ y. y ≡ r) (slot_refs t m)
  refs_of_match (k ∷ ks) (inl (same, h)) =
      let e : k ≡ t = +ℤ_cancel_left x.day.at k t same in
      rw (← e) ((sort-Any ref_le (λ y. y ≡ r) (slot_refs k m)).0 h)
  refs_of_match (k ∷ ks) (inr h) = refs_of_match ks h
  refs_of_match [] h = absurd h

  match_of_key : (ks : List ℤ) → Has t ks → Any (λ y. y ≡ r) (slot_refs t m) → Any Matches ks
  match_of_key (k ∷ ks) (inl e) h =
      inl (ap (λ u. x.day.at +ℤ u) e, rw e ((sort-Any ref_le (λ y. y ≡ r) (slot_refs t m)).1 h))
  match_of_key (k ∷ ks) (inr later) h = inr (match_of_key ks later h)
  match_of_key [] later h = absurd later

  Offers-slots_of_iff : Offers (slots_of x m) (x.day.at +ℤ t) r ↔ Any (λ y. y ≡ r) (slot_refs t m)
  Offers-slots_of_iff =
      let slot = slot_at x.day (x.duration_minutes *w minute) m in
      let hit : Slot → Type 0 =
        λ s. (s.start.at ≡ x.day.at +ℤ t) × Any (λ y. y ≡ r) s.specialists in
      let mapped = Any-map_iff hit slot (sort leb_ℤ (keys m)) in
      let sorted = sort-Any leb_ℤ Matches (keys m) in
      (
        λ h. refs_of_match (keys m) (sorted.0 (mapped.0 h)),
        λ h. mapped.1 (sorted.1 (match_of_key (keys m) (Has-keys_of_refs (λ y. y ≡ r) t m h) h)),
      )

-- For a service that requires a specialist, on a day when the branch works: a specialist is
-- offered at the offset t from midnight exactly when the specialist is listed and bookable then,
-- where the need is the duration and the buffer in nanoseconds, positive and at most 2 ^ 61.
pub compute_slots-Offers_iff :
    (x : SlotInput) (branch : DayHours) (blocks : List Interval) (need : ℕ) (t : ℤ) (r : Ref)
    → x.requires_specialist ≡ true
    → branch_constraints x.branch_hours x.exceptions ≡ some (branch, blocks)
    → need_of x ≡ pos need
    → 0 < need
    → need ≤ far
    → Offers (compute_slots x) (x.day.at +ℤ t) r
      ↔ Any
          (λ sp. (record { id = sp.id; name = sp.name } ≡ r) × IsBookable x branch blocks need sp t)
          x.specialists
unfolding compute_slots
compute_slots-Offers_iff x branch blocks need t r required on e p q =
    rw (on, e)
      (ground (
        arith,
        Offers-slots_of_iff x (by_slot x branch blocks (pos need)) t r,
        by_slot_iff x branch blocks need p q t r required,
      ))

abbrev pub start_instants : List Slot → List ℤ
start_instants slots = map (λ s. s.start.at) slots

module _ (x : SlotInput) (m : SlotMap) where
  abbrev slot : ℤ → Slot
  slot = slot_at x.day (x.duration_minutes *w minute) m

  shifted-All :
      (t : ℤ) (ts : List ℤ)
      → All (λ u. t <ℤ u) ts
      → All (λ u. x.day.at +ℤ t <ℤ u) (start_instants (map slot ts))
  shifted-All t [] h = tt
  shifted-All t (u ∷ ts) (lt, h) =
      (omega (arith, +ℤ_parts x.day.at t, +ℤ_parts x.day.at u), shifted-All t ts h)

  day-Ascending : (ts : List ℤ) → Ascending ts → Ascending (start_instants (map slot ts))
  day-Ascending [] h = tt
  day-Ascending (t ∷ ts) (below, h) = (shifted-All t ts below, day-Ascending ts h)

  slots_of-Ascending : Distinct (keys m) → Ascending (start_instants (slots_of x m))
  slots_of-Ascending d = day-Ascending (sort leb_ℤ (keys m)) (sort-Ascending (keys m) d)

-- The slots come in strictly ascending order of their starts, so no start is listed twice.
pub compute_slots-Ascending : (x : SlotInput) → Ascending (start_instants (compute_slots x))
unfolding compute_slots
compute_slots-Ascending x = elim (Option-cases (branch_constraints x.branch_hours x.exceptions)) [
  | inl closed ↦ rw closed tt
  | inr ((branch, blocks), works) ↦
      rw works (slots_of-Ascending x _ (by_slot-Distinct x branch blocks (need_of x)))
]

module _ (x : SlotInput) (m : SlotMap) (t : ℤ) where
  abbrev StartsAt : Slot → Type 0
  StartsAt s = s.start.at ≡ x.day.at +ℤ t

  key_of_start : (ks : List ℤ) → Any (λ k. x.day.at +ℤ k ≡ x.day.at +ℤ t) ks → Has t ks
  key_of_start ks h =
      Any-imp (λ k. x.day.at +ℤ k ≡ x.day.at +ℤ t) (λ k. k ≡ t) ks
        (λ k e. +ℤ_cancel_left x.day.at k t e) h

  start_of_key : (ks : List ℤ) → Has t ks → Any (λ k. x.day.at +ℤ k ≡ x.day.at +ℤ t) ks
  start_of_key ks h =
      Any-imp (λ k. k ≡ t) (λ k. x.day.at +ℤ k ≡ x.day.at +ℤ t) ks
        (λ k e. ap (λ u. x.day.at +ℤ u) e) h

  starts_iff : Any StartsAt (slots_of x m) ↔ Has t (keys m)
  starts_iff =
      let mapped =
        Any-map_iff StartsAt (slot_at x.day (x.duration_minutes *w minute) m)
          (sort leb_ℤ (keys m)) in
      let sorted = sort-Any leb_ℤ (λ k. x.day.at +ℤ k ≡ x.day.at +ℤ t) (keys m) in
      (
        λ h. key_of_start (keys m) (sorted.0 (mapped.0 h)),
        λ h. mapped.1 (sorted.1 (start_of_key (keys m) h)),
      )

-- For a service without specialists, on a day when the branch works, and a need that is positive and
-- at most 2 ^ 61 nanoseconds: a start is offered exactly when it is on the grid, has not passed, and
-- the need fits the day and the branch hours and meets no branch absence.
pub compute_slots-branch_iff :
    (x : SlotInput) (branch : DayHours) (blocks : List Interval) (need : ℕ) (t : ℤ)
    → x.requires_specialist ≡ false
    → branch_constraints x.branch_hours x.exceptions ≡ some (branch, blocks)
    → need_of x ≡ pos need
    → 0 < need
    → need ≤ far
    → Any (λ s. s.start.at ≡ x.day.at +ℤ t) (compute_slots x) ↔ (
        OnGrid t
        × (x.now.at ≤ℤ x.day.at +ℤ t)
        × Inside t (t +ℤ pos need) whole_day
        × ((branch.restricted ≡ false)
            ⊎ Inside t (t +ℤ pos need) (range branch.open_at branch.close_at))
        × All (Apart t (t +ℤ pos need)) blocks)
unfolding compute_slots by_slot
compute_slots-branch_iff x branch blocks need t alone on e p q =
    let windows = apply_branch (whole_day ∷ []) branch blocks in
    let starts = candidate_starts x.day.at x.now.at windows (pos need) in
    rw (on, e)
      (ground (
        arith,
        alone,
        starts_iff x (by_slot x branch blocks (pos need)) t,
        Has-keys-update_slots (λ refs. []) starts t [],
        candidate_starts_iff x.day.at x.now.at windows need t
            (All-IsNear windows (apply_branch-InDay (whole_day ∷ []) branch blocks (omega arith))) p
            q,
        Fits-apply_branch_iff t (t +ℤ pos need) (range_positive t need p) (whole_day ∷ []) branch
            blocks,
      ))
