-- ===== src/Business/Slots/Compute/Offers.antt =====
-- slots.go, computeSlots: exactly which starts and specialists are offered.
use booknow_mcp_service.Base.{
  ℕ, ◌<◌, ◌≤◌, ℤ, pos, String, List, [], ◌∷◌, ◌++◌, true, false, Option-cases, if_cases, str_eq,
  ◌≡◌, ◌⊎◌, inl, inr, ◌↔◌, All, Any, arith, ◌+ℤ◌, +ℤ_parts, ◌≤ℤ◌, ◌<ℤ◌, sub_instants,
}
use booknow_mcp_service.Business.Types.{Ref}
use booknow_mcp_service.Business.Types.Booking.{SpecialistSchedule, BusyInterval}
use booknow_mcp_service.Business.Slots.Intervals.{
  Interval, range, subtract, Inside, Fits, Apart, Fits-subtract_iff,
}
use booknow_mcp_service.Business.Slots.Hours.{DayHours, specialist_windows, apply_branch}
use booknow_mcp_service.Business.Slots.Hours.Windows.{
  WorksThrough, Fits-specialist_windows_iff, Fits-apply_branch_iff,
}
use booknow_mcp_service.Business.Slots.Hours.InDay.{
  InDay, apply_branch-InDay, subtract-InDay, specialist_windows-AllInDay,
}
use booknow_mcp_service.Business.Slots.Compute.{
  SlotInput, SlotMap, candidate_starts, slot_refs, update_slots, subtract_busy, free_windows,
  add_specialists, by_slot,
}
use booknow_mcp_service.Business.Slots.Compute.Starts.{OnGrid, far, IsNear, candidate_starts_iff}
use booknow_mcp_service.Business.Slots.Compute.Table.{
  keys, Has, Names-update_slots, Distinct, Distinct-update_slots,
}

-- The range of an appointment, as offsets from local midnight.
abbrev pub busy_range : ℤ → BusyInterval → Interval
busy_range day b = range (sub_instants b.start.at day) (sub_instants b.end.at day)

module _ (a b : ℤ) where
  -- The specialist can take the range: they work through it, the branch is open with no absence in
  -- it, and none of their appointments meets it.
  abbrev pub IsFree : SlotInput → DayHours → List Interval → SpecialistSchedule → Type 0
  IsFree x branch blocks sp =
      WorksThrough a b x.exceptions sp
      × ((branch.restricted ≡ false) ⊎ Inside a b (range branch.open_at branch.close_at))
      × All (Apart a b) blocks
      × All (λ c. (str_eq c.specialist_id sp.id ≡ false) ⊎ Apart a b (busy_range x.day.at c)) x.busy

module _ (a b : ℤ) (positive : a <ℤ b) where
  Fits-subtract_busy_iff :
      (day : ℤ) (id : String) (bs : List BusyInterval) (ws : List Interval)
      → Fits a b (subtract_busy day id bs ws) ↔ (
          Fits a b ws
          × All (λ c. (str_eq c.specialist_id id ≡ false) ⊎ Apart a b (busy_range day c)) bs)
  unfolding subtract_busy
  Fits-subtract_busy_iff day id [] ws = ground arith
  Fits-subtract_busy_iff day id (c ∷ bs) ws = ground (
    arith,
    Fits-subtract_iff a b ws (busy_range day c) positive,
    Fits-subtract_busy_iff day id bs ws,
    Fits-subtract_busy_iff day id bs (subtract ws (busy_range day c)),
  )

  Fits-free_windows_iff :
      (x : SlotInput) (branch : DayHours) (blocks : List Interval) (sp : SpecialistSchedule)
      → Fits a b (free_windows x branch blocks sp) ↔ IsFree a b x branch blocks sp
  unfolding free_windows
  Fits-free_windows_iff x branch blocks sp =
      let works = Fits-specialist_windows_iff a b positive x.exceptions sp in
      elim (Option-cases (specialist_windows x.exceptions sp)) [
        | inl off ↦ rw off (λ h. absurd h, λ f. absurd (rw off at works.1 f.0))
        | inr (ws, on) ↦
            let works' : Fits a b ws ↔ WorksThrough a b x.exceptions sp = rw on at works in
            rw on (
              ground (
                arith,
                works',
                Fits-apply_branch_iff a b positive ws branch blocks,
                Fits-subtract_busy_iff x.day.at sp.id x.busy (apply_branch ws branch blocks),
              ))
      ]

busy-InDay :
    (day : ℤ) (id : String) (bs : List BusyInterval) (ws : List Interval)
    → All InDay ws
    → All InDay (subtract_busy day id bs ws)
unfolding subtract_busy
busy-InDay day id [] ws h = h
busy-InDay day id (c ∷ bs) ws h = ground (
  arith,
  busy-InDay day id bs ws h,
  busy-InDay day id bs (subtract ws (busy_range day c)) (subtract-InDay ws (busy_range day c) h),
)

free_windows-InDay :
    (x : SlotInput) (branch : DayHours) (blocks : List Interval) (sp : SpecialistSchedule)
    → All InDay (free_windows x branch blocks sp)
unfolding free_windows
free_windows-InDay x branch blocks sp = elim (Option-cases (specialist_windows x.exceptions sp)) [
  | inl off ↦ rw off tt
  | inr (ws, on) ↦
      let within : All InDay ws = rw on at (specialist_windows-AllInDay x.exceptions sp) in
      rw on (busy-InDay x.day.at sp.id x.busy _ (apply_branch-InDay ws branch blocks within))
]

pub All-IsNear : (ws : List Interval) → All InDay ws → All IsNear ws
All-IsNear [] h = tt
All-IsNear (w ∷ ws) (h, hs) = (omega arith, All-IsNear ws hs)

pub range_positive : (t : ℤ) (need : ℕ) → 0 < need → t <ℤ t +ℤ pos need
range_positive t need p = omega (arith, +ℤ_parts t (pos need))

-- The service can start at the offset t with the specialist: t is on the 30-minute grid, it has
-- not passed, and the specialist is free from t for the whole need.
abbrev pub IsBookable : SlotInput → DayHours → List Interval → ℕ → SpecialistSchedule → ℤ → Type 0
IsBookable x branch blocks need sp t =
    OnGrid t × IsFree t (t +ℤ pos need) x branch blocks sp × (x.now.at ≤ℤ x.day.at +ℤ t)

module _ (x : SlotInput) (branch : DayHours) (blocks : List Interval) (need : ℕ) (p : 0 < need)
    (q : need ≤ far) where
  free_starts_iff :
      (sp : SpecialistSchedule) (t : ℤ)
      → Has t (candidate_starts x.day.at x.now.at (free_windows x branch blocks sp) (pos need))
        ↔ IsBookable x branch blocks need sp t
  free_starts_iff sp t = ground (
    arith,
    Fits-free_windows_iff t (t +ℤ pos need) (range_positive t need p) x branch blocks sp,
    candidate_starts_iff x.day.at x.now.at (free_windows x branch blocks sp) need t
        (All-IsNear _ (free_windows-InDay x branch blocks sp)) p q,
  )

  abbrev ref_of : SpecialistSchedule → Ref
  ref_of sp = record { id = sp.id; name = sp.name }

  add_specialists_iff :
      (sps : List SpecialistSchedule) (m : SlotMap) (t : ℤ) (r : Ref)
      → Any (λ y. y ≡ r) (slot_refs t (add_specialists x branch blocks (pos need) sps m)) ↔ (
          Any (λ y. y ≡ r) (slot_refs t m)
          ⊎ Any (λ sp. (ref_of sp ≡ r) × IsBookable x branch blocks need sp t) sps)
  unfolding add_specialists
  add_specialists_iff [] m t r = ground arith
  add_specialists_iff (sp ∷ sps) m t r =
      let starts =
        candidate_starts x.day.at x.now.at (free_windows x branch blocks sp) (pos need) in
      ground (
        arith,
        add_specialists_iff sps (update_slots (λ refs. refs ++ ref_of sp ∷ []) starts m) t r,
        Names-update_slots r (ref_of sp) starts t m,
        free_starts_iff sp t,
      )

  pub by_slot_iff :
      (t : ℤ) (r : Ref)
      → x.requires_specialist ≡ true
      → Any (λ y. y ≡ r) (slot_refs t (by_slot x branch blocks (pos need)))
        ↔ Any (λ sp. (ref_of sp ≡ r) × IsBookable x branch blocks need sp t) x.specialists
  unfolding by_slot slot_refs
  by_slot_iff t r e = rw e (ground (arith, add_specialists_iff x.specialists [] t r))

-- Each start is a key once, whether or not the service requires a specialist.
add_specialists-Distinct :
    (x : SlotInput) (branch : DayHours) (blocks : List Interval) (need : ℤ)
    (sps : List SpecialistSchedule) (m : SlotMap)
    → Distinct (keys m)
    → Distinct (keys (add_specialists x branch blocks need sps m))
unfolding add_specialists
add_specialists-Distinct x branch blocks need [] m d = d
add_specialists-Distinct x branch blocks need (sp ∷ sps) m d =
    add_specialists-Distinct x branch blocks need sps _ (Distinct-update_slots _ _ m d)

pub by_slot-Distinct :
    (x : SlotInput) (branch : DayHours) (blocks : List Interval) (need : ℤ)
    → Distinct (keys (by_slot x branch blocks need))
unfolding by_slot
by_slot-Distinct x branch blocks need =
    if_cases (λ m. Distinct (keys m)) x.requires_specialist
      (add_specialists-Distinct x branch blocks need x.specialists [] tt)
      (Distinct-update_slots _ _ [] tt)
