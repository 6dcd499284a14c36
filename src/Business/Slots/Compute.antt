-- ===== src/Business/Slots/Compute.antt =====
-- slots.go: candidateStarts and computeSlots.
pub mod Starts
pub mod Loop
pub mod Table
pub mod Offers
pub mod Listing
use Prim.Native.Nat.{Ordering}
use Prim.Native.String.{compare}
use booknow_mcp_service.Base.{
  ℕ, zero, suc, ◌+◌, ◌/◌, ℤ, pos, pos_part, neg_part, String, List, [], ◌∷◌, ◌++◌, map, Option,
  none, some, Bool, true, false, not, leb_ℤ, ltb_ℤ, eq_ℤ, if◌then◌else◌, str_eq, ◌+w◌, ◌*w◌, ◌+ℤ◌,
  ◌-ℤ◌, sub_instants, minute, hour, truncate, sort,
}
use booknow_mcp_service.Business.Types.{Time, Ref}
use booknow_mcp_service.Business.Types.Booking.{
  SpecialistSchedule, ScheduleException, BusyInterval, Slot,
}
use booknow_mcp_service.Business.Slots.Intervals.{Interval, range, subtract}
use booknow_mcp_service.Business.Slots.Hours.{
  DayHours, branch_constraints, specialist_windows, apply_branch,
}

-- `slotInput`, without `loc`, which computeSlots does not read.
pub record SlotInput : Type 0 where
  pub day : Time
  pub now : Time
  pub duration_minutes : ℤ
  pub buffer_minutes : ℤ
  pub requires_specialist : Bool
  pub branch_hours : DayHours
  pub specialists : List SpecialistSchedule
  pub exceptions : List ScheduleException
  pub busy : List BusyInterval

-- `slotStep`: 30 minutes
abbrev pub slot_step : ℕ
slot_step = 1800000000000

-- `!in.day.Add(t).Before(in.now)`
abbrev pub not_started : ℤ → ℤ → ℤ → Bool
not_started day now t = not (ltb_ℤ (day +ℤ t) now)

-- The inner loop of `candidateStarts`, from t on, on fuel.
unfoldable pub starts_from : ℕ → ℤ → ℤ → ℤ → ℤ → ℤ → List ℤ
starts_from zero day now need end t = []
starts_from (suc fuel) day now need end t =
    let later = starts_from fuel day now need end (t +w pos slot_step) in
    if leb_ℤ (t +w need) end then (if not_started day now t then t ∷ later else later) else []

-- The first multiple of the step that is not before the window.
unfoldable pub first_start : ℤ → ℤ
first_start start =
    let t = truncate start slot_step in if ltb_ℤ t start then t +w pos slot_step else t

-- One round more than the whole steps between t and the last start.
abbrev rounds : ℤ → ℤ → ℤ → ℕ
rounds need end t = suc (pos_part (end -ℤ need -ℤ t) / slot_step)

unfoldable pub window_starts : ℤ → ℤ → ℤ → Interval → List ℤ
window_starts day now need w =
    let t = first_start w.start in starts_from (suc (rounds need w.end t)) day now need w.end t

-- `candidateStarts`
unfoldable pub candidate_starts : ℤ → ℤ → List Interval → ℤ → List ℤ
unfolding window_starts
candidate_starts day now [] need = []
candidate_starts day now (w ∷ ws) need =
    window_starts day now need w ++ candidate_starts day now ws need

-- `map[time.Duration][]Ref`, as an association list with one entry for each key.
abbrev pub SlotMap : Type 0
SlotMap = List (ℤ × List Ref)

unfoldable pub slot_refs : ℤ → SlotMap → List Ref
slot_refs start [] = []
slot_refs start ((k, refs) ∷ m) = if eq_ℤ k start then refs else slot_refs start m

-- `bySlot[start] = f(bySlot[start])`
unfoldable pub update_slot : (List Ref → List Ref) → ℤ → SlotMap → SlotMap
update_slot f start [] = (start, f []) ∷ []
update_slot f start ((k, refs) ∷ m) =
    if eq_ℤ k start then (k, f refs) ∷ m else (k, refs) ∷ update_slot f start m

unfoldable pub update_slots : (List Ref → List Ref) → List ℤ → SlotMap → SlotMap
update_slots f [] m = m
update_slots f (start ∷ starts) m = update_slots f starts (update_slot f start m)

-- The windows of a specialist less the busy intervals.
unfoldable pub subtract_busy : ℤ → String → List BusyInterval → List Interval → List Interval
subtract_busy day id [] windows = windows
subtract_busy day id (b ∷ bs) windows = subtract_busy day id bs (
    if str_eq b.specialist_id id
    then subtract windows (range (sub_instants b.start.at day) (sub_instants b.end.at day))
    else windows)

abbrev less_busy :
    SlotInput → DayHours → List Interval → String → Option (List Interval) → List Interval
less_busy x branch blocks id none = []
less_busy x branch blocks id (some windows) =
    subtract_busy x.day.at id x.busy (apply_branch windows branch blocks)

-- Working time of a specialist that is open and not busy; none on a day that is not worked.
unfoldable pub free_windows :
    SlotInput → DayHours → List Interval → SpecialistSchedule → List Interval
free_windows x branch blocks sp =
    less_busy x branch blocks sp.id (specialist_windows x.exceptions sp)

unfoldable pub add_specialists :
    SlotInput → DayHours → List Interval → ℤ → List SpecialistSchedule → SlotMap → SlotMap
add_specialists x branch blocks need [] m = m
add_specialists x branch blocks need (sp ∷ sps) m = add_specialists x branch blocks need sps (
    update_slots (λ refs. refs ++ record { id = sp.id; name = sp.name } ∷ [])
      (candidate_starts x.day.at x.now.at (free_windows x branch blocks sp) need) m)

abbrev pub whole_day : Interval
whole_day = range (pos 0) (pos 86400000000000)

-- The starts with the specialists free at each.
unfoldable pub by_slot : SlotInput → DayHours → List Interval → ℤ → SlotMap
by_slot x branch blocks need =
    if x.requires_specialist
    then add_specialists x branch blocks need x.specialists []
    else update_slots (λ refs. [])
        (candidate_starts x.day.at x.now.at (apply_branch (whole_day ∷ []) branch blocks) need) []

abbrev is_gt : Ordering → Bool
is_gt Ordering.gt = true
is_gt _ = false

abbrev then_compare : Ordering → Ordering → Ordering
then_compare Ordering.eq o = o
then_compare Ordering.lt o = Ordering.lt
then_compare Ordering.gt o = Ordering.gt

-- The comparison of `SortFunc`: by name, then by ID.
abbrev pub ref_le : Ref → Ref → Bool
ref_le a b = not (is_gt (then_compare (compare a.name b.name) (compare a.id b.id)))

-- `slots = append(slots, Slot{…})`
abbrev pub slot_at : Time → ℤ → SlotMap → ℤ → Slot
slot_at day duration m start = record {
  start = record day { at = day.at +ℤ start };
  end = record day { at = day.at +ℤ start +ℤ duration };
  specialists = sort ref_le (slot_refs start m);
}

abbrev pub need_of : SlotInput → ℤ
need_of x = (x.duration_minutes +w x.buffer_minutes) *w minute

-- The slots of a day, in order.
abbrev pub slots_of : SlotInput → SlotMap → List Slot
slots_of x m = map (slot_at x.day (x.duration_minutes *w minute) m) (sort leb_ℤ (map (λ e. e.0) m))

abbrev slots_if_open : SlotInput → Option (DayHours × List Interval) → List Slot
slots_if_open x none = []
slots_if_open x (some (branch, blocks)) = slots_of x (by_slot x branch blocks (need_of x))

-- `computeSlots`
unfoldable pub compute_slots : SlotInput → List Slot
compute_slots x = slots_if_open x (branch_constraints x.branch_hours x.exceptions)
