-- ===== src/Business/Slots/Hours/Windows.antt =====
-- slots.go: which ranges fit the windows of a specialist and of a branch.
use booknow_mcp_service.Base.{
  ℤ, List, [], ◌∷◌, Option, none, some, true, false, Bool-cases, ◌≡◌, ◌⊎◌, inl, inr, ◌↔◌, All, Any,
  Any-append, arith, ◌<ℤ◌,
}
use booknow_mcp_service.Business.Types.Booking.{Shift, SpecialistSchedule, ScheduleException}
use booknow_mcp_service.Business.Slots.Intervals.{
  Interval, range, subtract, intersect, Inside, Fits, Apart, Fits-subtract_iff, Fits-intersect_iff,
}
use booknow_mcp_service.Business.Slots.Hours.{
  DayHours, clock_range, optional_range, effect_of, is_of, shift_less_break, shift_windows,
  all_shift_windows, subtract_all, regular, unless_empty, specialist_windows, apply_branch,
}
use booknow_mcp_service.Business.Slots.Hours.Effects.{
  TakesDay, OnRange, BlocksOnly, effect_of-day_off_iff, effect_of-blocks_iff,
}

module _ (a b : ℤ) where
  -- The range lies in a shift and outside its break.
  abbrev pub InShift : Option Interval → Option Interval → Type 0
  InShift none rest = ⊥
  InShift (some r) rest = Inside a b r × OnRange (Apart a b) rest

  abbrev pub FitsShift : Shift → Type 0
  FitsShift sh = InShift (clock_range sh.start sh.end) (optional_range sh.break_start sh.break_end)

  -- The regular shifts of a specialist, or the special hours in their place.
  abbrev pub InHours : Option Interval → List Shift → Type 0
  InHours none shifts = Any FitsShift shifts
  InHours (some r) shifts = Inside a b r

  -- When a specialist works through the range: no exception of theirs takes the day, their shifts
  -- or special hours hold it, and no timed absence of theirs meets it.
  abbrev pub WorksThrough : List ScheduleException → SpecialistSchedule → Type 0
  WorksThrough exs sp =
      ¬ (Any (λ ex. (is_of sp.id ex ≡ true) × TakesDay ex) exs)
      × InHours (effect_of exs (is_of sp.id)).special sp.shifts
      × All (λ ex. (is_of sp.id ex ≡ false) ⊎ BlocksOnly (Apart a b) ex) exs

  abbrev pub FitsOption : Option (List Interval) → Type 0
  FitsOption none = ⊥
  FitsOption (some ws) = Fits a b ws

module _ (a b : ℤ) (positive : a <ℤ b) where
  pub Fits-subtract_all_iff :
      (ws cuts : List Interval)
      → Fits a b (subtract_all ws cuts) ↔ (Fits a b ws × All (Apart a b) cuts)
  unfolding subtract_all
  Fits-subtract_all_iff ws [] = ground arith
  Fits-subtract_all_iff ws (cut ∷ cuts) =
      ground
        (arith, Fits-subtract_iff a b ws cut positive, Fits-subtract_all_iff (subtract ws cut) cuts)

  -- A range fits the windows of a branch exactly when it fits the given windows, lies inside the
  -- branch hours if there are any, and meets no absence of the branch.
  pub Fits-apply_branch_iff :
      (ws : List Interval) (hours : DayHours) (blocks : List Interval)
      → Fits a b (apply_branch ws hours blocks) ↔ (
          Fits a b ws
          × ((hours.restricted ≡ false) ⊎ Inside a b (range hours.open_at hours.close_at))
          × All (Apart a b) blocks)
  unfolding apply_branch
  Fits-apply_branch_iff ws hours blocks = ground (
    arith,
    Fits-intersect_iff a b ws (range hours.open_at hours.close_at) positive,
    Fits-subtract_all_iff ws blocks,
    Fits-subtract_all_iff (intersect ws (range hours.open_at hours.close_at)) blocks,
  )

  Fits-shift_less_break_iff :
      (r rest : Option Interval) → Fits a b (shift_less_break r rest) ↔ InShift a b r rest
  Fits-shift_less_break_iff none rest = ground arith
  Fits-shift_less_break_iff (some r) none = ground arith
  Fits-shift_less_break_iff (some r) (some cut) =
      ground (arith, Fits-subtract_iff a b (r ∷ []) cut positive)

  pub Fits-all_shift_windows_iff :
      (shs : List Shift) → Fits a b (all_shift_windows shs) ↔ Any (FitsShift a b) shs
  unfolding all_shift_windows shift_windows
  Fits-all_shift_windows_iff [] = ground arith
  Fits-all_shift_windows_iff (sh ∷ shs) = ground (
    arith,
    Any-append (Inside a b) (shift_windows sh) (all_shift_windows shs),
    Fits-shift_less_break_iff (clock_range sh.start sh.end)
        (optional_range sh.break_start sh.break_end),
    Fits-all_shift_windows_iff shs,
  )

  FitsOption-unless_empty_iff :
      (ws : List Interval) → FitsOption a b (unless_empty ws) ↔ Fits a b ws
  FitsOption-unless_empty_iff [] = ground arith
  FitsOption-unless_empty_iff (w ∷ ws) = ground arith

  Fits-regular_iff :
      (o : Option Interval) (sp : SpecialistSchedule)
      → Fits a b (regular o sp) ↔ InHours a b o sp.shifts
  Fits-regular_iff none sp = Fits-all_shift_windows_iff sp.shifts
  Fits-regular_iff (some r) sp = ground arith

  -- The windows of a specialist hold exactly the ranges through which the specialist works.
  pub Fits-specialist_windows_iff :
      (exs : List ScheduleException) (sp : SpecialistSchedule)
      → FitsOption a b (specialist_windows exs sp) ↔ WorksThrough a b exs sp
  unfolding specialist_windows
  Fits-specialist_windows_iff exs sp =
      let applies = is_of sp.id in
      let effect = effect_of exs applies in
      let windows = regular effect.special sp in
      let off = effect_of-day_off_iff applies exs in
      elim (Bool-cases effect.day_off) [
        | inl taken ↦ rw taken (λ h. absurd h, λ w. absurd (w.0 (off.0 taken)))
        | inr free ↦ rw free (
            ground (
              arith,
              off,
              FitsOption-unless_empty_iff (subtract_all windows effect.blocks),
              Fits-subtract_all_iff windows effect.blocks,
              Fits-regular_iff effect.special sp,
              effect_of-blocks_iff applies (Apart a b) exs,
            ))
      ]
