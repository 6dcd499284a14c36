-- ===== src/Business/Slots/Hours/InDay.antt =====
-- slots.go: the windows of a specialist and of a branch lie inside the day.
use booknow_mcp_service.Base.{
  ℤ, String, List, [], ◌∷◌, Option, none, some, Bool, ◌≡◌, refl, All, All-append_iff, arith, ◌≤◌,
  pos_part, neg_part,
}
use booknow_mcp_service.Business.Types.Booking.{Shift, SpecialistSchedule, ScheduleException}
use booknow_mcp_service.Business.Slots.Intervals.{Interval, range, subtract, intersect}
use booknow_mcp_service.Business.Slots.Clock.{parse_clock}
use booknow_mcp_service.Business.Slots.Clock.Bounds.{IsClock, parse_clock-IsClock}
use booknow_mcp_service.Business.Slots.Hours.{
  between, ExceptionEffect, no_effect, add_exception, effect_from, DayHours, clock_range,
  optional_range, effect_of, is_of, shift_less_break, shift_windows, all_shift_windows,
  subtract_all, regular, unless_empty, specialist_windows, apply_branch,
}

-- A window inside the day: from midnight on, and at most 24 hours long in all.
abbrev pub InDay : Interval → Type 0
InDay w =
    (neg_part w.start ≡ 0) × (pos_part w.start ≤ 86400000000000) × (pos_part w.end ≤ 86400000000000)

pub subtract-InDay :
    (ws : List Interval) (cut : Interval) → All InDay ws → All InDay (subtract ws cut)
unfolding subtract
subtract-InDay [] cut h = tt
subtract-InDay (w ∷ ws) cut h = ground (arith, subtract-InDay ws cut h.1)

intersect-InDay :
    (ws : List Interval) (limit : Interval) → All InDay ws → All InDay (intersect ws limit)
unfolding intersect
intersect-InDay [] limit h = tt
intersect-InDay (w ∷ ws) limit h = ground (arith, intersect-InDay ws limit h.1)

subtract_all-InDay : (ws cuts : List Interval) → All InDay ws → All InDay (subtract_all ws cuts)
unfolding subtract_all
subtract_all-InDay ws [] h = h
subtract_all-InDay ws (cut ∷ cuts) h =
    subtract_all-InDay (subtract ws cut) cuts (subtract-InDay ws cut h)

pub apply_branch-InDay :
    (ws : List Interval) (hours : DayHours) (blocks : List Interval)
    → All InDay ws
    → All InDay (apply_branch ws hours blocks)
unfolding apply_branch
apply_branch-InDay ws hours blocks h = ground (
  arith,
  subtract_all-InDay ws blocks,
  subtract_all-InDay (intersect ws (range hours.open_at hours.close_at)) blocks,
  intersect-InDay ws (range hours.open_at hours.close_at) h,
)

between-InDay :
    (a b : Option ℤ) (r : Interval)
    → ((t : ℤ) → a ≡ some t → IsClock t)
    → ((t : ℤ) → b ≡ some t → IsClock t)
    → between a b ≡ some r
    → InDay r
between-InDay none b r h k e = cc
between-InDay (some s) none r h k e = cc
between-InDay (some s) (some t) r h k e = ground (arith, h s refl, k t refl)

-- A clock text is a time of the day.
clock_range-InDay : (s t : String) (r : Interval) → clock_range s t ≡ some r → InDay r
unfolding clock_range
clock_range-InDay s t r e =
    between-InDay (parse_clock s) (parse_clock t) r (parse_clock-IsClock s) (parse_clock-IsClock t)
      e

optional_range-InDay : (s t : Option String) (r : Interval) → optional_range s t ≡ some r → InDay r
unfolding optional_range
optional_range-InDay none t r e = cc
optional_range-InDay (some a) none r e = cc
optional_range-InDay (some a) (some b) r e = clock_range-InDay a b r e

abbrev OptionInDay : Option Interval → Type 0
OptionInDay none = Unit
OptionInDay (some r) = InDay r

option-InDay : (o : Option Interval) → ((r : Interval) → o ≡ some r → InDay r) → OptionInDay o
option-InDay none h = tt
option-InDay (some r) h = h r refl

shift_less_break-InDay :
    (r rest : Option Interval) → OptionInDay r → All InDay (shift_less_break r rest)
shift_less_break-InDay none rest h = tt
shift_less_break-InDay (some r) none h = (h, tt)
shift_less_break-InDay (some r) (some cut) h = subtract-InDay (r ∷ []) cut (h, tt)

all_shift_windows-InDay : (shs : List Shift) → All InDay (all_shift_windows shs)
unfolding all_shift_windows shift_windows
all_shift_windows-InDay [] = tt
all_shift_windows-InDay (sh ∷ shs) = (All-append_iff InDay _ _).1 (
  shift_less_break-InDay _ _ (option-InDay _ (clock_range-InDay sh.start sh.end)),
  all_shift_windows-InDay shs,
)

add-special :
    (ex : ScheduleException) (o : Option Interval) (effect : ExceptionEffect)
    → OptionInDay o
    → OptionInDay effect.special
    → OptionInDay (add_exception ex o effect).special
unfolding add_exception
add-special ex none effect h k = ground arith
add-special ex (some r) effect h k = ground arith

special_from :
    (applies : ScheduleException → Bool) (exs : List ScheduleException) (effect : ExceptionEffect)
    → OptionInDay effect.special
    → OptionInDay (effect_from applies effect exs).special
unfolding effect_from
special_from applies [] effect h = h
special_from applies (ex ∷ exs) effect h =
    let hours = option-InDay _ (optional_range-InDay ex.start ex.end) in
    ground (
      arith,
      special_from applies exs effect h,
      special_from applies exs (add_exception ex (optional_range ex.start ex.end) effect)
          (add-special ex _ effect hours h),
    )

regular-InDay :
    (o : Option Interval) (sp : SpecialistSchedule) → OptionInDay o → All InDay (regular o sp)
regular-InDay none sp h = all_shift_windows-InDay sp.shifts
regular-InDay (some r) sp h = (h, tt)

abbrev pub AllInDay : Option (List Interval) → Type 0
AllInDay none = Unit
AllInDay (some ws) = All InDay ws

unless_empty-AllInDay : (ws : List Interval) → All InDay ws → AllInDay (unless_empty ws)
unless_empty-AllInDay [] h = tt
unless_empty-AllInDay (w ∷ ws) h = h

-- All windows of a specialist lie inside the day.
pub specialist_windows-AllInDay :
    (exs : List ScheduleException) (sp : SpecialistSchedule) → AllInDay (specialist_windows exs sp)
unfolding specialist_windows effect_of
specialist_windows-AllInDay exs sp =
    let effect = effect_of exs (is_of sp.id) in
    let windows = regular effect.special sp in
    ground (
      arith,
      unless_empty-AllInDay (subtract_all windows effect.blocks) (
          subtract_all-InDay windows effect.blocks
            (regular-InDay effect.special sp (special_from (is_of sp.id) exs no_effect tt))),
    )
