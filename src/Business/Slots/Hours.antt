-- ===== src/Business/Slots/Hours.antt =====
-- slots.go: the branch hours, the schedule exceptions and the shifts, as windows of a day.
pub mod Effects
pub mod Windows
pub mod InDay
pub mod Special
pub mod Works
use booknow_mcp_service.Base.{
  ℤ, pos, String, List, [], ◌∷◌, ◌++◌, Option, none, some, Bool, true, false, not, ◌&&◌, ◌||◌,
  leb_ℤ, if◌then◌else◌, str_eq,
}
use booknow_mcp_service.Business.Types.Booking.{Shift, SpecialistSchedule, ScheduleException}
use booknow_mcp_service.Business.Slots.Clock.{parse_clock}
use booknow_mcp_service.Business.Slots.Intervals.{Interval, range, subtract, intersect}

-- `dayHours`
pub record DayHours : Type 0 where
  pub restricted : Bool
  pub closed : Bool
  pub open_at : ℤ
  pub close_at : ℤ

-- The zero value: no limit applies.
abbrev pub unrestricted : DayHours
unrestricted = record { restricted = false; closed = false; open_at = pos 0; close_at = pos 0 }

abbrev pub closed_day : DayHours
closed_day = record { restricted = true; closed = true; open_at = pos 0; close_at = pos 0 }

abbrev pub open_between : ℤ → ℤ → DayHours
open_between a b = record { restricted = true; closed = false; open_at = a; close_at = b }

-- A pair of clock texts, if both parse and the second is later.
abbrev between : Option ℤ → Option ℤ → Option Interval
between none b = none
between (some a) none = none
between (some a) (some b) = if leb_ℤ b a then none else some (range a b)

unfoldable pub clock_range : String → String → Option Interval
clock_range start end = between (parse_clock start) (parse_clock end)

-- `exceptionHours`
unfoldable pub optional_range : Option String → Option String → Option Interval
optional_range none b = none
optional_range (some a) none = none
optional_range (some a) (some b) = clock_range a b

-- A day of branches.operating_hours as encoding/json decodes it.
pub record DayJson : Type 0 where
  pub open_text : String
  pub close_text : String

abbrev hours_or_closed : Option Interval → DayHours
hours_or_closed none = closed_day
hours_or_closed (some r) = open_between r.start r.end

-- The entry of a JSON object, the last one of a repeated key; a null entry counts as missing.
unfoldable pub day_entry : String → List (String × Option DayJson) → Option DayJson
day_entry weekday [] = none
day_entry weekday ((k, v) ∷ days) = if str_eq k weekday then v else day_entry weekday days

abbrev day_hours : Option DayJson → DayHours
day_hours none = closed_day
day_hours (some d) = hours_or_closed (clock_range d.open_text d.close_text)

abbrev decoded_hours : String → Option (List (String × Option DayJson)) → DayHours
decoded_hours weekday none = closed_day
decoded_hours weekday (some []) = unrestricted
decoded_hours weekday (some (d ∷ days)) = day_hours (day_entry weekday (d ∷ days))

-- `branchDayHours`; `decode` is json.Unmarshal, which fails with `none`. Its map has no repeated key.
unfoldable pub branch_day_hours :
    (decode : String → Option (List (String × Option DayJson))) (raw weekday : String) → DayHours
unfolding day_entry
branch_day_hours decode raw weekday =
    if str_eq raw "" then unrestricted else decoded_hours weekday (decode raw)

-- `blockingExceptionTypes`
abbrev pub is_blocking : String → Bool
is_blocking type = str_eq type "vacation" || str_eq type "sick" || str_eq type "holiday"

abbrev pub special_hours_type : String
special_hours_type = "special_hours"

-- `exceptionEffect`
pub record ExceptionEffect : Type 0 where
  pub special : Option Interval
  pub day_off : Bool
  pub blocks : List Interval

abbrev pub no_effect : ExceptionEffect
no_effect = record { special = none; day_off = false; blocks = [] }

abbrev full_day : ScheduleException → ExceptionEffect → ExceptionEffect
full_day ex effect =
    if ex.day_off || is_blocking ex.type then record effect { day_off = true } else effect

abbrev part_day : ScheduleException → Interval → ExceptionEffect → ExceptionEffect
part_day ex r effect =
    if str_eq ex.type special_hours_type && not ex.day_off
    then record effect { special = some r }
    else if ex.day_off
    then record effect { day_off = true }
    else if is_blocking ex.type
    then record effect { blocks = effect.blocks ++ r ∷ [] }
    else effect

-- The `switch` of `effectOf` for one exception.
unfoldable pub add_exception :
    ScheduleException → Option Interval → ExceptionEffect → ExceptionEffect
add_exception ex none effect = full_day ex effect
add_exception ex (some r) effect = part_day ex r effect

effect_from :
    (ScheduleException → Bool) → ExceptionEffect → List ScheduleException → ExceptionEffect
effect_from applies effect [] = effect
effect_from applies effect (ex ∷ exs) =
    effect_from applies
      (if applies ex then add_exception ex (optional_range ex.start ex.end) effect else effect) exs

-- `effectOf`
unfoldable pub effect_of : List ScheduleException → (ScheduleException → Bool) → ExceptionEffect
unfolding effect_from
effect_of exceptions applies = effect_from applies no_effect exceptions

-- The filters of `branchConstraints` and `specialistWindows`.
abbrev branch_wide_id : Option String → Bool
branch_wide_id none = true
branch_wide_id (some i) = false

abbrev pub is_branch_wide : ScheduleException → Bool
is_branch_wide ex = branch_wide_id ex.specialist_id

abbrev id_is : String → Option String → Bool
id_is id none = false
id_is id (some i) = str_eq i id

abbrev pub is_of : String → ScheduleException → Bool
is_of id ex = id_is id ex.specialist_id

abbrev replaced : Option Interval → DayHours → DayHours
replaced none hours = hours
replaced (some r) hours = open_between r.start r.end

abbrev unless_closed : DayHours → List Interval → Option (DayHours × List Interval)
unless_closed hours blocks = if hours.restricted && hours.closed then none else some (hours, blocks)

-- `branchConstraints`; `none` stands for open = false.
unfoldable pub branch_constraints :
    DayHours → List ScheduleException → Option (DayHours × List Interval)
branch_constraints hours exceptions =
    let effect = effect_of exceptions is_branch_wide in
    if effect.day_off then none else unless_closed (replaced effect.special hours) effect.blocks

abbrev less_break : List Interval → Option Interval → List Interval
less_break windows none = windows
less_break windows (some r) = subtract windows r

abbrev shift_less_break : Option Interval → Option Interval → List Interval
shift_less_break none rest = []
shift_less_break (some r) rest = less_break (r ∷ []) rest

-- `shiftWindows`
unfoldable pub shift_windows : Shift → List Interval
shift_windows sh =
    shift_less_break (clock_range sh.start sh.end) (optional_range sh.break_start sh.break_end)

unfoldable pub all_shift_windows : List Shift → List Interval
all_shift_windows [] = []
all_shift_windows (sh ∷ shs) = shift_windows sh ++ all_shift_windows shs

-- `for _, b := range blocks { windows = subtract(windows, b) }`
unfoldable pub subtract_all : List Interval → List Interval → List Interval
subtract_all windows [] = windows
subtract_all windows (b ∷ bs) = subtract_all (subtract windows b) bs

abbrev regular : Option Interval → SpecialistSchedule → List Interval
regular none sp = all_shift_windows sp.shifts
regular (some r) sp = r ∷ []

abbrev unless_empty : List Interval → Option (List Interval)
unless_empty [] = none
unless_empty (w ∷ ws) = some (w ∷ ws)

-- `specialistWindows`; `none` stands for ok = false.
unfoldable pub specialist_windows :
    List ScheduleException → SpecialistSchedule → Option (List Interval)
specialist_windows exceptions sp =
    let effect = effect_of exceptions (is_of sp.id) in
    if effect.day_off
    then none
    else unless_empty (subtract_all (regular effect.special sp) effect.blocks)

-- `applyBranch`
unfoldable pub apply_branch : List Interval → DayHours → List Interval → List Interval
apply_branch windows hours blocks =
    subtract_all
      (if hours.restricted then intersect windows (range hours.open_at hours.close_at) else windows)
      blocks
