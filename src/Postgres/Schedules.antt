-- ===== src/Postgres/Schedules.antt =====
-- internal/repository/postgres/business.go: the rows of shifts, grouped by specialist.
pub mod Laws
use booknow_mcp_service.Base.{String, List, [], ◌∷◌, ◌++◌, Bool, str_eq, if◌then◌else◌}
use booknow_mcp_service.Business.Types.Booking.{Shift, SpecialistSchedule}

-- `shiftRow`
pub record ShiftRow : Type 0 where
  pub id : String
  pub name : String
  pub shift : Shift

abbrev pub schedule_of : ShiftRow → SpecialistSchedule
schedule_of r = record { id = r.id; name = r.name; shifts = r.shift ∷ [] }

abbrev pub with_shift : SpecialistSchedule → Shift → SpecialistSchedule
with_shift sp sh = record sp { shifts = sp.shifts ++ sh ∷ [] }

-- The body of the loop of `schedules`: the row goes to the last specialist, if it is theirs.
unfoldable pub add_row : List SpecialistSchedule → ShiftRow → List SpecialistSchedule
add_row [] r = schedule_of r ∷ []
add_row (sp ∷ []) r =
    if str_eq sp.id r.id then with_shift sp r.shift ∷ [] else sp ∷ schedule_of r ∷ []
add_row (sp ∷ next ∷ sps) r = sp ∷ add_row (next ∷ sps) r

-- The loop of `schedules`.
unfoldable pub group_from : List SpecialistSchedule → List ShiftRow → List SpecialistSchedule
group_from sps [] = sps
group_from sps (r ∷ rs) = group_from (add_row sps r) rs

abbrev pub group_rows : List ShiftRow → List SpecialistSchedule
group_rows rs = group_from [] rs
