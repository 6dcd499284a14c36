-- ===== src/Postgres/Business/Laws.antt =====
-- business.go, Availability: what an answer was read from.
use booknow_mcp_service.Base.{List, [], none, true, false, map, ◌≡◌, ◌≢◌, ◌⊎◌, ok}
use booknow_mcp_service.Business.Types.Booking.{SpecialistSchedule, AvailabilityQuery, Availability}
use booknow_mcp_service.Postgres.{collect}
use booknow_mcp_service.Postgres.Schedules.{ShiftRow}
use booknow_mcp_service.Postgres.Schedules.Laws.{ungroup, NoRepeat, kept_rows}
use booknow_mcp_service.Postgres.Business.{Db, read_found}

-- The day as the three queries gave it: the shifts of the first, in its order, and the exceptions and
-- appointments of the specialists that it named.
pub record IsReadDay (db : Db) (q : AvailabilityQuery) (a : Availability) : Type 0 where
  pub rows : List ShiftRow
  pub read : collect (db.schedules q.tenant_id q.branch_id q.weekday q.specialist_id) ≡ ok rows
  pub shifts : ungroup a.specialists ≡ kept_rows none rows
  pub grouped : NoRepeat a.specialists
  pub exceptions :
      collect
        (db.exceptions q.date q.branch_id (map (λ (sp : SpecialistSchedule). sp.id) a.specialists))
      ≡ ok a.exceptions
  pub busy :
      collect (
        db.busy q.tenant_id
          (map (λ (sp : SpecialistSchedule). sp.id) a.specialists)
          q.day_start
          q.day_end)
      ≡ ok a.busy

-- The answer for a specialist who is not found.
pub record IsEmpty (a : Availability) : Type 0 where
  pub not_found : a.specialist_found ≡ false
  pub no_specialists : a.specialists ≡ []
  pub no_exceptions : a.exceptions ≡ []
  pub no_busy : a.busy ≡ []

-- What an availability stands for: the day's rows, or nothing where the specialist asked for does not
-- exist.
abbrev pub IsAnswered : Db → AvailabilityQuery → Availability → Type 0
IsAnswered db q a =
    ((q.specialist_id ≡ "") × IsReadDay db q a × (a.specialist_found ≡ false))
    ⊎ (((q.specialist_id ≢ "")
          × (read_found db q ≡ ok true)
          × IsReadDay db q a
          × (a.specialist_found ≡ true))
        ⊎ ((q.specialist_id ≢ "") × (read_found db q ≡ ok false) × IsEmpty a))
