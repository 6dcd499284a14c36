-- ===== src/Business/Service.antt =====
-- internal/application/business/service.go: the store, the environment and the small helpers.
pub mod Reports
pub mod Booking
use booknow_mcp_service.Base.{
  ℕ, ℤ, String, List, [], Option, none, some, Bool, if◌then◌else◌, str_eq, Err, Result, ok, err,
  wrap_err, ◌>>=◌,
}
use booknow_mcp_service.Business.Types.{
  Time, Location, Ref, TenantProfile, SnapshotQuery, SnapshotCounts, ScheduleQuery, ScheduleCounts,
  AppointmentQuery, AppointmentRow, CustomerQuery, CustomerRow,
}
use booknow_mcp_service.Business.Types.Booking.{
  SlotService, SlotBranch, AvailabilityQuery, Availability,
}
use booknow_mcp_service.Business.Slots.{DayJson}
use booknow_mcp_service.Business.Dates.{Calendar, location}

-- `Store`: what the database answers to each query, during one call.
pub record Store : Type 0 where
  pub tenant_profile : String → Result TenantProfile
  pub snapshot_counts : SnapshotQuery → Result SnapshotCounts
  pub schedule_summary : ScheduleQuery → Result ScheduleCounts
  pub list_appointments : AppointmentQuery → Result (List AppointmentRow × ℤ)
  pub search_customers : CustomerQuery → Result (List CustomerRow)
  pub slot_service : (tenant_id service_id : String) → Result SlotService
  pub slot_branch : (tenant_id branch_id : String) → Result SlotBranch
  pub availability : AvailabilityQuery → Result Availability

-- `Service` with what it takes from Go's libraries: the calendar, json.Unmarshal of the operating
-- hours, unicode.IsDigit, and the clock, read once for a call.
pub record Service : Type 0 where
  pub store : Store
  pub calendar : Calendar
  pub decode_hours : String → Option (List (String × Option DayJson))
  pub is_digit : ℕ → Bool
  pub now : Time

-- `Service.profile`
unfoldable pub profile : Service → String → Result (TenantProfile × Location)
profile s tenant_id = do
  p ← wrap_err "tenant profile" (s.store.tenant_profile tenant_id)
  ok (p, location s.calendar p.timezone)

-- `deref`
abbrev pub deref : Option String → String
deref none = ""
deref (some s) = s

-- `ref`
unfoldable pub ref : Option String → Option String → Option Ref
ref none name = none
ref (some id) name = some (record { id = id; name = deref name })

-- `nonNil`
abbrev pub non_nil {ℓ} : {A : Type ℓ} → Option (List A) → List A
non_nil none = []
non_nil (some xs) = xs
