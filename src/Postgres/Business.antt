-- ===== src/Postgres/Business.antt =====
-- internal/repository/postgres/business.go: BusinessStore.
pub mod Laws
use booknow_mcp_service.Base.{
  ℤ, String, Option, none, some, List, [], ◌∷◌, map, Bool, true, false, not, keep, str_eq,
  if◌then◌else◌, not_found, sentinel, Err, Result, ok, err, ◌>>=◌, wrap_err,
}
use booknow_mcp_service.Business.Types.{
  Time, TenantProfile, SnapshotQuery, SnapshotCounts, ServiceCount, ScheduleQuery, ScheduleCounts,
  DayCount, SpecialistCount, AppointmentQuery, AppointmentRow, CustomerQuery, CustomerRow,
}
use booknow_mcp_service.Business.Types.Booking.{
  SlotService, SlotBranch, AvailabilityQuery, Availability, SpecialistSchedule, ScheduleException,
  BusyInterval,
}
use booknow_mcp_service.Business.Service.{Store}
use booknow_mcp_service.Postgres.{Row, Rows, lookup_row, only_row, collect}
use booknow_mcp_service.Postgres.Schedules.{ShiftRow, group_rows}

-- The counts of `snapshotCountsSQL`.
pub record Counts : Type 0 where
  pub branches : ℤ
  pub specialists : ℤ
  pub services : ℤ
  pub today : ℤ

-- What the database answers to each statement with its arguments.
pub record Db : Type 0 where
  pub tenant_profile : (tenant_id : String) → Row TenantProfile
  pub snapshot_counts : (tenant_id : String) → (from to : Time) → Row Counts
  pub snapshot_status : (tenant_id : String) → (since : Time) → Result (Rows (String × ℤ))
  pub top_services : (tenant_id : String) → (since : Time) → Result (Rows ServiceCount)
  pub schedule_days :
      (tenant_id timezone : String)
      → (from to : Time) → (branch_id specialist_id : String) → Result (Rows DayCount)
  pub schedule_specialists :
      (tenant_id : String)
      → (from to : Time) → (branch_id specialist_id : String) → Result (Rows SpecialistCount)
  pub appointments_count : (tenant_id : String) → (from to : Time) → (status : String) → Row ℤ
  pub appointments_page : AppointmentQuery → Result (Rows AppointmentRow)
  pub customers : CustomerQuery → Result (Rows CustomerRow)
  pub service : (service_id tenant_id : String) → Row SlotService
  pub branch : (branch_id tenant_id : String) → Row SlotBranch
  pub specialist_found : (specialist_id tenant_id : String) → Row Bool
  pub schedules : (tenant_id branch_id weekday specialist_id : String) → Result (Rows ShiftRow)
  pub exceptions : (date branch_id : String) → List String → Result (Rows ScheduleException)
  pub busy :
      (tenant_id : String) → List String → (day_start day_end : Time) → Result (Rows BusyInterval)

-- `c.ByStatus[st.status] = st.count` for each row
unfoldable pub by_status : List (String × ℤ) → List (String × ℤ) → List (String × ℤ)
by_status m [] = m
by_status m ((s, n) ∷ rest) = by_status ((s, n) ∷ keep (λ e. not (str_eq (e.0) s)) m) rest

-- A slice that is nil when nothing was appended.
abbrev pub slice {ℓ} : {A : Type ℓ} → List A → Option (List A)
slice [] = none
slice (x ∷ xs) = some (x ∷ xs)

-- `SnapshotCounts`
unfoldable pub read_snapshot : Db → SnapshotQuery → Result SnapshotCounts
read_snapshot db q = do
  c ← only_row "query snapshot counts" (db.snapshot_counts q.tenant_id q.day_start q.day_end)
  statuses ← wrap_err "query snapshot statuses" (collect (db.snapshot_status q.tenant_id q.since))
  top ← wrap_err "query snapshot top services" (collect (db.top_services q.tenant_id q.since))
  ok (record {
    active_branches = c.branches;
    active_specialists = c.specialists;
    active_services = c.services;
    today_appointments = c.today;
    by_status = some (by_status [] statuses);
    top_services = slice top;
  })

-- `ScheduleSummary`
unfoldable pub read_schedule : Db → ScheduleQuery → Result ScheduleCounts
read_schedule db q = do
  days ←
      wrap_err "query schedule days"
        (collect (db.schedule_days q.tenant_id q.timezone q.from q.to q.branch_id q.specialist_id))
  specialists ←
      wrap_err "query schedule specialists"
        (collect (db.schedule_specialists q.tenant_id q.from q.to q.branch_id q.specialist_id))
  ok (record { days = slice days; specialists = slice specialists })

-- `ListAppointments`
unfoldable pub read_appointments : Db → AppointmentQuery → Result (List AppointmentRow × ℤ)
read_appointments db q = do
  total ← only_row "count appointments" (db.appointments_count q.tenant_id q.from q.to q.status)
  rows ← wrap_err "query appointments" (collect (db.appointments_page q))
  ok (rows, total)

-- `schedules`
unfoldable pub read_schedules : Db → AvailabilityQuery → Result (List SpecialistSchedule)
read_schedules db q = do
  rows ←
      wrap_err "query specialist schedules"
        (collect (db.schedules q.tenant_id q.branch_id q.weekday q.specialist_id))
  ok (group_rows rows)

-- The check of the specialist of a query: whether there is one to check, and whether it was found.
unfoldable pub read_found : Db → AvailabilityQuery → Result Bool
read_found db q = only_row "query specialist" (db.specialist_found q.specialist_id q.tenant_id)

abbrev pub ids_of : List SpecialistSchedule → List String
ids_of sps = map (λ sp. sp.id) sps

-- `Availability` from the schedules on
unfoldable pub read_day : Db → AvailabilityQuery → Bool → Result Availability
read_day db q found = do
  specialists ← read_schedules db q
  exceptions ←
      wrap_err "query schedule exceptions"
        (collect (db.exceptions q.date q.branch_id (ids_of specialists)))
  busy ←
      wrap_err "query busy intervals"
        (collect (db.busy q.tenant_id (ids_of specialists) q.day_start q.day_end))
  ok (record {
    specialist_found = found;
    specialists = specialists;
    exceptions = exceptions;
    busy = busy;
  })

abbrev pub no_availability : Availability
no_availability = record { specialist_found = false; specialists = []; exceptions = []; busy = [] }

abbrev pub day_if_found : Db → AvailabilityQuery → Bool → Result Availability
day_if_found db q true = read_day db q true
day_if_found db q false = ok no_availability

-- `Availability`
unfoldable pub read_availability : Db → AvailabilityQuery → Result Availability
read_availability db q =
    if str_eq q.specialist_id ""
    then read_day db q false
    else (read_found db q >>= λ found. day_if_found db q found)

-- `BusinessStore`
abbrev pub business_store : Db → Store
business_store db = record {
  tenant_profile =
      λ t. lookup_row (sentinel not_found) "query tenant profile" (db.tenant_profile t);
  snapshot_counts = read_snapshot db;
  schedule_summary = read_schedule db;
  list_appointments = read_appointments db;
  search_customers = λ q. wrap_err "search customers" (collect (db.customers q));
  slot_service = λ t id. lookup_row (sentinel not_found) "query service" (db.service id t);
  slot_branch = λ t id. lookup_row (sentinel not_found) "query branch" (db.branch id t);
  availability = read_availability db;
}
