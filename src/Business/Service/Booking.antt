-- ===== src/Business/Service/Booking.antt =====
-- service.go: AvailableSlots and CheckSlot, with catalog, slotDay and daySlots.
pub mod Laws
use booknow_mcp_service.Base.{
  ℕ, zero, suc, ℤ, pos, ◌+ℤ◌, ◌+w◌, String, List, [], ◌∷◌, Option, none, some, Bool, true, false,
  not, ◌&&◌, ◌||◌, leb_ℤ, ltb_ℤ, eq_ℤ, if◌then◌else◌, str_eq, trim_space, invalid_argument,
  not_found, business, Result, ok, err, guard, wrap_err, ◌>>=◌, ◌>>◌, get_elem?,
}
use booknow_mcp_service.Business.Types.{Time, Location, Ref}
use booknow_mcp_service.Business.Types.Booking.{
  AvailableSlotsInput, AvailabilityQuery, SlotService, SlotBranch, Slot, SlotCheckInput, SlotCheck,
  AvailableSlots,
}
use booknow_mcp_service.Business.Checks.{required_uuid, optional_uuid, active_entity}
use booknow_mcp_service.Business.Dates.{
  Calendar, location, start_of_day, in_zone, zone_name, before,
}
use booknow_mcp_service.Business.Slots.{SlotInput, branch_day_hours, compute_slots}
use booknow_mcp_service.Business.Service.{Service}

-- `slotCatalog`
pub record SlotCatalog : Type 0 where
  pub service : SlotService
  pub branch : SlotBranch
  pub loc : Location

-- `Service.catalog`
unfoldable pub catalog : Service → (tenant_id service_id branch_id : String) → Result SlotCatalog
catalog s tenant_id service_id branch_id = do
  required_uuid "serviceId" service_id
  required_uuid "branchId" branch_id
  service ←
      active_entity "El servicio no existe o no está activo en este negocio." (λ v. v.active)
        (s.store.slot_service tenant_id service_id)
  branch ←
      active_entity "La sucursal no existe o no está activa en este negocio." (λ v. v.active)
        (s.store.slot_branch tenant_id branch_id)
  ok (record { service = service; branch = branch; loc = location s.calendar branch.timezone })

-- `weekdays[day.Weekday()]`
abbrev pub weekday_name : ℕ → String
weekday_name zero = "sunday"
weekday_name (suc zero) = "monday"
weekday_name (suc (suc zero)) = "tuesday"
weekday_name (suc (suc (suc zero))) = "wednesday"
weekday_name (suc (suc (suc (suc zero)))) = "thursday"
weekday_name (suc (suc (suc (suc (suc zero))))) = "friday"
weekday_name (suc (suc (suc (suc (suc (suc n)))))) = "saturday"

abbrev pub max_slot_days_ahead : ℤ
max_slot_days_ahead = pos 90

abbrev parsed_day : Option Time → Result Time
parsed_day none = err (business invalid_argument "date inválida: usa YYYY-MM-DD.")
parsed_day (some day) = ok day

-- `Service.slotDay`
unfoldable pub slot_day : Service → String → Location → Result Time
slot_day s date loc = do
  day ← parsed_day (s.calendar.parse_date (trim_space date) loc)
  let today = start_of_day s.calendar s.now loc
  guard (not (before day today)) (business invalid_argument "date no puede ser anterior a hoy.")
  guard (not (before (s.calendar.add_days today max_slot_days_ahead) day))
      (business invalid_argument "date no puede estar a más de 90 días.")
  ok day

abbrev pub availability_query : Service → String → SlotCatalog → Time → String → AvailabilityQuery
availability_query s tenant_id c day specialist_id = record {
  tenant_id = tenant_id;
  branch_id = c.branch.id;
  specialist_id = specialist_id;
  weekday = weekday_name (s.calendar.weekday day);
  date = s.calendar.format_date day;
  day_start = day;
  day_end = s.calendar.add_days day (pos 1);
}

-- `Service.daySlots`
unfoldable pub day_slots : Service → String → SlotCatalog → Time → String → ℤ → Result (List Slot)
day_slots s tenant_id c day specialist_id extra_minutes = do
  optional_uuid "specialistId" specialist_id
  availability ←
      wrap_err "availability"
        (s.store.availability (availability_query s tenant_id c day specialist_id))
  guard (str_eq specialist_id "" || availability.specialist_found)
      (business not_found "El especialista no existe o no está activo en este negocio.")
  ok (
      compute_slots (record {
        day = day;
        now = s.now;
        duration_minutes = c.service.duration_minutes +w extra_minutes;
        buffer_minutes = c.service.buffer_minutes;
        requires_specialist = c.service.requires_specialist;
        branch_hours =
            branch_day_hours s.decode_hours c.branch.operating_hours
              (weekday_name (s.calendar.weekday day));
        specialists = availability.specialists;
        exceptions = availability.exceptions;
        busy = availability.busy;
      }))

-- A pointer to a text that is not empty.
abbrev non_empty : String → Option String
non_empty s = if str_eq s "" then none else some s

-- `AvailableSlots`
unfoldable pub available_slots : Service → String → AvailableSlotsInput → Result AvailableSlots
available_slots s tenant_id x = do
  c ← catalog s tenant_id x.service_id x.branch_id
  day ← slot_day s x.date c.loc
  slots ← day_slots s tenant_id c day x.specialist_id (pos 0)
  ok (record {
    date = s.calendar.format_date day;
    timezone = zone_name c.loc;
    service = record {
      id = c.service.id;
      name = c.service.name;
      duration_minutes = c.service.duration_minutes;
    };
    branch = record { id = c.branch.id; name = c.branch.name };
    specialist_id = non_empty x.specialist_id;
    slot_interval_minutes = pos 30;
    capacity_checked = c.service.requires_specialist;
    slots = slots;
  })

-- The loop of `CheckSlot`: the last slot that starts at the instant decides.
unfoldable pub find_start : ℤ → SlotCheck → List Slot → SlotCheck
find_start at check [] = check
find_start at check (slot ∷ slots) =
    find_start at
      (if eq_ℤ slot.start.at at
        then record check { available = true; specialists = slot.specialists }
        else check)
      slots

-- `CheckSlot`
unfoldable pub check_slot : Service → String → SlotCheckInput → Result SlotCheck
check_slot s tenant_id x = do
  c ← catalog s tenant_id x.service_id x.branch_id
  let duration = c.service.duration_minutes +w x.extra_minutes
  guard (ltb_ℤ (pos 0) duration)
      (business invalid_argument "La duración del servicio con la variante debe ser positiva.")
  guard (not (before x.start s.now))
      (business invalid_argument "La fecha y hora de la cita no puede estar en el pasado.")
  let start = in_zone x.start c.loc
  day ← slot_day s (s.calendar.format_date start) c.loc
  slots ← day_slots s tenant_id c day x.specialist_id x.extra_minutes
  ok (
      find_start start.at
        (record {
          service = c.service;
          branch = c.branch;
          timezone = zone_name c.loc;
          duration_minutes = duration;
          available = false;
          specialists = [];
        })
        slots)
