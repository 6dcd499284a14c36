-- ===== src/Business/Types/Booking.antt =====
-- internal/application/business/types.go: the data of slots and of slot checks.
use booknow_mcp_service.Base.{ℤ, String, Option, List, Bool}
use booknow_mcp_service.Business.Types.{Time, Ref}

pub record AvailableSlotsInput : Type 0 where
  pub service_id : String
  pub branch_id : String
  pub date : String
  pub specialist_id : String

pub record SlotService : Type 0 where
  pub id : String
  pub name : String
  pub duration_minutes : ℤ
  pub buffer_minutes : ℤ
  pub base_price : ℤ
  pub currency_code : Option String
  pub requires_specialist : Bool
  pub active : Bool

-- `operating_hours` is the raw JSON text; no bytes are the empty text.
pub record SlotBranch : Type 0 where
  pub id : String
  pub name : String
  pub timezone : String
  pub operating_hours : String
  pub active : Bool

pub record AvailabilityQuery : Type 0 where
  pub tenant_id : String
  pub branch_id : String
  pub specialist_id : String
  pub weekday : String
  pub date : String
  pub day_start : Time
  pub day_end : Time

pub record Shift : Type 0 where
  pub start : String
  pub end : String
  pub break_start : Option String
  pub break_end : Option String

pub record SpecialistSchedule : Type 0 where
  pub id : String
  pub name : String
  pub shifts : List Shift

pub record ScheduleException : Type 0 where
  pub specialist_id : Option String
  pub type : String
  pub start : Option String
  pub end : Option String
  pub day_off : Bool

pub record BusyInterval : Type 0 where
  pub specialist_id : String
  pub start : Time
  pub end : Time

pub record Availability : Type 0 where
  pub specialist_found : Bool
  pub specialists : List SpecialistSchedule
  pub exceptions : List ScheduleException
  pub busy : List BusyInterval

pub record SlotServiceRef : Type 0 where
  pub id : String
  pub name : String
  pub duration_minutes : ℤ

pub record Slot : Type 0 where
  pub start : Time
  pub end : Time
  pub specialists : List Ref

pub record SlotCheckInput : Type 0 where
  pub service_id : String
  pub branch_id : String
  pub specialist_id : String
  pub start : Time
  pub extra_minutes : ℤ

pub record SlotCheck : Type 0 where
  pub service : SlotService
  pub branch : SlotBranch
  pub timezone : String
  pub duration_minutes : ℤ
  pub available : Bool
  pub specialists : List Ref

pub record AvailableSlots : Type 0 where
  pub date : String
  pub timezone : String
  pub service : SlotServiceRef
  pub branch : Ref
  pub specialist_id : Option String
  pub slot_interval_minutes : ℤ
  pub capacity_checked : Bool
  pub slots : List Slot
