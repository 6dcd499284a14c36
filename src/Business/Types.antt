-- ===== src/Business/Types.antt =====
-- internal/application/business/types.go: the inputs, rows and results of the use cases.
-- A nil pointer is `none`; int is ℤ; amounts of money are whole hundredths (the columns are
-- numeric(10,2)), and instants are nanoseconds.
pub mod Booking
use booknow_mcp_service.Base.{ℤ, String, Option, List}

-- A `*time.Location`: a zone of the tz database, or the fixed offset of a parsed datetime.
pub data Location : Type 0 where
  iana : String → Location
  fixed : ℤ → Location

-- `time.Time`: an instant, and the location that it is shown in.
pub record Time : Type 0 where
  pub at : ℤ
  pub zone : Location

pub record Ref : Type 0 where
  pub id : String
  pub name : String

pub record TenantProfile : Type 0 where
  pub name : String
  pub slug : String
  pub timezone : String

pub record SnapshotQuery : Type 0 where
  pub tenant_id : String
  pub since : Time
  pub day_start : Time
  pub day_end : Time

pub record ServiceCount : Type 0 where
  pub name : String
  pub appointments_count : ℤ

-- A nil map or slice is `none`.
pub record SnapshotCounts : Type 0 where
  pub active_branches : ℤ
  pub active_specialists : ℤ
  pub active_services : ℤ
  pub today_appointments : ℤ
  pub by_status : Option (List (String × ℤ))
  pub top_services : Option (List ServiceCount)

pub record SnapshotMetrics : Type 0 where
  pub active_branches_count : ℤ
  pub active_specialists_count : ℤ
  pub active_services_count : ℤ
  pub today_appointments_count : ℤ
  pub appointments_by_status : List (String × ℤ)

pub record Snapshot : Type 0 where
  pub tenant_name : String
  pub tenant_slug : String
  pub timezone : String
  pub metrics : SnapshotMetrics
  pub top_services : List ServiceCount
  pub generated_at : Time

pub record ScheduleSummaryInput : Type 0 where
  pub start_date : String
  pub end_date : String
  pub branch_id : String
  pub specialist_id : String

pub record ScheduleQuery : Type 0 where
  pub tenant_id : String
  pub timezone : String
  pub from : Time
  pub to : Time
  pub branch_id : String
  pub specialist_id : String

pub record DayCount : Type 0 where
  pub date : String
  pub count : ℤ

pub record SpecialistCount : Type 0 where
  pub id : Option String
  pub name : String
  pub count : ℤ

pub record ScheduleCounts : Type 0 where
  pub days : Option (List DayCount)
  pub specialists : Option (List SpecialistCount)

pub record Period : Type 0 where
  pub start_date : String
  pub end_date : String
  pub timezone : String

pub record ScheduleSummary : Type 0 where
  pub period : Period
  pub total_appointments : ℤ
  pub daily_appointments : List DayCount
  pub specialist_appointments : List SpecialistCount

pub record ListAppointmentsInput : Type 0 where
  pub start_date : String
  pub end_date : String
  pub status : String
  pub page : ℤ
  pub limit : ℤ

pub record AppointmentQuery : Type 0 where
  pub tenant_id : String
  pub from : Time
  pub to : Time
  pub status : String
  pub limit : ℤ
  pub offset : ℤ

pub record AppointmentRow : Type 0 where
  pub id : String
  pub scheduled_at : Time
  pub ends_at : Option Time
  pub duration_minutes : ℤ
  pub status : String
  pub estimated_price : Option ℤ
  pub currency_code : Option String
  pub customer_notes : Option String
  pub source : Option String
  pub customer_id : Option String
  pub customer_first_name : Option String
  pub customer_last_name : Option String
  pub customer_phone : Option String
  pub specialist_id : Option String
  pub specialist_name : Option String
  pub service_id : Option String
  pub service_name : Option String
  pub branch_id : Option String
  pub branch_name : Option String

pub record AppointmentCustomer : Type 0 where
  pub id : String
  pub first_name : String
  pub last_name : String
  pub phone_masked : Option String

pub record Appointment : Type 0 where
  pub id : String
  pub scheduled_at : Time
  pub ends_at : Option Time
  pub duration_minutes : ℤ
  pub status : String
  pub estimated_price : Option ℤ
  pub currency_code : Option String
  pub customer_notes : Option String
  pub source : Option String
  pub customer : Option AppointmentCustomer
  pub specialist : Option Ref
  pub service : Option Ref
  pub branch : Option Ref

pub record Pagination : Type 0 where
  pub page : ℤ
  pub limit : ℤ
  pub total : ℤ
  pub total_pages : ℤ

pub record AppointmentList : Type 0 where
  pub timezone : String
  pub items : List Appointment
  pub pagination : Pagination

pub record SearchCustomersInput : Type 0 where
  pub query : String
  pub limit : ℤ

pub record CustomerQuery : Type 0 where
  pub tenant_id : String
  pub pattern_text : String
  pub digits : String
  pub limit : ℤ

pub record CustomerRow : Type 0 where
  pub id : String
  pub first_name : String
  pub last_name : String
  pub phone : Option String
  pub created_at : Option Time

pub record Customer : Type 0 where
  pub id : String
  pub first_name : String
  pub last_name : String
  pub phone_masked : Option String
  pub created_at : Option Time
