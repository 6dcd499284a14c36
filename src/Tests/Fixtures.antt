-- ===== src/Tests/Fixtures.antt =====
-- The data of the tests: a Monday at midnight UTC, one specialist who works from nine to eleven.
use booknow_mcp_service.Base.{
  ℕ, ℤ, pos, ◌+ℤ◌, ◌*ℤ◌, String, [], ◌∷◌, none, some, true, false, str_eq, leb, ◌&&◌, if◌then◌else◌,
  ok, err, sentinel, not_found,
}
use booknow_mcp_service.Business.Types.{Time}
use booknow_mcp_service.Business.Types.Booking.{
  SlotService, SlotBranch, SpecialistSchedule, ScheduleException, BusyInterval, SlotCheckInput,
}
use booknow_mcp_service.Business.Dates.{Calendar, utc}
use booknow_mcp_service.Business.Slots.{SlotInput, open_between}
use booknow_mcp_service.Business.Service.{Service, Store}

abbrev pub at_utc : ℤ → Time
at_utc t = record { at = t; zone = utc }

abbrev pub midnight : Time
midnight = at_utc (pos 0)

-- Nine, ten, half past ten and eleven o'clock, from midnight.
abbrev pub nine : ℤ
nine = pos 32400000000000

abbrev pub ten : ℤ
ten = pos 36000000000000

abbrev pub eleven : ℤ
eleven = pos 39600000000000

abbrev pub id_a : String
id_a = "aaaaaaaa-aaaa-4aaa-8aaa-aaaaaaaaaaaa"

abbrev pub id_b : String
id_b = "bbbbbbbb-bbbb-4bbb-8bbb-bbbbbbbbbbbb"

abbrev pub ana : SpecialistSchedule
ana = record {
  id = id_a;
  name = "Ana";
  shifts = record { start = "09:00"; end = "11:00"; break_start = none; break_end = none } ∷ [];
}

-- An appointment of Ana from nine to ten.
abbrev pub busy_nine : BusyInterval
busy_nine = record { specialist_id = id_a; start = at_utc nine; end = at_utc ten }

-- A branch holiday from ten to eleven.
abbrev pub holiday : ScheduleException
holiday = record {
  specialist_id = none;
  type = "holiday";
  start = some "10:00";
  end = some "11:00";
  day_off = false;
}

abbrev pub monday : SlotInput
monday = record {
  day = midnight;
  now = midnight;
  duration_minutes = pos 30;
  buffer_minutes = pos 0;
  requires_specialist = true;
  branch_hours = open_between nine eleven;
  specialists = ana ∷ [];
  exceptions = [];
  busy = busy_nine ∷ [];
}

abbrev pub half_hour : ℕ
half_hour = 1800000000000

-- A calendar of UTC days from the Monday on.
abbrev pub calendar : Calendar
calendar = record {
  loads = λ name. str_eq name "UTC";
  date_of = λ t. record { year = pos 2026; month = 1; day = 5 };
  midnight = λ d loc. record { at = pos 0; zone = loc };
  add_days = λ t n. record t { at = t.at +ℤ (n *ℤ pos 86400000000000) };
  weekday = λ t. 1;
  parse_date =
      λ s loc. if str_eq s "2026-01-05" then some (record { at = pos 0; zone = loc }) else none;
  format_date = λ t. "2026-01-05";
  parse_rfc3339 = λ s. if str_eq s "2026-01-05T10:00:00Z" then some (at_utc ten) else none;
}

abbrev pub haircut : SlotService
haircut = record {
  id = id_a;
  name = "Corte";
  duration_minutes = pos 30;
  buffer_minutes = pos 0;
  base_price = pos 1500;
  currency_code = some "USD";
  requires_specialist = true;
  active = true;
}

abbrev pub centre : SlotBranch
centre = record {
  id = id_b;
  name = "Centro";
  timezone = "UTC";
  operating_hours = "";
  active = true;
}

abbrev pub store : Store
store = record {
  tenant_profile = λ t. ok (record { name = "Salón"; slug = "salon"; timezone = "UTC" });
  snapshot_counts = λ q. err (sentinel not_found);
  schedule_summary = λ q. err (sentinel not_found);
  list_appointments = λ q. ok ([], pos 0);
  search_customers = λ q. err (sentinel not_found);
  slot_service = λ t s. ok haircut;
  slot_branch = λ t s. ok centre;
  availability = λ q. ok (record {
    specialist_found = true;
    specialists = ana ∷ [];
    exceptions = [];
    busy = busy_nine ∷ [];
  });
}

abbrev pub service : Service
service = record {
  store = store;
  calendar = calendar;
  decode_hours = λ s. none;
  is_digit = λ c. leb 48 c && leb c 57;
  now = midnight;
}

abbrev pub check_ten : SlotCheckInput
check_ten = record {
  service_id = id_a;
  branch_id = id_b;
  specialist_id = id_a;
  start = at_utc ten;
  extra_minutes = pos 0;
}
