-- ===== src/Tests/Booking.antt =====
-- The theorems on service.go, dates.go and the checks at concrete inputs.
use booknow_mcp_service.Base.{
  ℕ, pos, [], ◌∷◌, some, Bool, true, false, ◌≡◌, refl, ◌≢◌, ok, bytes, trim_space, chars,
  has_prefix, leb, ◌&&◌, ◌+ℤ◌, ◌*ℤ◌, ◌-ℤ◌, ◌+w◌, ◌*w◌, wrap64, sub_instants, truncate, sort,
  insert_sorted,
}
use booknow_mcp_service.Business.Types.{AppointmentList, ListAppointmentsInput}
use booknow_mcp_service.Business.Types.Booking.{SlotCheck}
use booknow_mcp_service.Business.Checks.{
  is_uuid, page_and_limit, escape_like, required_uuid, optional_uuid, active_entity,
}
use booknow_mcp_service.Business.Checks.Laws.{read_literal, read_literal-escape_like}
use booknow_mcp_service.Business.Dates.{utc, parse_range, parse_instant, location, start_of_day}
use booknow_mcp_service.Business.Dates.Laws.{IsRange, parse_range-IsRange}
use booknow_mcp_service.Business.Slots.{
  compute_slots, branch_constraints, effect_of, branch_day_hours, by_slot, add_specialists,
  free_windows, specialist_windows, all_shift_windows, shift_windows, clock_range, parse_clock,
  optional_range, subtract_all, subtract, intersect, apply_branch, subtract_busy, candidate_starts,
  starts_from, first_start, update_slots, update_slot, slot_refs,
}
use booknow_mcp_service.Business.Service.{profile}
use booknow_mcp_service.Business.Service.Booking.{
  SlotCatalog, catalog, check_slot, slot_day, day_slots, find_start,
}
use booknow_mcp_service.Business.Service.Booking.Laws.{IsAnswer, check_slot-IsAnswer}
use booknow_mcp_service.Business.Service.Reports.{list_appointments, total_pages}
use booknow_mcp_service.Business.Service.Reports.Laws.{IsPage, list_appointments-IsPage}
use booknow_mcp_service.Platform.Pii.{mask_phone}
use booknow_mcp_service.Platform.Pii.Laws.{mask_phone_hides}
use booknow_mcp_service.Tests.Fixtures.{
  at_utc, midnight, id_a, id_b, calendar, haircut, centre, service, check_ten,
}

abbrev at_ten : SlotCheck
at_ten = record {
  service = haircut;
  branch = centre;
  timezone = "UTC";
  duration_minutes = pos 30;
  available = true;
  specialists = record { id = id_a; name = "Ana" } ∷ [];
}

ten-checked : check_slot service "t" check_ten ≡ ok at_ten
unfolding check_slot catalog required_uuid is_uuid bytes trim_space active_entity ◌+w◌ wrap64 ◌+ℤ◌
    slot_day start_of_day ◌*ℤ◌ day_slots optional_uuid find_start compute_slots branch_constraints
    effect_of branch_day_hours by_slot add_specialists free_windows specialist_windows
    all_shift_windows shift_windows clock_range parse_clock optional_range subtract_all subtract
    intersect apply_branch subtract_busy sub_instants ◌-ℤ◌ candidate_starts starts_from first_start
    truncate update_slots update_slot slot_refs ◌*w◌ sort insert_sorted location
ten-checked = refl

check_slot-IsAnswer_example : IsAnswer service "t" check_ten at_ten
check_slot-IsAnswer_example = check_slot-IsAnswer service "t" check_ten at_ten ten-checked

abbrev centre_catalog : SlotCatalog
centre_catalog = record { service = haircut; branch = centre; loc = utc }

catalog-found : catalog service "t" id_a id_b ≡ ok centre_catalog
unfolding catalog required_uuid is_uuid bytes trim_space active_entity location
catalog-found = refl

abbrev whole_monday : ListAppointmentsInput
whole_monday = record {
  start_date = "2026-01-05";
  end_date = "2026-01-05";
  status = "pending";
  page = pos 0;
  limit = pos 0;
}

abbrev no_appointments : AppointmentList
no_appointments = record {
  timezone = "UTC";
  items = [];
  pagination = record { page = pos 1; limit = pos 20; total = pos 0; total_pages = pos 0 };
}

monday-listed : list_appointments service "t" whole_monday ≡ ok no_appointments
unfolding list_appointments trim_space page_and_limit profile parse_range parse_instant ◌+ℤ◌ ◌*ℤ◌
    location total_pages
monday-listed = refl

list_appointments-IsPage_example : IsPage service "t" whole_monday no_appointments
list_appointments-IsPage_example =
    list_appointments-IsPage service "t" whole_monday no_appointments monday-listed

monday-parsed :
    parse_range calendar "2026-01-05" "2026-01-05" utc ≡ ok (midnight, at_utc (pos 86400000000000))
unfolding parse_range parse_instant trim_space ◌+ℤ◌ ◌*ℤ◌
monday-parsed = refl

parse_range-IsRange_example :
    IsRange calendar "2026-01-05" "2026-01-05" utc midnight (at_utc (pos 86400000000000))
parse_range-IsRange_example =
    parse_range-IsRange calendar "2026-01-05" "2026-01-05" utc midnight
      (at_utc (pos 86400000000000)) monday-parsed

paged : page_and_limit (pos 3) (pos 0) ≡ ok (pos 3, pos 20)
unfolding page_and_limit
paged = refl

id_a-valid : is_uuid id_a ≡ true
unfolding is_uuid bytes
id_a-valid = refl

read_literal-escape_like_example :
    read_literal false (escape_like (chars "50%_a")) ≡ some (chars "50%_a")
read_literal-escape_like_example = read_literal-escape_like (chars "50%_a")

abbrev is_digit : ℕ → Bool
is_digit c = leb 48 c && leb c 57

trimmed-not_empty : trim_space "0991234567" ≢ ""
unfolding trim_space
trimmed-not_empty h = cc

other-not_empty : trim_space "0990000567" ≢ ""
unfolding trim_space
other-not_empty h = cc

mask_phone_hides_example : mask_phone is_digit "0991234567" ≡ mask_phone is_digit "0990000567"
unfolding trim_space chars has_prefix
mask_phone_hides_example =
    mask_phone_hides is_digit "0991234567" "0990000567" trimmed-not_empty other-not_empty refl refl
      refl (λ h. refl)
