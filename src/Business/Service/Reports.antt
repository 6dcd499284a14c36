-- ===== src/Business/Service/Reports.antt =====
-- service.go: Snapshot, ScheduleSummary, ListAppointments and SearchCustomers.
pub mod Laws
use mathlib.Core.Option
use booknow_mcp_service.Base.{
  ℕ, suc, ◌+◌, ◌-◌, ◌/◌, ℤ, pos, negsuc, pos_part, neg_part, ◌+w◌, ◌-ℤ◌, ◌*ℤ◌, String, List, [],
  ◌∷◌, ◌++◌, map, Option, none, some, Bool, true, false, not, ◌&&◌, ◌||◌, ltb, leb, if◌then◌else◌,
  str_eq, trim_space, rune_count, chars, of_chars, length, Char, invalid_argument, business, Result,
  ok, err, guard, wrap_err, ◌>>=◌, ◌>>◌,
}
use booknow_mcp_service.Platform.Pii.{mask_phone}
use booknow_mcp_service.Business.Types.{
  Time, Location, Ref, Snapshot, SnapshotCounts, ScheduleSummaryInput, DayCount, ScheduleSummary,
  Period, ListAppointmentsInput, AppointmentQuery, AppointmentRow, AppointmentCustomer, Appointment,
  AppointmentList, SearchCustomersInput, CustomerRow, Customer,
}
use booknow_mcp_service.Business.Checks.{optional_uuid, page_and_limit, escape_like, ascii_digits}
use booknow_mcp_service.Business.Dates.{start_of_day, in_zone, zone_name, parse_range}
use booknow_mcp_service.Business.Service.{Service, profile, deref, ref, non_nil}

-- `Snapshot`
unfoldable pub snapshot : Service → String → Result Snapshot
snapshot s tenant_id = do
  (p, loc) ← profile s tenant_id
  let day_start = start_of_day s.calendar s.now loc
  counts ← wrap_err "snapshot counts" (
      s.store.snapshot_counts (record {
        tenant_id = tenant_id;
        since = s.calendar.add_days s.now (negsuc 29);
        day_start = day_start;
        day_end = s.calendar.add_days day_start (pos 1);
      }))
  ok (record {
    tenant_name = p.name;
    tenant_slug = p.slug;
    timezone = zone_name loc;
    metrics = record {
      active_branches_count = counts.active_branches;
      active_specialists_count = counts.active_specialists;
      active_services_count = counts.active_services;
      today_appointments_count = counts.today_appointments;
      appointments_by_status = non_nil counts.by_status;
    };
    top_services = non_nil counts.top_services;
    generated_at = in_zone s.now loc;
  })

-- The loop that adds up the days.
unfoldable pub total_of : ℤ → List DayCount → ℤ
total_of total [] = total
total_of total (d ∷ ds) = total_of (total +w d.count) ds

-- `ScheduleSummary`
unfoldable pub schedule_summary : Service → String → ScheduleSummaryInput → Result ScheduleSummary
schedule_summary s tenant_id x = do
  optional_uuid "branchId" x.branch_id
  optional_uuid "specialistId" x.specialist_id
  (p, loc) ← profile s tenant_id
  (from, to) ← parse_range s.calendar x.start_date x.end_date loc
  counts ← wrap_err "schedule summary" (
      s.store.schedule_summary (record {
        tenant_id = tenant_id;
        timezone = zone_name loc;
        from = from;
        to = to;
        branch_id = trim_space x.branch_id;
        specialist_id = trim_space x.specialist_id;
      }))
  ok (record {
    period = record { start_date = x.start_date; end_date = x.end_date; timezone = zone_name loc };
    total_appointments = total_of (pos 0) (non_nil counts.days);
    daily_appointments = non_nil counts.days;
    specialist_appointments = non_nil counts.specialists;
  })

-- `appointmentStatuses`
abbrev pub is_status : String → Bool
is_status t =
    str_eq t "pending"
    || (str_eq t "confirmed"
        || (str_eq t "in_progress"
            || (str_eq t "completed" || (str_eq t "cancelled" || str_eq t "no_show"))))

-- The customer of a row with the phone masked.
abbrev customer_of : (ℕ → Bool) → AppointmentRow → Option String → Option AppointmentCustomer
customer_of is_digit r none = none
customer_of is_digit r (some id) = some (record {
  id = id;
  first_name = deref r.customer_first_name;
  last_name = deref r.customer_last_name;
  phone_masked = mask_phone is_digit (deref r.customer_phone);
})

-- `toAppointment`
unfoldable pub to_appointment : (ℕ → Bool) → Location → AppointmentRow → Appointment
to_appointment is_digit loc r = record {
  id = r.id;
  scheduled_at = in_zone r.scheduled_at loc;
  ends_at = Option.map (λ t. in_zone t loc) r.ends_at;
  duration_minutes = r.duration_minutes;
  status = r.status;
  estimated_price = r.estimated_price;
  currency_code = r.currency_code;
  customer_notes = r.customer_notes;
  source = r.source;
  customer = customer_of is_digit r r.customer_id;
  specialist = ref r.specialist_id r.specialist_name;
  service = ref r.service_id r.service_name;
  branch = ref r.branch_id r.branch_name;
}

-- `int(math.Ceil(float64(total) / float64(limit)))`, which is exact for the counts of a table.
unfoldable pub total_pages : ℤ → ℤ → ℤ
total_pages (pos n) limit = pos ((n + pos_part limit - 1) / pos_part limit)
total_pages (negsuc n) limit = pos 0 -ℤ pos (suc n / pos_part limit)

abbrev pub appointment_query : String → Time → Time → String → ℤ → ℤ → AppointmentQuery
appointment_query tenant_id from to status page limit = record {
  tenant_id = tenant_id;
  from = from;
  to = to;
  status = status;
  limit = limit;
  offset = (page -ℤ pos 1) *ℤ limit;
}

-- `ListAppointments`
unfoldable pub list_appointments : Service → String → ListAppointmentsInput → Result AppointmentList
list_appointments s tenant_id x = do
  let status = trim_space x.status
  guard (str_eq status "" || is_status status) (
      business invalid_argument
        "status inválido: usa pending, confirmed, in_progress, completed, cancelled o no_show.")
  (page, limit) ← page_and_limit x.page x.limit
  (p, loc) ← profile s tenant_id
  (from, to) ← parse_range s.calendar x.start_date x.end_date loc
  (rows, total) ←
      wrap_err "list appointments"
        (s.store.list_appointments (appointment_query tenant_id from to status page limit))
  ok (record {
    timezone = zone_name loc;
    items = map (to_appointment s.is_digit loc) rows;
    pagination = record {
      page = page;
      limit = limit;
      total = total;
      total_pages = total_pages total limit;
    };
  })

-- A row of the search with the phone masked.
unfoldable pub to_customer : (ℕ → Bool) → CustomerRow → Customer
to_customer is_digit r = record {
  id = r.id;
  first_name = r.first_name;
  last_name = r.last_name;
  phone_masked = mask_phone is_digit (deref r.phone);
  created_at = r.created_at;
}

abbrev percent : Char
percent = Char.char 37 tt

-- The ILIKE pattern of a query.
unfoldable pub like_pattern : String → String
like_pattern query = of_chars (percent ∷ escape_like (chars query) ++ percent ∷ [])

-- The digits to search by, if there are at least three.
unfoldable pub search_digits : String → String
search_digits query =
    let digits = ascii_digits query in if ltb (length digits) 3 then "" else of_chars digits

-- `SearchCustomers`
unfoldable pub search_customers : Service → String → SearchCustomersInput → Result (List Customer)
search_customers s tenant_id x = do
  let query = trim_space x.query
  guard (leb 3 (rune_count query) && leb (rune_count query) 100)
      (business invalid_argument "query debe tener entre 3 y 100 caracteres.")
  (page, limit) ← page_and_limit (pos 1) x.limit
  rows ← wrap_err "search customers" (
      s.store.search_customers (record {
        tenant_id = tenant_id;
        pattern_text = like_pattern query;
        digits = search_digits query;
        limit = limit;
      }))
  ok (map (to_customer s.is_digit) rows)
