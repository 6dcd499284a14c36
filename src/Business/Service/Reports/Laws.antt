-- ===== src/Business/Service/Reports/Laws.antt =====
-- service.go: what the reports ask the store, and how they page.
use Prim.Native.Nat.{◌*◌}
use booknow_mcp_service.Base.{
  ℕ, suc, ◌-◌, ◌/◌, ◌≤◌, ◌<◌, ℤ, pos, ◌-ℤ◌, ◌*ℤ◌, ◌≤ℤ◌, String, List, map, Bool, true, ◌||◌, str_eq,
  eq_iff, trim_space, ◌≡◌, refl, ◌⊎◌, arith, ok, guard, guard-eq-ok, wrap_err, >>=-eq-ok,
  wrap_err-eq-ok, ok-injective,
}
use booknow_mcp_service.Business.Types.{
  Location, AppointmentQuery, AppointmentRow, ListAppointmentsInput, AppointmentList,
}
use booknow_mcp_service.Business.Checks.{page_and_limit}
use booknow_mcp_service.Business.Checks.Laws.{page_and_limit_bounds}
use booknow_mcp_service.Business.Dates.{parse_range}
use booknow_mcp_service.Business.Service.{Service, profile}
use booknow_mcp_service.Business.Service.Reports.{
  is_status, to_appointment, total_pages, appointment_query, list_appointments,
}

-- The number of pages is the least that holds all appointments: the last page is not empty, and no
-- appointment is beyond it.
pub total_pages_bounds :
    (n l : ℕ)
    → 0 < n
    → 0 < l
    → (k : ℕ) × (total_pages (pos n) (pos l) ≡ pos (suc k)) × (k * l < n) × (n ≤ suc k * l)
unfolding total_pages
total_pages_bounds n l p q = ((n - 1) / l, grind arith, grind arith, grind arith)

is_empty_or : (t : String) (b : Bool) → (str_eq t "" || b) ≡ true → (t ≡ "") ⊎ (b ≡ true)
is_empty_or t b h = ground (arith, eq_iff t "")

-- What a page of appointments was read with: one query for the tenant, with an accepted status,
-- a limit from 1 to 100, an offset that is not negative, and the range that parse_range accepted.
pub record IsPage (s : Service) (tenant_id : String) (x : ListAppointmentsInput)
    (answer : AppointmentList) : Type 0 where
  pub query : AppointmentQuery
  pub rows : List AppointmentRow
  pub total : ℤ
  pub loc : Location
  pub asked : s.store.list_appointments query ≡ ok (rows, total)
  pub tenant_is : query.tenant_id ≡ tenant_id
  pub status_valid : (query.status ≡ "") ⊎ (is_status query.status ≡ true)
  pub limit_from : pos 1 ≤ℤ query.limit
  pub limit_to : query.limit ≤ℤ pos 100
  pub offset_is : query.offset ≡ (answer.pagination.page -ℤ pos 1) *ℤ query.limit
  pub page_from : pos 1 ≤ℤ answer.pagination.page
  pub range_is : parse_range s.calendar x.start_date x.end_date loc ≡ ok (query.from, query.to)
  pub items_are : answer.items ≡ map (to_appointment s.is_digit loc) rows
  pub total_is : answer.pagination.total ≡ total

-- Every page that list_appointments answers was read with one bounded query of the tenant.
pub list_appointments-IsPage :
    (s : Service) (tenant_id : String) (x : ListAppointmentsInput) (answer : AppointmentList)
    → list_appointments s tenant_id x ≡ ok answer
    → IsPage s tenant_id x answer
unfolding list_appointments
list_appointments-IsPage s tenant_id x answer e =
    let status = trim_space x.status in
    let (u, valid, e1) = >>=-eq-ok (guard (str_eq status "" || is_status status) _) _ e in
    let ((page, limit), paged, e2) = >>=-eq-ok (page_and_limit x.page x.limit) _ e1 in
    let ((p, loc), profiled, e3) = >>=-eq-ok (profile s tenant_id) _ e2 in
    let ((from, to), ranged, e4) =
      >>=-eq-ok (parse_range s.calendar x.start_date x.end_date loc) _ e3 in
    let query = appointment_query tenant_id from to status page limit in
    let ((rows, total), read, e5) =
      >>=-eq-ok (wrap_err "list appointments" (s.store.list_appointments query)) _ e4 in
    let bounds = page_and_limit_bounds x.page x.limit page limit paged in
    let same = ok-injective e5 in
    rw (← same) (record {
      query = query;
      rows = rows;
      total = total;
      loc = loc;
      asked = wrap_err-eq-ok _ _ read;
      tenant_is = refl;
      status_valid =
          is_empty_or status (is_status status)
            (guard-eq-ok (str_eq status "" || is_status status) _ valid);
      limit_from = bounds.2;
      limit_to = bounds.3;
      offset_is = refl;
      page_from = bounds.0;
      range_is = ranged;
      items_are = refl;
      total_is = refl;
    })
