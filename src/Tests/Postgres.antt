-- ===== src/Tests/Postgres.antt =====
-- The theorems on the stores at concrete rows.
use booknow_mcp_service.Base.{
  List, [], ◌∷◌, map, none, true, str_eq, ◌≡◌, ◌⊎◌, inl, inr, other, Result, ok, err,
}
use booknow_mcp_service.Business.Types.Booking.{Shift, AvailabilityQuery, Availability}
use booknow_mcp_service.Postgres.{no_rows, row}
use booknow_mcp_service.Postgres.Schedules.{ShiftRow, group_rows}
use booknow_mcp_service.Postgres.Schedules.Laws.{ungroup, NoRepeat, kept_rows, group_rows-ungroup}
use booknow_mcp_service.Postgres.Business.{Db}
use booknow_mcp_service.Postgres.Drafts.{Prefixes}
use booknow_mcp_service.Base.{
  draft_not_found, unauthorized, invalid_status, draft_expired, specialist_unavailable,
}
use booknow_mcp_service.Tests.Fixtures.{midnight, busy_nine, holiday, id_a, id_b}

abbrev morning : Shift
morning = record { start = "09:00"; end = "11:00"; break_start = none; break_end = none }

abbrev evening : Shift
evening = record { start = "17:00"; end = "19:00"; break_start = none; break_end = none }

-- Two shifts of Ana and one of Eva.
abbrev shift_rows : List ShiftRow
shift_rows =
    record { id = id_a; name = "Ana"; shift = morning }
    ∷ record { id = id_a; name = "Ana"; shift = evening }
    ∷ record { id = id_b; name = "Eva"; shift = morning }
    ∷ []

group_rows-ungroup_example :
    (ungroup (group_rows shift_rows) ≡ kept_rows none shift_rows) × NoRepeat (group_rows shift_rows)
group_rows-ungroup_example = group_rows-ungroup shift_rows

abbrev missing {ℓ} : {A : Type ℓ} → Result A
missing = err (other "no such table")

abbrev db : Db
db = record {
  tenant_profile = λ t. no_rows;
  snapshot_counts = λ t from to. no_rows;
  snapshot_status = λ t since. missing;
  top_services = λ t since. missing;
  schedule_days = λ t zone from to b s. missing;
  schedule_specialists = λ t from to b s. missing;
  appointments_count = λ t from to status. no_rows;
  appointments_page = λ q. missing;
  customers = λ q. missing;
  service = λ id t. no_rows;
  branch = λ id t. no_rows;
  specialist_found = λ id t. row (str_eq id id_a);
  schedules = λ t b day s. ok (record { scanned = map (λ r. ok r) shift_rows; ended = none });
  exceptions = λ date b ids. ok (record { scanned = ok holiday ∷ []; ended = none });
  busy = λ t ids from to. ok (record { scanned = ok busy_nine ∷ []; ended = none });
}

abbrev query : AvailabilityQuery
query = record {
  tenant_id = "t";
  branch_id = id_b;
  weekday = "monday";
  date = "2026-01-05";
  specialist_id = id_a;
  day_start = midnight;
  day_end = midnight;
}

abbrev day : Availability
day = record {
  specialist_found = true;
  specialists = group_rows shift_rows;
  exceptions = holiday ∷ [];
  busy = busy_nine ∷ [];
}

-- The prefixes in another order.
abbrev order : Prefixes
order =
    ("UNAUTHORIZED:", unauthorized)
    ∷ ("DRAFT_NOT_FOUND:", draft_not_found)
    ∷ ("INVALID_DRAFT_STATUS:", invalid_status)
    ∷ ("DRAFT_EXPIRED:", draft_expired)
    ∷ ("SPECIALIST_UNAVAILABLE:", specialist_unavailable)
    ∷ []

swapped : {A B C : Type 0} → A ⊎ (B ⊎ C) → B ⊎ (A ⊎ C)
swapped (inl x) = inr (inl x)
swapped (inr (inl x)) = inl x
swapped (inr (inr x)) = inr (inr x)
