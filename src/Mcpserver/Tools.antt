-- ===== src/Mcpserver/Tools.antt =====
-- internal/mcpserver/business_tools.go and draft_tools.go: the tools.
pub mod Laws
use booknow_mcp_service.Base.{
  ℕ, ℤ, pos, String, Option, none, some, List, [], ◌∷◌, Bool, true, false, not, leb, eq_ℤ, str_eq,
  keep, length, chars, code, codes, rune_count, trim_space, ◌++◌, if◌then◌else◌, Result, ok, err,
  ◌>>=◌,
}
use booknow_mcp_service.Business.Types.{
  Snapshot, ScheduleSummaryInput, ScheduleSummary, ListAppointmentsInput, AppointmentList,
  SearchCustomersInput, Customer,
}
use booknow_mcp_service.Business.Types.Booking.{AvailableSlotsInput, AvailableSlots}
use booknow_mcp_service.Business.Service.{Service}
use booknow_mcp_service.Business.Service.Reports.{
  snapshot, schedule_summary, list_appointments, search_customers,
}
use booknow_mcp_service.Business.Service.Booking.{available_slots}
use booknow_mcp_service.Drafts.Types.{Actor, CreateInput, ConfirmInput, DraftView, ConfirmResult}
use booknow_mcp_service.Drafts.Service.{Drafts, create}
use booknow_mcp_service.Drafts.Service.Confirm.{confirm}
use booknow_mcp_service.Mcpserver.Audit.{Risk, write, Value, text, number, flag, Summary}
use booknow_mcp_service.Mcpserver.Call.{ToolEnv, ToolSpec}

abbrev pub is_sent : Value → Bool
is_sent (text s) = not (str_eq s "")
is_sent (number n) = not (eq_ℤ n (pos 0))
is_sent (flag b) = b

-- `compact`
unfoldable pub compact : Summary → Summary
compact m = keep (λ e. is_sent (e.1)) m

-- `looksLikePhone`; `is_digit` is unicode.IsDigit.
unfoldable pub looks_like_phone : (ℕ → Bool) → String → Bool
looks_like_phone is_digit q = leb 3 (length (keep is_digit (codes q)))

-- The summaries that are audited.
unfoldable pub schedule_audit : ScheduleSummaryInput → Summary
schedule_audit x = compact (
    ("startDate", text x.start_date)
    ∷ ("endDate", text x.end_date)
    ∷ ("branchId", text x.branch_id)
    ∷ ("specialistId", text x.specialist_id)
    ∷ [])

unfoldable pub slots_audit : AvailableSlotsInput → Summary
slots_audit x = compact (
    ("serviceId", text x.service_id)
    ∷ ("branchId", text x.branch_id)
    ∷ ("date", text x.date)
    ∷ ("specialistId", text x.specialist_id)
    ∷ [])

unfoldable pub appointments_audit : ListAppointmentsInput → Summary
appointments_audit x = compact (
    ("startDate", text x.start_date)
    ∷ ("endDate", text x.end_date)
    ∷ ("status", text x.status)
    ∷ ("page", number x.page)
    ∷ ("limit", number x.limit)
    ∷ [])

unfoldable pub customers_audit : (ℕ → Bool) → SearchCustomersInput → Summary
customers_audit is_digit x = compact (
    ("queryLength", number (pos (rune_count (trim_space x.query))))
    ∷ ("byPhone", flag (looks_like_phone is_digit x.query))
    ∷ ("limit", number x.limit)
    ∷ [])

unfoldable pub create_audit : CreateInput → Summary
create_audit x = compact (
    ("customerId", text x.customer_id)
    ∷ ("serviceId", text x.service_id)
    ∷ ("serviceVariantId", text x.service_variant_id)
    ∷ ("branchId", text x.branch_id)
    ∷ ("specialistId", text x.specialist_id)
    ∷ ("scheduledAt", text x.scheduled_at)
    ∷ ("hasNotes", flag (not (str_eq (trim_space x.customer_notes) "")))
    ∷ [])

unfoldable pub confirm_audit : ConfirmInput → Summary
confirm_audit x = compact (("draftId", text x.draft_id) ∷ [])

-- `addBusinessTools`: the tools of the business service, which only read.
module _ {W : Type 0} (env : ToolEnv) (s : Service) where
  abbrev pub snapshot_tool : ToolSpec W (Unit {0}) Snapshot
  snapshot_tool = record {
    name = "get_business_snapshot";
    summary = none;
    run = λ w x. (snapshot s env.access.tenant_id, w);
    risk = none;
  }

  abbrev pub schedule_tool : ToolSpec W ScheduleSummaryInput ScheduleSummary
  schedule_tool = record {
    name = "get_schedule_summary";
    summary = some schedule_audit;
    run = λ w x. (schedule_summary s env.access.tenant_id x, w);
    risk = none;
  }

  abbrev pub slots_tool : ToolSpec W AvailableSlotsInput AvailableSlots
  slots_tool = record {
    name = "list_available_slots";
    summary = some slots_audit;
    run = λ w x. (available_slots s env.access.tenant_id x, w);
    risk = none;
  }

  abbrev pub appointments_tool : ToolSpec W ListAppointmentsInput AppointmentList
  appointments_tool = record {
    name = "list_appointments";
    summary = some appointments_audit;
    run = λ w x. (list_appointments s env.access.tenant_id x, w);
    risk = none;
  }

  abbrev pub customers_tool : ToolSpec W SearchCustomersInput (List Customer)
  customers_tool = record {
    name = "search_customers";
    summary = some (customers_audit s.is_digit);
    run = λ w x. (search_customers s env.access.tenant_id x, w);
    risk = none;
  }

-- The actor of the draft tools.
abbrev pub actor_of : ToolEnv → Actor
actor_of env = record {
  tenant_id = env.access.tenant_id;
  connection_id = env.access.connection_id;
  user_id = env.access.user_id;
}

-- `addDraftTools`
module _ {W : Type 0} (env : ToolEnv) (s : Drafts W) where
  abbrev pub create_tool : ToolSpec W CreateInput DraftView
  create_tool = record {
    name = "create_appointment_draft";
    summary = some create_audit;
    run = λ w x. create s w (actor_of env) x;
    risk = some write;
  }

  abbrev pub confirm_tool : ToolSpec W ConfirmInput ConfirmResult
  confirm_tool = record {
    name = "confirm_appointment_draft";
    summary = some confirm_audit;
    run = λ w x. confirm s w (actor_of env) x;
    risk = some write;
  }

-- `New`: the names of the tools that a server has, by whether the services are set.
unfoldable pub tool_names : (business drafts : Bool) → List String
tool_names business drafts =
    "health"
      ∷ (if business
          then "get_business_snapshot" ∷ "get_schedule_summary" ∷ "list_available_slots"
            ∷ "list_appointments" ∷ "search_customers" ∷ []
          else [])
    ++ (if drafts then "create_appointment_draft" ∷ "confirm_appointment_draft" ∷ [] else [])
