-- ===== src/Drafts/View.antt =====
-- internal/application/drafts/service.go: status, view, humanSummary and price.
use booknow_mcp_service.Base.{
  ℕ, zero, suc, ℤ, String, Option, none, some, Bool, not, ◌&&◌, ◌||◌, if◌then◌else◌, str_eq, concat,
  trim_space, List, [], ◌∷◌,
}
use booknow_mcp_service.Business.Types.{Time, Location, Ref}
use booknow_mcp_service.Business.Dates.{Calendar, in_zone, before, zone_name, utc}
use booknow_mcp_service.Business.Service.{ref}
use booknow_mcp_service.Drafts.Types.{Draft, DraftView}

-- What the texts take from Go: the calendar, t.Format("02/01/2006"), t.Format("15:04") and
-- fmt.Sprintf("%.2f").
pub record Format : Type 0 where
  pub calendar : Calendar
  pub short_date : Time → String
  pub clock : Time → String
  pub amount : ℤ → String

abbrev pub status_draft : String
status_draft = "draft"

abbrev pub status_confirmed : String
status_confirmed = "confirmed"

abbrev pub status_expired : String
status_expired = "expired"

-- `Service.status` at a time
unfoldable pub status : Time → Draft → String
status now d =
    if str_eq d.status status_draft && not (before now d.expires_at)
    then status_expired
    else d.status

-- `weekdayNames[t.Weekday()]`
abbrev pub spanish_weekday : ℕ → String
spanish_weekday zero = "domingo"
spanish_weekday (suc zero) = "lunes"
spanish_weekday (suc (suc zero)) = "martes"
spanish_weekday (suc (suc (suc zero))) = "miércoles"
spanish_weekday (suc (suc (suc (suc zero)))) = "jueves"
spanish_weekday (suc (suc (suc (suc (suc zero))))) = "viernes"
spanish_weekday (suc (suc (suc (suc (suc (suc n)))))) = "sábado"

-- The texts of a list in a row.
unfoldable pub join : List String → String
join [] = ""
join (s ∷ ss) = concat s (join ss)

-- `price`
unfoldable pub price : (ℤ → String) → Option ℤ → Option String → String
price amount none currency = "sin definir"
price amount (some a) none = amount a
price amount (some a) (some currency) =
    if str_eq currency "" then amount a else join (amount a ∷ " " ∷ currency ∷ [])

abbrev in_parens : Option Ref → String
in_parens none = ""
in_parens (some v) = join (" (" ∷ v.name ∷ ")" ∷ [])

abbrev with_name : Option Ref → String
with_name none = ""
with_name (some v) = join (" con " ∷ v.name ∷ [])

-- The booking of a summary.
abbrev pub booking : Format → DraftView → String
booking f v = join (
    v.customer.name
    ∷ ": "
    ∷ v.service.name
    ∷ in_parens v.variant
    ∷ " en "
    ∷ v.branch.name
    ∷ with_name v.specialist
    ∷ ", el "
    ∷ spanish_weekday (f.calendar.weekday v.scheduled_at)
    ∷ " "
    ∷ f.short_date v.scheduled_at
    ∷ " de "
    ∷ f.clock v.scheduled_at
    ∷ " a "
    ∷ f.clock v.ends_at
    ∷ " ("
    ∷ v.timezone
    ∷ ")"
    ∷ [])

-- `humanSummary`
unfoldable pub human_summary : Format → DraftView → String
human_summary f v =
    let b = booking f v in
    if str_eq v.status status_draft
    then join (
        "Borrador de cita pendiente de aprobación para "
        ∷ b
        ∷ ". Precio estimado: "
        ∷ price f.amount v.estimated_price v.currency_code
        ∷ ". Expira a las "
        ∷ f.clock v.expires_at
        ∷ ". Muestra este resumen al usuario y llama a confirm_appointment_draft solo si lo aprueba explícitamente."
        ∷ [])
    else if str_eq v.status status_confirmed
    then join (
        "Este borrador ya fue confirmado y la cita está creada (" ∷ b
        ∷ "). No hace falta volver a confirmarlo." ∷ [])
    else if str_eq v.status status_expired
    then join (
        "Este borrador expiró sin confirmarse (" ∷ b
        ∷ "). Crea uno nuevo con otra idempotencyKey si el usuario aún quiere la cita." ∷ [])
    else join
        ("Este borrador está en estado " ∷ v.status ∷ " y no se puede confirmar (" ∷ b ∷ ")." ∷ [])

-- `location` of package drafts
unfoldable pub branch_location : Calendar → String → Location
branch_location cal name =
    if not (cal.loads name) || str_eq name "" then utc else Location.iana name

-- The view before its summary is written.
abbrev plain_view : Format → Time → Draft → Bool → DraftView
plain_view f now d reused =
    let loc = branch_location f.calendar d.branch_timezone in
    record {
      draft_id = d.id;
      status = status now d;
      reused = reused;
      scheduled_at = in_zone d.scheduled_at loc;
      ends_at = in_zone d.ends_at loc;
      timezone = zone_name loc;
      duration_minutes = d.duration_minutes;
      estimated_price = d.estimated_price;
      currency_code = d.currency_code;
      expires_at = in_zone d.expires_at loc;
      customer = record {
        id = d.customer_id;
        name = trim_space (join (d.customer_first_name ∷ " " ∷ d.customer_last_name ∷ []));
      };
      service = record { id = d.service_id; name = d.service_name };
      variant = ref d.variant_id d.variant_name;
      branch = record { id = d.branch_id; name = d.branch_name };
      specialist = ref d.specialist_id d.specialist_name;
      confirmed_appointment_id = d.confirmed_appointment_id;
      human_summary = "";
    }

-- `Service.view`
unfoldable pub view : Format → Time → Draft → Bool → DraftView
view f now d reused =
    let v = plain_view f now d reused in record v { human_summary = human_summary f v }
