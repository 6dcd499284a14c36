-- ===== src/Business/Dates.antt =====
-- internal/application/business/dates.go, over Go's package time and its tz database.
pub mod Laws
use booknow_mcp_service.Base.{
  ℕ, ℤ, pos, ◌+ℤ◌, String, Option, none, some, Bool, true, false, ltb_ℤ, if◌then◌else◌, str_eq,
  trim_space, invalid_argument, business, Result, ok, err, ◌>>=◌,
}
use booknow_mcp_service.Business.Types.{Location, iana, fixed, Time}

pub record Date : Type 0 where
  pub year : ℤ
  pub month : ℕ
  pub day : ℕ

-- What the program uses of package time that rests on the calendar and the tz database.
pub record Calendar : Type 0 where
  -- time.LoadLocation(name) succeeds
  pub loads : String → Bool
  -- t.Date() in t's location, and time.Date(y, m, d, 0, 0, 0, 0, loc)
  pub date_of : Time → Date
  pub midnight : Date → Location → Time
  -- t.AddDate(0, 0, n)
  pub add_days : Time → ℤ → Time
  -- t.Weekday(), 0 for Sunday
  pub weekday : Time → ℕ
  -- time.ParseInLocation("2006-01-02", s, loc) and t.Format("2006-01-02")
  pub parse_date : String → Location → Option Time
  pub format_date : Time → String
  -- time.Parse(time.RFC3339, s)
  pub parse_rfc3339 : String → Option Time

-- `loc.String()`
abbrev pub zone_name : Location → String
zone_name (iana name) = name
zone_name (fixed offset) = ""

-- `t.In(loc)`
abbrev pub in_zone : Time → Location → Time
in_zone t loc = record t { zone = loc }

-- `t.Add(d)`
abbrev pub add_time : Time → ℤ → Time
add_time t d = record t { at = t.at +ℤ d }

-- `a.Before(b)`
abbrev pub before : Time → Time → Bool
before a b = ltb_ℤ a.at b.at

abbrev pub default_timezone : String
default_timezone = "America/Guayaquil"

abbrev pub utc : Location
utc = iana "UTC"

-- A microsecond, in nanoseconds.
abbrev pub microsecond : ℤ
microsecond = pos 1000

abbrev pub max_range_days : ℤ
max_range_days = pos 31

module _ (cal : Calendar) where
  abbrev fallback_zone : Location
  fallback_zone = if cal.loads default_timezone then iana default_timezone else utc

  -- `location`
  unfoldable pub location : String → Location
  location name =
      if str_eq name "" then fallback_zone else if cal.loads name then iana name else fallback_zone

  abbrev instant_of : Option Time → Option Time → Option (Time × Bool)
  instant_of (some t) datetime = some (t, true)
  instant_of none (some t) = some (t, false)
  instant_of none none = none

  -- `parseInstant`: the instant, and whether it was a date.
  unfoldable pub parse_instant : String → Location → Option (Time × Bool)
  parse_instant s loc =
      let trimmed = trim_space s in
      instant_of (cal.parse_date trimmed loc) (cal.parse_rfc3339 trimmed)

  abbrev or_invalid : String → Option (Time × Bool) → Result (Time × Bool)
  or_invalid message none = err (business invalid_argument message)
  or_invalid message (some r) = ok r

  -- The exclusive end of a range: the next local day, or the next microsecond.
  abbrev pub exclusive_end : Time → Bool → Time
  exclusive_end to is_date = if is_date then cal.add_days to (pos 1) else add_time to microsecond

  -- The latest exclusive end that a range may have.
  abbrev pub range_limit : Time → Bool → Time
  range_limit from is_date =
      let limit = cal.add_days from max_range_days in
      if is_date then limit else add_time limit microsecond

  abbrev bounded : Time × Bool → Time × Bool → Result (Time × Time)
  bounded (from, from_is_date) (to, to_is_date) =
      if before to from
      then err (business invalid_argument "La fecha inicial debe ser anterior o igual a la final.")
      else if before (range_limit from from_is_date) (exclusive_end to to_is_date)
      then err (business invalid_argument "El rango no puede superar 31 días por consulta.")
      else ok (from, exclusive_end to to_is_date)

  -- `parseRange`: an inclusive range as [from, to).
  unfoldable pub parse_range : String → String → Location → Result (Time × Time)
  parse_range start end loc = do
    from ←
        or_invalid "startDate inválida: usa YYYY-MM-DD o fecha y hora ISO 8601."
          (parse_instant start loc)
    to ←
        or_invalid "endDate inválida: usa YYYY-MM-DD o fecha y hora ISO 8601."
          (parse_instant end loc)
    bounded from to

  -- `startOfDay`
  unfoldable pub start_of_day : Time → Location → Time
  start_of_day t loc = cal.midnight (cal.date_of (in_zone t loc)) loc
