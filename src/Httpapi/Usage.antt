-- ===== src/Httpapi/Usage.antt =====
-- internal/httpapi/mcp_usage.go: the throttle of last_used_at. A Go map is an association list.
pub mod Laws
pub mod Coverage
pub mod Once
use booknow_mcp_service.Base.{
  ℤ, pos, String, List, [], ◌∷◌, Option, none, some, Bool, true, false, not, if◌then◌else◌, str_eq,
  ltb_ℤ, sub_instants, minute, keep,
}

-- `usageThrottle.last`
abbrev pub Last : Type 0
Last = List (String × ℤ)

-- `m[key]`
unfoldable pub lookup : String → Last → Option ℤ
lookup key [] = none
lookup key ((k, v) ∷ m) = if str_eq k key then some v else lookup key m

-- `now.Sub(seen) < usageRecordInterval`
abbrev pub is_recent : ℤ → ℤ → Bool
is_recent now seen = ltb_ℤ (sub_instants now seen) minute

abbrev pub seen_recently : ℤ → Option ℤ → Bool
seen_recently now none = false
seen_recently now (some seen) = is_recent now seen

-- The loop that drops the stale entries.
abbrev pub drop_stale : ℤ → Last → Last
drop_stale now m = keep (λ e. is_recent now (e.1)) m

-- `m[key] = value`
abbrev pub set_key : String → ℤ → Last → Last
set_key key value m = (key, value) ∷ keep (λ e. not (str_eq (e.0) key)) m

-- `due` at a time: whether a use is to be recorded, and the map after it
unfoldable pub due : ℤ → String → Last → Bool × Last
due now id last =
    if seen_recently now (lookup id last)
    then (false, last)
    else (true, set_key id now (drop_stale now last))
