-- ===== src/Business/Slots/Clock.antt =====
-- slots.go: parseClock, over the parts of Go's time.Parse that the two layouts use.
pub mod Bounds
use booknow_mcp_service.Base.{
  ℕ, zero, suc, ◌+◌, ◌-◌, ◌*◌, ℤ, pos, String, List, [], ◌∷◌, Option, none, some, Bool, true, false,
  ◌&&◌, ◌||◌, ltb, leb, ◌==◌, if◌then◌else◌, str_eq, bytes,
}

abbrev digit : ℕ → Bool
digit c = leb b'0' c && leb c b'9'

-- Skips the digits in front.
skip_digits : List ℕ → List ℕ
skip_digits [] = []
skip_digits (c ∷ s) = let rest = skip_digits s in if digit c then rest else c ∷ s

-- `getnum` with fixed: exactly two digits.
two_digits : List ℕ → Option (ℕ × List ℕ)
two_digits [] = none
two_digits (a ∷ []) = none
two_digits (a ∷ b ∷ s) = if digit a && digit b then some ((a - b'0') * 10 + (b - b'0'), s) else none

-- `getnum` without fixed, as for the hour: one or two digits.
one_or_two_digits : List ℕ → Option (ℕ × List ℕ)
one_or_two_digits [] = none
one_or_two_digits (a ∷ []) = if digit a then some (a - b'0', []) else none
one_or_two_digits (a ∷ b ∷ s) =
    if digit a
    then (if digit b then some ((a - b'0') * 10 + (b - b'0'), s) else some (a - b'0', b ∷ s))
    else none

-- A field below its limit.
in_range : ℕ → Option (ℕ × List ℕ) → Option (ℕ × List ℕ)
in_range limit none = none
in_range limit (some (n, s)) = if ltb n limit then some (n, s) else none

colon : List ℕ → Option (List ℕ)
colon [] = none
colon (c ∷ s) = if c == b':' then some s else none

-- After the seconds time.Parse accepts a fraction that the layout does not name.
fraction : List ℕ → List ℕ
fraction [] = []
fraction (p ∷ []) = p ∷ []
fraction (p ∷ d ∷ s) = if (p == b'.' || p == b',') && digit d then skip_digits s else p ∷ d ∷ s

at_end : List ℕ → Bool
at_end [] = true
at_end (c ∷ s) = false

infixl 5 ◌>>=◌
abbrev ◌>>=◌ {ℓ κ} : {A : Type ℓ} {B : Type κ} → Option A → (A → Option B) → Option B
none >>= k = none
some a >>= k = k a

abbrev when : Bool → ℕ → Option ℕ
when true n = some n
when false n = none

-- Hour and minute, in seconds, with what follows.
hour_minute : String → Option (ℕ × List ℕ)
hour_minute s = do
  h ← in_range 24 (one_or_two_digits (bytes s))
  rest ← colon h.1
  m ← in_range 60 (two_digits rest)
  some (h.0 * 3600 + m.0 * 60, m.1)

-- `time.Parse("15:04:05", s)` and `time.Parse("15:04", s)`, in seconds after midnight.
parse_seconds : String → Option ℕ
parse_seconds s = do
  hm ← hour_minute s
  rest ← colon hm.1
  sec ← in_range 60 (two_digits rest)
  when (at_end (fraction sec.1)) (hm.0 + sec.0)

parse_minutes : String → Option ℕ
parse_minutes s = do hm ← hour_minute s; when (at_end hm.1) hm.0

-- Of the two layouts the first that parses; else midnight at the end of the day.
clock_of : Option ℕ → Option ℕ → Bool → Option ℤ
clock_of (some n) o e = some (pos (n * 1000000000))
clock_of none (some n) e = some (pos (n * 1000000000))
clock_of none none true = some (pos 86400000000000)
clock_of none none false = none

-- `parseClock`; the fields of a time of day are far below the int64 range.
unfoldable pub parse_clock : String → Option ℤ
unfolding parse_seconds parse_minutes clock_of hour_minute in_range one_or_two_digits two_digits
    colon fraction skip_digits at_end
parse_clock s =
    clock_of (parse_seconds s) (parse_minutes s) (str_eq s "24:00" || str_eq s "24:00:00")
