-- ===== src/Config/Texts.antt =====
-- internal/config/config.go: the texts of the environment, what strconv and strings read in them.
use booknow_mcp_service.Base.{
  ℤ, pos, sub_ℕ, ℕ, ◌+◌, ◌-◌, ◌*◌, String, Char, code, Bool, true, ◌&&◌, ◌==◌, leb, str_eq,
  trim_space, has_prefix, trim_prefix, List, [], ◌∷◌, Option, none, some, if◌then◌else◌, leb_ℤ,
  ltb_ℤ, int64_half,
}

-- `withDefault`
unfoldable pub with_default : String → String → String
with_default v default = if str_eq (trim_space v) "" then default else v

-- The digits of strconv in base 10, after those already read: none when a character is no digit.
unfoldable pub digits_from : ℕ → String → Option ℕ
digits_from n String.[] = some n
digits_from n (String.◌∷◌ c s) =
    let rest = digits_from (n * 10 + (code c - 48)) s in
    if leb 48 (code c) && leb (code c) 57 then rest else none

-- At least one digit.
unfoldable pub digits : String → Option ℕ
digits String.[] = none
digits (String.◌∷◌ c s) = digits_from 0 (String.◌∷◌ c s)

abbrev negated : Option ℕ → Option ℤ
negated none = none
negated (some n) = some (sub_ℕ 0 n)

abbrev plain : Option ℕ → Option ℤ
plain none = none
plain (some n) = some (pos n)

-- The sign and the digits of `ParseInt(s, 10, …)`.
unfoldable pub signed_digits : String → Option ℤ
signed_digits s =
    if has_prefix s "-"
    then negated (digits (trim_prefix s "-"))
    else if has_prefix s "+"
    then plain (digits (trim_prefix s "+"))
    else plain (digits s)

-- The value, when it is from -half up to half - 1.
abbrev in_range : ℕ → Option ℤ → Option ℤ
in_range half none = none
in_range half (some n) = if leb_ℤ (sub_ℕ 0 half) n && ltb_ℤ n (pos half) then some n else none

-- `strconv.Atoi(s)` where int has 64 bits
unfoldable pub atoi : String → Option ℤ
atoi s = in_range int64_half (signed_digits s)

-- `strconv.ParseInt(s, 10, 32)`
unfoldable pub parse_int32 : String → Option ℤ
parse_int32 s = in_range 2147483648 (signed_digits s)

-- The item before the first comma, and the items after it.
abbrev grow : Char → List String → List String
grow c [] = String.◌∷◌ c "" ∷ []
grow c (item ∷ items) = String.◌∷◌ c item ∷ items

-- `strings.SplitSeq(s, ",")`
unfoldable pub split_commas : String → List String
split_commas String.[] = "" ∷ []
split_commas (String.◌∷◌ c s) =
    let rest = split_commas s in if code c == 44 then "" ∷ rest else grow c rest

-- `strings.Trim(s, "/") == ""`
unfoldable pub only_slashes : String → Bool
only_slashes String.[] = true
only_slashes (String.◌∷◌ c s) = code c == 47 && only_slashes s
