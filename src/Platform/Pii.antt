-- ===== src/Platform/Pii.antt =====
-- internal/platform/pii/phone.go. `is_digit` is unicode.IsDigit on a code point.
pub mod Laws
use booknow_mcp_service.Base.{
  ℕ, ◌+◌, ◌-◌, Char, code, String, List, [], ◌∷◌, ◌++◌, Option, none, some, Bool, ◌&&◌, leb, ltb,
  str_eq, if◌then◌else◌, length, take, drop, replicate, keep, trim_space, has_prefix, chars,
  of_chars,
}

abbrev full_mask : String
full_mask = "******"

abbrev star : Char
star = Char.char 42 tt

abbrev plus : Char
plus = Char.char 43 tt

-- Whether "+" and the country code are shown.
abbrev pub is_international : String → List Char → Bool
is_international trimmed digits = has_prefix trimmed "+" && leb 10 (length digits)

abbrev country_code : List Char → List Char
country_code digits = plus ∷ take 3 digits

-- The mask of seven digits or more.
abbrev pub mask_digits : Bool → List Char → List Char
mask_digits international digits =
    let hidden = length digits - 3 in
    (if international then country_code digits else [])
    ++ (replicate (if international then hidden - 3 else hidden) star ++ drop hidden digits)

abbrev pub digits_of : (ℕ → Bool) → String → List Char
digits_of is_digit s = keep (λ c. is_digit (code c)) (chars s)

-- `MaskPhone`
unfoldable pub mask_phone : (ℕ → Bool) → String → Option String
mask_phone is_digit phone =
    let trimmed = trim_space phone in
    let digits = digits_of is_digit trimmed in
    if str_eq trimmed ""
    then none
    else if ltb (length digits) 7
    then some full_mask
    else some (of_chars (mask_digits (is_international trimmed digits) digits))
