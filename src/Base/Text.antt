-- ===== src/Base/Text.antt =====
-- Go strings as native texts: `codes` are the runes that `range` visits, `bytes` the UTF-8 that `len`
-- and indexing see. Inputs are valid UTF-8.
use Prim.Native.Nat.{ℕ, zero, suc, ◌+◌, ◌/◌, ◌%◌}
use Prim.Native.Char.{Char, code}
use Prim.Native.String.{String}
use mathlib.Core.Bool.{Bool, true, false, ◌&&◌, ◌||◌}
use mathlib.Core.List.{List, [], ◌∷◌, ◌++◌}
use text.Mathlib.Text.{◌==◌ as str_eq}
use booknow_mcp_service.Base.Tests.{leb, ltb, ◌==◌, if◌then◌else◌}
use booknow_mcp_service.Base.Lists.{length}

unfoldable pub codes : String → List ℕ
codes String.[] = []
codes (String.◌∷◌ c s) = code c ∷ codes s

-- The UTF-8 encoding of a code point.
unfoldable pub utf8 : ℕ → List ℕ
utf8 c =
    if ltb c 0x80
    then c ∷ []
    else if ltb c 0x800
    then (0xC0 + c / 64) ∷ (0x80 + c % 64) ∷ []
    else if ltb c 0x10000
    then (0xE0 + c / 4096) ∷ (0x80 + c / 64 % 64) ∷ (0x80 + c % 64) ∷ []
    else (0xF0 + c / 262144) ∷ (0x80 + c / 4096 % 64) ∷ (0x80 + c / 64 % 64) ∷ (0x80 + c % 64) ∷ []

unfoldable pub bytes : String → List ℕ
unfolding utf8
bytes String.[] = []
bytes (String.◌∷◌ c s) = utf8 (code c) ++ bytes s

-- `len(s)`
abbrev pub byte_len : String → ℕ
byte_len s = length (bytes s)

-- `utf8.RuneCountInString(s)`
abbrev pub rune_count : String → ℕ
rune_count s = length (codes s)

-- `unicode.IsSpace`
unfoldable pub is_space : ℕ → Bool
is_space c =
    (leb 9 c && leb c 13)
    || c == 32
    || c == 0x85
    || c == 0xA0
    || c == 0x1680
    || (leb 0x2000 c && leb c 0x200A)
    || c == 0x2028
    || c == 0x2029
    || c == 0x202F
    || c == 0x205F
    || c == 0x3000

unfoldable pub trim_left : String → String
trim_left String.[] = ""
trim_left (String.◌∷◌ c s) =
    let rest = trim_left s in if is_space (code c) then rest else String.◌∷◌ c s

unfoldable pub trim_right : String → String
trim_right String.[] = ""
trim_right (String.◌∷◌ c s) =
    let rest = trim_right s in if str_eq rest "" && is_space (code c) then "" else String.◌∷◌ c rest

-- `strings.TrimSpace`
unfoldable pub trim_space : String → String
unfolding trim_left trim_right is_space
trim_space s = trim_right (trim_left s)

-- `strings.HasPrefix(s, p)`
unfoldable pub has_prefix : String → String → Bool
has_prefix s String.[] = true
has_prefix String.[] (String.◌∷◌ d p) = false
has_prefix (String.◌∷◌ c s) (String.◌∷◌ d p) = code c == code d && has_prefix s p

-- The characters of a text, and the text of characters.
unfoldable pub chars : String → List Char
chars String.[] = []
chars (String.◌∷◌ c s) = c ∷ chars s

unfoldable pub of_chars : List Char → String
of_chars [] = ""
of_chars (c ∷ cs) = String.◌∷◌ c (of_chars cs)

-- `a + b` on strings
unfoldable pub concat : String → String → String
concat String.[] t = t
concat (String.◌∷◌ c s) t = String.◌∷◌ c (concat s t)

-- `strings.TrimPrefix(s, p)`
unfoldable pub trim_prefix : String → String → String
trim_prefix s String.[] = s
trim_prefix String.[] (String.◌∷◌ d p) = ""
trim_prefix (String.◌∷◌ c s) (String.◌∷◌ d p) =
    let rest = trim_prefix s p in
    if code c == code d && has_prefix s p then rest else String.◌∷◌ c s

-- `[0-9a-f]`
abbrev is_lower_hex : ℕ → Bool
is_lower_hex c = (leb 48 c && leb c 57) || (leb 97 c && leb c 102)

-- `[0-9a-f]{n}$`
unfoldable pub hex_run : ℕ → String → Bool
hex_run zero String.[] = true
hex_run zero (String.◌∷◌ c s) = false
hex_run (suc n) String.[] = false
hex_run (suc n) (String.◌∷◌ c s) = is_lower_hex (code c) && hex_run n s

-- `^prefix[0-9a-f]{32}$`
unfoldable pub sid_shape : String → String → Bool
sid_shape prefix s = has_prefix s prefix && hex_run 32 (trim_prefix s prefix)

-- The order of strings: by bytes, which for UTF-8 is by runes.
unfoldable pub str_leb : String → String → Bool
str_leb String.[] t = true
str_leb (String.◌∷◌ c s) String.[] = false
str_leb (String.◌∷◌ c s) (String.◌∷◌ d t) =
    ltb (code c) (code d) || (code c == code d && str_leb s t)
