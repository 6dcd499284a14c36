-- ===== src/Business/Checks.antt =====
-- internal/application/business/service.go: the checks of arguments, and errors.go.
pub mod Laws
use booknow_mcp_service.Base.{
  ℕ, suc, ◌+◌, ℤ, pos, negsuc, String, List, [], ◌∷◌, ◌++◌, Option, none, some, Bool, true, false,
  not, ◌&&◌, ◌||◌, leb, ltb, ◌==◌, leb_ℤ, ltb_ℤ, eq_ℤ, str_eq, if◌then◌else◌, length, keep, bytes,
  chars, of_chars, concat, trim_space, code, Char, Kind, invalid_argument, not_found, conflict,
  forbidden, Err, business, sentinel, fault, wrapped, other, Result, ok, err,
}

-- Whether two kinds are the same sentinel.
abbrev pub same_kind : Kind → Kind → Bool
same_kind invalid_argument invalid_argument = true
same_kind not_found not_found = true
same_kind conflict conflict = true
same_kind forbidden forbidden = true
same_kind _ _ = false

-- `errors.Is(err, kind)`, through Unwrap
unfoldable pub is_kind : Kind → Err → Bool
is_kind kind (business k message) = same_kind k kind
is_kind kind (sentinel k) = same_kind k kind
is_kind kind (wrapped text e) = is_kind kind e
is_kind kind (fault f) = false
is_kind kind (other text) = false

-- `errors.As(err, &be)`: the message of the business.Error in the chain.
unfoldable pub client_message : Err → Option String
client_message (business k message) = some message
client_message (wrapped text e) = client_message e
client_message (sentinel k) = none
client_message (fault f) = none
client_message (other text) = none

-- `isHex`
abbrev pub is_hex : ℕ → Bool
is_hex c = (leb b'0' c && leb c b'9') || (leb b'a' c && leb c b'f') || (leb b'A' c && leb c b'F')

-- The byte that belongs at index i of a hyphenated UUID.
abbrev pub uuid_byte : ℕ → ℕ → Bool
uuid_byte i c = if i == 8 || (i == 13 || (i == 18 || i == 23)) then c == b'-' else is_hex c

uuid_from : ℕ → List ℕ → Bool
uuid_from i [] = true
uuid_from i (c ∷ s) = uuid_byte i c && uuid_from (i + 1) s

-- `IsUUID` of business and `isUUID` of auth
unfoldable pub is_uuid : String → Bool
unfolding uuid_from
is_uuid s = length (bytes s) == 36 && uuid_from 0 (bytes s)

-- `requiredUUID` and `optionalUUID`; `none` is a nil error.
unfoldable pub required_uuid : String → String → Result (Unit {0})
required_uuid field value =
    if is_uuid (trim_space value)
    then ok tt
    else err (business invalid_argument (concat field " debe ser un UUID válido."))

unfoldable pub optional_uuid : String → String → Result (Unit {0})
optional_uuid field value =
    if str_eq (trim_space value) "" then ok tt else required_uuid field value

abbrev pub max_page : ℤ
max_page = pos 10000

abbrev pub max_page_limit : ℤ
max_page_limit = pos 100

abbrev or_default : ℤ → ℤ → ℤ
or_default n d = if eq_ℤ n (pos 0) then d else n

-- `pageAndLimit`
unfoldable pub page_and_limit : ℤ → ℤ → Result (ℤ × ℤ)
page_and_limit page limit =
    if ltb_ℤ page (pos 0) || ltb_ℤ max_page page
    then err (business invalid_argument "page debe estar entre 1 y 10000.")
    else if ltb_ℤ limit (pos 0) || ltb_ℤ max_page_limit limit
    then err (business invalid_argument "limit debe estar entre 1 y 100.")
    else ok (or_default page (pos 1), or_default limit (pos 20))

-- `entityErr` after a lookup of an entity: not found and inactive give one error.
unfoldable pub active_entity {ℓ} : {A : Type ℓ} → String → (A → Bool) → Result A → Result A
active_entity message active (ok a) = if active a then ok a else err (business not_found message)
active_entity message active (err e) =
    if is_kind not_found e then err (business not_found message) else err e

-- The escape of one character for ILIKE.
abbrev escaped : Char → List Char → List Char
escaped c rest =
    if code c == 92 || (code c == b'%' || code c == b'_')
    then Char.char 92 tt ∷ c ∷ rest
    else c ∷ rest

-- `escapeLike`, on characters
unfoldable pub escape_like : List Char → List Char
escape_like [] = []
escape_like (c ∷ s) = escaped c (escape_like s)

-- `asciiDigits`
unfoldable pub ascii_digits : String → List Char
ascii_digits s = keep (λ c. leb b'0' (code c) && leb (code c) b'9') (chars s)
