-- ===== src/Drafts/Parse.antt =====
-- internal/application/drafts/service.go: parseCreate, parseKey, parseUUID and optionalUUID.
pub mod Laws
use booknow_mcp_service.Base.{
  ℕ, ℤ, String, List, [], ◌∷◌, Option, none, some, Bool, true, false, not, ◌&&◌, ◌||◌, leb, ltb,
  ◌==◌, str_eq, if◌then◌else◌, all, bytes, byte_len, rune_count, concat, trim_space,
  invalid_argument, business, Result, ok, err, guard, ◌>>=◌, ◌>>◌,
}
use booknow_mcp_service.Business.Types.{Time}
use booknow_mcp_service.Business.Checks.{is_uuid}
use booknow_mcp_service.Drafts.Types.{CreateInput}

-- `createRequest`
pub record CreateRequest : Type 0 where
  pub customer_id : String
  pub service_id : String
  pub branch_id : String
  pub variant_id : Option String
  pub specialist_id : Option String
  pub notes : Option String
  pub scheduled_at : Time
  pub key : String

abbrev pub min_key_length : ℕ
min_key_length = 8

abbrev pub max_key_length : ℕ
max_key_length = 100

abbrev pub max_notes_runes : ℕ
max_notes_runes = 500

-- A byte that a key may have.
abbrev pub is_key_byte : ℕ → Bool
is_key_byte c =
    (leb b'a' c && leb c b'z')
    || (leb b'A' c && leb c b'Z')
    || (leb b'0' c && leb c b'9')
    || (c == b'.' || (c == b'_' || (c == b':' || c == b'-')))

-- `parseKey`
unfoldable pub parse_key : String → Result String
parse_key value =
    let key = trim_space value in
    if leb min_key_length (byte_len key)
      && leb (byte_len key) max_key_length
      && all is_key_byte (bytes key)
    then ok key
    else err (
        business invalid_argument
          "idempotencyKey debe tener entre 8 y 100 caracteres: letras, números, punto, guion, guion bajo o dos puntos.")

-- strings.ToLower and time.Parse(time.RFC3339, s) are Go's.
module _ (to_lower : String → String) (parse_rfc3339 : String → Option Time) where
  -- `parseUUID`
  unfoldable pub parse_uuid : String → String → Result String
  parse_uuid field value =
      let id = to_lower (trim_space value) in
      if is_uuid id
      then ok id
      else err (business invalid_argument (concat field " debe ser un UUID válido."))

  -- `optionalUUID`
  unfoldable pub optional_id : String → String → Result (Option String)
  optional_id field value =
      if str_eq (trim_space value) ""
      then ok none
      else (parse_uuid field value >>= λ id. ok (some id))

  abbrev pub parse_time : Option Time → Result Time
  parse_time none = err (
      business invalid_argument
        "scheduledAt debe ser fecha y hora ISO 8601 con zona horaria, por ejemplo 2006-01-02T15:04:05-07:00.")
  parse_time (some t) = ok t

  -- `parseCreate`
  unfoldable pub parse_create : CreateInput → Result CreateRequest
  parse_create x = do
    key ← parse_key x.idempotency_key
    customer_id ← parse_uuid "customerId" x.customer_id
    service_id ← parse_uuid "serviceId" x.service_id
    branch_id ← parse_uuid "branchId" x.branch_id
    variant_id ← optional_id "serviceVariantId" x.service_variant_id
    specialist_id ← optional_id "specialistId" x.specialist_id
    scheduled_at ← parse_time (parse_rfc3339 (trim_space x.scheduled_at))
    let notes = trim_space x.customer_notes
    guard (leb (rune_count notes) max_notes_runes)
        (business invalid_argument "customerNotes no puede superar 500 caracteres.")
    ok (record {
      customer_id = customer_id;
      service_id = service_id;
      branch_id = branch_id;
      variant_id = variant_id;
      specialist_id = specialist_id;
      notes = if str_eq notes "" then none else some notes;
      scheduled_at = scheduled_at;
      key = key;
    })
