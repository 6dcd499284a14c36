-- ===== src/Twilio/Signature.antt =====
-- internal/integration/twilio/signature.go. HMAC-SHA1 and base64 are the library's: parameters.
pub mod Laws
use booknow_mcp_service.Base.{
  ℕ, ◌==◌, String, List, [], ◌∷◌, Option, none, some, Bool, true, false, ◌&&◌, not, ◌||◌, str_eq,
  str_leb, sort, concat, trim_space, Result, ok, err, other, if◌then◌else◌,
}
use booknow_mcp_service.Config.Origins.{Url, Texts}
use booknow_mcp_service.Twilio.Form.{Form, values, form_keys}

-- hmac.New(sha1.New, key) on a text, and base64.StdEncoding.
pub record Crypto : Type 0 where
  pub hmac_sha1 : (key text : String) → List ℕ
  pub encode : List ℕ → String
  pub decode : String → Option (List ℕ)

-- The inner loop: the name before each of its values.
unfoldable pub written : String → List String → String → String
written key [] after = after
written key (v ∷ vs) after = concat key (concat v (written key vs after))

-- The outer loop, over the sorted names.
unfoldable pub parameters : Form → List String → String
parameters form [] = ""
parameters form (key ∷ rest) = written key (values key form) (parameters form rest)

-- What is signed.
unfoldable pub payload : String → Form → String
payload request_url form = concat request_url (parameters form (sort str_leb (form_keys form)))

-- `Signature`
unfoldable pub signature : Crypto → String → String → Form → String
signature c auth_token request_url form =
    c.encode (c.hmac_sha1 auth_token (payload request_url form))

pub record Validator : Type 0 where
  pub auth_token : String
  pub webhook_url : String

abbrev pub absolute : Option Url → Bool
absolute none = false
absolute (some u) = not (str_eq u.scheme "") && not (str_eq u.host "")

-- `NewValidator`
unfoldable pub new_validator : Texts → String → String → Result Validator
new_validator texts auth_token webhook_url =
    if str_eq (trim_space auth_token) ""
    then err (other "twilio: auth token is required")
    else if not (absolute (texts.parse_url webhook_url))
    then err (other "twilio: webhook URL must be absolute, including scheme and host")
    else ok (record { auth_token = auth_token; webhook_url = webhook_url })

-- `hmac.Equal`
unfoldable pub equal_bytes : List ℕ → List ℕ → Bool
equal_bytes [] [] = true
equal_bytes [] (b ∷ bs) = false
equal_bytes (a ∷ as_bytes) [] = false
equal_bytes (a ∷ as_bytes) (b ∷ bs) = a == b && equal_bytes as_bytes bs

abbrev pub equal_decoded : Option (List ℕ) → Option (List ℕ) → Bool
equal_decoded none got = false
equal_decoded (some want) none = false
equal_decoded (some want) (some got) = equal_bytes want got

-- `ValidateForm`
unfoldable pub validate_form : Crypto → Validator → String → Form → Bool
validate_form c v given form =
    equal_decoded (c.decode (trim_space given))
      (c.decode (signature c v.auth_token v.webhook_url form))
