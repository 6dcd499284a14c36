-- ===== src/Tests/Twilio.antt =====
-- The theorems on the webhook at concrete inputs. The bytes of a signature are written in unary.
use booknow_mcp_service.Base.{
  ℕ, zero, suc, ◌==◌, String, Char, code, codes, List, [], ◌∷◌, Option, none, some, true, false,
  str_eq, eq_iff, if◌then◌else◌, ◌≡◌, refl, ap, ◌↔◌, inl, inr, Bool-cases,
}
use booknow_mcp_service.Twilio.Form.{Form, values}
use booknow_mcp_service.Twilio.Signature.{Crypto, Validator, validate_form}
use booknow_mcp_service.Twilio.Signature.Laws.{Signs, validate_form_iff}
use booknow_mcp_service.Httpapi.Webhook.{Post, Hook, form_type}

abbrev comma : Char
comma = Char.char 44 tt

abbrev stroke : Char
stroke = Char.char 73 tt

unfoldable strokes : ℕ → String → String
strokes zero after = after
strokes (suc n) after = String.◌∷◌ stroke (strokes n after)

unfoldable encode : List ℕ → String
unfolding strokes
encode [] = ""
encode (n ∷ ns) = strokes n (String.◌∷◌ comma (encode ns))

abbrev one_more : Option (List ℕ) → Option (List ℕ)
one_more none = none
one_more (some []) = none
one_more (some (n ∷ ns)) = some (suc n ∷ ns)

abbrev a_zero : Option (List ℕ) → Option (List ℕ)
a_zero none = none
a_zero (some ns) = some (0 ∷ ns)

unfoldable decode : String → Option (List ℕ)
decode String.[] = some []
decode (String.◌∷◌ c s) = let rest = decode s in if code c == 44 then a_zero rest else one_more rest

decode-strokes :
    (n : ℕ) (ns : List ℕ) (s : String)
    → decode s ≡ some ns
    → decode (strokes n (String.◌∷◌ comma s)) ≡ some (n ∷ ns)
unfolding decode strokes
decode-strokes zero ns s h = ap a_zero h
decode-strokes (suc n) ns s h = ap one_more (decode-strokes n ns s h)

decode-encode : (ns : List ℕ) → decode (encode ns) ≡ some ns
unfolding encode decode
decode-encode [] = refl
decode-encode (n ∷ ns) = decode-strokes n ns (encode ns) (decode-encode ns)

abbrev crypto : Crypto
crypto = record { hmac_sha1 = λ key text. codes key; encode = encode; decode = decode }

abbrev validator : Validator
validator = record { auth_token = "secret"; webhook_url = "https://mcp.co/hook" }

abbrev form : Form
form = ("From", "whatsapp:+593" ∷ []) ∷ ("Body", "hola" ∷ []) ∷ []

validate_form_iff_example :
    (validate_form crypto validator "II," form ≡ true) ↔ Signs crypto validator "II," form
validate_form_iff_example = validate_form_iff crypto validator "II," form decode-encode

abbrev form_again : Form
form_again = ("Body", "hola" ∷ []) ∷ ("From", "whatsapp:+593" ∷ []) ∷ []

same_values : (key : String) → values key form ≡ values key form_again
unfolding values
same_values key = elim (Bool-cases (str_eq "From" key)) [
  | inl from ↦ rw (← (eq_iff "From" key).0 from) refl
  | inr other ↦ rw other refl
]

-- A webhook that counts the messages that it processes.
abbrev hook : Hook ℕ
hook = record {
  crypto = crypto;
  validator = validator;
  account_sid = "";
  processor = some (λ msg n. (none, suc n));
  parse_media = λ s. some s;
  parse_query = λ s. some form;
}

abbrev post : Post
post = record {
  content_type = form_type;
  signature_header = encode (codes "secret");
  content = "Body=hola";
  breaks = false;
}
