-- ===== src/Twilio/Signature/Laws.antt =====
-- internal/integration/twilio/signature.go: what is signed, and which signatures are accepted.
use booknow_mcp_service.Base.{
  ℕ, ==_iff, String, List, [], ◌∷◌, Option, none, some, true, str_leb, sort, concat, trim_space,
  ◌≡◌, refl, ap, ◌∙◌, ◌↔◌, arith, sort-Perm, str_leb-TotalOrder, Permᴰ, IsAscending, sort-Permᴰ,
  sort-IsAscending, sort-sorted, sym,
}
use booknow_mcp_service.Twilio.Form.{Form, values, form_keys}
use booknow_mcp_service.Twilio.Signature.{
  Crypto, written, parameters, payload, signature, Validator, equal_bytes, equal_decoded,
  validate_form,
}

-- Two lists of entries of one Go map: the same keys, each with the same values.
pub record SameForm (f g : Form) : Type 0 where
  pub same_keys : Permᴰ (form_keys f) (form_keys g)
  pub same_values : (key : String) → values key f ≡ values key g

parameters-values :
    (f g : Form) (names : List String)
    → ((key : String) → values key f ≡ values key g)
    → parameters f names ≡ parameters g names
unfolding parameters
parameters-values f g [] same = refl
parameters-values f g (key ∷ names) same =
    ap (λ vs. written key vs (parameters f names)) (same key)
    ∙ ap (written key (values key g)) (parameters-values f g names same)

-- The signature of a form does not depend on the order in which Go ranges over its map.
pub signature-order :
    (c : Crypto) (auth_token url : String) (f g : Form)
    → SameForm f g
    → signature c auth_token url f ≡ signature c auth_token url g
unfolding signature payload
signature-order c auth_token url f g same =
    ap (λ t. c.encode (c.hmac_sha1 auth_token (concat url t)))
      (parameters-values f g (sort str_leb (form_keys f)) same.same_values
        ∙ ap (parameters g)
            (sort-Perm str_leb str_leb-TotalOrder (form_keys f) (form_keys g) same.same_keys))

equal_bytes_iff : (xs ys : List ℕ) → (equal_bytes xs ys ≡ true) ↔ (xs ≡ ys)
unfolding equal_bytes
equal_bytes_iff [] [] = ground arith
equal_bytes_iff [] (b ∷ bs) = ground arith
equal_bytes_iff (a ∷ xs) [] = ground arith
equal_bytes_iff (a ∷ xs) (b ∷ bs) = ground (arith, equal_bytes_iff xs bs, ==_iff a b)

accepted_iff :
    (want got : Option (List ℕ)) (mac : List ℕ)
    → got ≡ some mac
    → (equal_decoded want got ≡ true) ↔ (want ≡ some mac)
accepted_iff want none mac h = cc
accepted_iff none (some got) mac h = ground arith
accepted_iff (some want) (some got) mac h = ground (arith, equal_bytes_iff want got)

-- The texts of the parameters with these names: each value after its name.
abbrev pub pairs : String → List String → List String → List String
pairs name [] rest = rest
pairs name (v ∷ vs) rest = name ∷ v ∷ pairs name vs rest

abbrev pub texts_of : Form → List String → List String
texts_of form [] = []
texts_of form (name ∷ names) = pairs name (values name form) (texts_of form names)

abbrev pub all_text : List String → String
all_text [] = ""
all_text (t ∷ ts) = concat t (all_text ts)

all_text-pairs :
    (name : String) (vs rest : List String)
    → all_text (pairs name vs rest) ≡ written name vs (all_text rest)
unfolding written
all_text-pairs name [] rest = refl
all_text-pairs name (v ∷ vs) rest = ap (λ t. concat name (concat v t)) (all_text-pairs name vs rest)

all_text-texts_of :
    (form : Form) (names : List String) → all_text (texts_of form names) ≡ parameters form names
unfolding parameters
all_text-texts_of form [] = refl
all_text-texts_of form (name ∷ names) =
    all_text-pairs name (values name form) (texts_of form names)
    ∙ ap (written name (values name form)) (all_text-texts_of form names)

-- A signature, trimmed, decodes to the HMAC under the token of the address followed by every parameter,
-- name before value, the names in ascending order.
pub record Signs (c : Crypto) (v : Validator) (given : String) (form : Form) : Type 0 where
  pub names : List String
  pub same_names : Permᴰ names (form_keys form)
  pub ascending : IsAscending str_leb names
  pub decoded :
      c.decode (trim_space given)
      ≡ some (c.hmac_sha1 v.auth_token (all_text (v.webhook_url ∷ texts_of form names)))

payload-all_text :
    (url : String) (form : Form)
    → payload url form ≡ all_text (url ∷ texts_of form (sort str_leb (form_keys form)))
unfolding payload
payload-all_text url form =
    ap (concat url) (sym (all_text-texts_of form (sort str_leb (form_keys form))))

-- An ascending order of the names is the one that sorting gives.
signed_text_unique :
    (url : String) (form : Form) (names : List String)
    → Permᴰ names (form_keys form)
    → IsAscending str_leb names
    → all_text (url ∷ texts_of form names) ≡ payload url form
signed_text_unique url form names same ascending =
    ap (λ ns. all_text (url ∷ texts_of form ns))
      (sym (sort-sorted str_leb names ascending)
        ∙ sort-Perm str_leb str_leb-TotalOrder names (form_keys form) same)
    ∙ sym (payload-all_text url form)

-- Where base64 decodes what it encodes, a signature is accepted exactly when, trimmed, it decodes to the
-- HMAC, under the account's token, of the webhook's URL followed by the parameters in ascending order of
-- their names, each value after its name.
pub validate_form_iff :
    (c : Crypto) (v : Validator) (given : String) (form : Form)
    → ((bytes : List ℕ) → c.decode (c.encode bytes) ≡ some bytes)
    → (validate_form c v given form ≡ true) ↔ Signs c v given form
unfolding validate_form signature
validate_form_iff c v given form law =
    let mac = c.hmac_sha1 v.auth_token (payload v.webhook_url form) in
    let accepted = accepted_iff (c.decode (trim_space given)) _ mac (law mac) in
    (
      λ h. record {
        names = sort str_leb (form_keys form);
        same_names = sort-Permᴰ str_leb (form_keys form);
        ascending = sort-IsAscending str_leb str_leb-TotalOrder (form_keys form);
        decoded =
            accepted.0 h
            ∙ ap (λ t. some (c.hmac_sha1 v.auth_token t)) (payload-all_text v.webhook_url form);
      },
      λ s. accepted.1 (
          s.decoded
          ∙ ap (λ t. some (c.hmac_sha1 v.auth_token t))
              (signed_text_unique v.webhook_url form s.names s.same_names s.ascending)),
    )
