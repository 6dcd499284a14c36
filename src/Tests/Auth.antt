-- ===== src/Tests/Auth.antt =====
-- A verifier with one published key, and a token that it signed.
use booknow_mcp_service.Base.{
  pos, String, List, [], ◌∷◌, Any, any, Option, none, some, Bool, true, false, ◌&&◌, str_eq, eq_iff,
  bytes, if◌then◌else◌, concat, ◌≡◌, refl, arith, other, Result, ok, err, codes,
}
use booknow_mcp_service.Business.Checks.{is_uuid}
use booknow_mcp_service.Tenant.{Identity}
use booknow_mcp_service.Auth.{Claims, verify, check_claims}
use booknow_mcp_service.Auth.Verifier.{
  TokenHeader, ParserOptions, parser_options, keyfunc, Jwt, trim_slashes, issuer_url, new_verifier,
}
use booknow_mcp_service.Auth.Verifier.Laws.{
  ParsesSigned, IsPublished, issuer_of, required, new_verifier-IsPublished,
}
use booknow_mcp_service.Tests.Fixtures.{id_a}

abbrev claims : Claims
claims = record {
  subject = id_a;
  expires_at = pos 0;
  client_id = "client";
  role = "authenticated";
  is_anonymous = false;
}

-- Two tokens, each with a header that names its key, and any other text, which is none.
abbrev header_of : String → Option TokenHeader
header_of token =
    if str_eq token "signed by key one"
    then some (record { alg = "ES256"; kid = some "k1" })
    else if str_eq token "signed by key two"
    then some (record { alg = "ES256"; kid = some "k2" })
    else none

-- The published keys.
abbrev key_for : Option String → Result String
key_for none = err (other "no kid")
key_for (some k) =
    if str_eq k "k1"
    then ok "key one"
    else if str_eq k "k2"
    then ok "key two"
    else err (other "none")

abbrev published : TokenHeader → Result String
published h = key_for h.kid

abbrev SignedBy : String → String → Type 0
SignedBy key token = token ≡ concat "signed by " key

abbrev Registered : ParserOptions → String → Type 0
Registered options token = options.expiration_required ≡ true

abbrev accepted : Bool → Bool → String → Result String → Option Claims
accepted valid expires token (err e) = none
accepted valid expires token (ok key) =
    if valid && (expires && str_eq token (concat "signed by " key)) then some claims else none

-- A parser that reads the header, asks for its key, and compares.
abbrev parsed :
    ParserOptions → (TokenHeader → Result String) → String → Option TokenHeader → Option Claims
parsed options key_of token none = none
parsed options key_of token (some h) =
    accepted (any (λ m. str_eq h.alg m) options.valid_methods) options.expiration_required token
      (key_of h)

abbrev jwt : Jwt String
jwt = record {
  load_jwks = λ url.
      if str_eq url "https://x.supabase.co/auth/v1/.well-known/jwks.json"
      then ok published
      else err (other "404");
  parse_with_claims = λ options key_of token. parsed options key_of token (header_of token);
}

any-Any :
    (alg : String) (ms : List String) → any (λ m. str_eq alg m) ms ≡ true → Any (λ m. alg ≡ m) ms
any-Any alg [] h = cc
any-Any alg (m ∷ ms) h = ground (arith, eq_iff alg m, any-Any alg ms)

accepted-signed :
    (valid expires : Bool) (token : String) (r : Result String) (c : Claims)
    → accepted valid expires token r ≡ some c
    → (key : String) × (r ≡ ok key)
      × (valid ≡ true)
      × (expires ≡ true)
      × (token ≡ concat "signed by " key)
accepted-signed valid expires token (err e) c h = ground arith
accepted-signed valid expires token (ok key) c h =
    (key, refl, ground arith, ground arith, ground (arith, eq_iff token (concat "signed by " key)))

parsed-signed :
    (options : ParserOptions) (key_of : TokenHeader → Result String) (token : String) (c : Claims)
    (read : Option TokenHeader)
    → parsed options key_of token read ≡ some c
    → (h : TokenHeader) × (read ≡ some h)
      × (key : String) × (key_of h ≡ ok key)
      × Any (λ m. h.alg ≡ m) options.valid_methods
      × SignedBy key token
      × Registered options token
parsed-signed options key_of token c none e = ground arith
parsed-signed options key_of token c (some h) e =
    let (key, given, valid, expires, signed) =
      accepted-signed (any (λ m. str_eq h.alg m) options.valid_methods) options.expiration_required
        token (key_of h) c e in
    (h, refl, key, given, any-Any h.alg options.valid_methods valid, signed, expires)

jwt-ParsesSigned : ParsesSigned jwt header_of SignedBy Registered
jwt-ParsesSigned = record {
  accepts = λ options key_of token c h. parsed-signed options key_of token c (header_of token) h;
}

abbrev project : String
project = "https://x.supabase.co/"

abbrev parse : String → Option Claims
parse =
    jwt.parse_with_claims (parser_options (issuer_url project) "authenticated") (keyfunc published)

made : new_verifier jwt project "authenticated" ≡ ok parse
unfolding new_verifier issuer_url trim_slashes concat
made = refl

abbrev caller : Identity
caller = record { user_id = id_a; client_id = "client"; expires_at = pos 0 }

token-verified : verify parse "signed by key one" ≡ ok caller
unfolding verify check_claims is_uuid codes keyfunc concat bytes
token-verified = refl

new_verifier-IsPublished_example :
    IsPublished jwt header_of SignedBy
      (concat (issuer_of project) "/.well-known/jwks.json")
      "signed by key one"
    × Registered (required (issuer_of project) "authenticated") "signed by key one"
    × (is_uuid id_a ≡ true)
new_verifier-IsPublished_example =
    new_verifier-IsPublished jwt header_of SignedBy Registered project "authenticated"
      "signed by key one" parse caller jwt-ParsesSigned made token-verified
