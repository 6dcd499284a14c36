-- ===== src/Auth/Verifier.antt =====
-- jwt.go: NewVerifier, with the keys and the parser that it configures. The JWKS client (keyfunc) and
-- the parser (golang-jwt) are parameters; `K` is the type of their keys.
pub mod Laws
use booknow_mcp_service.Base.{
  ℤ, pos, String, List, [], ◌∷◌, Option, none, some, Bool, true, if◌then◌else◌, code, ◌==◌, ◌&&◌,
  str_eq, concat, other, Result, ok, err, wrap_err, ◌>>=◌,
}
use booknow_mcp_service.Auth.{Claims}

-- The header of a token: `alg`, and `kid` where it is a string.
pub record TokenHeader : Type 0 where
  pub alg : String
  pub kid : Option String

-- The options of jwt.NewParser.
pub record ParserOptions : Type 0 where
  pub valid_methods : List String
  pub issuer : String
  pub audience : String
  pub expiration_required : Bool
  pub verify_issued_at : Bool
  pub leeway : ℤ

abbrev pub signing_alg : String
signing_alg = "ES256"

abbrev pub clock_skew_leeway : ℤ
clock_skew_leeway = pos 30000000000

abbrev pub parser_options : (issuer audience : String) → ParserOptions
parser_options issuer audience = record {
  valid_methods = signing_alg ∷ [];
  issuer = issuer;
  audience = audience;
  expiration_required = true;
  verify_issued_at = true;
  leeway = clock_skew_leeway;
}

abbrev or_empty : Option String → String
or_empty none = ""
or_empty (some kid) = kid

-- `Verifier.keyfunc`
unfoldable pub keyfunc : {K : Type 0} → (TokenHeader → Result K) → TokenHeader → Result K
keyfunc lookup h = if str_eq (or_empty h.kid) "" then err (other "missing kid header") else lookup h

-- What the two packages do: the keys that an address publishes, and ParseWithClaims.
pub record Jwt (K : Type 0) : Type 0 where
  pub load_jwks : (url : String) → Result (TokenHeader → Result K)
  pub parse_with_claims : ParserOptions → (TokenHeader → Result K) → String → Option Claims

-- `strings.TrimRight(s, "/")`
unfoldable pub trim_slashes : String → String
trim_slashes String.[] = ""
trim_slashes (String.◌∷◌ c s) =
    let rest = trim_slashes s in if str_eq rest "" && code c == 47 then "" else String.◌∷◌ c rest

-- `IssuerURL`
unfoldable pub issuer_url : String → String
issuer_url supabase_url = concat (trim_slashes supabase_url) "/auth/v1"

abbrev pub jwks_url : String → String
jwks_url issuer = concat issuer "/.well-known/jwks.json"

-- `NewVerifier`: the parser of the verifier, for its tokens.
unfoldable pub new_verifier :
    {K : Type 0} → Jwt K → (supabase_url audience : String) → Result (String → Option Claims)
new_verifier jwt supabase_url audience = do
  let issuer = issuer_url supabase_url
  keys ← wrap_err "load supabase jwks" (jwt.load_jwks (jwks_url issuer))
  ok (jwt.parse_with_claims (parser_options issuer audience) (keyfunc keys))
