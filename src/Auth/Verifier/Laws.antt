-- ===== src/Auth/Verifier/Laws.antt =====
-- jwt.go: a verified token is signed with a published key.
use booknow_mcp_service.Base.{
  pos, concat, String, [], ◌∷◌, Any, Option, none, some, true, false, str_eq, ◌≡◌, refl, sym, ap,
  ◌∙◌, inl, inr, arith, Result, ok, wrap_err, wrap_err-eq-ok, >>=-eq-ok, ok-injective,
}
use booknow_mcp_service.Business.Checks.{is_uuid}
use booknow_mcp_service.Tenant.{Identity}
use booknow_mcp_service.Auth.{Claims, verify, verified}
use booknow_mcp_service.Auth.Laws.{Parsed, verify_iff}
use booknow_mcp_service.Auth.Verifier.{
  TokenHeader, ParserOptions, signing_alg, parser_options, keyfunc, Jwt, issuer_url, jwks_url,
  new_verifier, trim_slashes,
}

-- What ParseWithClaims promises of a token that it accepts: it has a header, for which the key function
-- gave a key and whose algorithm is one of the valid methods; the token is signed with that key; and its
-- registered claims pass the options. `header_of` is the header that a token carries.
pub record ParsesSigned {K : Type 0} (jwt : Jwt K) (header_of : String → Option TokenHeader)
    (IsSigned : K → String → Type 0) (IsRegistered : ParserOptions → String → Type 0) : Type 0 where
  pub accepts :
      (options : ParserOptions) (key_of : TokenHeader → Result K) (token : String) (c : Claims)
      → jwt.parse_with_claims options key_of token ≡ some c
      → (h : TokenHeader) × (header_of token ≡ some h)
        × (key : K) × (key_of h ≡ ok key)
        × Any (λ m. h.alg ≡ m) options.valid_methods
        × IsSigned key token
        × IsRegistered options token

-- A token that a key of an address signed.
pub record IsPublished {K : Type 0} (jwt : Jwt K) (header_of : String → Option TokenHeader)
    (IsSigned : K → String → Type 0) (url token : String) : Type 0 where
  pub keys : TokenHeader → Result K
  pub loaded : jwt.load_jwks url ≡ ok keys
  pub header : TokenHeader
  pub header_is : header_of token ≡ some header
  pub kid : String
  pub kid_is : header.kid ≡ some kid
  pub kid_given : str_eq kid "" ≡ false
  pub alg_is : header.alg ≡ "ES256"
  pub key : K
  pub found : keys header ≡ ok key
  pub signed : IsSigned key token

keyfunc-eq-ok :
    {K : Type 0} (lookup : TokenHeader → Result K) (alg : String) (kid : Option String) (key : K)
    → keyfunc lookup (record { alg = alg; kid = kid }) ≡ ok key
    → (k : String) × (kid ≡ some k)
      × (str_eq k "" ≡ false)
      × (lookup (record { alg = alg; kid = kid }) ≡ ok key)
unfolding keyfunc
keyfunc-eq-ok lookup alg none key h = ground arith
keyfunc-eq-ok lookup alg (some k) key h = (k, refl, ground arith, ground arith)

one_method : (a m : String) → Any (λ n. a ≡ n) (m ∷ []) → a ≡ m
one_method a m (inl e) = e
one_method a m (inr e) = elim e [ ]

-- A verified token was parsed, and its subject is a UUID.
verified-parsed :
    (parsed : Option Claims) (id : Identity)
    → verified parsed ≡ ok id
    → (c : Claims) × (parsed ≡ some c)
verified-parsed none id h = ground arith
verified-parsed (some c) id h = (c, refl)

subject_valid :
    (parsed : Option Claims) (id : Identity)
    → Parsed
        (λ c.
          (is_uuid c.subject ≡ true)
          × (c.role ≡ "authenticated")
          × (c.is_anonymous ≡ false)
          × (record { user_id = c.subject; client_id = c.client_id; expires_at = c.expires_at }
              ≡ id))
        parsed
    → is_uuid id.user_id ≡ true
subject_valid none id h = elim h [ ]
subject_valid (some c) id (uuid, role, known, is) =
    ap (λ (i : Identity). is_uuid i.user_id) (sym is) ∙ uuid

-- The issuer of a project: the address without its last slashes, and the path of Supabase Auth.
abbrev pub issuer_of : String → String
issuer_of supabase_url = concat (trim_slashes supabase_url) "/auth/v1"

-- What a token's registered claims have to pass for an issuer and an audience.
abbrev pub required : (issuer audience : String) → ParserOptions
required issuer audience = record {
  valid_methods = "ES256" ∷ [];
  issuer = issuer;
  audience = audience;
  expiration_required = true;
  verify_issued_at = true;
  leeway = pos 30000000000;
}

-- A verifier of a project accepts only tokens of that project: where the parser keeps its promises, a
-- token that is verified is signed, with ES256, by the key that the project's issuer publishes for the
-- token's own header, which names one; an expiry is required, and its registered claims pass with that
-- issuer and the audience, with a leeway of thirty seconds; and its user is a UUID.
pub new_verifier-IsPublished :
    {K : Type 0} (jwt : Jwt K) (header_of : String → Option TokenHeader)
    (IsSigned : K → String → Type 0) (IsRegistered : ParserOptions → String → Type 0)
    (supabase_url audience token : String) (parse : String → Option Claims) (id : Identity)
    → ParsesSigned jwt header_of IsSigned IsRegistered
    → new_verifier jwt supabase_url audience ≡ ok parse
    → verify parse token ≡ ok id
    → IsPublished jwt header_of IsSigned
        (concat (issuer_of supabase_url) "/.well-known/jwks.json")
        token
      × IsRegistered (required (issuer_of supabase_url) audience) token
      × (is_uuid id.user_id ≡ true)
unfolding new_verifier verify issuer_url
new_verifier-IsPublished jwt header_of IsSigned IsRegistered supabase_url audience token parse id
      laws made h =
    let issuer = issuer_url supabase_url in
    let options = parser_options issuer audience in
    let (keys, wrapped, is) =
      >>=-eq-ok (wrap_err "load supabase jwks" (jwt.load_jwks (jwks_url issuer))) _ made in
    let (c, parsed) = verified-parsed (parse token) id h in
    let (header, header_is, key, given, method, signed, registered) =
      laws.accepts options (keyfunc keys) token c
        (ap (λ (f : String → Option Claims). f token) (ok-injective is) ∙ parsed) in
    let (kid, kid_is, kid_given, found) = keyfunc-eq-ok keys header.alg header.kid key given in
    (
      record {
        keys = keys;
        loaded = wrap_err-eq-ok _ (jwt.load_jwks (jwks_url issuer)) wrapped;
        header = header;
        header_is = header_is;
        kid = kid;
        kid_is = kid_is;
        kid_given = kid_given;
        alg_is = one_method header.alg signing_alg method;
        key = key;
        found = found;
        signed = signed;
      },
      registered,
      subject_valid (parse token) id ((verify_iff parse token id).0 h),
    )
