-- ===== src/Auth.antt =====
-- internal/auth: the bearer token of a request, and the claims that a verified token must have.
pub mod Laws
pub mod Verifier
use booknow_mcp_service.Base.{
  ℕ, ◌+◌, ℤ, String, List, [], ◌∷◌, Option, none, some, Bool, true, false, not, ◌&&◌, ◌||◌, leb,
  ◌==◌, if◌then◌else◌, any, str_eq, codes, trim_space, Char, code, Result, ok, err, other,
}
use booknow_mcp_service.Business.Checks.{is_uuid}
use booknow_mcp_service.Tenant.{Identity}

-- The lower case of an ASCII letter.
abbrev pub ascii_lower : ℕ → ℕ
ascii_lower c = if leb b'A' c && leb c b'Z' then c + 32 else c

-- `strings.EqualFold(s, t)` where t has none of the letters k and s, to which other letters fold
unfoldable pub equal_fold : List ℕ → List ℕ → Bool
equal_fold [] [] = true
equal_fold [] (d ∷ t) = false
equal_fold (c ∷ s) [] = false
equal_fold (c ∷ s) (d ∷ t) = ascii_lower c == ascii_lower d && equal_fold s t

abbrev before_space : Char → Option (String × String) → Option (String × String)
before_space c none = none
before_space c (some (a, b)) = some (String.◌∷◌ c a, b)

-- `strings.Cut(s, " ")`
unfoldable pub cut_space : String → Option (String × String)
cut_space String.[] = none
cut_space (String.◌∷◌ c s) =
    let rest = cut_space s in if code c == 32 then some ("", s) else before_space c rest

abbrev pub bearer_of : Option (String × String) → Option String
bearer_of none = none
bearer_of (some (scheme, rest)) =
    let token = trim_space rest in
    if not (equal_fold (codes scheme) (codes "Bearer"))
    then none
    else if str_eq token "" || any (λ c. c == 32 || c == 9) (codes token)
    then none
    else some token

-- `BearerToken`, from the values of the Authorization header
unfoldable pub bearer_token : List String → Option String
bearer_token [] = none
bearer_token (v ∷ []) = bearer_of (cut_space (trim_space v))
bearer_token (v ∷ u ∷ vs) = none

-- `supabaseClaims`, with the claims that are read of jwt.RegisteredClaims
pub record Claims : Type 0 where
  pub subject : String
  pub expires_at : ℤ
  pub client_id : String
  pub role : String
  pub is_anonymous : Bool

-- The switch of `Verify`. The errors are only logged; their texts leave out the rejected values.
unfoldable pub check_claims : Claims → Result Identity
check_claims c =
    if not (is_uuid c.subject)
    then err (other "invalid token: sub is not a user id")
    else if not (str_eq c.role "authenticated")
    then err (other "invalid token: role is not allowed")
    else if c.is_anonymous
    then err (other "invalid token: anonymous users are not allowed")
    else ok (record { user_id = c.subject; client_id = c.client_id; expires_at = c.expires_at })

abbrev pub verified : Option Claims → Result Identity
verified none = err (other "invalid token")
verified (some c) = check_claims c

-- `Verifier.Verify`; `parse` is ParseWithClaims with the parser and the keys of the verifier.
unfoldable pub verify : (String → Option Claims) → String → Result Identity
verify parse token = verified (parse token)
