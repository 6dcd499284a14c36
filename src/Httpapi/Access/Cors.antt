-- ===== src/Httpapi/Access/Cors.antt =====
-- internal/httpapi/mcp.go: the headers that originGuard sets.
use booknow_mcp_service.Base.{
  String, List, [], ◌∷◌, Bool, true, false, not, ◌&&◌, str_eq, eq_iff, if◌then◌else◌, ◌≡◌, refl,
  ◌≢◌, ◌↔◌, ◌⊎◌, inl, inr, Bool-cases,
}
use booknow_mcp_service.Httpapi.Access.{Request, is_listed}

data CorsHeader : Type 0 where
  allow_origin vary expose_headers allow_methods allow_headers max_age : String → CorsHeader

abbrev cors_preflight_max_age_sec : String
cors_preflight_max_age_sec = "600"

abbrev allowing_headers : List CorsHeader
allowing_headers =
    allow_methods "POST, OPTIONS"
    ∷ allow_headers
        "Authorization, Content-Type, Accept, MCP-Protocol-Version, Mcp-Session-Id, Last-Event-ID"
    ∷ max_age cors_preflight_max_age_sec
    ∷ []

-- The headers of an answer to a preflight.
abbrev preflight_headers : Request → List CorsHeader
preflight_headers r =
    if str_eq r.method "OPTIONS" && not (str_eq r.requested_method "") then allowing_headers else []

-- The headers of an allowed origin.
abbrev shown_headers : Request → List CorsHeader
shown_headers r =
    allow_origin r.origin
    ∷ vary "Origin"
    ∷ expose_headers "WWW-Authenticate, Mcp-Session-Id, MCP-Protocol-Version"
    ∷ preflight_headers r

-- The headers that `originGuard` sets.
unfoldable cors_headers : (String → String) → List String → Request → List CorsHeader
cors_headers to_lower allowed r =
    if str_eq r.origin ""
    then []
    else if not (is_listed to_lower allowed r.origin)
    then []
    else shown_headers r

-- The headers let a page of an origin read the answer.
abbrev Permits : String → List CorsHeader → Type 0
Permits origin [] = ⊥
Permits origin (allow_origin o ∷ hs) = (o ≡ origin) ⊎ Permits origin hs
Permits origin (vary s ∷ hs) = Permits origin hs
Permits origin (expose_headers s ∷ hs) = Permits origin hs
Permits origin (allow_methods s ∷ hs) = Permits origin hs
Permits origin (allow_headers s ∷ hs) = Permits origin hs
Permits origin (max_age s ∷ hs) = Permits origin hs

-- Headers sent on a test alone do not permit what they would not permit if sent always.
Permits-if :
    (origin : String) (b : Bool) (hs : List CorsHeader)
    → ¬ (Permits origin hs)
    → ¬ (Permits origin (if b then hs else []))
Permits-if origin true hs never h = never h
Permits-if origin false hs never h = h

Permits-preflight_headers :
    (origin : String) (r : Request) → ¬ (Permits origin (preflight_headers r))
Permits-preflight_headers origin r =
    Permits-if origin (str_eq r.method "OPTIONS" && not (str_eq r.requested_method ""))
      (allowing_headers) (λ h. h)

-- The two tests of `cors_headers`.
Permits-tests_iff :
    (origin : String) (is_native is_allowed : Bool) (hs : List CorsHeader)
    → Permits origin (if is_native then [] else if not is_allowed then [] else hs)
      ↔ ((is_native ≡ false) × (is_allowed ≡ true) × Permits origin hs)
Permits-tests_iff origin true is_allowed hs = (λ h. absurd h, λ h. (let e = h.0 in cc))
Permits-tests_iff origin false false hs = (λ h. absurd h, λ h. (let e = h.1 in cc))
Permits-tests_iff origin false true hs = ((λ h. (refl, refl, h)), λ h. h.2)

-- The headers of an allowed origin permit that origin alone.
Permits-shown_headers_iff :
    (origin : String) (r : Request) → Permits origin (shown_headers r) ↔ (r.origin ≡ origin)
Permits-shown_headers_iff origin r =
    (elim [ inl e ↦ e | inr h ↦ absurd (Permits-preflight_headers origin r h) ], λ e. inl e)

has_origin_iff : (r : Request) → (str_eq r.origin "" ≡ false) ↔ (r.origin ≢ "")
has_origin_iff r =
    let is = eq_iff r.origin "" in
    (
      λ no_origin e. let yes = is.1 e in cc,
      λ has. elim (Bool-cases (str_eq r.origin "")) [ inl e ↦ absurd (has (is.0 e)) | inr e ↦ e ],
    )

-- An answer may be read by pages of the request's own origin and no other, and only where that origin is
-- on the list.
Permits-cors_headers_iff :
    (to_lower : String → String) (allowed : List String) (r : Request) (origin : String)
    → Permits origin (cors_headers to_lower allowed r)
      ↔ ((r.origin ≢ "") × (is_listed to_lower allowed r.origin ≡ true) × (r.origin ≡ origin))
unfolding cors_headers
Permits-cors_headers_iff to_lower allowed r origin =
    let by_tests =
      Permits-tests_iff origin (str_eq r.origin "") (is_listed to_lower allowed r.origin)
        (shown_headers r) in
    let by_origin = has_origin_iff r in
    let by_headers = Permits-shown_headers_iff origin r in
    (
      (λ h. let t = by_tests.0 h in (by_origin.0 t.0, t.1, by_headers.0 t.2)),
      λ h. by_tests.1 (by_origin.1 h.0, h.1, by_headers.1 h.2),
    )
