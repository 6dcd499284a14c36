-- ===== src/Config/Origins/Laws.antt =====
-- internal/config/config.go: the origins that parseOrigin and parseOriginList accept.
use booknow_mcp_service.Base.{
  String, List, [], ◌∷◌, true, false, ◌&&◌, ◌||◌, str_eq, eq_iff, trim_space, concat, All, ◌≡◌, ◌≢◌,
  refl, ap, ◌∙◌, ◌⊎◌, inl, inr, arith, Bool-cases, Option-cases,
}
use booknow_mcp_service.Config.Origins.{
  Url, Texts, Origin, origin, refused, development, origin_of, parsed_origin, parse_origin,
  with_origin, parse_items,
}

-- A normalized origin: https, or http in development, and a host.
abbrev pub IsOrigin : Texts → String → String → Type 0
IsOrigin texts env o =
    (host : String) × (host ≢ "")
    × ((o ≡ concat "https" (concat "://" (texts.to_lower host)))
        ⊎ ((env ≡ development) × (o ≡ concat "http" (concat "://" (texts.to_lower host)))))

pub not_eq : (a b : String) → str_eq a b ≡ false → a ≢ b
not_eq a b h = ground (arith, eq_iff a b)

secure_scheme :
    (scheme env : String)
    → (str_eq scheme "https" || (str_eq scheme "http" && str_eq env development)) ≡ true
    → (scheme ≡ "https") ⊎ ((env ≡ development) × (scheme ≡ "http"))
secure_scheme scheme env h =
    ground (arith, eq_iff scheme "https", eq_iff scheme "http", eq_iff env development)

origin_of-eq-origin :
    (texts : Texts) (env : String) (u : Url) (o : String)
    → origin_of texts env u ≡ origin o
    → (str_eq u.host "" ≡ false)
      × ((str_eq u.scheme "https" || (str_eq u.scheme "http" && str_eq env development)) ≡ true)
      × (o ≡ concat u.scheme (concat "://" (texts.to_lower u.host)))
unfolding origin_of
origin_of-eq-origin texts env u o h = ground arith

origin_of-IsOrigin :
    (texts : Texts) (env : String) (u : Url) (o : String)
    → origin_of texts env u ≡ origin o
    → IsOrigin texts env o
origin_of-IsOrigin texts env u o h =
    let (host, scheme, exact) = origin_of-eq-origin texts env u o h in
    (
      u.host,
      not_eq u.host "" host,
      elim (secure_scheme u.scheme env scheme) [
        | inl https ↦ inl (exact ∙ ap (λ s. concat s (concat "://" (texts.to_lower u.host))) https)
        | inr (dev, http) ↦
            inr (dev, exact ∙ ap (λ s. concat s (concat "://" (texts.to_lower u.host))) http)
      ],
    )

pub parse_origin-IsOrigin :
    (texts : Texts) (env raw : String) (o : String)
    → parse_origin texts env raw ≡ origin o
    → IsOrigin texts env o
unfolding parse_origin parsed_origin
parse_origin-IsOrigin texts env raw o h = elim (Option-cases (texts.parse_url (trim_space raw))) [
  | inl none_parsed ↦ ground arith
  | inr (u, parsed) ↦ ground (arith, origin_of-IsOrigin texts env u o)
]

with_origin-eq-origin :
    (m : Origin String) (n : Origin (List String)) (os : List String)
    → with_origin m n ≡ origin os
    → (o : String) × (rest : List String) × (os ≡ o ∷ rest) × (m ≡ origin o) × (n ≡ origin rest)
with_origin-eq-origin (refused f) n os h = cc
with_origin-eq-origin (origin o) (refused f) os h = cc
with_origin-eq-origin (origin o) (origin rest) os h = (o, rest, cc, refl, refl)

skips :
    (texts : Texts) (env item : String) (items : List String)
    → str_eq (trim_space item) "" ≡ true
    → parse_items texts env items ≡ parse_items texts env (item ∷ items)
unfolding parse_items
skips texts env item items blank = ground arith

keeps :
    (texts : Texts) (env item : String) (items : List String)
    → str_eq (trim_space item) "" ≡ false
    → with_origin (parse_origin texts env item) (parse_items texts env items)
      ≡ parse_items texts env (item ∷ items)
unfolding parse_items
keeps texts env item items filled = ground arith

pub parse_items-IsOrigin :
    (texts : Texts) (env : String) (items : List String) (os : List String)
    → parse_items texts env items ≡ origin os
    → All (IsOrigin texts env) os
unfolding parse_items
parse_items-IsOrigin texts env [] [] h = tt
parse_items-IsOrigin texts env [] (o ∷ os) h = cc
parse_items-IsOrigin texts env (item ∷ items) os h =
    elim (Bool-cases (str_eq (trim_space item) "")) [
      | inl blank ↦ parse_items-IsOrigin texts env items os (skips texts env item items blank ∙ h)
      | inr filled ↦
          let (o, rest, whole, first, later) =
            with_origin-eq-origin (parse_origin texts env item) (parse_items texts env items) os
              (keeps texts env item items filled ∙ h) in
          rw whole (
            parse_origin-IsOrigin texts env item o first,
            parse_items-IsOrigin texts env items rest later,
          )
    ]
