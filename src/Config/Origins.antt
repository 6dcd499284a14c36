-- ===== src/Config/Origins.antt =====
-- internal/config/config.go: parseOrigin and parseOriginList.
pub mod Laws
use booknow_mcp_service.Base.{
  String, List, [], ◌∷◌, Option, none, some, Bool, true, false, ◌&&◌, ◌||◌, not, str_eq, trim_space,
  concat, if◌then◌else◌,
}
use booknow_mcp_service.Config.Reads.{
  OriginFault, origin_required, not_absolute, not_bare, scheme_refused,
}
use booknow_mcp_service.Config.Texts.{split_commas, only_slashes}

-- The parts of a `url.URL` that the code reads; `has_user` is `User != nil`.
pub record Url : Type 0 where
  pub scheme : String
  pub has_user : Bool
  pub host : String
  pub path : String
  pub raw_query : String
  pub fragment : String

-- What the library's texts give: `url.Parse` and `strings.ToLower`.
pub record Texts : Type 0 where
  pub parse_url : String → Option Url
  pub to_lower : String → String

-- An origin, or why it is refused.
pub data Origin {ℓ} (A : Type ℓ) : Type ℓ where
  origin : A → Origin A
  refused : OriginFault → Origin A

abbrev pub development : String
development = "development"

-- The tests of `parseOrigin` on a parsed URL.
unfoldable pub origin_of : Texts → String → Url → Origin String
origin_of texts env u =
    if str_eq u.host ""
    then refused not_absolute
    else if not (str_eq u.scheme "https" || (str_eq u.scheme "http" && str_eq env development))
    then refused (scheme_refused u.scheme)
    else if u.has_user
        || not (only_slashes u.path)
        || not (str_eq u.raw_query "")
        || not (str_eq u.fragment "")
    then refused not_bare
    else origin (concat u.scheme (concat "://" (texts.to_lower u.host)))

unfoldable pub parsed_origin : Texts → String → Option Url → Origin String
parsed_origin texts env none = refused not_absolute
parsed_origin texts env (some u) = origin_of texts env u

-- `parseOrigin`
unfoldable pub parse_origin : Texts → String → String → Origin String
parse_origin texts env raw =
    if str_eq (trim_space raw) ""
    then refused origin_required
    else parsed_origin texts env (texts.parse_url (trim_space raw))

abbrev pub with_origin : Origin String → Origin (List String) → Origin (List String)
with_origin (refused f) rest = refused f
with_origin (origin o) (refused f) = refused f
with_origin (origin o) (origin os) = origin (o ∷ os)

-- The loop of `parseOriginList`.
unfoldable pub parse_items : Texts → String → List String → Origin (List String)
parse_items texts env [] = origin []
parse_items texts env (item ∷ items) =
    let rest = parse_items texts env items in
    if str_eq (trim_space item) "" then rest else with_origin (parse_origin texts env item) rest

-- `parseOriginList`
unfoldable pub parse_origin_list : Texts → String → String → Origin (List String)
parse_origin_list texts env raw = parse_items texts env (split_commas raw)
