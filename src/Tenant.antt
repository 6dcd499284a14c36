-- ===== src/Tenant.antt =====
-- internal/tenant/resolver.go: the tenant and role that an authenticated caller acts with, and
-- internal/repository/postgres/mcp_access.go, which reads them.
pub mod Laws
pub mod Tables
use booknow_mcp_service.Base.{
  ℤ, String, Option, none, some, Bool, true, false, not, ◌||◌, ◌&&◌, if◌then◌else◌, str_eq, List,
  [], ◌∷◌,
}

-- `auth.Identity`
pub record Identity : Type 0 where
  pub user_id : String
  pub client_id : String
  pub expires_at : ℤ

-- The denials, all of which wrap ErrAccessDenied.
pub data Denial : Type 0 where
  client_required connection_not_found connection_revoked tenant_inactive membership_inactive
        role_forbidden module_disabled :
      Denial

-- An error of the resolver: a denial, or any other error, with what was wrapped around it.
pub data AccessErr : Type 0 where
  denied : Denial → AccessErr
  access_denied : AccessErr
  failed : String → AccessErr
  wrapped : String → AccessErr → AccessErr

-- `Access`; the role is its text.
pub record Access : Type 0 where
  pub user_id : String
  pub client_id : String
  pub connection_id : String
  pub tenant_id : String
  pub tenant_slug : String
  pub role : String
  pub scopes : List String

pub record AccessRecord : Type 0 where
  pub connection_id : String
  pub connection_active : Bool
  pub scopes : List String
  pub tenant_id : String
  pub tenant_slug : String
  pub tenant_active : Bool
  pub member_found : Bool
  pub member_active : Bool
  pub role : String
  pub module_enabled : Bool

pub data Answer {ℓ} (A : Type ℓ) : Type ℓ where
  granted : A → Answer A
  refused : AccessErr → Answer A

-- `errors.Is(err, ErrAccessDenied)`
unfoldable pub is_access_denied : AccessErr → Bool
is_access_denied (denied d) = true
is_access_denied access_denied = true
is_access_denied (failed text) = false
is_access_denied (wrapped text e) = is_access_denied e

abbrev pub is_role : String → Bool
is_role r = str_eq r "owner" || (str_eq r "admin" || str_eq r "manager")

abbrev pub access_of : Identity → AccessRecord → Access
access_of id r = record {
  user_id = id.user_id;
  client_id = id.client_id;
  connection_id = r.connection_id;
  tenant_id = r.tenant_id;
  tenant_slug = r.tenant_slug;
  role = r.role;
  scopes = r.scopes;
}

-- The switch of `Resolve`: the first check that fails decides.
unfoldable pub check_record : Identity → AccessRecord → Answer Access
check_record id r =
    if not r.connection_active
    then refused (denied connection_revoked)
    else if not r.tenant_active
    then refused (denied tenant_inactive)
    else if not r.member_found || not r.member_active
    then refused (denied membership_inactive)
    else if not (is_role r.role)
    then refused (denied role_forbidden)
    else if not r.module_enabled
    then refused (denied module_disabled)
    else granted (access_of id r)

abbrev pub checked : Identity → Answer AccessRecord → Answer Access
checked id (granted r) = check_record id r
checked id (refused e) =
    if is_access_denied e then refused e else refused (wrapped "find mcp access" e)

-- `Resolver.Resolve`; `find` is the store's FindMCPAccess.
unfoldable pub resolve : (String → String → Answer AccessRecord) → Identity → Answer Access
resolve find id =
    if str_eq id.client_id ""
    then refused (denied client_required)
    else checked id (find id.user_id id.client_id)

-- What QueryRow and Scan of findMCPAccessSQL give.
pub data AccessRow : Type 0 where
  no_rows : AccessRow
  row : AccessRecord → AccessRow
  query_error : String → AccessRow

-- `MCPAccessStore.FindMCPAccess`, from the row of the query
unfoldable pub find_mcp_access : AccessRow → Answer AccessRecord
find_mcp_access no_rows = refused (denied connection_not_found)
find_mcp_access (query_error text) = refused (wrapped "query mcp access" (failed text))
find_mcp_access (row r) = granted (record r { member_active = r.member_found && r.member_active })
