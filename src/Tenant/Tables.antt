-- ===== src/Tenant/Tables.antt =====
-- The query of internal/repository/postgres/mcp_access.go over its tables, as lists in any order.
-- Ids, statuses and roles are texts; an instant is an integer. Rows that the order of the query does not
-- tell apart come in the order of the tables; the columns of the order hold no null.
pub mod Joins
pub mod Latest
pub mod Entitled
use booknow_mcp_service.Base.{
  ℤ, String, List, [], ◌∷◌, ◌++◌, Option, none, some, Bool, true, false, ◌&&◌, any, ltb_ℤ, eq_ℤ,
  str_eq, if◌then◌else◌,
}
use booknow_mcp_service.Tenant.{AccessRecord, AccessRow, no_rows, row}

abbrev pub mcp_module_slug : String
mcp_module_slug = "business-mcp"

-- A row of mcp_connections.
pub record ConnectionRow : Type 0 where
  pub id : String
  pub tenant_id : String
  pub auth_user_id : String
  pub oauth_client_id : String
  pub status : String
  pub scopes : List String
  pub updated_at : ℤ
  pub created_at : ℤ

-- A row of tenants.
pub record TenantRow : Type 0 where
  pub id : String
  pub slug : String
  pub status : String

-- A row of tenant_users.
pub record MemberRow : Type 0 where
  pub tenant_id : String
  pub auth_user_id : String
  pub is_active : Option Bool
  pub role : Option String

-- A row of modules.
pub record ModuleRow : Type 0 where
  pub id : String
  pub slug : String

-- A row of tenant_modules.
pub record TenantModuleRow : Type 0 where
  pub tenant_id : String
  pub module_id : String
  pub is_enabled : Option Bool

pub record AccessTables : Type 0 where
  pub mcp_connections : List ConnectionRow
  pub tenants : List TenantRow
  pub tenant_users : List MemberRow
  pub modules : List ModuleRow
  pub tenant_modules : List TenantModuleRow

abbrev pub coalesce {ℓ} : {A : Type ℓ} → Option A → A → A
coalesce none a = a
coalesce (some b) a = b

module _ {ℓ} {A B : Type ℓ} where
  -- The rows of a join: `f` of each row that passes the test.
  abbrev pub joined : (A → Bool) → (A → List B) → List A → List B
  joined on f [] = []
  joined on f (x ∷ xs) = (if on x then f x else []) ++ joined on f xs

  -- The rows of a left join: those of the join, or `f` of a null where no row passes.
  abbrev pub left_joined : (A → Bool) → (Option A → List B) → List A → List B
  left_joined on f xs = if any on xs then joined on (λ x. f (some x)) xs else f none

-- The columns of the query.
abbrev pub is_found {ℓ} : {A : Type ℓ} → Option A → Bool
is_found none = false
is_found (some a) = true

abbrev pub active_of : Option MemberRow → Bool
active_of none = true
active_of (some m) = coalesce m.is_active true

abbrev pub role_of : Option MemberRow → String
role_of none = ""
role_of (some m) = coalesce m.role ""

abbrev pub enabled_of : Option TenantModuleRow → Bool
enabled_of none = false
enabled_of (some e) = coalesce e.is_enabled false

abbrev pub columns :
    ConnectionRow → TenantRow → Option MemberRow → Option TenantModuleRow → AccessRecord
columns c t m e = record {
  connection_id = c.id;
  connection_active = str_eq c.status "active";
  scopes = c.scopes;
  tenant_id = t.id;
  tenant_slug = t.slug;
  tenant_active = str_eq t.status "active";
  member_found = is_found m;
  member_active = active_of m;
  role = role_of m;
  module_enabled = enabled_of e;
}

-- The condition on tenant_modules; the module is null where there is none.
abbrev pub is_enabling : ConnectionRow → Option ModuleRow → TenantModuleRow → Bool
is_enabling c none e = false
is_enabling c (some m) e = str_eq e.tenant_id c.tenant_id && str_eq e.module_id m.id

-- The rows of the modules and of their use by the tenant.
abbrev pub module_rows :
    AccessTables
    → String
    → ConnectionRow
    → TenantRow
    → Option MemberRow
    → List (ConnectionRow × AccessRecord)
module_rows db slug c t u =
    left_joined (λ (m : ModuleRow). str_eq m.slug slug)
      (λ m. left_joined (is_enabling c m) (λ e. (c, columns c t u e) ∷ []) db.tenant_modules)
      db.modules

-- The rows before the order, with the connection of each.
unfoldable pub access_rows :
    AccessTables → (user_id client_id slug : String) → List (ConnectionRow × AccessRecord)
access_rows db user_id client_id slug =
    joined
      (λ (c : ConnectionRow). str_eq c.auth_user_id user_id && str_eq c.oauth_client_id client_id)
      (λ c.
        joined (λ (t : TenantRow). str_eq t.id c.tenant_id)
          (λ t.
            left_joined
              (λ (u : MemberRow).
                str_eq u.tenant_id c.tenant_id && str_eq u.auth_user_id c.auth_user_id)
              (module_rows db slug c t) db.tenant_users)
          db.tenants)
      db.mcp_connections

abbrev pub is_newer : ConnectionRow → ConnectionRow → Bool
is_newer a b =
    if eq_ℤ a.updated_at b.updated_at
    then ltb_ℤ b.created_at a.created_at
    else ltb_ℤ b.updated_at a.updated_at

-- The order of the query: active first, then the latest update, then the latest creation.
unfoldable pub precedes : ConnectionRow → ConnectionRow → Bool
precedes a b =
    if str_eq a.status "active"
    then (if str_eq b.status "active" then is_newer a b else true)
    else if str_eq b.status "active"
    then false
    else is_newer a b

abbrev pub first_or :
    ConnectionRow × AccessRecord
    → Option (ConnectionRow × AccessRecord)
    → ConnectionRow × AccessRecord
first_or r none = r
first_or r (some s) = if precedes s.0 r.0 then s else r

-- The first row in the order.
abbrev pub first_row : List (ConnectionRow × AccessRecord) → Option (ConnectionRow × AccessRecord)
first_row [] = none
first_row (r ∷ rows) = some (first_or r (first_row rows))

abbrev pub row_or_none : Option (ConnectionRow × AccessRecord) → AccessRow
row_or_none none = no_rows
row_or_none (some r) = row r.1

-- findMCPAccessSQL
abbrev pub find_mcp_access_sql : AccessTables → (user_id client_id slug : String) → AccessRow
find_mcp_access_sql db user_id client_id slug =
    row_or_none (first_row (access_rows db user_id client_id slug))
