-- ===== src/Tenant/Tables/Entitled.antt =====
-- The query of mcp_access.go with resolver.go: whom the tables entitle to an access.
use booknow_mcp_service.Base.{
  String, List, [], ◌∷◌, Option, none, some, Bool, true, false, ◌&&◌, All, ◌≡◌, refl, ◌⊎◌, arith,
  str_eq, eq_iff, ◌∙◌, if-both,
}
use booknow_mcp_service.Tenant.{
  Identity, Access, AccessRecord, granted, access_of, resolve, find_mcp_access,
}
use booknow_mcp_service.Tenant.Laws.{IsActive, Found, resolve-granted_iff}
use booknow_mcp_service.Tenant.Tables.{
  ConnectionRow, TenantRow, MemberRow, ModuleRow, TenantModuleRow, AccessTables, coalesce, columns,
  module_rows, left_joined, is_enabling, access_rows, precedes, first_or, first_row, row_or_none,
  find_mcp_access_sql, mcp_module_slug,
}
use booknow_mcp_service.Tenant.Tables.Latest.{IsFirst, IsFirstOf, first_row-IsFirstOf}
use booknow_mcp_service.Tenant.Tables.Joins.{In, All-joined, All-left_joined}

-- The rows that entitle a user of a client to what a record says.
pub record IsEntitled (db : AccessTables) (user client slug : String) (r : AccessRecord)
    : Type 0 where
  pub connection : ConnectionRow
  pub connection_in : In connection db.mcp_connections
  pub of_user : connection.auth_user_id ≡ user
  pub of_client : connection.oauth_client_id ≡ client
  pub is_active : connection.status ≡ "active"
  pub same_connection : r.connection_id ≡ connection.id
  pub same_tenant : r.tenant_id ≡ connection.tenant_id
  pub same_scopes : r.scopes ≡ connection.scopes
  pub tenant : TenantRow
  pub tenant_in : In tenant db.tenants
  pub tenant_is : tenant.id ≡ connection.tenant_id
  pub tenant_is_active : tenant.status ≡ "active"
  pub member : MemberRow
  pub member_in : In member db.tenant_users
  pub member_of : member.tenant_id ≡ connection.tenant_id
  pub member_is : member.auth_user_id ≡ user
  pub member_is_active : coalesce member.is_active true ≡ true
  pub same_role : r.role ≡ coalesce member.role ""
  pub is_manager : (r.role ≡ "owner") ⊎ (r.role ≡ "admin") ⊎ (r.role ≡ "manager")
  pub mcp_module : ModuleRow
  pub module_in : In mcp_module db.modules
  pub module_is : mcp_module.slug ≡ slug
  pub enabling : TenantModuleRow
  pub enabling_in : In enabling db.tenant_modules
  pub enabled_for : enabling.tenant_id ≡ connection.tenant_id
  pub enabled_is : enabling.module_id ≡ mcp_module.id
  pub is_enabled : coalesce enabling.is_enabled false ≡ true

never : {A : Type 0} → false ≡ true → A
never h = cc

both : (a b : Bool) → a && b ≡ true → (a ≡ true) × (b ≡ true)
both a b h = ground arith

text_is : (s t : String) → str_eq s t ≡ true → s ≡ t
text_is s t h = (eq_iff s t).0 h

-- What FindMCPAccess makes of a scanned record.
abbrev scanned : AccessRecord → AccessRecord
scanned r = record r { member_active = r.member_found && r.member_active }

module _ (db : AccessTables) (user client slug : String) where
  abbrev Entitles : ConnectionRow × AccessRecord → Type 0
  Entitles r =
      IsActive (scanned r.1)
      → (e : IsEntitled db user client slug (scanned r.1)) × (e.connection ≡ r.0)

  matched-Entitles :
      (c : ConnectionRow)
      → In c db.mcp_connections
      → str_eq c.auth_user_id user && str_eq c.oauth_client_id client ≡ true
      → (t : TenantRow) → In t db.tenants
      → str_eq t.id c.tenant_id ≡ true
      → (u : MemberRow) → In u db.tenant_users
      → str_eq u.tenant_id c.tenant_id && str_eq u.auth_user_id c.auth_user_id ≡ true
      → (m : ModuleRow) → In m db.modules
      → str_eq m.slug slug ≡ true
      → (e : TenantModuleRow) → In e db.tenant_modules
      → is_enabling c (some m) e ≡ true
      → Entitles (c, columns c t (some u) (some e))
  matched-Entitles c c_in c_on t t_in t_on u u_in u_on m m_in m_on e e_in e_on a =
      let own = both (str_eq c.auth_user_id user) (str_eq c.oauth_client_id client) c_on in
      let of_member =
        both (str_eq u.tenant_id c.tenant_id) (str_eq u.auth_user_id c.auth_user_id) u_on in
      let for_tenant = both (str_eq e.tenant_id c.tenant_id) (str_eq e.module_id m.id) e_on in
      (
        record {
          connection = c;
          connection_in = c_in;
          of_user = text_is c.auth_user_id user own.0;
          of_client = text_is c.oauth_client_id client own.1;
          is_active = text_is c.status "active" a.0;
          same_connection = refl;
          same_tenant = text_is t.id c.tenant_id t_on;
          same_scopes = refl;
          tenant = t;
          tenant_in = t_in;
          tenant_is = text_is t.id c.tenant_id t_on;
          tenant_is_active = text_is t.status "active" a.1;
          member = u;
          member_in = u_in;
          member_of = text_is u.tenant_id c.tenant_id of_member.0;
          member_is =
              text_is u.auth_user_id c.auth_user_id of_member.1 ∙ text_is c.auth_user_id user own.0;
          member_is_active = a.3;
          same_role = refl;
          is_manager = a.4;
          mcp_module = m;
          module_in = m_in;
          module_is = text_is m.slug slug m_on;
          enabling = e;
          enabling_in = e_in;
          enabled_for = text_is e.tenant_id c.tenant_id for_tenant.0;
          enabled_is = text_is e.module_id m.id for_tenant.1;
          is_enabled = a.5;
        },
        refl,
      )

  modules-Entitles :
      (c : ConnectionRow) (t : TenantRow) (u : Option MemberRow)
      → ((m : ModuleRow)
          → In m db.modules
          → str_eq m.slug slug ≡ true
          → (e : TenantModuleRow) → In e db.tenant_modules
          → is_enabling c (some m) e ≡ true
          → Entitles (c, columns c t u (some e)))
      → All Entitles (module_rows db slug c t u)
  modules-Entitles c t u h =
      All-left_joined Entitles (λ (m : ModuleRow). str_eq m.slug slug)
        (λ m. left_joined (is_enabling c m) (λ e. (c, columns c t u e) ∷ []) db.tenant_modules)
        db.modules
        (λ m m_in m_on.
          All-left_joined Entitles (is_enabling c (some m)) (λ e. (c, columns c t u e) ∷ [])
            db.tenant_modules (λ e e_in e_on. (h m m_in m_on e e_in e_on, tt))
            ((λ a. never (a.5)), tt))
        (All-left_joined Entitles (is_enabling c none) (λ e. (c, columns c t u e) ∷ [])
          db.tenant_modules (λ e e_in e_on. ((λ a. never e_on), tt)) ((λ a. never (a.5)), tt))

  access_rows-Entitles : All Entitles (access_rows db user client slug)
  unfolding access_rows
  access_rows-Entitles = All-joined Entitles _ _ db.mcp_connections (λ c c_in c_on.
      All-joined Entitles _ _ db.tenants (λ t t_in t_on.
        All-left_joined Entitles _ (module_rows db slug c t) db.tenant_users
          (λ u u_in u_on.
            modules-Entitles c t (some u) (matched-Entitles c c_in c_on t t_in t_on u u_in u_on))
          (modules-Entitles c t none (λ m m_in m_on e e_in e_on a. never (a.2)))))

  abbrev AllFirst : Option (ConnectionRow × AccessRecord) → Type 0
  AllFirst none = Unit
  AllFirst (some r) = Entitles r

  first_or-Entitles :
      (r : ConnectionRow × AccessRecord) (first : Option (ConnectionRow × AccessRecord))
      → Entitles r
      → AllFirst first
      → Entitles (first_or r first)
  first_or-Entitles r none h f = h
  first_or-Entitles r (some s) h f = if-both Entitles (precedes s.0 r.0) s r (λ p. f) (λ p. h)

  first_row-Entitles :
      (rows : List (ConnectionRow × AccessRecord)) → All Entitles rows → AllFirst (first_row rows)
  first_row-Entitles [] h = tt
  first_row-Entitles (r ∷ rows) h =
      first_or-Entitles r (first_row rows) (h.0) (first_row-Entitles rows (h.1))

  Found-IsEntitled :
      (rows : List (ConnectionRow × AccessRecord)) (first : Option (ConnectionRow × AccessRecord))
      → AllFirst first
      → IsFirstOf rows first
      → (P : AccessRecord → Type 0)
      → Found (λ r. P r × IsActive r) (find_mcp_access (row_or_none first))
      → (r : AccessRecord) × P r
        × (e : IsEntitled db user client slug r) × IsFirst e.connection rows
  unfolding find_mcp_access
  Found-IsEntitled rows none h is_first P f = absurd f
  Found-IsEntitled rows (some r) h is_first P f =
      let e = h (f.1) in (scanned r.1, f.0, e.0, rw e.1 is_first)

-- The tables back an access of a caller: a record of it that they entitle to.
pub record IsBacked (db : AccessTables) (id : Identity) (a : Access) : Type 0 where
  pub of_record : AccessRecord
  pub is_access : access_of id of_record ≡ a
  pub entitled : IsEntitled db id.user_id id.client_id mcp_module_slug of_record
  pub is_first :
      IsFirst entitled.connection (access_rows db id.user_id id.client_id mcp_module_slug)

-- Whoever is granted an access is entitled to it by the tables: an active connection of the user and the
-- client, its active tenant, an active membership of the user in that tenant with a management role, and
-- the module, enabled for that tenant; the access has the connection, tenant, scopes and role of these
-- rows. Of the connections of the user and the client whose tenants exist, none comes before it: the
-- active come first, then the last updated, then the last created.
pub resolve-IsEntitled :
    (db : AccessTables) (id : Identity) (a : Access)
    → resolve
        (λ user client. find_mcp_access (find_mcp_access_sql db user client mcp_module_slug))
        id
      ≡ granted a
    → IsBacked db id a
resolve-IsEntitled db id a h =
    let found =
      (resolve-granted_iff
          (λ user client. find_mcp_access (find_mcp_access_sql db user client mcp_module_slug)) id
          a).0
        h in
    let rows = access_rows db id.user_id id.client_id mcp_module_slug in
    let backed =
      Found-IsEntitled db id.user_id id.client_id mcp_module_slug rows (first_row rows)
        (first_row-Entitles db id.user_id id.client_id mcp_module_slug rows
          (access_rows-Entitles db id.user_id id.client_id mcp_module_slug))
        (first_row-IsFirstOf rows) (λ r. access_of id r ≡ a) (found.1) in
    record { of_record = backed.0; is_access = backed.1; entitled = backed.2; is_first = backed.3 }
