-- ===== src/Tenant/Laws.antt =====
-- resolver.go: who is granted access.
use booknow_mcp_service.Base.{
  String, Bool, true, false, ◌≡◌, ◌↔◌, ◌⊎◌, ◌≢◌, inl, arith, str_eq, eq_iff, if◌then◌else◌,
}
use booknow_mcp_service.Tenant.{
  Identity, client_required, AccessErr, denied, wrapped, Access, AccessRecord, Answer, granted,
  refused, is_access_denied, is_role, access_of, check_record, checked, resolve,
}

-- The state in which a record grants access.
abbrev pub IsActive : AccessRecord → Type 0
IsActive r =
    (r.connection_active ≡ true)
    × (r.tenant_active ≡ true)
    × (r.member_found ≡ true)
    × (r.member_active ≡ true)
    × ((r.role ≡ "owner") ⊎ (r.role ≡ "admin") ⊎ (r.role ≡ "manager"))
    × (r.module_enabled ≡ true)

is_role_iff : (t : String) → (is_role t ≡ true) ↔ ((t ≡ "owner") ⊎ (t ≡ "admin") ⊎ (t ≡ "manager"))
is_role_iff t = ground (arith, eq_iff t "owner", eq_iff t "admin", eq_iff t "manager")

pub check_record_iff :
    (id : Identity) (r : AccessRecord) (a : Access)
    → (check_record id r ≡ granted a) ↔ ((access_of id r ≡ a) × IsActive r)
unfolding check_record
check_record_iff id r a = ground (arith, is_role_iff r.role)

-- The answer is a record that satisfies a predicate.
abbrev pub Found : (AccessRecord → Type 0) → Answer AccessRecord → Type 0
Found P (granted r) = P r
Found P (refused e) = ⊥

checked_iff :
    (id : Identity) (answer : Answer AccessRecord) (a : Access)
    → (checked id answer ≡ granted a) ↔ Found (λ r. (access_of id r ≡ a) × IsActive r) answer
checked_iff id (granted r) a = check_record_iff id r a
checked_iff id (refused e) a = ground arith

-- A caller is granted an access exactly when the token is bound to a client and the store finds, for
-- the user and that client, a record with an active connection, tenant and membership, a management
-- role and the module enabled; the access is the one of that record and of the caller.
pub resolve-granted_iff :
    (find : String → String → Answer AccessRecord) (id : Identity) (a : Access)
    → (resolve find id ≡ granted a) ↔ (
        (id.client_id ≢ "")
        × Found (λ r. (access_of id r ≡ a) × IsActive r) (find id.user_id id.client_id))
unfolding resolve
resolve-granted_iff find id a =
    ground (arith, eq_iff id.client_id "", checked_iff id (find id.user_id id.client_id) a)

-- The answer is an error that satisfies a predicate.
abbrev pub Fails : (AccessErr → Type 0) → Answer AccessRecord → Type 0
Fails P (granted r) = ⊥
Fails P (refused e) = P e

check_record-denied :
    (id : Identity) (r : AccessRecord) (e : AccessErr)
    → check_record id r ≡ refused e
    → is_access_denied e ≡ true
unfolding check_record is_access_denied
check_record-denied id r e h = ground arith

checked-refused :
    (id : Identity) (answer : Answer AccessRecord) (e : AccessErr)
    → checked id answer ≡ refused e
    → (is_access_denied e ≡ true)
      ⊎ Fails (λ f. (is_access_denied f ≡ false) × (wrapped "find mcp access" f ≡ e)) answer
checked-refused id (granted r) e h = inl (check_record-denied id r e h)
checked-refused id (refused f) e h = ground arith

client_cases :
    {P : Type 0} (b : Bool) (answer : Answer Access) (e : AccessErr)
    → (if b then refused (denied client_required) else answer) ≡ refused e
    → (answer ≡ refused e → (is_access_denied e ≡ true) ⊎ P)
    → (is_access_denied e ≡ true) ⊎ P
unfolding is_access_denied
client_cases true answer e h f = inl (ground arith)
client_cases false answer e h f = f h

-- A refusal either wraps ErrAccessDenied or is the wrapped failure of the store; a failure of the
-- store is never reported as a denial.
pub resolve-refused :
    (find : String → String → Answer AccessRecord) (id : Identity) (e : AccessErr)
    → resolve find id ≡ refused e
    → (is_access_denied e ≡ true)
      ⊎ Fails
          (λ f. (is_access_denied f ≡ false) × (wrapped "find mcp access" f ≡ e))
          (find id.user_id id.client_id)
unfolding resolve
resolve-refused find id e h =
    client_cases (str_eq id.client_id "") (checked id (find id.user_id id.client_id)) e h
      (checked-refused id (find id.user_id id.client_id) e)
