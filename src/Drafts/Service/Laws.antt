-- ===== src/Drafts/Service/Laws.antt =====
-- service.go: what Create and Confirm write.
use booknow_mcp_service.Base.{
  String, Option, none, some, Bool, true, false, not, ◌||◌, ◌⊎◌, ◌≡◌, refl, arith, Result, ok, err,
  guard, guard-eq-ok, wrap_err, wrap_err-eq-ok, >>=-eq-ok, ok-injective,
}
use booknow_mcp_service.Business.Types.Booking.{SlotCheck}
use booknow_mcp_service.Drafts.Types.{Actor, Customer, Variant, NewDraft}
use booknow_mcp_service.Drafts.Parse.{CreateRequest}
use booknow_mcp_service.Drafts.Service.{
  Drafts, known_entity, find_variant, is_some, slot_check_input, new_draft, plan,
}

pub known_entity-eq-ok {ℓ} :
    {A : Type ℓ} (message : String) (active : A → Bool) (found : Result A) {a : A}
    → known_entity message active found ≡ ok a
    → (found ≡ ok a) × (active a ≡ true)
unfolding known_entity
known_entity-eq-ok message active (ok b) h = ground arith
known_entity-eq-ok message active (err e) h = ground arith

-- The variant of a request was found active for its service, or the request has none.
abbrev pub IsVariantOf :
    {W : Type 0} → Drafts W → W → String → CreateRequest → Option Variant → Type 0
IsVariantOf s w tenant_id req none = req.variant_id ≡ none
IsVariantOf s w tenant_id req (some v) =
    (id : String) × (req.variant_id ≡ some id)
    × (s.store.variant w tenant_id req.service_id id ≡ ok v)
    × (v.active ≡ true)

find_variant-IsVariantOf :
    {W : Type 0} (s : Drafts W) (w : W) (tenant_id : String) (req : CreateRequest)
    (id : Option String) (v : Option Variant)
    → req.variant_id ≡ id
    → find_variant s w tenant_id req.service_id id ≡ ok v
    → IsVariantOf s w tenant_id req v
find_variant-IsVariantOf s w tenant_id req none v same h = rw (← ok-injective h) same
find_variant-IsVariantOf s w tenant_id req (some id) v same h =
    let (u, found, e) =
      >>=-eq-ok
        (known_entity "La variante no existe, no está activa o no pertenece al servicio."
          (λ v. v.active) (s.store.variant w tenant_id req.service_id id))
        _ h in
    let (stored, active) =
      known_entity-eq-ok _ (λ v. v.active) (s.store.variant w tenant_id req.service_id id) found in
    rw (← ok-injective e) (id, same, stored, active)

not_or : (a b : Bool) → (not a || b) ≡ true → (a ≡ false) ⊎ (b ≡ true)
not_or a b h = ground arith

-- What the checks before an insert have established: the customer and the variant are active ones
-- of the tenant, and the slot that was checked is available.
pub record IsBooking {W : Type 0} (s : Drafts W) (w : W) (actor : Actor) (req : CreateRequest)
    (d : NewDraft) : Type 0 where
  pub customer : Customer
  pub customer_found : s.store.customer w actor.tenant_id req.customer_id ≡ ok customer
  pub customer_active : customer.active ≡ true
  pub variant : Option Variant
  pub variant_found : IsVariantOf s w actor.tenant_id req variant
  pub check : SlotCheck
  pub slot_checked : s.slots actor.tenant_id (slot_check_input req variant) ≡ ok check
  pub slot_available : check.available ≡ true
  pub specialist_given :
      (check.service.requires_specialist ≡ false) ⊎ (is_some req.specialist_id ≡ true)
  pub draft_is : new_draft s actor req variant check ≡ d

pub plan-IsBooking :
    {W : Type 0} (s : Drafts W) (w : W) (actor : Actor) (req : CreateRequest) (d : NewDraft)
    → plan s w actor req ≡ ok d
    → IsBooking s w actor req d
unfolding plan
plan-IsBooking s w actor req d e =
    let (c, customer_known, e1) =
      >>=-eq-ok
        (known_entity "El cliente no existe o no está activo en este negocio." (λ v. v.active)
          (s.store.customer w actor.tenant_id req.customer_id))
        _ e in
    let (stored, active) =
      known_entity-eq-ok _ (λ v. v.active) (s.store.customer w actor.tenant_id req.customer_id)
        customer_known in
    let (v, variant_known, e2) =
      >>=-eq-ok (find_variant s w actor.tenant_id req.service_id req.variant_id) _ e1 in
    let (check, slot_known, e3) =
      >>=-eq-ok (wrap_err "check slot" (s.slots actor.tenant_id (slot_check_input req v))) _ e2 in
    let (t, given, e4) =
      >>=-eq-ok (guard (not check.service.requires_specialist || is_some req.specialist_id) _) _
        e3 in
    let (u, free, e5) = >>=-eq-ok (guard check.available _) _ e4 in
    record {
      customer = c;
      customer_found = stored;
      customer_active = active;
      variant = v;
      variant_found =
          find_variant-IsVariantOf s w actor.tenant_id req req.variant_id v refl variant_known;
      check = check;
      slot_checked = wrap_err-eq-ok _ _ slot_known;
      slot_available = guard-eq-ok check.available _ free;
      specialist_given = not_or _ _ (
          guard-eq-ok (not check.service.requires_specialist || is_some req.specialist_id) _ given);
      draft_is = ok-injective e5;
    }
