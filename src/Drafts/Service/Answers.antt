-- ===== src/Drafts/Service/Answers.antt =====
-- service.go: what Create answers.
use booknow_mcp_service.Base.{
  String, Option, none, some, Bool, true, false, if◌then◌else◌, ◌⊎◌, inl, inr, ◌≡◌, ◌≢◌, refl,
  arith, ◌≤ℤ◌, ◌<ℤ◌, eq_iff, Err, Result, ok, err, wrap_err, wrap_err-eq-ok, >>=-eq-ok,
  ok-injective,
}
use booknow_mcp_service.Business.Types.{Time}
use booknow_mcp_service.Drafts.Types.{Actor, NewDraft, Draft, CreateInput, DraftView}
use booknow_mcp_service.Drafts.Parse.{CreateRequest, parse_create}
use booknow_mcp_service.Drafts.View.{Format, status, view}
use booknow_mcp_service.Drafts.Service.{
  Drafts, same_data, reuse, found_by_key, plan, inserted, insert, create_from, create_parsed,
  create,
}
use booknow_mcp_service.Drafts.Service.Laws.{IsBooking, plan-IsBooking}
use booknow_mcp_service.Drafts.Service.Creation.{err_not_ok}

some_ok {ℓ} : {A : Type ℓ} {a d : A} → ok (some a) ≡ ok (some d) → ok a ≡ ok d
some_ok h = cc

if_ok {ℓ} :
    {A : Type ℓ} (b : Bool) (a v : A) (e : Err)
    → (if b then ok a else err e) ≡ ok v
    → (b ≡ true) × (a ≡ v)
if_ok b a v e h = ground arith

pub found_by_key-eq-ok : (m : Result Draft) {d : Draft} → found_by_key m ≡ ok (some d) → m ≡ ok d
found_by_key-eq-ok (ok a) h = some_ok h
found_by_key-eq-ok (err e) h = ground arith

pub reuse-eq-ok :
    {W : Type 0} (s : Drafts W) (v : DraftView) (d : Draft) (req : CreateRequest)
    → reuse s d req ≡ ok v
    → (same_data d req ≡ true) × (view s.format s.now d true ≡ v)
unfolding reuse
reuse-eq-ok s v d req h = if_ok (same_data d req) _ v _ h

-- What the client is shown of a draft: the draft's own data, whether it is a reused one, and a status
-- that says expired from the expiry on.
pub record Shows (now : Time) (reused : Bool) (d : Draft) (v : DraftView) : Type 0 where
  pub same_id : v.draft_id ≡ d.id
  pub reused_is : v.reused ≡ reused
  pub status_is :
      ((d.status ≡ "draft") × (d.expires_at.at ≤ℤ now.at) × (v.status ≡ "expired"))
      ⊎ (((d.status ≢ "draft") ⊎ (now.at <ℤ d.expires_at.at)) × (v.status ≡ d.status))
  pub same_start : v.scheduled_at.at ≡ d.scheduled_at.at
  pub same_end : v.ends_at.at ≡ d.ends_at.at
  pub same_expiry : v.expires_at.at ≡ d.expires_at.at
  pub same_duration : v.duration_minutes ≡ d.duration_minutes
  pub same_price : v.estimated_price ≡ d.estimated_price
  pub same_currency : v.currency_code ≡ d.currency_code
  pub same_customer : v.customer.id ≡ d.customer_id
  pub same_service : (v.service.id ≡ d.service_id) × (v.service.name ≡ d.service_name)
  pub same_branch : (v.branch.id ≡ d.branch_id) × (v.branch.name ≡ d.branch_name)
  pub same_appointment : v.confirmed_appointment_id ≡ d.confirmed_appointment_id

status_cases :
    (now : Time) (d : Draft)
    → ((d.status ≡ "draft") × (d.expires_at.at ≤ℤ now.at) × (status now d ≡ "expired"))
      ⊎ (((d.status ≢ "draft") ⊎ (now.at <ℤ d.expires_at.at)) × (status now d ≡ d.status))
unfolding status
status_cases now d = ground (arith, eq_iff d.status "draft")

pub view-Shows :
    (f : Format) (now : Time) (d : Draft) (reused : Bool) → Shows now reused d (view f now d reused)
unfolding view
view-Shows f now d reused = record {
  same_id = refl;
  reused_is = refl;
  status_is = status_cases now d;
  same_start = refl;
  same_end = refl;
  same_expiry = refl;
  same_duration = refl;
  same_price = refl;
  same_currency = refl;
  same_customer = refl;
  same_service = (refl, refl);
  same_branch = (refl, refl);
  same_appointment = refl;
}

-- A view of the draft that the database holds for the key of the request, with the data of the
-- request.
pub record IsReused {W : Type 0} (s : Drafts W) (actor : Actor) (x : CreateInput) (v : DraftView)
    (after : W) : Type 0 where
  pub req : CreateRequest
  pub parsed : parse_create s.to_lower s.format.calendar.parse_rfc3339 x ≡ ok req
  pub draft : Draft
  pub same : same_data draft req ≡ true
  pub stored : s.store.draft_by_key after actor.tenant_id actor.connection_id req.key ≡ ok draft
  pub view_is : view s.format s.now draft true ≡ v
  pub shows : Shows s.now true draft v

-- A view of the draft that was inserted, as the database holds it.
pub record IsNew {W : Type 0} (s : Drafts W) (w : W) (actor : Actor) (x : CreateInput)
    (v : DraftView) (after : W) : Type 0 where
  pub req : CreateRequest
  pub parsed : parse_create s.to_lower s.format.calendar.parse_rfc3339 x ≡ ok req
  pub planned : NewDraft
  pub booked : IsBooking s w actor req planned
  pub id : String
  pub given : (s.store.insert_draft w planned).0 ≡ ok (some id)
  pub after_is : (s.store.insert_draft w planned).1 ≡ after
  pub draft : Draft
  pub stored : s.store.draft after actor.tenant_id id ≡ ok draft
  pub view_is : view s.format s.now draft false ≡ v
  pub shows : Shows s.now false draft v

module _ {W : Type 0} (s : Drafts W) (w : W) (actor : Actor) (x : CreateInput) (v : DraftView)
    (req : CreateRequest)
    (parsed : parse_create s.to_lower s.format.calendar.parse_rfc3339 x ≡ ok req) where
  abbrev IsShown : W → Type 0
  IsShown after = IsReused s actor x v after ⊎ IsNew s w actor x v after

  reuse-IsShown :
      (after : W) (d : Draft)
      → s.store.draft_by_key after actor.tenant_id actor.connection_id req.key ≡ ok d
      → reuse s d req ≡ ok v
      → IsShown after
  reuse-IsShown after d stored h =
      let (same, shown) = reuse-eq-ok s v d req h in
      inl (record {
        req = req;
        parsed = parsed;
        draft = d;
        same = same;
        stored = stored;
        view_is = shown;
        shows = rw (← shown) (view-Shows s.format s.now d true);
      })

  inserted-IsShown :
      (d : NewDraft) (answer : Result (Option String))
      → IsBooking s w actor req d
      → (s.store.insert_draft w d).0 ≡ answer
      → inserted s ((s.store.insert_draft w d).1) actor req answer ≡ ok v
      → IsShown ((s.store.insert_draft w d).1)
  inserted-IsShown d (err e) booked given h = absurd (err_not_ok h)
  inserted-IsShown d (ok none) booked given h =
      let after = (s.store.insert_draft w d).1 in
      let found = s.store.draft_by_key after actor.tenant_id actor.connection_id req.key in
      let (stored, read, e) = >>=-eq-ok (wrap_err "find concurrent draft" found) _ h in
      reuse-IsShown after stored (wrap_err-eq-ok _ found read) e
  inserted-IsShown d (ok (some id)) booked given h =
      let found = s.store.draft ((s.store.insert_draft w d).1) actor.tenant_id id in
      let (stored, read, e) = >>=-eq-ok (wrap_err "read created draft" found) _ h in
      inr (record {
        req = req;
        parsed = parsed;
        planned = d;
        booked = booked;
        id = id;
        given = given;
        after_is = refl;
        draft = stored;
        stored = wrap_err-eq-ok _ found read;
        view_is = ok-injective e;
        shows = rw (← ok-injective e) (view-Shows s.format s.now stored false);
      })

  insert-IsShown :
      (planned : Result NewDraft)
      → plan s w actor req ≡ planned
      → (insert s w actor req planned).0 ≡ ok v
      → IsShown ((insert s w actor req planned).1)
  insert-IsShown (err e) planned h = absurd (err_not_ok h)
  insert-IsShown (ok d) planned h =
      inserted-IsShown d ((s.store.insert_draft w d).0) (plan-IsBooking s w actor req d planned)
        refl h

  create_from-IsShown :
      (found : Result (Option Draft))
      → found_by_key (s.store.draft_by_key w actor.tenant_id actor.connection_id req.key) ≡ found
      → (create_from s w actor req found).0 ≡ ok v
      → IsShown ((create_from s w actor req found).1)
  create_from-IsShown (err e) found h = absurd (err_not_ok h)
  create_from-IsShown (ok (some d)) found h = reuse-IsShown w d (found_by_key-eq-ok _ found) h
  create_from-IsShown (ok none) found h = insert-IsShown (plan s w actor req) refl h

create_parsed-IsShown :
    {W : Type 0} (s : Drafts W) (w : W) (actor : Actor) (x : CreateInput) (v : DraftView)
    (parsed : Result CreateRequest)
    → parse_create s.to_lower s.format.calendar.parse_rfc3339 x ≡ parsed
    → (create_parsed s w actor parsed).0 ≡ ok v
    → IsReused s actor x v ((create_parsed s w actor parsed).1)
      ⊎ IsNew s w actor x v ((create_parsed s w actor parsed).1)
create_parsed-IsShown s w actor x v (err e) parsed h = absurd (err_not_ok h)
create_parsed-IsShown s w actor x v (ok req) parsed h =
    create_from-IsShown s w actor x v req parsed
      (found_by_key (s.store.draft_by_key w actor.tenant_id actor.connection_id req.key)) refl h

pub create-IsShown :
    {W : Type 0} (s : Drafts W) (w : W) (actor : Actor) (x : CreateInput) (v : DraftView)
    → (create s w actor x).0 ≡ ok v
    → IsReused s actor x v ((create s w actor x).1) ⊎ IsNew s w actor x v ((create s w actor x).1)
unfolding create
create-IsShown s w actor x v h =
    create_parsed-IsShown s w actor x v (parse_create s.to_lower s.format.calendar.parse_rfc3339 x)
      refl h
