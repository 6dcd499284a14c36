-- ===== src/Drafts/Service/Creation.antt =====
-- service.go: what Create writes and answers.
use booknow_mcp_service.Base.{Option, none, some, ◌⊎◌, inl, inr, ◌≡◌, refl, Err, Result, ok, err}
use booknow_mcp_service.Drafts.Types.{Actor, NewDraft, Draft, CreateInput, DraftView}
use booknow_mcp_service.Drafts.Parse.{CreateRequest, parse_create}
use booknow_mcp_service.Drafts.Service.{
  Drafts, reuse, found_by_key, plan, insert, create_from, create_parsed, create,
}
use booknow_mcp_service.Drafts.Service.Laws.{IsBooking, plan-IsBooking}

pub err_not_ok {ℓ} : {A : Type ℓ} {e : Err} {a : A} → err e ≡ ok a → ⊥
err_not_ok h = cc

-- A retry: a call whose key the connection has used leaves the store as it is, checks no slot and
-- reads no customer or variant; it answers the stored draft as reused where the data is the same,
-- and a conflict otherwise.
pub create-retry :
    {W : Type 0} (s : Drafts W) (w : W) (actor : Actor) (x : CreateInput) (req : CreateRequest)
    (d : Draft)
    → parse_create s.to_lower s.format.calendar.parse_rfc3339 x ≡ ok req
    → s.store.draft_by_key w actor.tenant_id actor.connection_id req.key ≡ ok d
    → create s w actor x ≡ (reuse s d req, w)
unfolding create
create-retry s w actor x req d parsed found = rw (parsed, found) refl

-- A state of the database after an insert of Create: the request was parsed, the connection had not
-- used its key, and the inserted draft books an available slot for an active customer.
pub record IsInsert {W : Type 0} (s : Drafts W) (w : W) (actor : Actor) (x : CreateInput)
    (after : W) : Type 0 where
  pub req : CreateRequest
  pub parsed : parse_create s.to_lower s.format.calendar.parse_rfc3339 x ≡ ok req
  pub unused :
      found_by_key (s.store.draft_by_key w actor.tenant_id actor.connection_id req.key) ≡ ok none
  pub draft : NewDraft
  pub booked : IsBooking s w actor req draft
  pub after_is : (s.store.insert_draft w draft).1 ≡ after

module _ {W : Type 0} (s : Drafts W) (w : W) (actor : Actor) (x : CreateInput) where
  abbrev Writes : Result DraftView × W → Type 0
  Writes r = (r.1 ≡ w) ⊎ IsInsert s w actor x (r.1)

  insert-Writes :
      (req : CreateRequest) (planned : Result NewDraft)
      → parse_create s.to_lower s.format.calendar.parse_rfc3339 x ≡ ok req
      → found_by_key (s.store.draft_by_key w actor.tenant_id actor.connection_id req.key) ≡ ok none
      → plan s w actor req ≡ planned
      → Writes (insert s w actor req planned)
  insert-Writes req (err e) parsed unused planned = inl refl
  insert-Writes req (ok d) parsed unused planned = inr (record {
    req = req;
    parsed = parsed;
    unused = unused;
    draft = d;
    booked = plan-IsBooking s w actor req d planned;
    after_is = refl;
  })

  create_from-Writes :
      (req : CreateRequest) (found : Result (Option Draft))
      → parse_create s.to_lower s.format.calendar.parse_rfc3339 x ≡ ok req
      → found_by_key (s.store.draft_by_key w actor.tenant_id actor.connection_id req.key) ≡ found
      → Writes (create_from s w actor req found)
  create_from-Writes req (err e) parsed found = inl refl
  create_from-Writes req (ok (some d)) parsed found = inl refl
  create_from-Writes req (ok none) parsed found =
      insert-Writes req (plan s w actor req) parsed found refl

  create_parsed-Writes :
      (parsed : Result CreateRequest)
      → parse_create s.to_lower s.format.calendar.parse_rfc3339 x ≡ parsed
      → Writes (create_parsed s w actor parsed)
  create_parsed-Writes (err e) parsed = inl refl
  create_parsed-Writes (ok req) parsed =
      create_from-Writes req
        (found_by_key (s.store.draft_by_key w actor.tenant_id actor.connection_id req.key)) parsed
        refl

-- Create changes the database by one insert at most, and inserts only what was checked: the request
-- was parsed, the connection had not used the key, the customer and the variant are active ones that
-- the store returned for the tenant, and the slot is available, with a specialist where the service
-- requires one.
pub create-writes :
    {W : Type 0} (s : Drafts W) (w : W) (actor : Actor) (x : CreateInput)
    → ((create s w actor x).1 ≡ w) ⊎ IsInsert s w actor x ((create s w actor x).1)
unfolding create
create-writes s w actor x =
    create_parsed-Writes s w actor x (parse_create s.to_lower s.format.calendar.parse_rfc3339 x)
      refl
