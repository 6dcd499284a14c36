-- ===== src/Drafts/Service/Confirming.antt =====
-- service.go: what Confirm writes.
use booknow_mcp_service.Base.{
  ◌≤ℤ◌, ◌<ℤ◌, String, Bool, true, false, not, ◌&&◌, if◌then◌else◌, str_eq, eq_iff, ◌⊎◌, inl, inr,
  ◌≡◌, refl, ap, ◌↔◌, arith, not_found, conflict, forbidden, draft_not_found, unauthorized,
  invalid_status, draft_expired, specialist_unavailable, DraftFault, fault, Kind, Err, business,
  Result, ok, err, guard, guard-eq-ok, >>=-eq-ok, ok-injective, trim_space,
}
use booknow_mcp_service.Business.Types.{Time}
use booknow_mcp_service.Business.Checks.{is_uuid, is_kind}
use booknow_mcp_service.Business.Dates.{before}
use booknow_mcp_service.Drafts.Types.{Actor, Draft, ConfirmInput, is_fault, same_fault}
use booknow_mcp_service.Drafts.Parse.{parse_key}
use booknow_mcp_service.Drafts.View.{status, status_draft, status_expired}
use booknow_mcp_service.Drafts.Service.{Drafts}
use booknow_mcp_service.Drafts.Service.Confirm.{
  no_draft, confirm_error, stored_draft, confirmable, pending, confirm_pending, confirm,
}

-- A draft is reported expired exactly when it is stored as expired, or is still a draft and its expiry
-- is not after the present.
pub status-expired_iff :
    (now : Time) (d : Draft)
    → (status now d ≡ "expired")
      ↔ ((d.status ≡ "expired") ⊎ (d.status ≡ "draft") × (d.expires_at.at ≤ℤ now.at))
unfolding status
status-expired_iff now d = ground (arith, eq_iff d.status "draft")

-- The status under which a draft may be confirmed.
abbrev pub IsOpen : Time → Draft → Type 0
IsOpen now d = (d.status ≡ "confirmed") ⊎ (d.status ≡ "draft") × (now.at <ℤ d.expires_at.at)

confirmable-eq-ok :
    (st : String) {u : Unit {0}} → confirmable st ≡ ok u → (st ≡ "draft") ⊎ (st ≡ "confirmed")
confirmable-eq-ok st h = ground (arith, eq_iff st "draft", eq_iff st "confirmed")

early_lt : (now : Time) (d : Draft) → before now d.expires_at ≡ true → now.at <ℤ d.expires_at.at
early_lt now d h = ground arith

false_not_true : false ≡ true → ⊥
false_not_true h = cc

expired_not : (status_expired ≡ "draft") ⊎ (status_expired ≡ "confirmed") → ⊥
expired_not (inl h) = false_not_true ((eq_iff status_expired "draft").1 h)
expired_not (inr h) = false_not_true ((eq_iff status_expired "confirmed").1 h)

late_not :
    (t : String) (q : Bool)
    → ((if q && true then status_expired else t) ≡ "draft")
      ⊎ ((if q && true then status_expired else t) ≡ "confirmed")
    → (q ≡ false) × ((t ≡ "draft") ⊎ (t ≡ "confirmed"))
late_not t true h = absurd (expired_not h)
late_not t false h = (refl, h)

open_if :
    (t : String) (early : Bool)
    → ((if str_eq t status_draft && not early then status_expired else t) ≡ "draft")
      ⊎ ((if str_eq t status_draft && not early then status_expired else t) ≡ "confirmed")
    → (t ≡ "confirmed") ⊎ (t ≡ "draft") × (early ≡ true)
open_if t true h = ground (arith, eq_iff t "draft")
open_if t false h = ground (arith, eq_iff t "draft", late_not t (str_eq t "draft") h)

status-IsOpen :
    (now : Time) (d : Draft)
    → (status now d ≡ "draft") ⊎ (status now d ≡ "confirmed")
    → IsOpen now d
unfolding status
status-IsOpen now d h = ground (arith, open_if d.status (before now d.expires_at) h, early_lt now d)

stored_draft-eq-ok : (m : Result Draft) {d : Draft} → stored_draft m ≡ ok d → m ≡ ok d
stored_draft-eq-ok (ok a) h = h
stored_draft-eq-ok (err e) h = ground arith

-- What Confirm has established before it confirms.
pub record IsPending {W : Type 0} (s : Drafts W) (w : W) (actor : Actor) (x : ConfirmInput)
    (draft_id : String) (d : Draft) : Type 0 where
  pub id_is : s.to_lower (trim_space x.draft_id) ≡ draft_id
  pub id_valid : is_uuid draft_id ≡ true
  pub stored : s.store.draft w actor.tenant_id draft_id ≡ ok d
  pub own_connection : d.connection_id ≡ actor.connection_id
  pub own_key : parse_key x.idempotency_key ≡ ok d.idempotency_key
  pub is_open : IsOpen s.now d

both_iff : (a b c e : String) → (str_eq a b && str_eq c e) ≡ true → (a ≡ b) × (c ≡ e)
both_iff a b c e h = ground (arith, eq_iff a b, eq_iff c e)

pub pending-IsPending :
    {W : Type 0} (s : Drafts W) (w : W) (actor : Actor) (x : ConfirmInput) (draft_id : String)
    (d : Draft)
    → pending s w actor x ≡ ok (draft_id, d)
    → IsPending s w actor x draft_id d
unfolding pending
pending-IsPending s w actor x draft_id d e =
    let id = s.to_lower (trim_space x.draft_id) in
    let (t, valid, e1) = >>=-eq-ok (guard (is_uuid id) _) _ e in
    let (key, keyed, e2) = >>=-eq-ok (parse_key x.idempotency_key) _ e1 in
    let (c, stored, e3) = >>=-eq-ok (stored_draft (s.store.draft w actor.tenant_id id)) _ e2 in
    let (u, owned, e4) =
      >>=-eq-ok
        (guard (str_eq c.connection_id actor.connection_id && str_eq c.idempotency_key key)
          no_draft)
        _ e3 in
    let (v, opened, e5) = >>=-eq-ok (confirmable (status s.now c)) _ e4 in
    let both = ok-injective e5 in
    let same_id : id ≡ draft_id = ap (λ p. p.0) both in
    let same : c ≡ d = ap (λ p. p.1) both in
    let (connection, key_is) =
      both_iff c.connection_id actor.connection_id c.idempotency_key key (guard-eq-ok _ _ owned) in
    rw (← same_id, ← same)
      (record {
        id_is = refl;
        id_valid = guard-eq-ok (is_uuid id) _ valid;
        stored = stored_draft-eq-ok (s.store.draft w actor.tenant_id id) stored;
        own_connection = connection;
        own_key = rw key_is keyed;
        is_open = status-IsOpen s.now c (confirmable-eq-ok (status s.now c) opened);
      })

-- A state of the database after a confirmation.
pub record IsConfirmation {W : Type 0} (s : Drafts W) (w : W) (actor : Actor) (x : ConfirmInput)
    (after : W) : Type 0 where
  pub draft_id : String
  pub draft : Draft
  pub was_pending : IsPending s w actor x draft_id draft
  pub after_is : (s.store.confirm w draft_id actor.user_id).1 ≡ after

confirm_pending-writes :
    {W : Type 0} (s : Drafts W) (w : W) (actor : Actor) (x : ConfirmInput)
    (found : Result (String × Draft))
    → pending s w actor x ≡ found
    → ((confirm_pending s w actor found).1 ≡ w)
      ⊎ IsConfirmation s w actor x ((confirm_pending s w actor found).1)
confirm_pending-writes s w actor x (err e) found = inl refl
confirm_pending-writes s w actor x (ok (draft_id, d)) found = inr (record {
  draft_id = draft_id;
  draft = d;
  was_pending = pending-IsPending s w actor x draft_id d found;
  after_is = refl;
})

-- Confirm changes the database by one confirmation at most, and confirms only a draft of the actor's
-- tenant that the actor's own connection made with the key that is given, and that is confirmed
-- already or is a draft that has not expired.
pub confirm-writes :
    {W : Type 0} (s : Drafts W) (w : W) (actor : Actor) (x : ConfirmInput)
    → ((confirm s w actor x).1 ≡ w) ⊎ IsConfirmation s w actor x ((confirm s w actor x).1)
unfolding confirm
confirm-writes s w actor x = confirm_pending-writes s w actor x (pending s w actor x) refl

-- The kind of error that a client sees for each fault of a confirmation.
abbrev pub kind_of : DraftFault → Kind
kind_of draft_not_found = not_found
kind_of unauthorized = forbidden
kind_of invalid_status = conflict
kind_of draft_expired = conflict
kind_of specialist_unavailable = conflict

same_fault-eq : (f g : DraftFault) → same_fault g f ≡ true → g ≡ f
same_fault-eq f g h = ground arith

-- An error has one fault at the end of its chain.
is_fault-other :
    (f g : DraftFault) (e : Err)
    → is_fault f e ≡ true
    → same_fault f g ≡ false
    → is_fault g e ≡ false
unfolding is_fault
is_fault-other f g (fault k) h e = rw (same_fault-eq f k h) e
is_fault-other f g (Err.wrapped text m) h e = is_fault-other f g m h e
is_fault-other f g (business k m) h e = refl
is_fault-other f g (Err.sentinel k) h e = refl
is_fault-other f g (Err.other text) h e = refl

-- Every fault of a confirmation, however it is wrapped, reaches the client as an error of its kind:
-- not found, forbidden, or a conflict.
pub confirm_error-kind_of :
    (f : DraftFault) (e : Err) → is_fault f e ≡ true → is_kind (kind_of f) (confirm_error e) ≡ true
unfolding confirm_error is_kind
confirm_error-kind_of draft_not_found e h = rw h refl
confirm_error-kind_of unauthorized e h =
    rw (is_fault-other unauthorized draft_not_found e h refl, h) refl
confirm_error-kind_of draft_expired e h =
    rw
      (
        is_fault-other draft_expired draft_not_found e h refl,
        is_fault-other draft_expired unauthorized e h refl,
        h,
      )
      refl
confirm_error-kind_of invalid_status e h =
    rw
      (
        is_fault-other invalid_status draft_not_found e h refl,
        is_fault-other invalid_status unauthorized e h refl,
        is_fault-other invalid_status draft_expired e h refl,
        h,
      )
      refl
confirm_error-kind_of specialist_unavailable e h =
    rw
      (
        is_fault-other specialist_unavailable draft_not_found e h refl,
        is_fault-other specialist_unavailable unauthorized e h refl,
        is_fault-other specialist_unavailable draft_expired e h refl,
        is_fault-other specialist_unavailable invalid_status e h refl,
        h,
      )
      refl
