-- ===== src/Drafts/Service/Approval.antt =====
-- service.go: a draft that was created can be confirmed.
use booknow_mcp_service.Base.{
  ◌>>=◌, Option, leb, rune_count, String, Bool, true, false, ◌&&◌, str_eq, eq_iff, ◌⊎◌, inl, inr,
  ◌≡◌, refl, sym, ap, ◌∙◌, arith, some, Result, ok, guard, >>=-eq-ok, ok-injective, trim_space,
}
use booknow_mcp_service.Business.Types.{Time}
use booknow_mcp_service.Business.Checks.{is_uuid}
use booknow_mcp_service.Drafts.Types.{
  Actor, NewDraft, Draft, CreateInput, ConfirmInput, ConfirmResult, DraftView, DraftStore,
}
use booknow_mcp_service.Drafts.Parse.{
  CreateRequest, parse_key, parse_uuid, optional_id, parse_time, max_notes_runes, parse_create,
}
use booknow_mcp_service.Drafts.View.{status, view}
use booknow_mcp_service.Drafts.Service.{Drafts, create}
use booknow_mcp_service.Drafts.Service.Confirm.{confirmable, pending, confirm_pending, confirm}
use booknow_mcp_service.Drafts.Service.Creation.{create-writes}
use booknow_mcp_service.Drafts.Service.Answers.{IsReused, IsNew, create-IsShown}

-- What the lookups of a store promise in the states that it keeps to: a draft has the id, or the
-- connection and the key, by which it was found, an id is a canonical UUID that finds its draft, and an
-- inserted draft belongs to the connection and has the key that were inserted.
pub record FindsDrafts {W : Type 0} (to_lower : String → String) (store : DraftStore W)
    (IsKept : W → Type 0) : Type 0 where
  pub insert_keeps : (w : W) (n : NewDraft) → IsKept w → IsKept ((store.insert_draft w n).1)
  pub same_id :
      (w : W) (tenant_id id : String) (d : Draft)
      → IsKept w
      → store.draft w tenant_id id ≡ ok d
      → (d.id ≡ id) × (to_lower (trim_space d.id) ≡ d.id) × (is_uuid d.id ≡ true)
  pub same_key :
      (w : W) (tenant_id connection_id key : String) (d : Draft)
      → IsKept w
      → store.draft_by_key w tenant_id connection_id key ≡ ok d
      → (d.connection_id ≡ connection_id)
        × (d.idempotency_key ≡ key)
        × (store.draft w tenant_id d.id ≡ ok d)
  pub same_insert :
      (w : W) (n : NewDraft) (id : String) (d : Draft)
      → (store.insert_draft w n).0 ≡ ok (some id)
      → store.draft ((store.insert_draft w n).1) n.tenant_id id ≡ ok d
      → (d.connection_id ≡ n.connection_id) × (d.idempotency_key ≡ n.idempotency_key)

-- The key of a request is the parsed one of its input.
parse_create-key :
    (to_lower : String → String) (parse : String → Option Time) (x : CreateInput)
    (req : CreateRequest)
    → parse_create to_lower parse x ≡ ok req
    → parse_key x.idempotency_key ≡ ok req.key
unfolding parse_create
parse_create-key to_lower parse x req h =
    let (key, keyed, e0) = >>=-eq-ok (parse_key x.idempotency_key) _ h in
    let (customer, p1, e1) =
      >>=-eq-ok (parse_uuid to_lower parse "customerId" x.customer_id) _ e0 in
    let (service, p2, e2) = >>=-eq-ok (parse_uuid to_lower parse "serviceId" x.service_id) _ e1 in
    let (branch, p3, e3) = >>=-eq-ok (parse_uuid to_lower parse "branchId" x.branch_id) _ e2 in
    let (variant, p4, e4) =
      >>=-eq-ok (optional_id to_lower parse "serviceVariantId" x.service_variant_id) _ e3 in
    let (specialist, p5, e5) =
      >>=-eq-ok (optional_id to_lower parse "specialistId" x.specialist_id) _ e4 in
    let (start, p6, e6) =
      >>=-eq-ok (parse_time to_lower parse (parse (trim_space x.scheduled_at))) _ e5 in
    let (short, p7, e7) =
      >>=-eq-ok (guard (leb (rune_count (trim_space x.customer_notes)) max_notes_runes) _) _ e6 in
    keyed ∙ ap ok (ap (λ (r : CreateRequest). r.key) (ok-injective e7))

own_draft : (a b c e : String) → a ≡ b → c ≡ e → (str_eq a b && str_eq c e) ≡ true
own_draft a b c e p q = ground (arith, eq_iff a b, eq_iff c e)

-- A draft that the actor may confirm, as far as it is the actor's: of the actor's tenant and
-- connection, and with the id and the key of the approval.
pub record IsOwn {W : Type 0} (s : Drafts W) (w : W) (actor : Actor) (x : ConfirmInput)
    (draft_id : String) (d : Draft) : Type 0 where
  pub id_is : s.to_lower (trim_space x.draft_id) ≡ draft_id
  pub id_valid : is_uuid draft_id ≡ true
  pub stored : s.store.draft w actor.tenant_id draft_id ≡ ok d
  pub own_connection : d.connection_id ≡ actor.connection_id
  pub own_key : parse_key x.idempotency_key ≡ ok d.idempotency_key

-- What Confirm makes of a draft that is the actor's: its status decides.
abbrev pub confirm_own :
    {W : Type 0} → Drafts W → W → Actor → String → Draft → Result ConfirmResult × W
confirm_own s w actor draft_id d =
    confirm_pending s w actor (confirmable (status s.now d) >>= λ u. ok (draft_id, d))

pub IsOwn-confirm :
    {W : Type 0} (s : Drafts W) (w : W) (actor : Actor) (x : ConfirmInput) (draft_id : String)
    (d : Draft)
    → IsOwn s w actor x draft_id d
    → confirm s w actor x ≡ confirm_own s w actor draft_id d
unfolding confirm pending
IsOwn-confirm s w actor x draft_id d p =
    rw (p.id_is, p.id_valid, p.own_key, p.stored)
      (rw
        (own_draft d.connection_id actor.connection_id d.idempotency_key d.idempotency_key
          p.own_connection refl)
        refl)

-- The approval of a draft, with the id that was shown and the key of its creation.
abbrev pub approve : DraftView → CreateInput → ConfirmInput
approve v x = record { draft_id = v.draft_id; idempotency_key = x.idempotency_key }

view-draft_id :
    {W : Type 0} (s : Drafts W) (d : Draft) (reused : Bool) (v : DraftView)
    → view s.format s.now d reused ≡ v
    → d.id ≡ v.draft_id
unfolding view
view-draft_id s d reused v e = ap (λ (u : DraftView). u.draft_id) e

module _ {W : Type 0} (s : Drafts W) (w : W) (actor : Actor) (x : CreateInput) (v : DraftView)
    (IsKept : W → Type 0) (finds : FindsDrafts s.to_lower s.store IsKept) where
  -- A draft with the id that is shown, of the actor's connection and with the key of the input.
  shown-IsOwn :
      (after : W) (d : Draft)
      → IsKept after
      → d.id ≡ v.draft_id
      → s.store.draft after actor.tenant_id d.id ≡ ok d
      → d.connection_id ≡ actor.connection_id
      → parse_key x.idempotency_key ≡ ok d.idempotency_key
      → IsOwn s after actor (approve v x) v.draft_id d
  shown-IsOwn after d is_kept shown found connection key =
      let (same, canonical, valid) = finds.same_id after actor.tenant_id d.id d is_kept found in
      rw (← shown) (record {
        id_is = canonical;
        id_valid = valid;
        stored = found;
        own_connection = connection;
        own_key = key;
      })

  IsReused-IsOwn :
      (after : W) (r : IsReused s actor x v after)
      → IsKept after
      → IsOwn s after actor (approve v x) v.draft_id r.draft
  IsReused-IsOwn after r is_kept =
      let (connection, key, found) =
        finds.same_key after actor.tenant_id actor.connection_id r.req.key r.draft is_kept
          r.stored in
      shown-IsOwn after r.draft is_kept (view-draft_id s r.draft true v r.view_is) found connection
        (parse_create-key s.to_lower s.format.calendar.parse_rfc3339 x r.req r.parsed
          ∙ ap ok (sym key))

  IsNew-IsOwn :
      (after : W) (r : IsNew s w actor x v after)
      → IsKept after
      → IsOwn s after actor (approve v x) v.draft_id r.draft
  IsNew-IsOwn after r is_kept =
      let is = r.booked.draft_is in
      let (same, canonical, valid) =
        finds.same_id after actor.tenant_id r.id r.draft is_kept r.stored in
      let (connection, key) = finds.same_insert w r.planned r.id r.draft r.given (
        ap (λ u. s.store.draft u r.planned.tenant_id r.id) r.after_is
        ∙ ap (λ (n : NewDraft). s.store.draft after n.tenant_id r.id) (sym is)
        ∙ r.stored) in
      shown-IsOwn after r.draft is_kept (view-draft_id s r.draft false v r.view_is)
        (ap (λ id. s.store.draft after actor.tenant_id id) same ∙ r.stored)
        (connection ∙ ap (λ (n : NewDraft). n.connection_id) (sym is))
        (parse_create-key s.to_lower s.format.calendar.parse_rfc3339 x r.req r.parsed
          ∙ ap ok (ap (λ (n : NewDraft). n.idempotency_key) is ∙ sym key))

  shown_draft :
      (after : W)
      → IsKept after
      → IsReused s actor x v after ⊎ IsNew s w actor x v after
      → (d : Draft) × IsOwn s after actor (approve v x) v.draft_id d
  shown_draft after is_kept (inl r) = (r.draft, IsReused-IsOwn after r is_kept)
  shown_draft after is_kept (inr r) = (r.draft, IsNew-IsOwn after r is_kept)

-- Create keeps to the states that inserts keep to.
pub create-IsKept :
    {W : Type 0} (s : Drafts W) (w : W) (actor : Actor) (x : CreateInput) (IsKept : W → Type 0)
    → FindsDrafts s.to_lower s.store IsKept
    → IsKept w
    → IsKept ((create s w actor x).1)
create-IsKept s w actor x IsKept finds is_kept = elim (create-writes s w actor x) [
  | inl same ↦ rw same is_kept
  | inr r ↦ rw (← r.after_is) (finds.insert_keeps w r.draft is_kept)
]

-- The service at a later call: the clock has moved on, and so may the database's answers.
abbrev pub at_call : {W : Type 0} → Drafts W → DraftStore W → Time → Drafts W
at_call s second later = record s { store = second; now = later }

IsOwn-later :
    {W : Type 0} (s : Drafts W) (second : DraftStore W) (w : W) (actor : Actor) (x : ConfirmInput)
    (draft_id : String) (d : Draft) (later : Time)
    → second.draft ≡ s.store.draft
    → IsOwn s w actor x draft_id d
    → IsOwn (at_call s second later) w actor x draft_id d
IsOwn-later {W} s second w actor x draft_id d later same p = record {
  id_is = p.id_is;
  id_valid = p.id_valid;
  stored =
      ap (λ (look : W → String → String → Result Draft). look w actor.tenant_id draft_id) same
      ∙ p.stored;
  own_connection = p.own_connection;
  own_key = p.own_key;
}

-- What Create answers can be approved: where the lookups find drafts by what they are asked for, the
-- id that was shown and the key of the input find, at any later time, the draft of the actor's own
-- connection, and Confirm then checks its status and nothing else before the store confirms it.
pub create-confirm :
    {W : Type 0} (s : Drafts W) (second : DraftStore W) (w : W) (actor : Actor) (x : CreateInput)
    (v : DraftView) (later : Time) (IsKept : W → Type 0)
    → FindsDrafts s.to_lower s.store IsKept
    → second.draft ≡ s.store.draft
    → IsKept w
    → (create s w actor x).0 ≡ ok v
    → (d : Draft) × (s.store.draft ((create s w actor x).1) actor.tenant_id v.draft_id ≡ ok d)
      × (d.connection_id ≡ actor.connection_id)
      × (confirm (at_call s second later) ((create s w actor x).1) actor (approve v x)
          ≡ confirm_own (at_call s second later) ((create s w actor x).1) actor v.draft_id d)
create-confirm {W} s second w actor x v later IsKept finds same is_kept h =
    let after = (create s w actor x).1 in
    let (d, own) =
      shown_draft s w actor x v IsKept finds after (create-IsKept s w actor x IsKept finds is_kept)
        (create-IsShown s w actor x v h) in
    (
      d,
      own.stored,
      own.own_connection,
      IsOwn-confirm (at_call s second later) after actor (approve v x) v.draft_id d
          (IsOwn-later s second after actor (approve v x) v.draft_id d later same own),
    )
