-- ===== src/Drafts/Service/Retry.antt =====
-- service.go: a call of Create that succeeded can be repeated.
use booknow_mcp_service.Base.{
  ℤ, String, Option, none, some, Bool, true, ◌&&◌, str_eq, eq_iff, eq_ℤ, Bool, ok-injective, false,
  ◌≡◌, refl, sym, ap, ◌∙◌, arith, Result, ok, err, wrap_err, wrap_err-eq-ok, >>=-eq-ok,
}
use booknow_mcp_service.Business.Types.{Time}
use booknow_mcp_service.Business.Service.{deref}
use booknow_mcp_service.Drafts.Types.{Actor, NewDraft, Draft, CreateInput, DraftView, DraftStore}
use booknow_mcp_service.Drafts.Parse.{CreateRequest, parse_create}
use booknow_mcp_service.Drafts.View.{Format, view}
use booknow_mcp_service.Drafts.Service.{
  Drafts, same_data, reuse, found_by_key, plan, inserted, insert, create_from, create_parsed,
  create,
}
use booknow_mcp_service.Drafts.Service.Laws.{IsBooking, plan-IsBooking}
use booknow_mcp_service.Drafts.Service.Creation.{err_not_ok, create-retry}
use booknow_mcp_service.Drafts.Service.Answers.{view-Shows, reuse-eq-ok, found_by_key-eq-ok}

-- A stored draft has the data that were inserted.
pub record HasData (d : NewDraft) (x : Draft) : Type 0 where
  pub customer_is : x.customer_id ≡ d.customer_id
  pub service_is : x.service_id ≡ d.service_id
  pub branch_is : x.branch_id ≡ d.branch_id
  pub variant_is : x.variant_id ≡ d.variant_id
  pub specialist_is : x.specialist_id ≡ d.specialist_id
  pub notes_are : x.customer_notes ≡ d.customer_notes
  pub start_is : x.scheduled_at.at ≡ d.scheduled_at.at

-- What the database keeps: after an insert that gives an id, a draft that is read by the id has the
-- inserted data, and the connection's key finds it.
pub record KeepsInserts {W : Type 0} (store : DraftStore W) : Type 0 where
  pub kept :
      (w : W) (d : NewDraft) (id : String) (x : Draft)
      → (store.insert_draft w d).0 ≡ ok (some id)
      → store.draft ((store.insert_draft w d).1) d.tenant_id id ≡ ok x
      → (store.draft_by_key
            ((store.insert_draft w d).1)
            d.tenant_id
            d.connection_id
            d.idempotency_key
          ≡ ok x)
        × HasData d x

same_instant : (a : ℤ) → eq_ℤ a a ≡ true
same_instant a = ground arith

all_same :
    (a b c d e f g : Bool)
    → a ≡ true
    → b ≡ true
    → c ≡ true
    → d ≡ true
    → e ≡ true
    → f ≡ true
    → g ≡ true
    → (a && (b && (c && (d && (e && (f && g)))))) ≡ true
all_same a b c d e f g p q r s t u v = ground arith

same_text : {a b : String} → a ≡ b → str_eq a b ≡ true
same_text {a} {b} e = (eq_iff a b).1 e

-- A draft with the data of a request's insert is one with the data of the request.
HasData-same_data :
    {W : Type 0} (s : Drafts W) (w : W) (actor : Actor) (req : CreateRequest) (d : NewDraft)
    (x : Draft)
    → IsBooking s w actor req d
    → HasData d x
    → same_data x req ≡ true
HasData-same_data s w actor req d x booked stored =
    let is = booked.draft_is in
    all_same _ _ _ _ _ _ _ (same_text (stored.customer_is ∙ ap (λ n. n.customer_id) (sym is)))
      (same_text (stored.service_is ∙ ap (λ n. n.service_id) (sym is)))
      (same_text (stored.branch_is ∙ ap (λ n. n.branch_id) (sym is)))
      (same_text (ap deref (stored.variant_is ∙ ap (λ n. n.variant_id) (sym is))))
      (same_text (ap deref (stored.specialist_is ∙ ap (λ n. n.specialist_id) (sym is))))
      (same_text (ap deref (stored.notes_are ∙ ap (λ n. n.customer_notes) (sym is))))
      (ap (λ t. eq_ℤ t req.scheduled_at.at)
          (stored.start_is ∙ ap (λ (n : NewDraft). n.scheduled_at.at) (sym is))
        ∙ same_instant req.scheduled_at.at)

-- The draft that answers the key of a request, with the data of the request, is the one that was shown.
abbrev pub IsStored : {W : Type 0} → Drafts W → Actor → CreateRequest → DraftView → W → Type 0
IsStored s actor req v w =
    (x : Draft) × (s.store.draft_by_key w actor.tenant_id actor.connection_id req.key ≡ ok x)
    × (same_data x req ≡ true)
    × (v.draft_id ≡ x.id)

shown_id :
    (f : Format) (now : Time) (x : Draft) (reused : Bool) (v : DraftView)
    → view f now x reused ≡ v
    → v.draft_id ≡ x.id
shown_id f now x reused v is =
    ap (λ (u : DraftView). u.draft_id) (sym is) ∙ (view-Shows f now x reused).same_id

module _ {W : Type 0} (s : Drafts W) (actor : Actor) (v : DraftView)
    (keeps : KeepsInserts s.store) where
  inserted-IsStored :
      (w : W) (req : CreateRequest) (d : NewDraft) (answer : Result (Option String))
      → IsBooking s w actor req d
      → (s.store.insert_draft w d).0 ≡ answer
      → inserted s ((s.store.insert_draft w d).1) actor req answer ≡ ok v
      → IsStored s actor req v ((s.store.insert_draft w d).1)
  inserted-IsStored w req d (err e) booked is h = absurd (err_not_ok h)
  inserted-IsStored w req d (ok none) booked is h =
      let after = (s.store.insert_draft w d).1 in
      let (x, read, rest) =
        >>=-eq-ok
          (wrap_err "find concurrent draft"
            (s.store.draft_by_key after actor.tenant_id actor.connection_id req.key))
          _ h in
      let (same, shown) = reuse-eq-ok s v x req rest in
      (
        x,
        wrap_err-eq-ok "find concurrent draft" _ read,
        same,
        shown_id s.format s.now x true v shown,
      )
  inserted-IsStored w req d (ok (some id)) booked is h =
      let after = (s.store.insert_draft w d).1 in
      let (x, read, rest) =
        >>=-eq-ok (wrap_err "read created draft" (s.store.draft after actor.tenant_id id)) _ h in
      let (found, same) = keeps.kept w d id x is (
        sym (ap (λ (n : NewDraft). s.store.draft after n.tenant_id id) booked.draft_is)
        ∙ wrap_err-eq-ok "read created draft" _ read) in
      (
        x,
        ap (λ n. s.store.draft_by_key after n.tenant_id n.connection_id n.idempotency_key)
              booked.draft_is
            ∙ found,
        HasData-same_data s w actor req d x booked same,
        shown_id s.format s.now x false v (ok-injective rest),
      )

  insert-IsStored :
      (w : W) (req : CreateRequest) (planned : Result NewDraft)
      → plan s w actor req ≡ planned
      → (insert s w actor req planned).0 ≡ ok v
      → IsStored s actor req v ((insert s w actor req planned).1)
  insert-IsStored w req (err e) e1 h = absurd (err_not_ok h)
  insert-IsStored w req (ok d) e1 h =
      inserted-IsStored w req d ((s.store.insert_draft w d).0) (plan-IsBooking s w actor req d e1)
        refl h

  create_from-IsStored :
      (w : W) (req : CreateRequest) (found : Result (Option Draft))
      → found_by_key (s.store.draft_by_key w actor.tenant_id actor.connection_id req.key) ≡ found
      → (create_from s w actor req found).0 ≡ ok v
      → IsStored s actor req v ((create_from s w actor req found).1)
  create_from-IsStored w req (err e) e1 h = absurd (err_not_ok h)
  create_from-IsStored w req (ok (some d)) e1 h =
      let (same, shown) = reuse-eq-ok s v d req h in
      (d, found_by_key-eq-ok _ e1, same, shown_id s.format s.now d true v shown)
  create_from-IsStored w req (ok none) e1 h = insert-IsStored w req (plan s w actor req) refl h

  pub create_parsed-IsStored :
      (w : W) (parsed : Result CreateRequest)
      → (create_parsed s w actor parsed).0 ≡ ok v
      → (req : CreateRequest) × (parsed ≡ ok req)
        × IsStored s actor req v ((create_parsed s w actor parsed).1)
  create_parsed-IsStored w (err e) h = absurd (err_not_ok h)
  create_parsed-IsStored w (ok req) h = (
    req,
    refl,
    create_from-IsStored w req
        (found_by_key (s.store.draft_by_key w actor.tenant_id actor.connection_id req.key)) refl h,
  )

-- The same service at another time.
abbrev pub at_time : {W : Type 0} → Drafts W → Time → Drafts W
at_time s later = record s { now = later }

pub reuse-same :
    {W : Type 0} (s : Drafts W) (x : Draft) (req : CreateRequest)
    → same_data x req ≡ true
    → reuse s x req ≡ ok (view s.format s.now x true)
unfolding reuse
reuse-same s x req same = rw same refl

-- Where the database keeps what it inserts, a call of Create that succeeded can be repeated at any later
-- time: the repetition succeeds, changes nothing, and answers the draft that the database holds for the
-- key of the request, which has the data of the request, marked as reused.
pub create-create :
    {W : Type 0} (s : Drafts W) (w : W) (actor : Actor) (x : CreateInput) (v : DraftView)
    (later : Time)
    → KeepsInserts s.store
    → (create s w actor x).0 ≡ ok v
    → (req : CreateRequest) × (d : Draft) × (s.store.draft_by_key
          ((create s w actor x).1)
          actor.tenant_id
          actor.connection_id
          req.key
        ≡ ok d)
      × (same_data d req ≡ true)
      × (create (at_time s later) ((create s w actor x).1) actor x
          ≡ (ok (view s.format later d true), (create s w actor x).1))
unfolding create
create-create s w actor x v later keeps h =
    let (req, parsed, (d, found, same, shown)) =
      create_parsed-IsStored s actor v keeps w
        (parse_create s.to_lower s.format.calendar.parse_rfc3339 x) h in
    (
      req,
      d,
      found,
      same,
      create-retry (at_time s later) ((create s w actor x).1) actor x req d parsed found
          ∙ ap (λ r. (r, (create s w actor x).1)) (reuse-same (at_time s later) d req same),
    )
