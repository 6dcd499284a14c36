-- ===== src/Database/Calls.antt =====
-- The draft service over the database: Create and Confirm as the program runs them.
use booknow_mcp_service.Base.{
  String, List, [], ◌∷◌, true, ap, ◌≡◌, refl, sym, ◌∙◌, ◌⊎◌, inl, inr, Result, ok,
}
use booknow_mcp_service.Business.Types.{Time}
use booknow_mcp_service.Drafts.Types.{
  Actor, Draft, CreateInput, ConfirmInput, ConfirmResult, DraftView,
}
use booknow_mcp_service.Drafts.Service.{Drafts, create}
use booknow_mcp_service.Drafts.Service.Confirm.{confirm}
use booknow_mcp_service.Drafts.Service.Creation.{create-writes, create-retry}
use booknow_mcp_service.Drafts.Service.Confirming.{IsPending, confirm-writes}
use booknow_mcp_service.Drafts.Service.Approval.{approve, confirm_own, create-confirm}
use booknow_mcp_service.Drafts.Service.Reconfirm.{SameBooking, confirm-confirm}
use booknow_mcp_service.Postgres.Drafts.{Prefixes}
use booknow_mcp_service.Database.{Database, Surroundings}
use booknow_mcp_service.Database.Store.{store_of}
use booknow_mcp_service.Database.Booked.{IsBooking, Books-IsBooking}
use booknow_mcp_service.Database.Bookings.{
  Reach, confirm_mcp_appointment_draft-Books, Step, inserts, confirms, start, next,
  Reach-NoConflicts,
}
use booknow_mcp_service.Database.Conflicts.{NoConflicts}
use booknow_mcp_service.Database.Keys.{IsCanonical, IsKeyed}
use booknow_mcp_service.Database.Linked.{IsConsistent, Reach-IsConsistent}
use booknow_mcp_service.Database.Inserts.{store-KeepsInserts}
use booknow_mcp_service.Drafts.Service.Retry.{create_parsed-IsStored, reuse-same}
use booknow_mcp_service.Drafts.Service.Answers.{view-Shows}
use booknow_mcp_service.Drafts.View.{view}
use booknow_mcp_service.Drafts.Parse.{parse_create}
use booknow_mcp_service.Business.Types.Booking.{SlotCheckInput, SlotCheck}
use booknow_mcp_service.Database.Finds.{store-FindsDrafts}
use booknow_mcp_service.Database.Kept.{store-KeepsConfirmations}

-- A call of the draft service, with the service as it stands then: what the slots answer, and the
-- clock.
pub data Call : Type 0 where
  creating : Drafts Database → Actor → CreateInput → Call
  confirming : Drafts Database → Actor → ConfirmInput → Call

module _ (order : Prefixes) (o : Surroundings) where
  -- The service over the database, whose clock shows the time of the service.
  abbrev pub over : Drafts Database → Drafts Database
  over s = record s { store = store_of order o s.now }

  abbrev pub after_call : Call → Database → Database
  after_call (creating s actor x) db = (create (over s) db actor x).1
  after_call (confirming s actor x) db = (confirm (over s) db actor x).1

  unfoldable pub after_calls : List Call → Database → Database
  after_calls [] db = db
  after_calls (c ∷ calls) db = after_calls calls (after_call c db)

  -- A call is one statement that writes, or none.
  call-Step : (c : Call) (db : Database) → (after_call c db ≡ db) ⊎ Step o db (after_call c db)
  call-Step (creating s actor x) db = elim (create-writes (over s) db actor x) [
    | inl same ↦ inl same
    | inr r ↦ inr (inserts r.draft r.after_is)
  ]
  call-Step (confirming s actor x) db = elim (confirm-writes (over s) db actor x) [
    | inl same ↦ inl same
    | inr r ↦ inr (confirms s.now r.draft_id actor.user_id r.after_is)
  ]

  call-Reach :
      (first : Database) (c : Call) (db : Database)
      → Reach o first db
      → Reach o first (after_call c db)
  call-Reach first c db r = elim (call-Step c db) [ inl same ↦ rw same r | inr st ↦ next r st ]

  -- The calls are a sequence of statements.
  pub after_calls-Reach :
      (calls : List Call) (first db : Database)
      → Reach o first db
      → Reach o first (after_calls calls db)
  unfolding after_calls
  after_calls-Reach [] first db r = r
  after_calls-Reach (c ∷ calls) first db r =
      after_calls-Reach calls first (after_call c db) (call-Reach first c db r)

-- No specialist is ever booked twice by this service: whatever calls of Create and Confirm come, by
-- whoever, at whatever times and whatever the slots answer, no two appointments that take the time of
-- one specialist of a tenant share an instant, where none did before.
pub after_calls-NoConflicts :
    (order : Prefixes) (o : Surroundings) (calls : List Call) (db : Database)
    → NoConflicts db.appointments
    → NoConflicts (after_calls order o calls db).appointments
after_calls-NoConflicts order o calls db free =
    Reach-NoConflicts o db (after_calls order o calls db) free
      (after_calls-Reach order o calls db db start)

-- What is booked is what was approved: whatever calls of Create and Confirm come, in whatever order and
-- at whatever times, every confirmed draft has an appointment with its own tenant, branch, customer,
-- specialist, service, times and price, where that held before and gen_random_uuid gives canonical ids.
pub after_calls-IsConsistent :
    (order : Prefixes) (o : Surroundings) (to_lower : String → String) (calls : List Call)
    (db : Database)
    → ((w : Database) → IsCanonical to_lower (o.new_id w))
    → IsConsistent to_lower db
    → IsConsistent to_lower (after_calls order o calls db)
after_calls-IsConsistent order o to_lower calls db ids c =
    Reach-IsConsistent to_lower o db (after_calls order o calls db) ids c
      (after_calls-Reach order o calls db db start)

-- A confirmation that changed the database: of the actor's own draft, checked by the service, and
-- booked by the database.
pub record IsBooked (s : Drafts Database) (db : Database) (actor : Actor) (x : ConfirmInput)
    (after : Database) : Type 0 where
  pub draft_id : String
  pub draft : Draft
  pub pending : IsPending s db actor x draft_id draft
  pub books : IsBooking s.now db draft_id actor.user_id after

-- Confirm changes the database only by booking, once, a draft of the actor's own connection and key: as
-- long as the draft is pending and not expired, the actor is an active owner, admin or manager of its
-- tenant, and no appointment takes the time of its specialist. What changes is one new appointment with
-- one service, both with the data of the draft, and the draft, which is confirmed with its id.
pub confirm-IsBooked :
    (order : Prefixes) (o : Surroundings) (s : Drafts Database) (db : Database) (actor : Actor)
    (x : ConfirmInput)
    → ((confirm (over order o s) db actor x).1 ≡ db)
      ⊎ IsBooked (over order o s) db actor x ((confirm (over order o s) db actor x).1)
confirm-IsBooked order o s db actor x = elim (confirm-writes (over order o s) db actor x) [
  | inl same ↦ inl same
  | inr r ↦ elim (confirm_mcp_appointment_draft-Books o s.now db r.draft_id actor.user_id) [
    | inl same ↦ inl (sym r.after_is ∙ same)
    | inr books ↦ inr (record {
      draft_id = r.draft_id;
      draft = r.draft;
      pending = r.was_pending;
      books = rw (← r.after_is) (Books-IsBooking s.now db r.draft_id actor.user_id _ books);
    })
  ]
]

-- The service at another time.
abbrev pub moved_to : Drafts Database → Time → Drafts Database
moved_to s later = record s { now = later }

-- What Create answers can be approved: over the database, the id that was shown and the key of the
-- input find, at any later time, the draft of the actor's own connection, and Confirm then checks its
-- status and nothing else before the database confirms it.
pub create-IsConfirmable :
    (order : Prefixes) (o : Surroundings) (s : Drafts Database) (db : Database) (actor : Actor)
    (x : CreateInput) (v : DraftView) (later : Time)
    → ((w : Database) → IsCanonical s.to_lower (o.new_id w))
    → IsKeyed s.to_lower db.drafts
    → (create (over order o s) db actor x).0 ≡ ok v
    → (d : Draft) × (d.connection_id ≡ actor.connection_id)
      × (confirm
            (over order o (moved_to s later))
            ((create (over order o s) db actor x).1)
            actor
            (approve v x)
          ≡ confirm_own
              (over order o (moved_to s later))
              ((create (over order o s) db actor x).1)
              actor
              v.draft_id
              d)
create-IsConfirmable order o s db actor x v later ids keyed h =
    let (d, stored, own, answer) =
      create-confirm (over order o s) (store_of order o later) db actor x v later
        (λ w. IsKeyed s.to_lower w.drafts) (store-FindsDrafts s.to_lower order o s.now ids) refl
        keyed h in
    (d, own, answer)

-- A draft is made once: over the database, a call of Create that succeeded can be repeated at any later
-- time, whatever the slots are by then: the repetition succeeds, changes nothing, and answers the same
-- draft, marked as reused.
pub create-IsRepeatable :
    (order : Prefixes) (o : Surroundings) (s : Drafts Database) (db : Database) (actor : Actor)
    (x : CreateInput) (v : DraftView) (later : Time)
    (slots : String → SlotCheckInput → Result SlotCheck)
    → (create (over order o s) db actor x).0 ≡ ok v
    → (q : DraftView) × (create
          (over order o (record s { now = later; slots = slots }))
          ((create (over order o s) db actor x).1)
          actor
          x
        ≡ (ok q, (create (over order o s) db actor x).1))
      × (q.draft_id ≡ v.draft_id)
      × (q.reused ≡ true)
unfolding create
create-IsRepeatable order o s db actor x v later slots h =
    let service = over order o s in
    let again = over order o (record s { now = later; slots = slots }) in
    let after = (create service db actor x).1 in
    let (req, parsed, (d, found, same, shown)) =
      create_parsed-IsStored service actor v (store-KeepsInserts order o s.now) db
        (parse_create s.to_lower s.format.calendar.parse_rfc3339 x) h in
    let shows = view-Shows s.format later d true in
    (
      view s.format later d true,
      create-retry again after actor x req d parsed found
          ∙ ap (λ r. (r, after)) (reuse-same again d req same),
      shows.same_id ∙ sym shown,
      shows.reused_is,
    )

-- An appointment is made once: over the database, a call of Confirm that succeeded can be repeated at
-- any later time, also after the draft would have expired: the repetition succeeds, changes nothing,
-- and answers the same appointment, marked as confirmed before.
pub confirm-IsRepeatable :
    (order : Prefixes) (o : Surroundings) (s : Drafts Database) (db : Database) (actor : Actor)
    (x : ConfirmInput) (r : ConfirmResult) (later : Time)
    → IsKeyed s.to_lower db.drafts
    → (confirm (over order o s) db actor x).0 ≡ ok r
    → (q : ConfirmResult) × (confirm
          (over order o (moved_to s later))
          ((confirm (over order o s) db actor x).1)
          actor
          x
        ≡ (ok q, (confirm (over order o s) db actor x).1))
      × SameBooking q r
confirm-IsRepeatable order o s db actor x r later keyed h =
    confirm-confirm (over order o s) db actor x r (store_of order o later) later
      (λ w. IsKeyed s.to_lower w.drafts) (store-KeepsConfirmations s.to_lower order o s.now later)
      keyed h
