-- ===== src/Database/Confirmations.antt =====
-- confirm_mcp_appointment_draft: a confirmation that succeeded is kept.
use booknow_mcp_service.Base.{
  String, List, [], ◌∷◌, map, Option, none, some, Bool, true, false, str_eq, ◌≡◌, refl, ap, ◌∙◌,
  ◌⊎◌, inl, inr, Bool-cases, if-both, if◌then◌else◌, ok, Err, any, not,
}
use booknow_mcp_service.Business.Types.{Time}
use booknow_mcp_service.Business.Dates.{before}
use booknow_mcp_service.Drafts.Types.{Confirmation}
use booknow_mcp_service.Drafts.Service.Creation.{err_not_ok}
use booknow_mcp_service.Postgres.Drafts.{Prefixes, ConfirmRow, raised, failed, confirmed_row}
use booknow_mcp_service.Database.{
  DraftRow, AppointmentRow, Database, Surroundings, find_row, has_id, unique_violation,
}
use booknow_mcp_service.Database.Confirm.{
  manages, confirm_row, book, result, appointment_of, confirm_mcp_appointment_draft, confirm_found,
  confirm_by, confirm_draft, confirm_free, booked_unless, checked_overlap,
}
use booknow_mcp_service.Database.Bookings.{not-eq-false}
use booknow_mcp_service.Database.Keys.{find_row-passes, none_not_some, same_text, some-injective}

-- The draft with an id is confirmed, with an appointment.
pub record IsConfirmed (db : Database) (draft_id user : String) (appointment : String)
    : Type 0 where
  pub row : DraftRow
  pub found : find_row (has_id draft_id) db.drafts ≡ some row
  pub managed : any (manages row.booking.tenant_id user) db.tenant_users ≡ true
  pub status_is : row.status ≡ "confirmed"
  pub appointment_is : row.confirmed_appointment_id ≡ some appointment

-- To confirm a confirmed draft answers its appointment and changes nothing.
pub IsConfirmed-confirm_mcp_appointment_draft :
    (o : Surroundings) (now : Time) (db : Database) (draft_id user appointment : String)
    → IsConfirmed db draft_id user appointment
    → confirm_mcp_appointment_draft o now db draft_id user ≡ (result true appointment db, db)
unfolding confirm_mcp_appointment_draft
IsConfirmed-confirm_mcp_appointment_draft o now db draft_id user appointment c =
    rw (c.found) (rw (c.managed) (rw (c.status_is, c.appointment_is) refl))

-- The update of a draft is found in its place.
pub find_row-confirm_row :
    (p : DraftRow → Bool) (id appointment : String) (rows : List DraftRow) (d : DraftRow)
    → ((e : DraftRow) → p (confirm_row id appointment e) ≡ p e)
    → find_row p rows ≡ some d
    → find_row p (map (confirm_row id appointment) rows) ≡ some (confirm_row id appointment d)
unfolding find_row
find_row-confirm_row p id appointment [] d stays found = absurd (none_not_some found)
find_row-confirm_row p id appointment (e ∷ rows) d stays found = elim (Bool-cases (p e)) [
  | inl hit ↦
      rw (stays e ∙ hit)
        (ap (λ c. some (confirm_row id appointment c)) (some-injective (rw hit at found)))
  | inr miss ↦
      rw (stays e ∙ miss) (find_row-confirm_row p id appointment rows d stays (rw miss at found))
]

pub stays_if {ℓ} :
    {A : Type ℓ} (f : DraftRow → A) (b : Bool) (x y : DraftRow)
    → f x ≡ f y
    → f (if b then x else y) ≡ f y
stays_if f true x y h = h
stays_if f false x y h = refl

pub confirm_row-booking :
    (id appointment : String) (d : DraftRow) → (confirm_row id appointment d).booking ≡ d.booking
confirm_row-booking id appointment d = stays_if (λ (r : DraftRow). r.booking) (has_id id d) _ d refl

pub confirm_row-status :
    (id appointment : String) (d : DraftRow)
    → str_eq d.id id ≡ true
    → (confirm_row id appointment d).status ≡ "confirmed"
confirm_row-status id appointment d h = rw h refl

-- A confirmation that gives a result: the draft is confirmed in the state after it, and the result has
-- its appointment.
pub record IsSettled (db : Database) (draft_id user : String) (r : ConfirmRow × Database)
    : Type 0 where
  pub appointment : String
  pub confirmed : IsConfirmed r.1 draft_id user appointment
  pub repeated : Bool
  pub answer_is : r.0 ≡ result repeated appointment r.1
  pub drafts_are : (r.1 ≡ db) ⊎ (r.1.drafts ≡ map (confirm_row draft_id appointment) db.drafts)

module _ (order : Prefixes) (o : Surroundings) (now : Time) (db : Database) (draft_id user : String)
    (c : Confirmation) where
  abbrev Settles : ConfirmRow × Database → Type 0
  Settles r = confirmed_row order r.0 ≡ ok c → IsSettled db draft_id user r

  raised-Settles : (message : String) → Settles (raised message, db)
  unfolding confirmed_row
  raised-Settles message h = absurd (err_not_ok h)

  failed-Settles : (e : Err) → Settles (failed e, db)
  unfolding confirmed_row
  failed-Settles e h = absurd (err_not_ok h)

  module _ (d : DraftRow) (found : find_row (has_id draft_id) db.drafts ≡ some d)
      (managed : any (manages d.booking.tenant_id user) db.tenant_users ≡ true) where
    book-IsConfirmed : (id : String) → IsConfirmed (book draft_id id d.booking db) draft_id user id
    book-IsConfirmed id =
        let hit : str_eq d.id draft_id ≡ true = find_row-passes (has_id draft_id) db.drafts found in
        record {
          row = record d { status = "confirmed"; confirmed_appointment_id = some id };
          found =
              find_row-confirm_row (has_id draft_id) draft_id id db.drafts d
                (λ e. stays_if (λ (c : DraftRow). has_id draft_id c) (has_id draft_id e) _ e refl)
                found
              ∙ ap some (rw hit refl);
          managed = managed;
          status_is = refl;
          appointment_is = refl;
        }

    booked_unless-Settles :
        (refused : Option Err) (id : String)
        → Settles (booked_unless refused draft_id id d.booking db)
    booked_unless-Settles (some e) id h = failed-Settles e h
    booked_unless-Settles none id h = record {
      appointment = id;
      confirmed = book-IsConfirmed id;
      repeated = false;
      answer_is = refl;
      drafts_are = inr refl;
    }

    confirm_free-Settles :
        (overlap : Option Bool) → Settles (confirm_free o db draft_id d.booking overlap)
    confirm_free-Settles none h = failed-Settles _ h
    confirm_free-Settles (some true) h = raised-Settles _ h
    confirm_free-Settles (some false) h =
        if-both Settles (any (λ (a : AppointmentRow). str_eq a.id (o.new_id db)) db.appointments)
          (failed unique_violation, db)
          (booked_unless (o.refuses_appointment (appointment_of (o.new_id db) d.booking)) draft_id
            (o.new_id db) d.booking db)
          (λ p. failed-Settles unique_violation)
          (λ p.
            booked_unless-Settles (o.refuses_appointment (appointment_of (o.new_id db) d.booking))
              (o.new_id db))
          h

    confirm_draft-Settles : Settles (confirm_draft o now db draft_id d)
    confirm_draft-Settles =
        if-both Settles (not (str_eq d.status "draft")) (raised _, db) _ (λ p. raised-Settles _)
          (λ p.
            if-both Settles (before d.booking.expires_at now) (raised _, db)
              (confirm_free o db draft_id d.booking
                (checked_overlap d.booking.specialist_id d.booking db.appointments))
              (λ q. raised-Settles _)
              (λ q.
                confirm_free-Settles
                  (checked_overlap d.booking.specialist_id d.booking db.appointments)))

    confirm_by-Settles :
        (is : Bool) (id : Option String)
        → str_eq d.status "confirmed" ≡ is
        → d.confirmed_appointment_id ≡ id
        → Settles (confirm_by o now db draft_id d is id)
    confirm_by-Settles true (some id) is given h = record {
      appointment = id;
      confirmed = record {
        row = d;
        found = found;
        managed = managed;
        status_is = same_text d.status "confirmed" is;
        appointment_is = given;
      };
      repeated = true;
      answer_is = refl;
      drafts_are = inl refl;
    }
    confirm_by-Settles true none is given h = confirm_draft-Settles h
    confirm_by-Settles false id is given h = confirm_draft-Settles h

  confirm_found-Settles :
      (row : Option DraftRow)
      → find_row (has_id draft_id) db.drafts ≡ row
      → Settles (confirm_found o now db draft_id user row)
  confirm_found-Settles none found h = raised-Settles _ h
  confirm_found-Settles (some d) found h =
      if-both Settles (not (any (manages d.booking.tenant_id user) db.tenant_users)) (raised _, db)
        (confirm_by o now db draft_id d (str_eq d.status "confirmed") d.confirmed_appointment_id)
        (λ p. raised-Settles _)
        (λ p.
          confirm_by-Settles d found (not-eq-false _ p) (str_eq d.status "confirmed")
            d.confirmed_appointment_id refl refl)
        h

  pub confirm_mcp_appointment_draft-IsSettled :
      confirmed_row order (confirm_mcp_appointment_draft o now db draft_id user).0 ≡ ok c
      → IsSettled db draft_id user (confirm_mcp_appointment_draft o now db draft_id user)
  unfolding confirm_mcp_appointment_draft
  confirm_mcp_appointment_draft-IsSettled =
      confirm_found-Settles (find_row (has_id draft_id) db.drafts) refl
