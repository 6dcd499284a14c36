-- ===== src/Database/Bookings.antt =====
-- confirm_mcp_appointment_draft: no specialist is booked twice at a time.
use booknow_mcp_service.Base.{
  if-both, String, List, All, Option, none, some, Bool, true, false, any, not, str_eq, ◌≡◌, refl,
  ◌⊎◌, inl, inr, arith, Err,
}
use booknow_mcp_service.Business.Types.{Time}
use booknow_mcp_service.Business.Dates.{before}
use booknow_mcp_service.Drafts.Types.{NewDraft}
use booknow_mcp_service.Postgres.Drafts.{ConfirmRow}
use booknow_mcp_service.Database.{
  has_id, find_row, DraftRow, AppointmentRow, Database, Surroundings, insert_draft_sql,
}
use booknow_mcp_service.Database.Confirm.{
  manages, book, checked_overlap, appointment_of, booked_unless, confirm_free, confirm_draft,
  confirm_by, confirm_found, confirm_mcp_appointment_draft,
}
use booknow_mcp_service.Database.Conflicts.{
  Conflict, NoConflicts, no_specialist, stored_unless-appointments, overlaps-Conflict,
}

-- A state after a confirmation that booked: a draft that is pending and has not expired became an
-- appointment, on behalf of a manager of its tenant, and the specialist was free.
pub record Books (now : Time) (db : Database) (draft_id user : String) (after : Database)
    : Type 0 where
  pub row : DraftRow
  pub found : find_row (has_id draft_id) db.drafts ≡ some row
  pub managed : any (manages row.booking.tenant_id user) db.tenant_users ≡ true
  pub is_draft : str_eq row.status "draft" ≡ true
  pub not_expired : before row.booking.expires_at now ≡ false
  pub free : checked_overlap row.booking.specialist_id row.booking db.appointments ≡ some false
  pub id : String
  pub id_new : any (λ (a : AppointmentRow). str_eq a.id id) db.appointments ≡ false
  pub after_is : book draft_id id row.booking db ≡ after

pub not-eq-false : (b : Bool) → not b ≡ false → b ≡ true
not-eq-false b h = ground arith

module _ (o : Surroundings) (now : Time) (db : Database) (draft_id user : String) where
  -- The database stays as it is, or a draft was booked.
  abbrev Writes : ConfirmRow × Database → Type 0
  Writes r = (r.1 ≡ db) ⊎ Books now db draft_id user (r.1)

  module _ (d : DraftRow) (found : find_row (has_id draft_id) db.drafts ≡ some d)
      (managed : any (manages d.booking.tenant_id user) db.tenant_users ≡ true) where
    booked_unless-Writes :
        (refused : Option Err) (id : String)
        → any (λ (a : AppointmentRow). str_eq a.id id) db.appointments ≡ false
        → str_eq d.status "draft" ≡ true
        → before d.booking.expires_at now ≡ false
        → checked_overlap d.booking.specialist_id d.booking db.appointments ≡ some false
        → Writes (booked_unless refused draft_id id d.booking db)
    booked_unless-Writes (some e) id new is_draft early free = inl refl
    booked_unless-Writes none id new is_draft early free = inr (record {
      row = d;
      found = found;
      managed = managed;
      is_draft = is_draft;
      not_expired = early;
      free = free;
      id = id;
      id_new = new;
      after_is = refl;
    })

    confirm_free-Writes :
        (overlap : Option Bool)
        → str_eq d.status "draft" ≡ true
        → before d.booking.expires_at now ≡ false
        → checked_overlap d.booking.specialist_id d.booking db.appointments ≡ overlap
        → Writes (confirm_free o db draft_id d.booking overlap)
    confirm_free-Writes none is_draft early is = inl refl
    confirm_free-Writes (some true) is_draft early is = inl refl
    confirm_free-Writes (some false) is_draft early is =
        if-both Writes _ _ _ (λ p. inl refl)
          (λ p.
            booked_unless-Writes (o.refuses_appointment (appointment_of (o.new_id db) d.booking))
              (o.new_id db) p is_draft early is)

    confirm_draft-Writes : Writes (confirm_draft o now db draft_id d)
    confirm_draft-Writes =
        if-both Writes _ _ _ (λ p. inl refl)
          (λ is_draft.
            if-both Writes _ _ _ (λ p. inl refl)
              (λ early.
                confirm_free-Writes
                  (checked_overlap d.booking.specialist_id d.booking db.appointments)
                  (not-eq-false _ is_draft) early refl))

    confirm_by-Writes :
        (is : Bool) (id : Option String) → Writes (confirm_by o now db draft_id d is id)
    confirm_by-Writes true (some id) = inl refl
    confirm_by-Writes true none = confirm_draft-Writes
    confirm_by-Writes false id = confirm_draft-Writes

  confirm_found-Writes :
      (row : Option DraftRow)
      → find_row (has_id draft_id) db.drafts ≡ row
      → Writes (confirm_found o now db draft_id user row)
  confirm_found-Writes none found = inl refl
  confirm_found-Writes (some d) found =
      if-both Writes _ _ _ (λ p. inl refl)
        (λ managed.
          confirm_by-Writes d found (not-eq-false _ managed) (str_eq d.status "confirmed")
            d.confirmed_appointment_id)

-- A confirmation leaves the database as it is or books a draft that is pending, for a manager.
pub confirm_mcp_appointment_draft-Books :
    (o : Surroundings) (now : Time) (db : Database) (draft_id user : String)
    → ((confirm_mcp_appointment_draft o now db draft_id user).1 ≡ db)
      ⊎ Books now db draft_id user ((confirm_mcp_appointment_draft o now db draft_id user).1)
unfolding confirm_mcp_appointment_draft
confirm_mcp_appointment_draft-Books o now db draft_id user =
    confirm_found-Writes o now db draft_id user (find_row (has_id draft_id) db.drafts) refl

-- An insert books nothing.
pub insert_draft_sql-appointments :
    (o : Surroundings) (db : Database) (d : NewDraft)
    → (insert_draft_sql o db d).1.appointments ≡ db.appointments
unfolding insert_draft_sql
insert_draft_sql-appointments o db d =
    ground (arith, stored_unless-appointments (o.refuses_draft d) (o.new_id db) d db)

pub checked_overlap-Conflict :
    (id : String) (d : NewDraft) (specialist : Option String) (rows : List AppointmentRow)
    → d.specialist_id ≡ specialist
    → checked_overlap specialist d rows ≡ some false
    → All (λ b. ¬ Conflict (appointment_of id d) b) rows
checked_overlap-Conflict id d none rows of h = no_specialist id d of rows
checked_overlap-Conflict id d (some p) rows of h = overlaps-Conflict id p d of rows h

Books-NoConflicts :
    (now : Time) (db : Database) (draft_id user : String) (after : Database)
    → NoConflicts db.appointments
    → Books now db draft_id user after
    → NoConflicts after.appointments
Books-NoConflicts now db draft_id user after free b = rw (← b.after_is) (
  checked_overlap-Conflict b.id b.row.booking b.row.booking.specialist_id db.appointments refl
      b.free,
  free,
)

-- A statement of the draft store that writes, in a transaction of its own.
pub data Step (o : Surroundings) (db : Database) (after : Database) : Type 0 where
  inserts : (d : NewDraft) → (insert_draft_sql o db d).1 ≡ after → Step o db after
  confirms :
      (now : Time) (draft_id user : String)
      → (confirm_mcp_appointment_draft o now db draft_id user).1 ≡ after
      → Step o db after

pub data Reach (o : Surroundings) (db : Database) : Database → Type 0 where
  start : Reach o db db
  next : {mid after : Database} → Reach o db mid → Step o mid after → Reach o db after

Step-NoConflicts :
    (o : Surroundings) (db after : Database)
    → NoConflicts db.appointments
    → Step o db after
    → NoConflicts after.appointments
Step-NoConflicts o db after free (inserts d e) =
    rw (← e) (rw (insert_draft_sql-appointments o db d) free)
Step-NoConflicts o db after free (confirms now draft_id user e) =
    rw (← e) (elim (confirm_mcp_appointment_draft-Books o now db draft_id user) [
      | inl same ↦ rw same free
      | inr books ↦ Books-NoConflicts now db draft_id user _ free books
    ])

-- No specialist is ever booked twice: whatever drafts are inserted and confirmed, by whoever, at
-- whatever times and in whatever order, no two appointments that take the time of one specialist share
-- an instant, where none did before.
pub Reach-NoConflicts :
    (o : Surroundings) (db after : Database)
    → NoConflicts db.appointments
    → Reach o db after
    → NoConflicts after.appointments
Reach-NoConflicts o db after free start = free
Reach-NoConflicts o db after free (next {mid} r st) =
    Step-NoConflicts o mid after (Reach-NoConflicts o db mid free r) st
