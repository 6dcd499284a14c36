-- ===== src/Database/Linked.antt =====
-- confirm_mcp_appointment_draft: what the statements keep of the links between drafts and appointments.
use booknow_mcp_service.Base.{
  String, List, [], ◌∷◌, map, All, Option, none, some, false, str_eq, ◌≡◌, refl, ap, ◌∙◌, inl, inr,
  if-both, Err,
}
use booknow_mcp_service.Business.Types.{Time}
use booknow_mcp_service.Drafts.Types.{NewDraft}
use booknow_mcp_service.Postgres.{Row, no_rows, query_error}
use booknow_mcp_service.Database.{
  DraftRow, Database, Surroundings, find_row, has_id, has_key, is_some, unique_violation,
  stored_unless, insert_draft_sql,
}
use booknow_mcp_service.Database.Confirm.{confirm_row}
use booknow_mcp_service.Database.Keys.{IsCanonical, IsKeyed}
use booknow_mcp_service.Database.Finds.{insert_draft_sql-IsKeyed}
use booknow_mcp_service.Database.Confirmations.{stays_if}
use booknow_mcp_service.Database.Bookings.{
  Books, confirm_mcp_appointment_draft-Books, insert_draft_sql-appointments, Step, inserts,
  confirms, Reach, start, next,
}
use booknow_mcp_service.Database.Links.{IsLinked, updated-IsLinked}

-- The update keeps the ids.
confirm_row-id : (draft_id id : String) (d : DraftRow) → (confirm_row draft_id id d).id ≡ d.id
confirm_row-id draft_id id d = stays_if (λ (r : DraftRow). r.id) (has_id draft_id d) _ d refl

own_ids :
    (draft_id id own : String) (ds : List DraftRow)
    → All (λ (e : DraftRow). str_eq e.id own ≡ false) ds
    → All (λ (e : DraftRow). str_eq e.id own ≡ false) (map (confirm_row draft_id id) ds)
own_ids draft_id id own [] h = tt
own_ids draft_id id own (d ∷ ds) h =
    (ap (λ k. str_eq k own) (confirm_row-id draft_id id d) ∙ h.0, own_ids draft_id id own ds (h.1))

map-IsKeyed :
    (to_lower : String → String) (draft_id id : String) (ds : List DraftRow)
    → IsKeyed to_lower ds
    → IsKeyed to_lower (map (confirm_row draft_id id) ds)
map-IsKeyed to_lower draft_id id [] h = tt
map-IsKeyed to_lower draft_id id (d ∷ ds) h =
    rw (confirm_row-id draft_id id d)
      (h.0, own_ids draft_id id d.id ds (h.1), map-IsKeyed to_lower draft_id id ds (h.2))

-- The drafts have ids of their own, and what is booked of them is what they say.
pub record IsConsistent (to_lower : String → String) (db : Database) : Type 0 where
  pub keyed : IsKeyed to_lower db.drafts
  pub linked : All (IsLinked db.appointments) db.drafts

module _ (to_lower : String → String) (o : Surroundings)
    (ids : (db : Database) → IsCanonical to_lower (o.new_id db)) where
  stored_unless-IsLinked :
      (refused : Option Err) (id : String) (d : NewDraft) (db : Database)
      → All (IsLinked db.appointments) db.drafts
      → All (IsLinked db.appointments) (stored_unless refused id d db).1.drafts
  stored_unless-IsLinked (some e) id d db linked = linked
  stored_unless-IsLinked none id d db linked = (inl refl, linked)

  insert_draft_sql-IsLinked :
      (db : Database) (d : NewDraft)
      → All (IsLinked db.appointments) db.drafts
      → All (IsLinked db.appointments) (insert_draft_sql o db d).1.drafts
  unfolding insert_draft_sql
  insert_draft_sql-IsLinked db d linked =
      let Kept : Row String × Database → Type 0 = λ r. All (IsLinked db.appointments) r.1.drafts in
      if-both Kept (is_some (find_row (has_key d.connection_id d.idempotency_key) db.drafts))
        (no_rows, db) _ (λ p. linked)
        (λ p.
          if-both Kept (is_some (find_row (has_id (o.new_id db)) db.drafts))
            (query_error unique_violation, db)
            (stored_unless (o.refuses_draft d) (o.new_id db) d db) (λ q. linked)
            (λ q. stored_unless-IsLinked (o.refuses_draft d) (o.new_id db) d db linked))

  insert_draft_sql-IsConsistent :
      (db : Database) (d : NewDraft)
      → IsConsistent to_lower db
      → IsConsistent to_lower (insert_draft_sql o db d).1
  insert_draft_sql-IsConsistent db d c = record {
    keyed = insert_draft_sql-IsKeyed to_lower o ids db d c.keyed;
    linked = rw (insert_draft_sql-appointments o db d) (insert_draft_sql-IsLinked db d c.linked);
  }

  Books-IsConsistent :
      (now : Time) (db : Database) (draft_id user : String) (after : Database)
      → IsConsistent to_lower db
      → Books now db draft_id user after
      → IsConsistent to_lower after
  Books-IsConsistent now db draft_id user after c b = rw (← b.after_is) (record {
    keyed = map-IsKeyed to_lower draft_id b.id db.drafts c.keyed;
    linked =
        updated-IsLinked draft_id b.id b.row.booking db.appointments b.id_new to_lower db.drafts
          b.row c.keyed b.found refl c.linked;
  })

  Step-IsConsistent :
      (db after : Database)
      → IsConsistent to_lower db
      → Step o db after
      → IsConsistent to_lower after
  Step-IsConsistent db after c (inserts d e) = rw (← e) (insert_draft_sql-IsConsistent db d c)
  Step-IsConsistent db after c (confirms now draft_id user e) =
      rw (← e) (elim (confirm_mcp_appointment_draft-Books o now db draft_id user) [
        | inl same ↦ rw same c
        | inr books ↦ Books-IsConsistent now db draft_id user _ c books
      ])

-- What is booked is what was approved: whatever drafts are inserted and confirmed, in whatever order and
-- at whatever times, every confirmed draft has an appointment with its own tenant, branch, customer,
-- specialist, service, times and price, where this held before.
pub Reach-IsConsistent :
    (to_lower : String → String) (o : Surroundings) (db after : Database)
    → ((w : Database) → IsCanonical to_lower (o.new_id w))
    → IsConsistent to_lower db
    → Reach o db after
    → IsConsistent to_lower after
Reach-IsConsistent to_lower o db after ids c start = c
Reach-IsConsistent to_lower o db after ids c (next {mid} r st) =
    Step-IsConsistent to_lower o ids mid after (Reach-IsConsistent to_lower o db mid ids c r) st
