-- ===== src/Database/Finds.antt =====
-- The draft store over the database finds drafts by what it is asked for.
use booknow_mcp_service.Base.{
  String, List, [], ◌∷◌, All, Option, none, some, true, false, str_eq, eq_refl, ◌≡◌, sym, ap, ◌∙◌,
  if-both, ok, Err, trim_space, ok-injective, Bool-cases, inl, inr,
}
use booknow_mcp_service.Business.Types.{Time}
use booknow_mcp_service.Drafts.Types.{NewDraft, Draft}
use booknow_mcp_service.Business.Checks.{is_uuid}
use booknow_mcp_service.Drafts.Service.Creation.{err_not_ok}
use booknow_mcp_service.Drafts.Service.Approval.{FindsDrafts}
use booknow_mcp_service.Postgres.{Row, no_rows, query_error}
use booknow_mcp_service.Postgres.Drafts.{Prefixes, inserted_id}
use booknow_mcp_service.Database.{
  DraftRow, Database, Surroundings, find_row, has_id, has_tenant_id, has_key, has_tenant_key,
  is_some, unique_violation, stored_unless, insert_draft_sql,
}
use booknow_mcp_service.Database.Store.{store_of}
use booknow_mcp_service.Database.Keys.{
  IsCanonical, IsKeyed, IsRead, lookup-IsRead, IsRead-lookup, find_row-passes, find_row-hit,
  find_row-All, find_row-IsKeyed, both_true, true_both, same_text, text_same, none_not_some,
  some-injective, IsKeyed-All,
}

-- An id that is not found is the id of no row.
not_found-All :
    (id : String) (rows : List DraftRow)
    → is_some (find_row (has_id id) rows) ≡ false
    → All (λ (e : DraftRow). str_eq e.id id ≡ false) rows
unfolding find_row
not_found-All id [] h = tt
not_found-All id (d ∷ rows) h = elim (Bool-cases (str_eq d.id id)) [
  | inl hit ↦ absurd (let no : true ≡ false = rw hit at h in cc)
  | inr miss ↦ (miss, not_found-All id rows (rw miss at h))
]

module _ (to_lower : String → String) (o : Surroundings)
    (ids : (db : Database) → IsCanonical to_lower (o.new_id db)) where
  stored_unless-IsKeyed :
      (refused : Option Err) (d : NewDraft) (db : Database)
      → IsKeyed to_lower db.drafts
      → is_some (find_row (has_id (o.new_id db)) db.drafts) ≡ false
      → IsKeyed to_lower ((stored_unless refused (o.new_id db) d db).1.drafts)
  stored_unless-IsKeyed (some e) d db keyed new = keyed
  stored_unless-IsKeyed none d db keyed new =
      (ids db, not_found-All (o.new_id db) db.drafts new, keyed)

  -- Drafts keep ids of their own.
  pub insert_draft_sql-IsKeyed :
      (db : Database) (d : NewDraft)
      → IsKeyed to_lower db.drafts
      → IsKeyed to_lower ((insert_draft_sql o db d).1.drafts)
  unfolding insert_draft_sql
  insert_draft_sql-IsKeyed db d keyed =
      let Keyed : Row String × Database → Type 0 = λ r. IsKeyed to_lower r.1.drafts in
      if-both Keyed (is_some (find_row (has_key d.connection_id d.idempotency_key) db.drafts))
        (no_rows, db) _ (λ p. keyed)
        (λ p.
          if-both Keyed (is_some (find_row (has_id (o.new_id db)) db.drafts)) (query_error _, db)
            (stored_unless (o.refuses_draft d) (o.new_id db) d db) (λ q. keyed)
            (λ q. stored_unless-IsKeyed (o.refuses_draft d) d db keyed q))

pub own_id :
    (o : Surroundings) (found : Option DraftRow) (d : Draft) (r : IsRead o found d)
    → r.stored.id ≡ d.id
own_id o found d r = ap (λ (e : Draft). e.id) r.draft_is

-- The row that a lookup by tenant and id finds has the id.
pub has_tenant_id-eq :
    (tenant id : String) (rows : List DraftRow) (r : DraftRow)
    → find_row (has_tenant_id tenant id) rows ≡ some r
    → (r.booking.tenant_id ≡ tenant) × (r.id ≡ id)
has_tenant_id-eq tenant id rows r found =
    let (of_tenant, of_id) =
      both_true (str_eq r.booking.tenant_id tenant) (str_eq r.id id)
        (find_row-passes (has_tenant_id tenant id) rows found) in
    (same_text r.booking.tenant_id tenant of_tenant, same_text r.id id of_id)

module _ (to_lower : String → String) (order : Prefixes) (o : Surroundings) (now : Time) where
  same_id :
      (db : Database) (tenant id : String) (d : Draft)
      → IsKeyed to_lower db.drafts
      → (store_of order o now).draft db tenant id ≡ ok d
      → (d.id ≡ id) × (to_lower (trim_space d.id) ≡ d.id) × (is_uuid d.id ≡ true)
  same_id db tenant id d keyed h =
      let r = lookup-IsRead o _ _ (find_row (has_tenant_id tenant id) db.drafts) d h in
      let (of_tenant, of_id) = has_tenant_id-eq tenant id db.drafts r.stored r.found_is in
      let c =
        find_row-All (λ (e : DraftRow). IsCanonical to_lower e.id) (has_tenant_id tenant id)
          db.drafts (IsKeyed-All to_lower db.drafts keyed) r.found_is in
      rw (← own_id o _ d r) (of_id, c.lowered, c.valid)

  same_key :
      (db : Database) (tenant connection key : String) (d : Draft)
      → IsKeyed to_lower db.drafts
      → (store_of order o now).draft_by_key db tenant connection key ≡ ok d
      → (d.connection_id ≡ connection)
        × (d.idempotency_key ≡ key)
        × ((store_of order o now).draft db tenant d.id ≡ ok d)
  same_key db tenant connection key d keyed h =
      let by_key = has_tenant_key tenant connection key in
      let r = lookup-IsRead o _ _ (find_row by_key db.drafts) d h in
      let s = r.stored in
      let is = r.draft_is in
      let (of_tenant, of_key) =
        both_true (str_eq s.booking.tenant_id tenant) (has_key connection key s)
          (find_row-passes by_key db.drafts r.found_is) in
      let (by_connection, by_own_key) =
        both_true (str_eq s.booking.connection_id connection) (str_eq s.booking.idempotency_key key)
          of_key in
      let by_id = has_tenant_id tenant d.id in
      let found =
        find_row-IsKeyed to_lower by_key by_id db.drafts s keyed r.found_is
          (true_both _ _ of_tenant (text_same (own_id o _ d r)))
          (λ e hit.
            same_text e.id d.id
              (both_true (str_eq e.booking.tenant_id tenant) (str_eq e.id d.id) hit).1
            ∙ sym (own_id o _ d r)) in
      (
        ap (λ (e : Draft). e.connection_id) (sym is) ∙ same_text _ _ by_connection,
        ap (λ (e : Draft). e.idempotency_key) (sym is) ∙ same_text _ _ by_own_key,
        IsRead-lookup o _ _ (find_row by_id db.drafts) s r.joined found r.joined_is ∙ ap ok is,
      )

  -- An answer to an insert that gives an id, and the draft that is read by it, agree.
  abbrev Agrees : NewDraft → String → Draft → Row String × Database → Type 0
  Agrees n id d r =
      inserted_id r.0 ≡ ok (some id)
      → (store_of order o now).draft (r.1) n.tenant_id id ≡ ok d
      → (d.connection_id ≡ n.connection_id) × (d.idempotency_key ≡ n.idempotency_key)

  no_id : (n : NewDraft) (id : String) (d : Draft) (db : Database) → Agrees n id d (no_rows, db)
  unfolding inserted_id
  no_id n id d db h read = absurd (none_not_some (ok-injective h))

  failed_id :
      (n : NewDraft) (id : String) (d : Draft) (db : Database) (e : Err)
      → Agrees n id d (query_error e, db)
  unfolding inserted_id
  failed_id n id d db e h read = absurd (err_not_ok h)

  stored_unless-Agrees :
      (refused : Option Err) (new id : String) (n : NewDraft) (db : Database) (d : Draft)
      → Agrees n id d (stored_unless refused new n db)
  unfolding inserted_id
  stored_unless-Agrees (some e) new id n db d h read = failed_id n id d db e h read
  stored_unless-Agrees none new id n db d h read =
      let same : new ≡ id = some-injective (ok-injective h) in
      let fresh : DraftRow = record {
        id = new;
        booking = n;
        status = "draft";
        confirmed_appointment_id = none;
      } in
      let by_id = has_tenant_id n.tenant_id id in
      let r = lookup-IsRead o _ _ (find_row by_id (fresh ∷ db.drafts)) d read in
      let is : fresh ≡ r.stored = some-injective (
        sym (
          find_row-hit by_id fresh db.drafts (true_both _ _ (eq_refl n.tenant_id) (text_same same)))
        ∙ r.found_is) in
      let booked = ap (λ (e : DraftRow). e.booking) (sym is) in
      (
        ap (λ (e : Draft). e.connection_id) (sym r.draft_is)
            ∙ ap (λ (b : NewDraft). b.connection_id) booked,
        ap (λ (e : Draft). e.idempotency_key) (sym r.draft_is)
            ∙ ap (λ (b : NewDraft). b.idempotency_key) booked,
      )

  same_insert :
      (db : Database) (n : NewDraft) (id : String) (d : Draft)
      → ((store_of order o now).insert_draft db n).0 ≡ ok (some id)
      → (store_of order o now).draft (((store_of order o now).insert_draft db n).1) n.tenant_id id
        ≡ ok d
      → (d.connection_id ≡ n.connection_id) × (d.idempotency_key ≡ n.idempotency_key)
  unfolding insert_draft_sql
  same_insert db n id d =
      if-both (Agrees n id d)
        (is_some (find_row (has_key n.connection_id n.idempotency_key) db.drafts)) (no_rows, db) _
        (λ p. no_id n id d db)
        (λ p.
          if-both (Agrees n id d) (is_some (find_row (has_id (o.new_id db)) db.drafts))
            (query_error unique_violation, db)
            (stored_unless (o.refuses_draft n) (o.new_id db) n db)
            (λ q. failed_id n id d db unique_violation)
            (λ q. stored_unless-Agrees (o.refuses_draft n) (o.new_id db) id n db d))

-- The draft store over the database finds drafts by what it is asked for, where gen_random_uuid gives
-- canonical ids.
pub store-FindsDrafts :
    (to_lower : String → String) (order : Prefixes) (o : Surroundings) (now : Time)
    → ((db : Database) → IsCanonical to_lower (o.new_id db))
    → FindsDrafts to_lower (store_of order o now) (λ db. IsKeyed to_lower db.drafts)
store-FindsDrafts to_lower order o now ids = record {
  insert_keeps = λ db n keyed. insert_draft_sql-IsKeyed to_lower o ids db n keyed;
  same_id = same_id to_lower order o now;
  same_key = same_key to_lower order o now;
  same_insert = same_insert to_lower order o now;
}
