-- ===== src/Database/Inserts.antt =====
-- The draft store over the database keeps what it inserts.
use booknow_mcp_service.Base.{
  String, ◌∷◌, Option, none, some, eq_refl, ◌≡◌, refl, sym, ap, ◌∙◌, if-both, ok, Err, ok-injective,
}
use booknow_mcp_service.Business.Types.{Time}
use booknow_mcp_service.Drafts.Types.{NewDraft, Draft}
use booknow_mcp_service.Drafts.Service.Creation.{err_not_ok}
use booknow_mcp_service.Drafts.Service.Retry.{HasData, KeepsInserts}
use booknow_mcp_service.Postgres.{Row, no_rows, query_error}
use booknow_mcp_service.Postgres.Drafts.{Prefixes, inserted_id}
use booknow_mcp_service.Database.{
  DraftRow, Database, Surroundings, Names, draft_of, find_row, has_id, has_tenant_id, has_key,
  has_tenant_key, is_some, unique_violation, stored_unless, insert_draft_sql,
}
use booknow_mcp_service.Database.Store.{store_of}
use booknow_mcp_service.Database.Keys.{
  lookup-IsRead, IsRead-lookup, find_row-hit, true_both, text_same, none_not_some, some-injective,
}

module _ (order : Prefixes) (o : Surroundings) (now : Time) where
  -- The draft that is read by the id that an insert gave is found by its key, with its data.
  abbrev Keeps : NewDraft → String → Draft → Row String × Database → Type 0
  Keeps n id d r =
      inserted_id r.0 ≡ ok (some id)
      → (store_of order o now).draft (r.1) n.tenant_id id ≡ ok d
      → ((store_of order o now).draft_by_key (r.1) n.tenant_id n.connection_id n.idempotency_key
          ≡ ok d)
        × HasData n d

  no_id : (n : NewDraft) (id : String) (d : Draft) (db : Database) → Keeps n id d (no_rows, db)
  unfolding inserted_id
  no_id n id d db h read = absurd (none_not_some (ok-injective h))

  failed_id :
      (n : NewDraft) (id : String) (d : Draft) (db : Database) (e : Err)
      → Keeps n id d (query_error e, db)
  unfolding inserted_id
  failed_id n id d db e h read = absurd (err_not_ok h)

  draft_of-HasData : (r : DraftRow) (names : Names) → HasData r.booking (draft_of r names)
  draft_of-HasData r names = record {
    customer_is = refl;
    service_is = refl;
    branch_is = refl;
    variant_is = refl;
    specialist_is = refl;
    notes_are = refl;
    start_is = refl;
  }

  stored_unless-Keeps :
      (refused : Option Err) (new id : String) (n : NewDraft) (db : Database) (d : Draft)
      → Keeps n id d (stored_unless refused new n db)
  unfolding inserted_id
  stored_unless-Keeps (some e) new id n db d h read = failed_id n id d db e h read
  stored_unless-Keeps none new id n db d h read =
      let same : new ≡ id = some-injective (ok-injective h) in
      let fresh : DraftRow = record {
        id = new;
        booking = n;
        status = "draft";
        confirmed_appointment_id = none;
      } in
      let by_id = has_tenant_id n.tenant_id id in
      let by_key = has_tenant_key n.tenant_id n.connection_id n.idempotency_key in
      let r = lookup-IsRead o _ _ (find_row by_id (fresh ∷ db.drafts)) d read in
      let is : fresh ≡ r.stored = some-injective (
        sym (
          find_row-hit by_id fresh db.drafts (true_both _ _ (eq_refl n.tenant_id) (text_same same)))
        ∙ r.found_is) in
      let joined : o.names n ≡ some r.joined =
        ap (λ (e : DraftRow). o.names e.booking) is ∙ r.joined_is in
      let shown : draft_of fresh r.joined ≡ d =
        ap (λ (e : DraftRow). draft_of e r.joined) is ∙ r.draft_is in
      let hit = find_row-hit by_key fresh db.drafts (
        true_both _ _ (eq_refl n.tenant_id)
          (true_both _ _ (eq_refl n.connection_id) (eq_refl n.idempotency_key))) in
      (
        IsRead-lookup o _ _ (find_row by_key (fresh ∷ db.drafts)) fresh r.joined hit joined
            ∙ ap ok shown,
        rw (← shown) (draft_of-HasData fresh r.joined),
      )

  insert_draft_sql-Keeps :
      (db : Database) (n : NewDraft) (id : String) (d : Draft)
      → Keeps n id d (insert_draft_sql o db n)
  unfolding insert_draft_sql
  insert_draft_sql-Keeps db n id d =
      if-both (Keeps n id d)
        (is_some (find_row (has_key n.connection_id n.idempotency_key) db.drafts)) (no_rows, db) _
        (λ p. no_id n id d db)
        (λ p.
          if-both (Keeps n id d) (is_some (find_row (has_id (o.new_id db)) db.drafts))
            (query_error unique_violation, db)
            (stored_unless (o.refuses_draft n) (o.new_id db) n db)
            (λ q. failed_id n id d db unique_violation)
            (λ q. stored_unless-Keeps (o.refuses_draft n) (o.new_id db) id n db d))

  pub store-KeepsInserts : KeepsInserts (store_of order o now)
  store-KeepsInserts = record { kept = λ db n id d. insert_draft_sql-Keeps db n id d }
