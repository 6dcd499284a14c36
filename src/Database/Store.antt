-- ===== src/Database/Store.antt =====
-- The draft store of internal/repository/postgres/drafts.go over the database.
use booknow_mcp_service.Business.Types.{Time}
use booknow_mcp_service.Drafts.Types.{DraftStore}
use booknow_mcp_service.Postgres.Drafts.{DraftDb, Prefixes, draft_store}
use booknow_mcp_service.Database.{
  Database, Surroundings, find_row, has_tenant_id, has_tenant_key, insert_draft_sql, selected,
}
use booknow_mcp_service.Database.Confirm.{confirm_mcp_appointment_draft}

-- The database behind the draft store.
abbrev pub database : Surroundings → Time → DraftDb Database
database o now = record {
  customer = λ db customer tenant. o.customer customer tenant;
  variant = λ db variant tenant service. o.variant variant tenant service;
  by_key = λ db tenant connection key.
      selected o (find_row (has_tenant_key tenant connection key) db.drafts);
  by_id = λ db tenant id. selected o (find_row (has_tenant_id tenant id) db.drafts);
  insert = insert_draft_sql o;
  confirm = confirm_mcp_appointment_draft o now;
}

-- `DraftStore` over the database
abbrev pub store_of : Prefixes → Surroundings → Time → DraftStore Database
store_of order o now = draft_store order (database o now)
