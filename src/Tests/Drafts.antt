-- ===== src/Tests/Drafts.antt =====
-- The theorems on drafts at concrete inputs, over a database that is the list of inserted drafts.
use booknow_mcp_service.Base.{
  ◌≤◌, ℤ, pos, String, List, [], ◌∷◌, none, some, true, str_eq, if◌then◌else◌, ◌≡◌, refl, ◌⊎◌, ◌↔◌,
  All, ok, err, fault, draft_not_found, draft_expired, bytes, byte_len, trim_space, codes,
}
use booknow_mcp_service.Business.Checks.{is_uuid}
use booknow_mcp_service.Business.Service.Booking.{check_slot}
use booknow_mcp_service.Drafts.Types.{
  Actor, NewDraft, Draft, CreateInput, ConfirmInput, DraftView, DraftStore,
}
use booknow_mcp_service.Drafts.Parse.{
  CreateRequest, parse_key, parse_create, parse_uuid, optional_id,
}
use booknow_mcp_service.Drafts.Parse.Laws.{IsKeyByte, parse_key_iff}
use booknow_mcp_service.Drafts.View.{view}
use booknow_mcp_service.Drafts.Service.{Drafts, create}
use booknow_mcp_service.Drafts.Service.Confirm.{confirm}
use booknow_mcp_service.Drafts.Service.Creation.{IsInsert, create-writes}
use booknow_mcp_service.Drafts.Service.Confirming.{IsConfirmation, confirm-writes}
use booknow_mcp_service.Drafts.Service.Schedule.{IsOnSchedule, create-IsOnSchedule}
use booknow_mcp_service.Tests.Fixtures.{at_utc, midnight, ten, id_a, id_b, calendar, service}

abbrev pub half_past_ten : ℤ
half_past_ten = pos 37800000000000

abbrev pub stored : Draft
stored = record {
  id = id_b;
  tenant_id = "t";
  connection_id = "c";
  customer_id = id_a;
  service_id = id_a;
  variant_id = none;
  branch_id = id_b;
  specialist_id = some id_a;
  scheduled_at = at_utc ten;
  ends_at = at_utc half_past_ten;
  duration_minutes = pos 30;
  estimated_price = some (pos 1500);
  currency_code = some "USD";
  customer_notes = none;
  status = "draft";
  idempotency_key = "key-0001";
  expires_at = at_utc (pos 900000000000);
  confirmed_appointment_id = none;
  customer_first_name = "Eva";
  customer_last_name = "Luz";
  service_name = "Corte";
  variant_name = none;
  branch_name = "Centro";
  branch_timezone = "UTC";
  specialist_name = some "Ana";
}

abbrev pub Inserts : Type 0
Inserts = List NewDraft

abbrev pub list_store : DraftStore Inserts
list_store = record {
  customer =
      λ w t c. ok (record { id = id_a; first_name = "Eva"; last_name = "Luz"; active = true });
  variant = λ w t s v. err (fault draft_not_found);
  draft_by_key =
      λ w t c key. if str_eq key "key-0001" then ok stored else err (fault draft_not_found);
  draft = λ w t id. ok stored;
  insert_draft = λ w d. (ok (some id_b), d ∷ w);
  confirm = λ w id user. (err (fault draft_expired), w);
}

abbrev pub drafts : Drafts Inserts
drafts = record {
  store = list_store;
  slots = check_slot service;
  ttl = pos 900000000000;
  now = midnight;
  format = record {
    calendar = calendar;
    short_date = λ t. "05/01/2026";
    clock = λ t. "10:00";
    amount = λ a. "15.00";
  };
  to_lower = λ s. s;
}

abbrev pub actor : Actor
actor = record { tenant_id = "t"; connection_id = "c"; user_id = "u" }

abbrev pub eva_at_ten : String → CreateInput
eva_at_ten key = record {
  customer_id = id_a;
  service_id = id_a;
  service_variant_id = "";
  branch_id = id_b;
  specialist_id = id_a;
  scheduled_at = "2026-01-05T10:00:00Z";
  customer_notes = "";
  idempotency_key = key;
}

create-writes_example :
    ((create drafts [] actor (eva_at_ten "key-0002")).1 ≡ [])
    ⊎ IsInsert drafts [] actor
        (eva_at_ten "key-0002")
        ((create drafts [] actor (eva_at_ten "key-0002")).1)
create-writes_example = create-writes drafts [] actor (eva_at_ten "key-0002")

create-IsOnSchedule_example :
    ((create drafts [] actor (eva_at_ten "key-0002")).1 ≡ [])
    ⊎ ((d : NewDraft) × ((list_store.insert_draft [] d).1
          ≡ (create drafts [] actor (eva_at_ten "key-0002")).1)
        × IsOnSchedule service "t" d)
create-IsOnSchedule_example =
    create-IsOnSchedule service drafts [] actor (eva_at_ten "key-0002") refl

abbrev pub request : CreateRequest
request = record {
  customer_id = id_a;
  service_id = id_a;
  branch_id = id_b;
  variant_id = none;
  specialist_id = some id_a;
  notes = none;
  scheduled_at = at_utc ten;
  key = "key-0001";
}

eva-parsed : parse_create (λ s. s) calendar.parse_rfc3339 (eva_at_ten "key-0001") ≡ ok request
unfolding parse_create parse_key bytes trim_space parse_uuid is_uuid optional_id codes
eva-parsed = refl

abbrev reused : DraftView
reused = view drafts.format drafts.now stored true

abbrev pub approval : ConfirmInput
approval = record { draft_id = id_b; idempotency_key = "key-0001" }

confirm-writes_example :
    ((confirm drafts [] actor approval).1 ≡ [])
    ⊎ IsConfirmation drafts [] actor approval ((confirm drafts [] actor approval).1)
confirm-writes_example = confirm-writes drafts [] actor approval

parse_key_iff_example : (parse_key " key-0001 " ≡ ok "key-0001") ↔ (
    (trim_space " key-0001 " ≡ "key-0001")
    × (8 ≤ byte_len (trim_space " key-0001 "))
    × (byte_len (trim_space " key-0001 ") ≤ 100)
    × All IsKeyByte (bytes (trim_space " key-0001 ")))
parse_key_iff_example = parse_key_iff " key-0001 " "key-0001"
