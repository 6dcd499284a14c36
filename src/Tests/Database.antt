-- ===== src/Tests/Database.antt =====
-- The theorems on the draft service over the database, at concrete calls.
use booknow_mcp_service.Base.{
  String, Result, ◌+ℤ◌, ◌*w◌, wrap64, ◌*ℤ◌, pos, List, [], ◌∷◌, length, none, some, true, false,
  ◌≡◌, refl, ◌⊎◌, ok, bytes, trim_space, codes,
}
use booknow_mcp_service.Business.Types.Booking.{SlotCheckInput, SlotCheck}
use booknow_mcp_service.Business.Checks.{is_uuid}
use booknow_mcp_service.Drafts.Types.{Draft, DraftView, ConfirmInput, ConfirmResult, is_fault}
use booknow_mcp_service.Drafts.Parse.{parse_key, parse_create, parse_uuid, optional_id}
use booknow_mcp_service.Drafts.View.{view, status, branch_location}
use booknow_mcp_service.Drafts.Service.{Drafts, known_entity, new_draft, plan, create}
use booknow_mcp_service.Drafts.Service.Confirm.{pending, confirm}
use booknow_mcp_service.Drafts.Service.Approval.{approve, confirm_own}
use booknow_mcp_service.Drafts.Service.Reconfirm.{SameBooking}
use booknow_mcp_service.Postgres.{no_rows, row, lookup_row}
use booknow_mcp_service.Postgres.Drafts.{confirm_errors, inserted_id, confirmed_row}
use booknow_mcp_service.Business.Types.{Time}
use booknow_mcp_service.Database.{
  Names, DraftRow, draft_of, AppointmentRow, Database, Surroundings, find_row, insert_draft_sql,
}
use booknow_mcp_service.Database.Confirm.{confirm_mcp_appointment_draft, overlaps}
use booknow_mcp_service.Database.Store.{store_of}
use booknow_mcp_service.Database.Conflicts.{NoConflicts}
use booknow_mcp_service.Database.Keys.{IsCanonical}
use booknow_mcp_service.Database.Linked.{IsConsistent}
use booknow_mcp_service.Database.Calls.{
  create-IsRepeatable, after_calls-IsConsistent, Call, creating, confirming, over, after_calls,
  moved_to, IsBooked, after_calls-NoConflicts, create-IsConfirmable, confirm-IsRepeatable,
  confirm-IsBooked,
}
use booknow_mcp_service.Tests.Fixtures.{haircut, centre, midnight, nine, ten, at_utc, id_a, id_b}
use booknow_mcp_service.Tests.Drafts.{drafts, actor, eva_at_ten, request, half_past_ten}

abbrev surroundings : Surroundings
surroundings = record {
  customer =
      λ c t. row (record { id = id_a; first_name = "Eva"; last_name = "Luz"; active = true });
  variant = λ v t s. no_rows;
  names = λ d. some (record {
    first_name = "Eva";
    last_name = "Luz";
    service = "Corte";
    variant = none;
    branch = "Centro";
    timezone = "UTC";
    specialist = some "Ana";
  });
  new_id = λ db. id_b;
  refuses_draft = λ d. none;
  refuses_appointment = λ a. none;
}

-- Ana's appointment from nine to ten, made by phone.
abbrev by_phone : AppointmentRow
by_phone = record {
  id = id_a;
  tenant_id = "t";
  branch_id = id_b;
  customer_id = id_a;
  specialist_id = some id_a;
  service_id = id_a;
  service_variant_id = none;
  scheduled_at = at_utc nine;
  ends_at = some (at_utc ten);
  duration_minutes = pos 60;
  status = "confirmed";
  customer_notes = none;
  estimated_price = none;
  currency_code = none;
  source = "phone";
}

abbrev before_calls : Database
before_calls = record {
  tenant_users =
      record { tenant_id = "t"; auth_user_id = "u"; is_active = some true; role = "manager" } ∷ [];
  drafts = [];
  appointments = by_phone ∷ [];
  appointment_services = [];
}

abbrev free : SlotCheck
free = record {
  available = true;
  timezone = "UTC";
  duration_minutes = pos 30;
  service = haircut;
  branch = centre;
  specialists = [];
}

abbrev service : Drafts Database
service = record {
  store = store_of confirm_errors surroundings midnight;
  slots = λ t x. ok free;
  ttl = drafts.ttl;
  now = midnight;
  format = drafts.format;
  to_lower = drafts.to_lower;
}

abbrev approval : ConfirmInput
approval = record { draft_id = id_b; idempotency_key = "key-0002" }

-- A draft, its confirmation, and the same confirmation once more.
abbrev calls : List Call
calls =
    creating service actor (eva_at_ten "key-0002")
    ∷ confirming service actor approval
    ∷ confirming service actor approval
    ∷ []

after_calls-NoConflicts_example :
    NoConflicts (after_calls confirm_errors surroundings calls before_calls).appointments
after_calls-NoConflicts_example =
    after_calls-NoConflicts confirm_errors surroundings calls before_calls (tt, tt)

-- The calls make one appointment beside the one by phone.
calls_book_once :
    length (after_calls confirm_errors surroundings calls before_calls).appointments ≡ 2
unfolding after_calls create confirm pending plan find_row parse_create parse_key bytes trim_space
    parse_uuid is_uuid optional_id codes is_fault known_entity lookup_row insert_draft_sql
    inserted_id status confirmed_row overlaps confirm_mcp_appointment_draft ◌+ℤ◌ ◌*w◌ wrap64 ◌*ℤ◌
calls_book_once = refl

id_b-IsCanonical : IsCanonical (λ s. s) id_b
unfolding trim_space is_uuid bytes codes
id_b-IsCanonical = record { lowered = refl; valid = refl }

-- The appointment by phone stands for no draft.
before_calls-IsConsistent : IsConsistent (λ s. s) before_calls
before_calls-IsConsistent = record { keyed = tt; linked = tt }

after_calls-IsConsistent_example :
    IsConsistent (λ s. s) (after_calls confirm_errors surroundings calls before_calls)
after_calls-IsConsistent_example =
    after_calls-IsConsistent confirm_errors surroundings (λ s. s) calls before_calls
      (λ w. id_b-IsCanonical) before_calls-IsConsistent

abbrev drafted : Database
drafted =
    (create (over confirm_errors surroundings service) before_calls actor (eva_at_ten "key-0002")).1

-- The draft that the call inserts.
abbrev drafted_row : DraftRow
drafted_row = record {
  id = id_b;
  booking = new_draft service actor (record request { key = "key-0002" }) none free;
  status = "draft";
  confirmed_appointment_id = none;
}

abbrev eva_names : Names
eva_names = record {
  first_name = "Eva";
  last_name = "Luz";
  service = "Corte";
  variant = none;
  branch = "Centro";
  timezone = "UTC";
  specialist = some "Ana";
}

abbrev shown : DraftView
shown = view service.format midnight (draft_of drafted_row eva_names) false

first-shown :
    (create (over confirm_errors surroundings service) before_calls actor (eva_at_ten "key-0002")).0
    ≡ ok shown
unfolding create plan find_row parse_create parse_key bytes trim_space parse_uuid is_uuid
    optional_id codes is_fault known_entity lookup_row insert_draft_sql inserted_id
first-shown = refl

-- Ten minutes later.
abbrev soon : Time
soon = at_utc (pos 600000000000)

create-IsConfirmable_example :
    (d : Draft) × (d.connection_id ≡ "c")
    × (confirm
          (over confirm_errors surroundings (moved_to service soon))
          drafted
          actor
          (approve shown (eva_at_ten "key-0002"))
        ≡ confirm_own
            (over confirm_errors surroundings (moved_to service soon))
            drafted
            actor
            shown.draft_id
            d)
create-IsConfirmable_example =
    create-IsConfirmable confirm_errors surroundings service before_calls actor
      (eva_at_ten "key-0002") shown soon (λ w. id_b-IsCanonical) tt first-shown

-- The slots are taken by then.
abbrev taken : String → SlotCheckInput → Result SlotCheck
taken t x = ok (record free { available = false })

create-IsRepeatable_example :
    (q : DraftView) × (create
        (over confirm_errors surroundings (record service { now = soon; slots = taken }))
        ((create
          (over confirm_errors surroundings service)
          before_calls
          actor
          (eva_at_ten "key-0002")).1)
        actor
        (eva_at_ten "key-0002")
      ≡ (
        ok q,
        (create
            (over confirm_errors surroundings service)
            before_calls
            actor
            (eva_at_ten "key-0002")).1,
      ))
    × (q.draft_id ≡ shown.draft_id)
    × (q.reused ≡ true)
create-IsRepeatable_example =
    create-IsRepeatable confirm_errors surroundings service before_calls actor
      (eva_at_ten "key-0002") shown soon taken first-shown

-- The database with the draft in it.
abbrev with_draft : Database
with_draft = record before_calls { drafts = drafted_row ∷ [] }

abbrev booked : ConfirmResult
booked = record {
  draft_id = id_b;
  idempotent = false;
  timezone = "UTC";
  appointment = record {
    id = id_b;
    status = "pending";
    source = "mcp";
    scheduled_at = at_utc ten;
    ends_at = at_utc half_past_ten;
    duration_minutes = pos 30;
    estimated_price = some (pos 1500);
    currency_code = some "USD";
  };
  message = "Cita creada en estado pendiente.";
}

draft-booked :
    (confirm (over confirm_errors surroundings service) with_draft actor approval).0 ≡ ok booked
unfolding confirm pending find_row parse_key bytes trim_space is_uuid codes lookup_row status
    confirmed_row overlaps confirm_mcp_appointment_draft branch_location ◌+ℤ◌ ◌*w◌ wrap64 ◌*ℤ◌
draft-booked = refl

confirm-IsRepeatable_example :
    (q : ConfirmResult) × (confirm
        (over confirm_errors surroundings (moved_to service (at_utc nine)))
        ((confirm (over confirm_errors surroundings service) with_draft actor approval).1)
        actor
        approval
      ≡ (ok q, (confirm (over confirm_errors surroundings service) with_draft actor approval).1))
    × SameBooking q booked
confirm-IsRepeatable_example =
    confirm-IsRepeatable confirm_errors surroundings service with_draft actor approval booked
      (at_utc nine) (id_b-IsCanonical, tt, tt) draft-booked

confirm-IsBooked_example :
    ((confirm (over confirm_errors surroundings service) with_draft actor approval).1 ≡ with_draft)
    ⊎ IsBooked
        (over confirm_errors surroundings service)
        with_draft
        actor
        approval
        ((confirm (over confirm_errors surroundings service) with_draft actor approval).1)
confirm-IsBooked_example =
    confirm-IsBooked confirm_errors surroundings service with_draft actor approval
