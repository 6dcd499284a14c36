-- ===== src/Drafts/Types.antt =====
-- internal/application/drafts/types.go: the data of drafts, and the store they live in.
-- A nil pointer is `none`; amounts of money are whole hundredths.
use booknow_mcp_service.Base.{
  ℤ, String, Option, Bool, DraftFault, draft_not_found, unauthorized, invalid_status, draft_expired,
  specialist_unavailable, Err, business, sentinel, fault, wrapped, other, Result, true, false,
}
use booknow_mcp_service.Business.Types.{Time, Ref}

pub record Actor : Type 0 where
  pub tenant_id : String
  pub connection_id : String
  pub user_id : String

pub record Customer : Type 0 where
  pub id : String
  pub first_name : String
  pub last_name : String
  pub active : Bool

pub record Variant : Type 0 where
  pub id : String
  pub service_id : String
  pub name : String
  pub duration_modifier : ℤ
  pub price_modifier : ℤ
  pub active : Bool

pub record NewDraft : Type 0 where
  pub tenant_id : String
  pub connection_id : String
  pub actor_user_id : String
  pub customer_id : String
  pub service_id : String
  pub variant_id : Option String
  pub branch_id : String
  pub specialist_id : Option String
  pub scheduled_at : Time
  pub ends_at : Time
  pub duration_minutes : ℤ
  pub estimated_price : Option ℤ
  pub currency_code : Option String
  pub customer_notes : Option String
  pub idempotency_key : String
  pub expires_at : Time

pub record Draft : Type 0 where
  pub id : String
  pub tenant_id : String
  pub connection_id : String
  pub customer_id : String
  pub service_id : String
  pub variant_id : Option String
  pub branch_id : String
  pub specialist_id : Option String
  pub scheduled_at : Time
  pub ends_at : Time
  pub duration_minutes : ℤ
  pub estimated_price : Option ℤ
  pub currency_code : Option String
  pub customer_notes : Option String
  pub status : String
  pub idempotency_key : String
  pub expires_at : Time
  pub confirmed_appointment_id : Option String
  pub customer_first_name : String
  pub customer_last_name : String
  pub service_name : String
  pub variant_name : Option String
  pub branch_name : String
  pub branch_timezone : String
  pub specialist_name : Option String

pub record AppointmentRecord : Type 0 where
  pub id : String
  pub status : String
  pub source : String
  pub scheduled_at : Time
  pub ends_at : Time
  pub duration_minutes : ℤ
  pub estimated_price : Option ℤ
  pub currency_code : Option String

pub record Confirmation : Type 0 where
  pub idempotent : Bool
  pub appointment : AppointmentRecord

pub record CreateInput : Type 0 where
  pub customer_id : String
  pub service_id : String
  pub service_variant_id : String
  pub branch_id : String
  pub specialist_id : String
  pub scheduled_at : String
  pub customer_notes : String
  pub idempotency_key : String

pub record ConfirmInput : Type 0 where
  pub draft_id : String
  pub idempotency_key : String

pub record DraftView : Type 0 where
  pub draft_id : String
  pub status : String
  pub reused : Bool
  pub scheduled_at : Time
  pub ends_at : Time
  pub timezone : String
  pub duration_minutes : ℤ
  pub estimated_price : Option ℤ
  pub currency_code : Option String
  pub expires_at : Time
  pub customer : Ref
  pub service : Ref
  pub variant : Option Ref
  pub branch : Ref
  pub specialist : Option Ref
  pub confirmed_appointment_id : Option String
  pub human_summary : String

-- `AppointmentView` has the fields of `AppointmentRecord`.
pub record ConfirmResult : Type 0 where
  pub draft_id : String
  pub idempotent : Bool
  pub timezone : String
  pub appointment : AppointmentRecord
  pub message : String

-- `Store` over a database in state W. The lookups read the state; an insert that finds the key used
-- answers `none`.
pub record DraftStore (W : Type 0) : Type 0 where
  pub customer : W → (tenant_id customer_id : String) → Result Customer
  pub variant : W → (tenant_id service_id variant_id : String) → Result Variant
  pub draft_by_key : W → (tenant_id connection_id key : String) → Result Draft
  pub draft : W → (tenant_id draft_id : String) → Result Draft
  pub insert_draft : W → NewDraft → Result (Option String) × W
  pub confirm : W → (draft_id actor_user_id : String) → Result Confirmation × W

-- Whether two faults are the same sentinel.
abbrev pub same_fault : DraftFault → DraftFault → Bool
same_fault draft_not_found draft_not_found = true
same_fault unauthorized unauthorized = true
same_fault invalid_status invalid_status = true
same_fault draft_expired draft_expired = true
same_fault specialist_unavailable specialist_unavailable = true
same_fault _ _ = false

-- `errors.Is(err, fault)`
unfoldable pub is_fault : DraftFault → Err → Bool
is_fault f (fault g) = same_fault g f
is_fault f (wrapped text e) = is_fault f e
is_fault f (business k message) = false
is_fault f (sentinel k) = false
is_fault f (other text) = false
