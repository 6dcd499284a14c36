-- ===== src/Database/Links.antt =====
-- confirm_mcp_appointment_draft: the appointment of a confirmed draft is what the draft said.
use booknow_mcp_service.Base.{
  String, List, [], ◌∷◌, map, All, any, some, Bool, true, false, str_eq, eq_refl, ◌≡◌, refl, ap,
  ◌∙◌, ◌⊎◌, inl, inr, Bool-cases,
}
use booknow_mcp_service.Drafts.Types.{NewDraft}
use booknow_mcp_service.Database.{DraftRow, AppointmentRow, find_row, has_id}
use booknow_mcp_service.Database.Confirm.{appointment_of, confirm_row}
use booknow_mcp_service.Database.Keys.{
  IsKeyed, find_row-hit, some-injective, none_not_some, same_text,
}

abbrev has_appointment_id : String → AppointmentRow → Bool
has_appointment_id id a = str_eq a.id id

-- An appointment with the data of a draft.
pub record IsAppointmentOf (a : AppointmentRow) (n : NewDraft) : Type 0 where
  pub same_tenant : a.tenant_id ≡ n.tenant_id
  pub same_branch : a.branch_id ≡ n.branch_id
  pub same_customer : a.customer_id ≡ n.customer_id
  pub same_specialist : a.specialist_id ≡ n.specialist_id
  pub same_service : a.service_id ≡ n.service_id
  pub same_variant : a.service_variant_id ≡ n.variant_id
  pub same_start : a.scheduled_at ≡ n.scheduled_at
  pub same_end : a.ends_at ≡ some n.ends_at
  pub same_duration : a.duration_minutes ≡ n.duration_minutes
  pub same_price : a.estimated_price ≡ n.estimated_price

-- The appointment of a confirmed draft has the data of the draft.
pub record IsBookedAs (rows : List AppointmentRow) (d : DraftRow) : Type 0 where
  pub id : String
  pub id_is : d.confirmed_appointment_id ≡ some id
  pub appointment : AppointmentRow
  pub appointment_is : find_row (has_appointment_id id) rows ≡ some appointment
  pub same_data : IsAppointmentOf appointment d.booking

abbrev pub IsLinked : List AppointmentRow → DraftRow → Type 0
IsLinked rows d = (str_eq d.status "confirmed" ≡ false) ⊎ IsBookedAs rows d

pub appointment_of-IsAppointmentOf :
    (id : String) (n : NewDraft) → IsAppointmentOf (appointment_of id n) n
appointment_of-IsAppointmentOf id n = record {
  same_tenant = refl;
  same_branch = refl;
  same_customer = refl;
  same_specialist = refl;
  same_service = refl;
  same_variant = refl;
  same_start = refl;
  same_end = refl;
  same_duration = refl;
  same_price = refl;
}

true_not_false : {b : Bool} → b ≡ true → b ≡ false → ⊥
true_not_false p q = cc

find_row-any :
    (id : String) (rows : List AppointmentRow) {a : AppointmentRow}
    → find_row (has_appointment_id id) rows ≡ some a
    → any (has_appointment_id id) rows ≡ true
unfolding find_row
find_row-any id [] h = absurd (none_not_some h)
find_row-any id (b ∷ rows) h = elim (Bool-cases (has_appointment_id id b)) [
  | inl hit ↦ rw hit refl
  | inr miss ↦ rw miss (find_row-any id rows (rw miss at h))
]

find_row-skip :
    (id : String) (b : AppointmentRow) (rows : List AppointmentRow)
    → has_appointment_id id b ≡ false
    → find_row (has_appointment_id id) (b ∷ rows) ≡ find_row (has_appointment_id id) rows
unfolding find_row
find_row-skip id b rows h = rw h refl

module _ (draft_id id : String) (booking : NewDraft) (rows : List AppointmentRow)
    (new : any (has_appointment_id id) rows ≡ false) where
  abbrev more : List AppointmentRow
  more = appointment_of id booking ∷ rows

  -- A new appointment hides no other.
  IsLinked-more : (d : DraftRow) → IsLinked rows d → IsLinked more d
  IsLinked-more d (inl pending) = inl pending
  IsLinked-more d (inr b) = elim (Bool-cases (str_eq id b.id)) [
    | inl same ↦ absurd (
        true_not_false
          (ap (λ k. any (has_appointment_id k) rows) (same_text id b.id same)
            ∙ find_row-any b.id rows b.appointment_is)
          new)
    | inr other ↦ inr (record {
      id = b.id;
      id_is = b.id_is;
      appointment = b.appointment;
      same_data = b.same_data;
      appointment_is = find_row-skip b.id (appointment_of id booking) rows other ∙ b.appointment_is;
    })
  ]

  others-IsLinked :
      (ds : List DraftRow)
      → All (λ (d : DraftRow). str_eq d.id draft_id ≡ false) ds
      → All (IsLinked rows) ds
      → All (IsLinked more) (map (confirm_row draft_id id) ds)
  others-IsLinked [] other linked = tt
  others-IsLinked (d ∷ ds) other linked =
      rw (other.0) (IsLinked-more d (linked.0), others-IsLinked ds (other.1) (linked.1))

  updated_row-IsLinked :
      (d : DraftRow)
      → str_eq d.id draft_id ≡ true
      → d.booking ≡ booking
      → IsLinked more (confirm_row draft_id id d)
  updated_row-IsLinked d hit booked = rw hit (
      inr (record {
        id = id;
        id_is = refl;
        appointment = appointment_of id booking;
        appointment_is =
            find_row-hit (has_appointment_id id) (appointment_of id booking) rows (eq_refl id);
        same_data = rw booked (appointment_of-IsAppointmentOf id booking);
      }))

  pub updated-IsLinked :
      (to_lower : String → String) (ds : List DraftRow) (row : DraftRow)
      → IsKeyed to_lower ds
      → find_row (has_id draft_id) ds ≡ some row
      → row.booking ≡ booking
      → All (IsLinked rows) ds
      → All (IsLinked more) (map (confirm_row draft_id id) ds)
  unfolding find_row
  updated-IsLinked to_lower [] row keyed found is linked = tt
  updated-IsLinked to_lower (d ∷ ds) row keyed found is linked =
      elim (Bool-cases (has_id draft_id d)) [
        | inl hit ↦
            let same : d ≡ row = some-injective (rw hit at found) in
            let booked : d.booking ≡ booking = ap (λ (e : DraftRow). e.booking) same ∙ is in
            (
              updated_row-IsLinked d hit booked,
              others-IsLinked ds (rw (← same_text d.id draft_id hit) (keyed.1)) (linked.1),
            )
        | inr miss ↦ rw miss (
          IsLinked-more d (linked.0),
          updated-IsLinked to_lower ds row (keyed.2) (rw miss at found) is (linked.1),
        )
      ]
