-- ===== src/Database/Booked.antt =====
-- confirm_mcp_appointment_draft: what a confirmation that books changes, row by row.
use booknow_mcp_service.Base.{
  String, List, [], ◌∷◌, map, Option, none, some, Bool, true, false, any, str_eq, eq_iff, All, Any,
  ◌≤ℤ◌, ◌≡◌, ◌≢◌, refl, ◌⊎◌, inl, inr, arith, if◌then◌else◌, Bool-cases,
}
use booknow_mcp_service.Business.Types.{Time}
use booknow_mcp_service.Drafts.Types.{NewDraft}
use booknow_mcp_service.Database.{
  AppointmentRow, AppointmentServiceRow, Database, DraftRow, TenantUser, find_row, has_id,
}
use booknow_mcp_service.Database.Confirm.{manages, or_true, appointment_of, service_of}
use booknow_mcp_service.Database.Conflicts.{Conflict}
use booknow_mcp_service.Database.Keys.{some-injective, none_not_some}
use booknow_mcp_service.Database.Bookings.{Books, checked_overlap-Conflict}
use booknow_mcp_service.Database.Links.{IsAppointmentOf, appointment_of-IsAppointmentOf}

-- A user who manages a tenant: an active owner, admin or manager of it.
pub record IsManager (tenant user : String) (u : TenantUser) : Type 0 where
  pub of_tenant : u.tenant_id ≡ tenant
  pub is_user : u.auth_user_id ≡ user
  pub is_active : u.is_active ≢ some false
  pub role_is : (u.role ≡ "owner") ⊎ (u.role ≡ "admin") ⊎ (u.role ≡ "manager")

-- The booked service of an appointment.
pub record IsServiceOf (e : AppointmentServiceRow) (id : String) (n : NewDraft) : Type 0 where
  pub of_appointment : e.appointment_id ≡ id
  pub same_service : e.service_id ≡ n.service_id
  pub same_variant : e.service_variant_id ≡ n.variant_id
  pub same_specialist : e.specialist_id ≡ n.specialist_id
  pub same_duration : e.duration_minutes ≡ n.duration_minutes
  pub same_price : e.price ≡ n.estimated_price

-- A draft that is pending and has not expired became one new appointment with one service, and is
-- confirmed with its id; nothing else changed. The user manages its tenant, and the appointment is in
-- conflict with no other.
pub record IsBooking (now : Time) (db : Database) (draft_id user : String) (after : Database)
    : Type 0 where
  pub row : DraftRow
  pub row_in : Any (λ (r : DraftRow). r ≡ row) db.drafts
  pub row_is : row.id ≡ draft_id
  pub managed : Any (IsManager row.booking.tenant_id user) db.tenant_users
  pub was_draft : row.status ≡ "draft"
  pub in_time : now.at ≤ℤ row.booking.expires_at.at
  pub appointment : AppointmentRow
  pub booked_is : IsAppointmentOf appointment row.booking
  pub status_is : appointment.status ≡ "pending"
  pub free : All (λ b. ¬ Conflict appointment b) db.appointments
  pub is_new : All (λ (b : AppointmentRow). b.id ≢ appointment.id) db.appointments
  pub service : AppointmentServiceRow
  pub service_is : IsServiceOf service appointment.id row.booking
  pub appointments_are : after.appointments ≡ appointment ∷ db.appointments
  pub services_are : after.appointment_services ≡ service ∷ db.appointment_services
  pub drafts_are :
      after.drafts
      ≡ map
          (λ (d : DraftRow).
            if str_eq d.id draft_id
            then (record d { status = "confirmed"; confirmed_appointment_id = some appointment.id })
            else d)
          db.drafts
  pub users_are : after.tenant_users ≡ db.tenant_users

not_inactive : (o : Option Bool) → or_true o ≡ true → o ≢ some false
not_inactive none h e = cc
not_inactive (some b) h e = cc

manages-IsManager :
    (tenant user : String) (u : TenantUser) → manages tenant user u ≡ true → IsManager tenant user u
manages-IsManager tenant user u h = record {
  of_tenant = ground (arith, eq_iff u.tenant_id tenant);
  is_user = ground (arith, eq_iff u.auth_user_id user);
  is_active = not_inactive u.is_active (ground arith);
  role_is = ground (arith, eq_iff u.role "owner", eq_iff u.role "admin", eq_iff u.role "manager");
}

any-Any :
    {A : Type 0} (p : A → Bool) (P : A → Type 0) (xs : List A)
    → ((x : A) → p x ≡ true → P x)
    → any p xs ≡ true
    → Any P xs
any-Any p P [] f h = cc
any-Any p P (x ∷ xs) f h = elim (Bool-cases (p x)) [
  | inl holds ↦ inl (f x holds)
  | inr fails ↦ inr (any-Any p P xs f (rw fails at h))
]

none-All :
    (id : String) (rows : List AppointmentRow)
    → any (λ (a : AppointmentRow). str_eq a.id id) rows ≡ false
    → All (λ (b : AppointmentRow). b.id ≢ id) rows
none-All id [] h = tt
none-All id (a ∷ rows) h = ground (arith, eq_iff a.id id, none-All id rows)

found-IsIn :
    (id : String) (rows : List DraftRow) (row : DraftRow)
    → find_row (has_id id) rows ≡ some row
    → Any (λ (r : DraftRow). r ≡ row) rows × (row.id ≡ id)
unfolding find_row
found-IsIn id [] row h = absurd (none_not_some h)
found-IsIn id (d ∷ rows) row h = elim (Bool-cases (str_eq d.id id)) [
  | inl hit ↦
      let same : d ≡ row = some-injective (rw hit at h) in
      (inl same, rw (← same) ((eq_iff d.id id).0 hit))
  | inr miss ↦ let (i, is) = found-IsIn id rows row (rw miss at h) in (inr i, is)
]

pub Books-IsBooking :
    (now : Time) (db : Database) (draft_id user : String) (after : Database)
    → Books now db draft_id user after
    → IsBooking now db draft_id user after
Books-IsBooking now db draft_id user after b =
    let (row_in, row_is) = found-IsIn draft_id db.drafts b.row b.found in
    rw (← b.after_is) (record {
      row = b.row;
      row_in = row_in;
      row_is = row_is;
      managed =
          any-Any _ _ db.tenant_users (manages-IsManager b.row.booking.tenant_id user) b.managed;
      was_draft = (eq_iff b.row.status "draft").0 b.is_draft;
      in_time = let early = b.not_expired in ground arith;
      appointment = appointment_of b.id b.row.booking;
      booked_is = appointment_of-IsAppointmentOf b.id b.row.booking;
      status_is = refl;
      free =
          checked_overlap-Conflict b.id b.row.booking b.row.booking.specialist_id db.appointments
            refl b.free;
      is_new = none-All b.id db.appointments b.id_new;
      service = service_of b.id b.row.booking;
      service_is = record {
        of_appointment = refl;
        same_service = refl;
        same_variant = refl;
        same_specialist = refl;
        same_duration = refl;
        same_price = refl;
      };
      appointments_are = refl;
      services_are = refl;
      drafts_are = refl;
      users_are = refl;
    })
