-- ===== src/Database/Conflicts.antt =====
-- The appointments table: bookings that are in conflict.
use booknow_mcp_service.Base.{
  ℤ, ◌≤ℤ◌, ◌<ℤ◌, String, List, [], ◌∷◌, All, Option, none, some, Bool, true, false, ◌&&◌, eq_iff,
  eq_refl, ◌≡◌, refl, sym, ap, ◌∙◌, ◌⊎◌, inl, inr, arith, Bool-cases, Err,
}
use booknow_mcp_service.Business.Types.{Time}
use booknow_mcp_service.Business.Dates.{before}
use booknow_mcp_service.Drafts.Types.{NewDraft}
use booknow_mcp_service.Database.Keys.{some-injective, none_not_some, text_same}
use booknow_mcp_service.Database.{AppointmentRow, Database, stored_unless}
use booknow_mcp_service.Database.Confirm.{
  is_specialist, same_specialist, ranges_overlap, exists_or, overlaps, is_booked, appointment_of,
}

-- An appointment that takes the specialist's time.
abbrev pub IsBooked : String → Type 0
IsBooked s = (s ≡ "pending") ⊎ (s ≡ "confirmed") ⊎ (s ≡ "in_progress")

abbrev pub EndsAfter : Option Time → ℤ → Type 0
EndsAfter none t = Unit {0}
EndsAfter (some e) t = t <ℤ e.at

-- Two appointments that take the same specialist at the same instant.
pub record Conflict (a b : AppointmentRow) : Type 0 where
  pub same_tenant : a.tenant_id ≡ b.tenant_id
  pub specialist : String
  pub left_specialist : a.specialist_id ≡ some specialist
  pub right_specialist : b.specialist_id ≡ some specialist
  pub left_booked : IsBooked a.status
  pub right_booked : IsBooked b.status
  pub instant : ℤ
  pub left_started : a.scheduled_at.at ≤ℤ instant
  pub left_running : EndsAfter a.ends_at instant
  pub right_started : b.scheduled_at.at ≤ℤ instant
  pub right_running : EndsAfter b.ends_at instant

-- No two of the appointments are in conflict.
abbrev pub NoConflicts : List AppointmentRow → Type 0
NoConflicts [] = Unit {0}
NoConflicts (a ∷ rows) = All (λ b. ¬ Conflict a b) rows × NoConflicts rows

before_both : (s u : Time) (x : ℤ) → s.at ≤ℤ x → x <ℤ u.at → before s u ≡ true
before_both s u x h k = ground arith

not-before_both : (s u : Time) (x : ℤ) → s.at ≤ℤ x → x <ℤ u.at → before u s ≡ false
not-before_both s u x h k = ground arith

true_not_false : some true ≡ some false → ⊥
true_not_false h = cc

-- A test for overlaps that finds none is right.
not-overlap :
    (s : Time) (e : Option Time) (t u : Time) (x : ℤ)
    → ranges_overlap s e t u ≡ some false
    → s.at ≤ℤ x
    → EndsAfter e x
    → t.at ≤ℤ x
    → x <ℤ u.at
    → ⊥
not-overlap s none t u x h p q r l =
    true_not_false
      (rw (not-before_both t u x r l, before_both t u x r l, before_both s u x p l) at h)
not-overlap s (some e) t u x h p q r l = true_not_false (
    rw
      (
        not-before_both s e x p q,
        not-before_both t u x r l,
        before_both s e x p q,
        before_both t u x r l,
        before_both s u x p l,
        before_both t e x r q,
      )
      at h)

is_booked-IsBooked : (s : String) → IsBooked s → is_booked s ≡ true
is_booked-IsBooked s h =
    ground (arith, eq_iff s "pending", eq_iff s "confirmed", eq_iff s "in_progress")

both_ways : true ≡ false → ⊥
both_ways h = cc

is_specialist-eq : (o : Option String) (p : String) → o ≡ some p → is_specialist p o ≡ true
is_specialist-eq o p e = rw e (eq_refl p)

all_three : (a b c : Bool) → a ≡ true → b ≡ true → c ≡ true → (a && (b && c)) ≡ true
all_three a b c p q r = ground arith

-- A draft without a specialist is in conflict with no appointment.
pub no_specialist :
    (id : String) (d : NewDraft)
    → d.specialist_id ≡ none
    → (rows : List AppointmentRow) → All (λ b. ¬ Conflict (appointment_of id d) b) rows
no_specialist id d of [] = tt
no_specialist id d of (a ∷ rows) =
    (λ c. none_not_some (sym of ∙ c.left_specialist), no_specialist id d of rows)

pub stored_unless-appointments :
    (refused : Option Err) (id : String) (d : NewDraft) (db : Database)
    → (stored_unless refused id d db).1.appointments ≡ db.appointments
stored_unless-appointments (some e) id d db = refl
stored_unless-appointments none id d db = refl

module _ (id specialist : String) (d : NewDraft) (of : d.specialist_id ≡ some specialist) where
  Conflict-same_specialist :
      (a : AppointmentRow)
      → Conflict (appointment_of id d) a
      → same_specialist d.tenant_id specialist a ≡ true
  Conflict-same_specialist a c =
      let same : c.specialist ≡ specialist = some-injective (sym c.left_specialist ∙ of) in
      all_three _ _ _ (text_same (sym c.same_tenant))
        (is_specialist-eq a.specialist_id specialist (c.right_specialist ∙ ap some same))
        (is_booked-IsBooked a.status c.right_booked)

  exists_or-false :
      (o rest : Option Bool)
      → exists_or o rest ≡ some false
      → (o ≡ some false) × (rest ≡ some false)
  exists_or-false none rest h = ground arith
  exists_or-false (some true) rest h = ground arith
  exists_or-false (some false) rest h = (refl, h)

  -- A draft that overlaps no appointment of its specialist is in conflict with none.
  pub overlaps-Conflict :
      (rows : List AppointmentRow)
      → overlaps specialist d rows ≡ some false
      → All (λ b. ¬ Conflict (appointment_of id d) b) rows
  unfolding overlaps
  overlaps-Conflict [] h = tt
  overlaps-Conflict (a ∷ rows) h = elim (Bool-cases (same_specialist d.tenant_id specialist a)) [
    | inl same ↦
        let (free, rest) = exists_or-false _ _ (rw same at h) in
        (
          λ c.
              not-overlap a.scheduled_at a.ends_at d.scheduled_at d.ends_at c.instant free
                c.right_started c.right_running c.left_started c.left_running,
          overlaps-Conflict rows rest,
        )
    | inr other ↦ (
      λ c. both_ways (sym (Conflict-same_specialist a c) ∙ other),
      overlaps-Conflict rows (rw other at h),
    )
  ]
