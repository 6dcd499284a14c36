-- ===== src/Business/Slots/Hours/Works.antt =====
-- slots.go, specialistWindows: when a specialist works, said of the exceptions and shifts themselves.
use booknow_mcp_service.Base.{
  ℤ, ◌<ℤ◌, String, List, [], ◌∷◌, Option, none, some, Bool, true, false, eq_iff, eq_refl, All, Any,
  ◌≡◌, ◌≢◌, sym, ◌∙◌, ◌⊎◌, ◌↔◌, inl, inr, arith, Bool-cases, Option-cases,
}
use booknow_mcp_service.Business.Types.Booking.{Shift, SpecialistSchedule, ScheduleException}
use booknow_mcp_service.Business.Slots.Clock.{parse_clock}
use booknow_mcp_service.Business.Slots.Intervals.{Interval, Inside, Apart}
use booknow_mcp_service.Business.Slots.Hours.{
  clock_range, optional_range, is_blocking, effect_of, is_of, specialist_windows,
}
use booknow_mcp_service.Business.Slots.Hours.Effects.{TakesDay, OnRange, BlocksOnly}
use booknow_mcp_service.Business.Slots.Hours.Windows.{
  FitsShift, InHours, FitsOption, Fits-specialist_windows_iff,
}
use booknow_mcp_service.Business.Slots.Hours.Special.{
  AreHours, AreGiven, SetsNone, HasSpecial, id_is-eq-some, effect_of-special_none,
  effect_of-special_some, special-cases, some-between, between-eq-some, optional_range_iff,
  none_not_some, true_not_false, some_injective,
}

-- An absence: vacation, sickness or a holiday.
abbrev pub IsAbsence : ScheduleException → Type 0
IsAbsence ex = (ex.type ≡ "vacation") ⊎ (ex.type ≡ "sick") ⊎ (ex.type ≡ "holiday")

-- Two texts that are no hours.
abbrev pub NoHours : Option String → Option String → Type 0
NoHours start end = (r : Interval) → ¬ (AreGiven start end r)

-- The exception takes the whole day: it says so, or it is an absence without hours.
abbrev pub TakesAll : ScheduleException → Type 0
TakesAll ex = (ex.day_off ≡ true) ⊎ (IsAbsence ex × NoHours ex.start ex.end)

-- Two texts that are no hours, or hours that satisfy P.
abbrev pub HoursOnly : (Interval → Type 0) → Option String → Option String → Type 0
HoursOnly P start end = NoHours start end ⊎ ((r : Interval) × AreGiven start end r × P r)

module _ (a b : ℤ) where
  -- The range lies in the hours of a shift and outside its break, if it has one.
  abbrev pub InShiftHours : Shift → Type 0
  InShiftHours sh =
      (r : Interval) × AreHours sh.start sh.end r
      × Inside a b r
      × HoursOnly (Apart a b) sh.break_start sh.break_end

  -- The specialist works through the range.
  pub record Works (exs : List ScheduleException) (sp : SpecialistSchedule) : Type 0 where
    pub present : ¬ (Any (λ ex. (ex.specialist_id ≡ some sp.id) × TakesAll ex) exs)
    pub in_hours :
        ((r : Interval) × HasSpecial sp.id exs r × Inside a b r)
        ⊎ (SetsNone sp.id exs × Any InShiftHours sp.shifts)
    pub no_absence :
        All
          (λ ex.
            (ex.specialist_id ≢ some sp.id)
            ⊎ (ex.day_off ≡ true)
            ⊎ (¬ (IsAbsence ex))
            ⊎ HoursOnly (Apart a b) ex.start ex.end)
          exs

is_of_own : (id : String) (ex : ScheduleException) → ex.specialist_id ≡ some id → is_of id ex ≡ true
is_of_own id ex e = rw e (eq_refl id)

is_of_iff :
    (id : String) (ex : ScheduleException) → (is_of id ex ≡ true) ↔ (ex.specialist_id ≡ some id)
is_of_iff id ex = (id_is-eq-some id ex.specialist_id, is_of_own id ex)

false_iff : (b : Bool) {P : Type 0} → ((b ≡ true) ↔ P) → (b ≡ false) ↔ (¬ P)
false_iff b is = (
  λ no_b p. true_not_false (is.1 p) no_b,
  λ no_p. elim (Bool-cases b) [ inl holds ↦ absurd (no_p (is.0 holds)) | inr fails ↦ fails ],
)

is_blocking_iff : (ex : ScheduleException) → (is_blocking ex.type ≡ true) ↔ IsAbsence ex
is_blocking_iff ex =
    ground (arith, eq_iff ex.type "vacation", eq_iff ex.type "sick", eq_iff ex.type "holiday")

optional_range-none_iff :
    (start end : Option String) → (optional_range start end ≡ none) ↔ NoHours start end
optional_range-none_iff start end = (
  λ h r g. none_not_some (sym h ∙ (optional_range_iff start end r).1 g),
  λ h. elim (Option-cases (optional_range start end)) [
    | inl is ↦ is
    | inr (r, is) ↦ absurd (h r ((optional_range_iff start end r).0 is))
  ],
)

TakesDay-TakesAll_iff : (ex : ScheduleException) → TakesDay ex ↔ TakesAll ex
TakesDay-TakesAll_iff ex =
    ground (arith, is_blocking_iff ex, optional_range-none_iff ex.start ex.end)

OnRange-HoursOnly_iff :
    (P : Interval → Type 0) (start end : Option String)
    → OnRange P (optional_range start end) ↔ HoursOnly P start end
OnRange-HoursOnly_iff P start end = elim (Option-cases (optional_range start end)) [
  | inl is ↦ rw is (λ h. inl ((optional_range-none_iff start end).0 is), λ h. tt)
  | inr (r, is) ↦
      let given = (optional_range_iff start end r).0 is in
      rw is (
        λ h. inr (r, given, h),
        elim [
          | inl no_hours ↦ absurd (no_hours r given)
          | inr (q, also, h) ↦
              let same : q ≡ r =
                some_injective (sym ((optional_range_iff start end q).1 also) ∙ is) in
              rw (← same) h
        ],
      )
]

BlocksOnly-iff :
    (P : Interval → Type 0) (ex : ScheduleException)
    → BlocksOnly P ex ↔ ((ex.day_off ≡ true) ⊎ (¬ (IsAbsence ex)) ⊎ HoursOnly P ex.start ex.end)
BlocksOnly-iff P ex = ground (
  arith,
  false_iff (is_blocking ex.type) (is_blocking_iff ex),
  OnRange-HoursOnly_iff P ex.start ex.end,
)

clock_range_iff :
    (start end : String) (r : Interval) → (clock_range start end ≡ some r) ↔ AreHours start end r
unfolding clock_range
clock_range_iff start end r = (
  λ h.
      let (p, q, l) = between-eq-some (parse_clock start) (parse_clock end) r h in
      record { from_is = p; to_is = q; ordered = l },
  λ g. rw (g.from_is, g.to_is) (some-between r g.ordered),
)

FitsShift-InShiftHours_iff : (a b : ℤ) (sh : Shift) → FitsShift a b sh ↔ InShiftHours a b sh
FitsShift-InShiftHours_iff a b sh =
    let rest = OnRange-HoursOnly_iff (Apart a b) sh.break_start sh.break_end in
    elim (Option-cases (clock_range sh.start sh.end)) [
      | inl is ↦ rw is (
        λ h. absurd h,
        λ (r, hours, inside, free).
            none_not_some (sym is ∙ (clock_range_iff sh.start sh.end r).1 hours),
      )
      | inr (r, is) ↦ rw is (
        λ h. (r, (clock_range_iff sh.start sh.end r).0 is, h.0, rest.0 (h.1)),
        λ (q, hours, inside, free).
            let same : q ≡ r =
              some_injective (sym ((clock_range_iff sh.start sh.end q).1 hours) ∙ is) in
            (rw (← same) inside, rest.1 free),
      )
    ]

Any-iff :
    {A : Type 0} (P Q : A → Type 0) (xs : List A) → ((x : A) → P x ↔ Q x) → Any P xs ↔ Any Q xs
Any-iff P Q [] f = (λ h. h, λ h. h)
Any-iff P Q (x ∷ xs) f =
    let rest = Any-iff P Q xs f in
    (
      elim [ inl p ↦ inl ((f x).0 p) | inr r ↦ inr (rest.0 r) ],
      elim [ inl q ↦ inl ((f x).1 q) | inr r ↦ inr (rest.1 r) ],
    )

All-iff :
    {A : Type 0} (P Q : A → Type 0) (xs : List A) → ((x : A) → P x ↔ Q x) → All P xs ↔ All Q xs
All-iff P Q [] f = (λ h. h, λ h. h)
All-iff P Q (x ∷ xs) f =
    let rest = All-iff P Q xs f in
    (λ h. ((f x).0 (h.0), rest.0 (h.1)), λ h. ((f x).1 (h.0), rest.1 (h.1)))

module _ (a b : ℤ) (exs : List ScheduleException) (sp : SpecialistSchedule) where
  present_iff :
      Any (λ ex. (is_of sp.id ex ≡ true) × TakesDay ex) exs
      ↔ Any (λ ex. (ex.specialist_id ≡ some sp.id) × TakesAll ex) exs
  present_iff = Any-iff _ _ exs (λ ex.
      let own = is_of_iff sp.id ex in
      let takes = TakesDay-TakesAll_iff ex in
      (λ h. (own.0 (h.0), takes.0 (h.1)), λ h. (own.1 (h.0), takes.1 (h.1))))

  blocks_iff :
      All (λ ex. (is_of sp.id ex ≡ false) ⊎ BlocksOnly (Apart a b) ex) exs
      ↔ All
          (λ ex.
            (ex.specialist_id ≢ some sp.id)
            ⊎ (ex.day_off ≡ true)
            ⊎ (¬ (IsAbsence ex))
            ⊎ HoursOnly (Apart a b) ex.start ex.end)
          exs
  blocks_iff = All-iff _ _ exs (λ ex.
      let other = false_iff (is_of sp.id ex) (is_of_iff sp.id ex) in
      let blocks = BlocksOnly-iff (Apart a b) ex in
      (
        elim [ inl o ↦ inl (other.0 o) | inr h ↦ inr (blocks.0 h) ],
        elim [ inl o ↦ inl (other.1 o) | inr h ↦ inr (blocks.1 h) ],
      ))

  special_holds : (r q : Interval) → HasSpecial sp.id exs r → HasSpecial sp.id exs q → r ≡ q
  special_holds r q h k =
      some_injective
        (sym (effect_of-special_some sp.id exs r h) ∙ effect_of-special_some sp.id exs q k)

  InHours-iff : InHours a b (effect_of exs (is_of sp.id)).special sp.shifts ↔ (
      ((r : Interval) × HasSpecial sp.id exs r × Inside a b r)
      ⊎ (SetsNone sp.id exs × Any (InShiftHours a b) sp.shifts))
  InHours-iff =
      let shifts =
        Any-iff (FitsShift a b) (InShiftHours a b) sp.shifts (FitsShift-InShiftHours_iff a b) in
      elim (special-cases sp.id exs) [
        | inl (r, special) ↦
            let is = effect_of-special_some sp.id exs r special in
            rw is (
              λ h. inl (r, special, h),
              elim [
                | inl (q, also, h) ↦ rw (special_holds r q special also) h
                | inr (never, h) ↦
                    absurd (none_not_some (sym (effect_of-special_none sp.id exs never) ∙ is))
              ],
            )
        | inr never ↦
            let is = effect_of-special_none sp.id exs never in
            rw is (
              λ h. inr (never, shifts.0 h),
              elim [
                | inl (q, also, h) ↦
                    absurd (none_not_some (sym is ∙ effect_of-special_some sp.id exs q also))
                | inr (also, h) ↦ shifts.1 h
              ],
            )
      ]

  -- A range that is not empty fits the windows of a specialist exactly when the specialist works
  -- through it: no exception of theirs takes the day, the range lies in the special hours that the
  -- last exception to set any sets, or, where none does, in a shift and outside its break, and it
  -- meets no absence of theirs with hours.
  pub specialist_windows_iff :
      a <ℤ b → FitsOption a b (specialist_windows exs sp) ↔ Works a b exs sp
  specialist_windows_iff positive =
      let fits = Fits-specialist_windows_iff a b positive exs sp in
      (
        λ h.
            let (present, hours, free) = fits.0 h in
            record {
              present = λ t. present (present_iff.1 t);
              in_hours = InHours-iff.0 hours;
              no_absence = blocks_iff.0 free;
            },
        λ w.
            fits.1 (
              λ t. w.present (present_iff.0 t),
              InHours-iff.1 w.in_hours,
              blocks_iff.1 w.no_absence,
            ),
      )
