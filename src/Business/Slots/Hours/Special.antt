-- ===== src/Business/Slots/Hours/Special.antt =====
-- slots.go: when a specialist works, said of the exceptions and shifts themselves.
use booknow_mcp_service.Base.{
  ℤ, ◌<ℤ◌, String, List, [], ◌∷◌, Option, none, some, Bool, true, false, not, ◌&&◌, str_eq, eq_iff,
  eq_refl, All, ◌≡◌, refl, sym, ap, ◌∙◌, ◌⊎◌, ◌↔◌, inl, inr, arith, Bool-cases, if◌then◌else◌,
  leb_ℤ,
}
use booknow_mcp_service.Business.Types.Booking.{ScheduleException}
use booknow_mcp_service.Business.Slots.Clock.{parse_clock}
use booknow_mcp_service.Business.Slots.Intervals.{Interval}
use booknow_mcp_service.Business.Slots.Hours.{
  between, clock_range, optional_range, ExceptionEffect, no_effect, add_exception, effect_from,
  effect_of, is_of, id_is,
}

-- The hours of two clock texts: both are times of the day, and the second is later.
pub record AreHours (start end : String) (r : Interval) : Type 0 where
  pub from_is : parse_clock start ≡ some r.start
  pub to_is : parse_clock end ≡ some r.end
  pub ordered : r.start <ℤ r.end

-- The hours of two texts that are both given.
pub record AreGiven (start end : Option String) (r : Interval) : Type 0 where
  pub start_text : String
  pub end_text : String
  pub start_is : start ≡ some start_text
  pub end_is : end ≡ some end_text
  pub hours : AreHours start_text end_text r

pub some_injective {ℓ} : {A : Type ℓ} {a b : A} → some a ≡ some b → a ≡ b
some_injective h = cc

pub none_not_some {ℓ} : {A : Type ℓ} {a : A} → none ≡ some a → ⊥
none_not_some h = cc

early : (r : Interval) → r.start <ℤ r.end → leb_ℤ r.end r.start ≡ false
early r h = ground arith

pub between-eq-some :
    (a b : Option ℤ) (r : Interval)
    → between a b ≡ some r
    → (a ≡ some r.start) × (b ≡ some r.end) × (r.start <ℤ r.end)
between-eq-some none b r h = cc
between-eq-some (some a) none r h = cc
between-eq-some (some a) (some b) r h = elim (Bool-cases (leb_ℤ b a)) [
  | inl late ↦ absurd (none_not_some (rw late at h))
  | inr early ↦ let is = some_injective (rw early at h) in rw (← is) (refl, refl, ground arith)
]

pub some-between : (r : Interval) → r.start <ℤ r.end → between (some r.start) (some r.end) ≡ some r
some-between r h = rw (early r h) refl

pub optional_range_iff :
    (start end : Option String) (r : Interval)
    → (optional_range start end ≡ some r) ↔ AreGiven start end r
unfolding optional_range clock_range
optional_range_iff none end r =
    (λ h. absurd (none_not_some h), λ g. absurd (none_not_some g.start_is))
optional_range_iff (some s) none r =
    (λ h. absurd (none_not_some h), λ g. absurd (none_not_some g.end_is))
optional_range_iff (some s) (some e) r = (
  λ h.
      let (p, q, l) = between-eq-some (parse_clock s) (parse_clock e) r h in
      record {
        start_text = s;
        end_text = e;
        start_is = refl;
        end_is = refl;
        hours = record { from_is = p; to_is = q; ordered = l };
      },
  λ g.
      rw (some_injective g.start_is, some_injective g.end_is, g.hours.from_is, g.hours.to_is)
        (some-between r g.hours.ordered),
)

-- An exception that sets special hours for a specialist.
pub record SetsHours (id : String) (ex : ScheduleException) (r : Interval) : Type 0 where
  pub own : ex.specialist_id ≡ some id
  pub type_is : ex.type ≡ "special_hours"
  pub works : ex.day_off ≡ false
  pub hours : AreGiven ex.start ex.end r

-- No exception sets special hours for the specialist.
abbrev pub SetsNone : String → List ScheduleException → Type 0
SetsNone id exs = All (λ ex. (r : Interval) → ¬ (SetsHours id ex r)) exs

-- The special hours are those of the last exception that sets any.
abbrev pub HasSpecial : String → List ScheduleException → Interval → Type 0
HasSpecial id [] r = ⊥
HasSpecial id (ex ∷ exs) r = HasSpecial id exs r ⊎ (SetsHours id ex r × SetsNone id exs)

abbrev next_effect : String → ScheduleException → ExceptionEffect → ExceptionEffect
next_effect id ex effect =
    if is_of id ex then add_exception ex (optional_range ex.start ex.end) effect else effect

sets-next_effect :
    (id : String) (ex : ScheduleException) (effect : ExceptionEffect) (r : Interval)
    → SetsHours id ex r
    → (next_effect id ex effect).special ≡ some r
unfolding add_exception
sets-next_effect id ex effect r s =
    rw (s.own, eq_refl id, (optional_range_iff ex.start ex.end r).1 s.hours, s.type_is, s.works)
      refl

pub id_is-eq-some : (id : String) (o : Option String) → id_is id o ≡ true → o ≡ some id
id_is-eq-some id none h = cc
id_is-eq-some id (some i) h = ap some ((eq_iff i id).0 h)

pub true_not_false : {b : Bool} → b ≡ true → b ≡ false → ⊥
true_not_false p q = cc

add-no_hours :
    (ex : ScheduleException) (effect : ExceptionEffect)
    → (add_exception ex none effect).special ≡ effect.special
unfolding add_exception
add-no_hours ex effect = ground arith

add-other :
    (ex : ScheduleException) (r : Interval) (effect : ExceptionEffect)
    → str_eq ex.type "special_hours" && not ex.day_off ≡ false
    → (add_exception ex (some r) effect).special ≡ effect.special
unfolding add_exception
add-other ex r effect h = ground arith

works_then : (a b : Bool) → a && not b ≡ true → (a ≡ true) × (b ≡ false)
works_then a b h = ground arith

-- An exception sets special hours, or leaves those that there are.
abbrev Sets : String → ScheduleException → ExceptionEffect → Type 0
Sets id ex effect =
    ((r : Interval) × SetsHours id ex r)
    ⊎ (((r : Interval) → ¬ (SetsHours id ex r))
        × ((next_effect id ex effect).special ≡ effect.special))

own_cases :
    (id : String) (ex : ScheduleException) (effect : ExceptionEffect) (o : Option Interval)
    → is_of id ex ≡ true
    → optional_range ex.start ex.end ≡ o
    → Sets id ex effect
own_cases id ex effect none own is = inr (
  λ r s. none_not_some (sym is ∙ (optional_range_iff ex.start ex.end r).1 s.hours),
  rw (own, is) (add-no_hours ex effect),
)
own_cases id ex effect (some r) own is =
    elim (Bool-cases (str_eq ex.type "special_hours" && not ex.day_off)) [
      | inl special ↦
          let (type, works) = works_then _ _ special in
          inl (
            r,
            record {
              own = id_is-eq-some id ex.specialist_id own;
              type_is = (eq_iff ex.type "special_hours").0 type;
              works = works;
              hours = (optional_range_iff ex.start ex.end r).0 is;
            },
          )
      | inr other ↦ inr (
        λ q s. true_not_false (rw (s.type_is, s.works) refl) other,
        rw (own, is) (add-other ex r effect other),
      )
    ]

Sets-cases : (id : String) (ex : ScheduleException) (effect : ExceptionEffect) → Sets id ex effect
Sets-cases id ex effect = elim (Bool-cases (is_of id ex)) [
  | inl own ↦ own_cases id ex effect (optional_range ex.start ex.end) own refl
  | inr other ↦ inr (λ r s. true_not_false (rw s.own (eq_refl id)) other, rw other refl)
]

module _ (id : String) where
  none-special :
      (exs : List ScheduleException) (effect : ExceptionEffect)
      → SetsNone id exs
      → (effect_from (is_of id) effect exs).special ≡ effect.special
  unfolding effect_from
  none-special [] effect h = refl
  none-special (ex ∷ exs) effect h = elim (Sets-cases id ex effect) [
    | inl (r, s) ↦ absurd ((h.0) r s)
    | inr (never, same) ↦ none-special exs (next_effect id ex effect) (h.1) ∙ same
  ]

  has-special :
      (exs : List ScheduleException) (effect : ExceptionEffect) (r : Interval)
      → HasSpecial id exs r
      → (effect_from (is_of id) effect exs).special ≡ some r
  unfolding effect_from
  has-special [] effect r h = absurd h
  has-special (ex ∷ exs) effect r (inl later) = has-special exs (next_effect id ex effect) r later
  has-special (ex ∷ exs) effect r (inr last) =
      none-special exs (next_effect id ex effect) (last.1)
      ∙ sets-next_effect id ex effect r (last.0)

  pub special-cases :
      (exs : List ScheduleException) → ((r : Interval) × HasSpecial id exs r) ⊎ SetsNone id exs
  special-cases [] = inr tt
  special-cases (ex ∷ exs) = elim (special-cases exs) [
    | inl (r, h) ↦ inl (r, inl h)
    | inr none_later ↦ elim (Sets-cases id ex no_effect) [
      | inl (r, s) ↦ inl (r, inr (s, none_later))
      | inr (never, same) ↦ inr (never, none_later)
    ]
  ]

  pub effect_of-special_none :
      (exs : List ScheduleException) → SetsNone id exs → (effect_of exs (is_of id)).special ≡ none
  unfolding effect_of
  effect_of-special_none exs h = none-special exs no_effect h

  pub effect_of-special_some :
      (exs : List ScheduleException) (r : Interval)
      → HasSpecial id exs r
      → (effect_of exs (is_of id)).special ≡ some r
  unfolding effect_of
  effect_of-special_some exs r h = has-special exs no_effect r h
