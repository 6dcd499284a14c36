-- ===== src/Business/Slots/Hours/Effects.antt =====
-- slots.go, effectOf: what the exceptions of a day amount to.
use booknow_mcp_service.Base.{
  String, List, [], ◌∷◌, Option, none, some, Bool, true, false, str_eq, ◌≡◌, ◌⊎◌, ◌↔◌, All, Any,
  All-append_iff, arith, eq_iff,
}
use booknow_mcp_service.Business.Types.Booking.{ScheduleException}
use booknow_mcp_service.Business.Slots.Intervals.{Interval}
use booknow_mcp_service.Business.Slots.Hours.{
  optional_range, is_blocking, ExceptionEffect, no_effect, add_exception, effect_from, effect_of,
  special_hours_type,
}

-- The exception takes the whole day: it says so, or it is an absence without valid hours.
abbrev pub TakesDay : ScheduleException → Type 0
TakesDay ex =
    (ex.day_off ≡ true) ⊎ ((is_blocking ex.type ≡ true) × (optional_range ex.start ex.end ≡ none))

abbrev pub OnRange : (Interval → Type 0) → Option Interval → Type 0
OnRange P none = Unit
OnRange P (some r) = P r

-- What the exception blocks satisfies P: an absence with valid hours blocks them, on a day that it
-- does not take whole; any other exception blocks nothing.
abbrev pub BlocksOnly : (Interval → Type 0) → ScheduleException → Type 0
BlocksOnly P ex =
    (ex.day_off ≡ true) ⊎ (is_blocking ex.type ≡ false) ⊎ OnRange P (optional_range ex.start ex.end)

add-day_off :
    (ex : ScheduleException) (o : Option Interval) (effect : ExceptionEffect)
    → ((add_exception ex o effect).day_off ≡ true) ↔ (
        (effect.day_off ≡ true) ⊎ (ex.day_off ≡ true) ⊎ ((is_blocking ex.type ≡ true) × (o ≡ none)))
unfolding add_exception
add-day_off ex none effect = ground arith
add-day_off ex (some r) effect = ground arith

special-not_blocking :
    (type : String) → str_eq type special_hours_type ≡ true → is_blocking type ≡ false
special-not_blocking type h =
    let e : type ≡ special_hours_type = (eq_iff type special_hours_type).0 h in rw e

add-blocks :
    (P : Interval → Type 0) (ex : ScheduleException) (o : Option Interval)
    (effect : ExceptionEffect)
    → All P (add_exception ex o effect).blocks
      ↔ (All P effect.blocks × ((ex.day_off ≡ true) ⊎ (is_blocking ex.type ≡ false) ⊎ OnRange P o))
unfolding add_exception
add-blocks P ex none effect = ground arith
add-blocks P ex (some r) effect =
    ground (arith, special-not_blocking ex.type, All-append_iff P effect.blocks (r ∷ []))

module _ (applies : ScheduleException → Bool) where
  day_off_from :
      (exs : List ScheduleException) (effect : ExceptionEffect)
      → ((effect_from applies effect exs).day_off ≡ true)
        ↔ ((effect.day_off ≡ true) ⊎ Any (λ ex. (applies ex ≡ true) × TakesDay ex) exs)
  unfolding effect_from
  day_off_from [] effect = ground arith
  day_off_from (ex ∷ exs) effect = ground (
    arith,
    add-day_off ex (optional_range ex.start ex.end) effect,
    day_off_from exs effect,
    day_off_from exs (add_exception ex (optional_range ex.start ex.end) effect),
  )

  -- A day is off exactly when an exception that applies takes it.
  pub effect_of-day_off_iff :
      (exs : List ScheduleException)
      → ((effect_of exs applies).day_off ≡ true) ↔ Any (λ ex. (applies ex ≡ true) × TakesDay ex) exs
  unfolding effect_of
  effect_of-day_off_iff exs = ground (arith, day_off_from exs no_effect)

  module _ (P : Interval → Type 0) where
    blocks_from :
        (exs : List ScheduleException) (effect : ExceptionEffect)
        → All P (effect_from applies effect exs).blocks
          ↔ (All P effect.blocks × All (λ ex. (applies ex ≡ false) ⊎ BlocksOnly P ex) exs)
    unfolding effect_from
    blocks_from [] effect = ground arith
    blocks_from (ex ∷ exs) effect = ground (
      arith,
      add-blocks P ex (optional_range ex.start ex.end) effect,
      blocks_from exs effect,
      blocks_from exs (add_exception ex (optional_range ex.start ex.end) effect),
    )

    -- The blocked ranges are those of the absences that apply and have valid hours.
    pub effect_of-blocks_iff :
        (exs : List ScheduleException)
        → All P (effect_of exs applies).blocks
          ↔ All (λ ex. (applies ex ≡ false) ⊎ BlocksOnly P ex) exs
    unfolding effect_of
    effect_of-blocks_iff exs = ground (arith, blocks_from exs no_effect)
