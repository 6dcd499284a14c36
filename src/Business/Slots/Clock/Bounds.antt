-- ===== src/Business/Slots/Clock/Bounds.antt =====
-- slots.go, parseClock: every clock text that parses is a time of the day.
use booknow_mcp_service.Base.{
  ℕ, ◌+◌, ◌≤◌, ◌<◌, ℤ, pos_part, neg_part, String, List, Option, none, some, Bool, true, false, ◌≡◌,
  arith, [], ◌∷◌, bytes,
}
use booknow_mcp_service.Business.Slots.Clock.{
  in_range, one_or_two_digits, two_digits, colon, fraction, at_end, ◌>>=◌, when, hour_minute,
  parse_seconds, parse_minutes, clock_of, parse_clock,
}

-- The value of a result, if there is one, satisfies P.
abbrev On {ℓ} : {A : Type ℓ} → (A → Type 0) → Option A → Type 0
On P none = Unit
On P (some a) = P a

>>=-On {ℓ κ} :
    {A : Type ℓ} {B : Type κ} (Q : A → Type 0) (P : B → Type 0) (m : Option A) (k : A → Option B)
    → On Q m
    → ((a : A) → Q a → On P (k a))
    → On P (m >>= k)
>>=-On Q P none k h step = tt
>>=-On Q P (some a) k h step = step a h

abbrev Below : ℕ → ℕ × List ℕ → Type 0
Below limit r = r.0 < limit

in_range-Below : (limit : ℕ) (o : Option (ℕ × List ℕ)) → On (Below limit) (in_range limit o)
unfolding in_range
in_range-Below limit none = tt
in_range-Below limit (some (n, s)) = ground arith

abbrev AnyRest : List ℕ → Type 0
AnyRest s = Unit

colon-On : (s : List ℕ) → On AnyRest (colon s)
unfolding colon
colon-On [] = tt
colon-On (c ∷ s) = ground arith

when-On : (b : Bool) (n k : ℕ) → n < k → On (λ m. m < k) (when b n)
when-On true n k h = h
when-On false n k h = tt

hour_minute-Below : (s : String) → On (Below 86341) (hour_minute s)
unfolding hour_minute
hour_minute-Below s =
    >>=-On (Below 24) (Below 86341) _ _ (in_range-Below 24 (one_or_two_digits (bytes s))) λ h hour.
      >>=-On AnyRest (Below 86341) _ _ (colon-On h.1) λ rest u.
        >>=-On (Below 60) (Below 86341) _ _ (in_range-Below 60 (two_digits rest))
          λ m minute. omega arith

parse_seconds-lt : (s : String) → On (λ n. n < 86400) (parse_seconds s)
unfolding parse_seconds
parse_seconds-lt s =
    >>=-On (Below 86341) (λ n. n < 86400) _ _ (hour_minute-Below s)
      λ hm first.
        >>=-On AnyRest (λ n. n < 86400) _ _ (colon-On hm.1)
          λ rest u.
            >>=-On (Below 60) (λ n. n < 86400) _ _ (in_range-Below 60 (two_digits rest))
              λ sec second. when-On (at_end (fraction sec.1)) (hm.0 + sec.0) 86400 (omega arith)

parse_minutes-lt : (s : String) → On (λ n. n < 86400) (parse_minutes s)
unfolding parse_minutes
parse_minutes-lt s =
    >>=-On (Below 86341) (λ n. n < 86400) _ _ (hour_minute-Below s)
      λ hm first. when-On (at_end hm.1) hm.0 86400 (omega arith)

-- A clock offset lies between midnight and midnight.
abbrev pub IsClock : ℤ → Type 0
IsClock t = (neg_part t ≡ 0) × (pos_part t ≤ 86400000000000)

clock_of-IsClock :
    (o p : Option ℕ) (e : Bool)
    → On (λ n. n < 86400) o
    → On (λ n. n < 86400) p
    → On IsClock (clock_of o p e)
unfolding clock_of
clock_of-IsClock (some n) p e h k = omega arith
clock_of-IsClock none (some n) e h k = omega arith
clock_of-IsClock none none true h k = omega arith
clock_of-IsClock none none false h k = tt

parse_clock-On : (s : String) → On IsClock (parse_clock s)
unfolding parse_clock
parse_clock-On s = clock_of-IsClock _ _ _ (parse_seconds-lt s) (parse_minutes-lt s)

-- Every clock text that parses is a time from midnight to the next midnight.
pub parse_clock-IsClock : (s : String) (t : ℤ) → parse_clock s ≡ some t → IsClock t
parse_clock-IsClock s t e =
    let within : On IsClock (parse_clock s) = parse_clock-On s in rw e at within
