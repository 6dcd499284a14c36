-- ===== src/Httpapi/Usage/Laws.antt =====
-- mcp_usage.go: how often a use is recorded, and what the throttle remembers.
use booknow_mcp_service.Base.{
  ℤ, pos, String, List, [], ◌∷◌, Bool, true, false, not, if◌then◌else◌, str_eq, eq_refl,
  sub_instants, minute, keep, All, ◌≡◌, refl, inl, inr, arith, Bool-cases, if_cases, ◌<ℤ◌, ◌-ℤ◌,
  eq_of_parts, -ℤ_parts,
}
use booknow_mcp_service.Httpapi.Usage.{Last, lookup, is_recent, seen_recently, drop_stale, due}

-- The entries that are remembered at a time: seen within the last minute, or just recorded.
abbrev pub IsFresh : ℤ → Last → Type 0
IsFresh now last = All (λ e. is_recent now (e.1) ≡ true) last

keep-All {ℓ} :
    {A : Type ℓ} (p q : A → Bool) (xs : List A)
    → All (λ x. p x ≡ true) xs
    → All (λ x. p x ≡ true) (keep q xs)
keep-All p q [] h = tt
keep-All p q (x ∷ xs) (h, hs) =
    let rest = keep-All p q xs hs in if_cases (All (λ x. p x ≡ true)) (q x) (h, rest) rest

keep_holds {ℓ} : {A : Type ℓ} (p : A → Bool) (xs : List A) → All (λ x. p x ≡ true) (keep p xs)
keep_holds p [] = tt
keep_holds p (x ∷ xs) =
    let rest = keep_holds p xs in
    elim (Bool-cases (p x)) [ inl h ↦ rw h (h, rest) | inr h ↦ rw h rest ]

self_minus : (a : ℤ) → a -ℤ a ≡ pos 0
self_minus a = eq_of_parts (a -ℤ a) (pos 0) (omega (arith, -ℤ_parts a a))

pub recent_now : (now : ℤ) → is_recent now now ≡ true
unfolding sub_instants
recent_now now = rw (self_minus now) refl

abbrev choice : Bool → Last → Last → Bool × Last
choice b m k = if b then (false, m) else (true, k)

is_due : (b : Bool) (m k : Last) → (choice b m k).0 ≡ true → b ≡ false
is_due true m k h = cc
is_due false m k h = refl

ltb_minute : (later now : ℤ) → sub_instants later now <ℤ minute → is_recent later now ≡ true
ltb_minute later now h = ground arith

-- After a use that is recorded, the throttle remembers only connections recorded within the last
-- minute: its memory is bounded by the recently active connections.
pub due-IsFresh :
    (now : ℤ) (id : String) (last : Last)
    → (due now id last).0 ≡ true
    → IsFresh now ((due now id last).1)
unfolding due
due-IsFresh now id last h = rw (is_due (seen_recently now (lookup id last)) _ _ h) (
  recent_now now,
  keep-All (λ e. is_recent now (e.1)) (λ e. not (str_eq (e.0) id)) (drop_stale now last)
      (keep_holds (λ e. is_recent now (e.1)) last),
)

-- At most one use of a connection is recorded in a minute: once one is recorded, every call less than
-- a minute later is not due and leaves the throttle as it is.
pub due_once :
    (now later : ℤ) (id : String) (last : Last)
    → (due now id last).0 ≡ true
    → sub_instants later now <ℤ minute
    → due later id ((due now id last).1) ≡ (false, (due now id last).1)
unfolding due lookup
due_once now later id last h soon =
    rw (is_due (seen_recently now (lookup id last)) _ _ h, eq_refl id, ltb_minute later now soon)
      refl
