-- ===== src/Httpapi/Usage/Coverage.antt =====
-- internal/httpapi/mcp_usage.go: no active connection goes unrecorded for a minute.
use booknow_mcp_service.Base.{
  ℤ, String, List, [], ◌∷◌, Option, none, some, Bool, true, false, not, str_eq, eq_iff, keep, All,
  Any, Any-imp, ◌≡◌, refl, ap, ◌∙◌, inl, inr, arith, Bool-cases,
}
use booknow_mcp_service.Httpapi.Usage.{Last, lookup, is_recent, seen_recently, drop_stale, due}
use booknow_mcp_service.Httpapi.Usage.Laws.{recent_now}

-- A use of a connection at a time.
abbrev pub Use : Type 0
Use = ℤ × String

-- The uses that are recorded of a sequence of calls, from a state of the throttle; the last first.
abbrev pub note : Bool → Use → List Use → List Use
note true u recorded = u ∷ recorded
note false u recorded = recorded

unfoldable pub recorded_of : List Use → Last → List Use → List Use
recorded_of [] last recorded = recorded
recorded_of ((now, id) ∷ calls) last recorded =
    recorded_of calls ((due now id last).1) (note ((due now id last).0) (now, id) recorded)

-- A call is covered: a use of its connection is recorded that was recent at the time of the call.
abbrev pub IsCovered : List Use → Use → Type 0
IsCovered recorded call = Any (λ u. (is_recent (call.0) (u.0) ≡ true) × (u.1 ≡ call.1)) recorded

-- What the throttle remembers was recorded.
abbrev IsIn : List Use → String × ℤ → Type 0
IsIn recorded e = Any (λ u. (u.0 ≡ e.1) × (u.1 ≡ e.0)) recorded

abbrev IsRemembered : List Use → Last → Type 0
IsRemembered recorded last = All (IsIn recorded) last

keep-All_of {ℓ κ} :
    {A : Type ℓ} (P : A → Type κ) (q : A → Bool) (xs : List A) → All P xs → All P (keep q xs)
keep-All_of P q [] h = tt
keep-All_of P q (x ∷ xs) (h, hs) = elim (Bool-cases (q x)) [
  | inl kept ↦ rw kept (h, keep-All_of P q xs hs)
  | inr gone ↦ rw gone (keep-All_of P q xs hs)
]

All-imp {ℓ κ} :
    {A : Type ℓ} {P Q : A → Type κ} (xs : List A) → ((x : A) → P x → Q x) → All P xs → All Q xs
All-imp [] f h = tt
All-imp (x ∷ xs) f (h, hs) = (f x h, All-imp xs f hs)

head_seen :
    (k id : String) (v seen : ℤ) (last : Last)
    → str_eq k id ≡ true
    → lookup id ((k, v) ∷ last) ≡ some seen
    → v ≡ seen
unfolding lookup
head_seen k id v seen last same e = ground arith

tail_seen :
    (k id : String) (v seen : ℤ) (last : Last)
    → str_eq k id ≡ false
    → lookup id ((k, v) ∷ last) ≡ some seen
    → lookup id last ≡ some seen
unfolding lookup
tail_seen k id v seen last other e = ground arith

recent_seen :
    (now : ℤ) (o : Option ℤ)
    → seen_recently now o ≡ true
    → (seen : ℤ) × (o ≡ some seen) × (is_recent now seen ≡ true)
recent_seen now none h = cc
recent_seen now (some seen) h = (seen, refl, h)

remembered-lookup :
    (recorded : List Use) (last : Last) (id : String) (seen : ℤ)
    → IsRemembered recorded last
    → lookup id last ≡ some seen
    → Any (λ u. (u.0 ≡ seen) × (u.1 ≡ id)) recorded
unfolding lookup
remembered-lookup recorded [] id seen h e = cc
remembered-lookup recorded ((k, v) ∷ last) id seen (h, hs) e = elim (Bool-cases (str_eq k id)) [
  | inl same ↦
      Any-imp (λ u. (u.0 ≡ v) × (u.1 ≡ k)) (λ u. (u.0 ≡ seen) × (u.1 ≡ id)) recorded
        (λ u x. (x.0 ∙ head_seen k id v seen last same e, x.1 ∙ (eq_iff k id).0 same)) h
  | inr other ↦ remembered-lookup recorded last id seen hs (tail_seen k id v seen last other e)
]

-- One call: it is covered after it, and what the throttle remembers stays recorded.
step :
    (now : ℤ) (id : String) (last : Last) (recorded : List Use)
    → IsRemembered recorded last
    → IsRemembered (note ((due now id last).0) (now, id) recorded) ((due now id last).1)
      × IsCovered (note ((due now id last).0) (now, id) recorded) (now, id)
unfolding due
step now id last recorded h = elim (Bool-cases (seen_recently now (lookup id last))) [
  | inl recent ↦
      let (seen, found, soon) = recent_seen now (lookup id last) recent in
      rw recent (
        h,
        Any-imp (λ u. (u.0 ≡ seen) × (u.1 ≡ id)) (λ u. (is_recent now (u.0) ≡ true) × (u.1 ≡ id))
            recorded (λ u x. (ap (is_recent now) (x.0) ∙ soon, x.1))
            (remembered-lookup recorded last id seen h found),
      )
  | inr stale ↦ rw stale (
    (
      inl (refl, refl),
      keep-All_of (IsIn ((now, id) ∷ recorded)) (λ e. not (str_eq (e.0) id)) (drop_stale now last)
          (keep-All_of (IsIn ((now, id) ∷ recorded)) (λ e. is_recent now (e.1)) last
            (All-imp last (λ e x. inr x) h)),
    ),
    inl (recent_now now, refl),
  )
]

note-IsCovered :
    (b : Bool) (u call : Use) (recorded : List Use)
    → IsCovered recorded call
    → IsCovered (note b u recorded) call
note-IsCovered true u call recorded h = inr h
note-IsCovered false u call recorded h = h

stays-IsCovered :
    (calls : List Use) (last : Last) (recorded : List Use) (call : Use)
    → IsCovered recorded call
    → IsCovered (recorded_of calls last recorded) call
unfolding recorded_of
stays-IsCovered [] last recorded call h = h
stays-IsCovered ((now, id) ∷ calls) last recorded call h =
    stays-IsCovered calls ((due now id last).1) _ call
      (note-IsCovered ((due now id last).0) (now, id) call recorded h)

covers :
    (calls : List Use) (last : Last) (recorded : List Use)
    → IsRemembered recorded last
    → All (IsCovered (recorded_of calls last recorded)) calls
unfolding recorded_of
covers [] last recorded h = tt
covers ((now, id) ∷ calls) last recorded h =
    let (kept, covered) = step now id last recorded h in
    (
      stays-IsCovered calls ((due now id last).1) _ (now, id) covered,
      covers calls ((due now id last).1) _ kept,
    )

-- Whatever calls come, in whatever order and at whatever times, from a throttle that remembers nothing:
-- each call has a recorded use of its connection that is less than a minute older than the call.
pub due-IsCovered : (calls : List Use) → All (IsCovered (recorded_of calls [] [])) calls
due-IsCovered calls = covers calls [] [] tt
