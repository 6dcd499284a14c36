-- ===== src/Platform/Ratelimit/Memory.antt =====
-- internal/platform/ratelimit/ratelimit.go: no bucket stays long after its key was last seen.
use booknow_mcp_service.Base.{
  ℤ, String, [], ◌∷◌, Bool, true, not, str_eq, keep, sub_instants, minute, ◌≡◌, inl, inr, arith,
  Bool-cases, All, ◌≤ℤ◌, ◌<ℤ◌, -ℤ_parts,
}
use booknow_mcp_service.Platform.Ratelimit.{
  Rate, Bucket, Buckets, Limiter, idle_ttl, set_bucket, is_idle, swept_recently, sweep, allow,
}

-- Every bucket was seen within the idle time before an instant.
abbrev pub SeenSince : {B : Type 0} → ℤ → Buckets B → Type 0
SeenSince at m = All (λ e. sub_instants at e.1.last_seen ≤ℤ idle_ttl) m

sub_nonpositive : (a b : ℤ) → a ≤ℤ b → sub_instants a b ≤ℤ idle_ttl
unfolding sub_instants
sub_nonpositive a b h = ground (arith, -ℤ_parts a b)

recent_minute : (now at : ℤ) → swept_recently now at ≡ true → sub_instants now at <ℤ minute
unfolding swept_recently
recent_minute now at h = ground arith

sub_same : (a : ℤ) → sub_instants a a <ℤ minute
unfolding sub_instants
sub_same a = ground (arith, -ℤ_parts a a)

module _ {B : Type 0} where
  keep-SeenSince :
      (at : ℤ) (p : String × Bucket B → Bool) (m : Buckets B)
      → SeenSince at m
      → SeenSince at (keep p m)
  keep-SeenSince at p [] h = tt
  keep-SeenSince at p (e ∷ m) (h, hs) = elim (Bool-cases (p e)) [
    | inl kept ↦ rw kept (h, keep-SeenSince at p m hs)
    | inr gone ↦ rw gone (keep-SeenSince at p m hs)
  ]

  not_idle :
      (now : ℤ) (b : Bucket B)
      → not (is_idle now b) ≡ true
      → sub_instants now b.last_seen ≤ℤ idle_ttl
  unfolding is_idle
  not_idle now b h = ground arith

  keep_busy-SeenSince :
      (now : ℤ) (m : Buckets B) → SeenSince now (keep (λ e. not (is_idle now (e.1))) m)
  keep_busy-SeenSince now [] = tt
  keep_busy-SeenSince now (e ∷ m) = elim (Bool-cases (not (is_idle now (e.1)))) [
    | inl busy ↦ rw busy (not_idle now (e.1) busy, keep_busy-SeenSince now m)
    | inr idle ↦ rw idle (keep_busy-SeenSince now m)
  ]

  -- A sweep that is due leaves only buckets seen within the idle time.
  abbrev pub IsTrim : ℤ → Limiter B → Type 0
  IsTrim now l =
      (l.last_sweep ≤ℤ now)
      × SeenSince l.last_sweep l.buckets
      × (sub_instants now l.last_sweep <ℤ minute)

  sweep-IsTrim :
      (now : ℤ) (l : Limiter B)
      → l.last_sweep ≤ℤ now
      → SeenSince l.last_sweep l.buckets
      → IsTrim now (sweep now l)
  unfolding sweep
  sweep-IsTrim now l before seen = elim (Bool-cases (swept_recently now l.last_sweep)) [
    | inl recent ↦ rw recent (before, seen, recent_minute now l.last_sweep recent)
    | inr late ↦ rw late (ground arith, keep_busy-SeenSince now l.buckets, sub_same now)
  ]

module _ {B R : Type 0} (r : Rate B R) where
  -- Memory is bounded by recent traffic: while the clock does not go back, after every call the last
  -- sweep was less than a minute ago and every bucket was seen within ten minutes before that sweep.
  pub allow-IsTrim :
      (now : ℤ) (key : String) (l : Limiter B)
      → l.last_sweep ≤ℤ now
      → SeenSince l.last_sweep l.buckets
      → IsTrim now ((allow r now key l).1)
  unfolding allow set_bucket
  allow-IsTrim now key l before seen =
      let (earlier, kept, recent) = sweep-IsTrim now l before seen in
      (
        earlier,
        (
          sub_nonpositive (sweep now l).last_sweep now earlier,
          keep-SeenSince (sweep now l).last_sweep (λ e. not (str_eq (e.0) key))
              (sweep now l).buckets kept,
        ),
        recent,
      )
