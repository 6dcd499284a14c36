-- ===== src/Platform/Ratelimit/Laws.antt =====
-- internal/platform/ratelimit/ratelimit.go: each key has a bucket of its own, and memory is bounded.
use booknow_mcp_service.Base.{
  ℕ, ℤ, String, [], ◌∷◌, Option, none, some, Bool, false, not, str_eq, eq_iff, keep, if◌then◌else◌,
  ◌≡◌, refl, ◌∙◌, inl, inr, ◌⊎◌, ltb_ℤ, pos, sub_instants, ◌≤ℤ◌, ◌<ℤ◌, true, ◌/◌, arith, Bool-cases,
  if_cases,
}
use booknow_mcp_service.Platform.Ratelimit.{
  Rate, Bucket, Buckets, Limiter, bucket_of, set_bucket, is_idle, swept_recently, sweep, limiter_of,
  settle, put, allow,
}

-- No key has two buckets.
abbrev pub HasUniqueKeys : {B : Type 0} → Buckets B → Type 0
HasUniqueKeys [] = Unit
HasUniqueKeys ((k, b) ∷ m) = (bucket_of k m ≡ none) × HasUniqueKeys m

-- What the limiter promises, as a table with one bucket for each key.
abbrev pub Table : Type 0 → Type 0
Table B = String → Option (Bucket B)

abbrev pub table_of : {B : Type 0} → Limiter B → Table B
table_of l key = bucket_of key l.buckets

-- More than ten minutes unused.
abbrev pub unless_idle : {B : Type 0} → ℤ → Option (Bucket B) → Option (Bucket B)
unless_idle now none = none
unless_idle now (some b) =
    if ltb_ℤ (pos 600000000000) (sub_instants now b.last_seen) then none else some b

-- A sweep, at most once in a minute, forgets the idle buckets of every key.
abbrev pub swept_table : {B : Type 0} → ℤ → ℤ → Table B → Table B
swept_table now last_sweep t key =
    if ltb_ℤ (sub_instants now last_sweep) (pos 60000000000) then t key else unless_idle now (t key)

module _ {B R : Type 0} (r : Rate B R) where
  -- The token bucket of a key: the one it has, or a new one with a token more every 60 s / n, and n
  -- at most.
  abbrev pub own_limiter : ℕ → Option (Bucket B) → B
  own_limiter n none = r.new_limiter (pos (60000000000 / n)) n
  own_limiter n (some b) = b.limiter

  -- A call is allowed exactly when its token needs no wait; else the answer is the wait, and the token
  -- goes back.
  abbrev pub IsMetered : ℤ → (ℤ × R) × B → Bool × ℤ → B → Type 0
  IsMetered now ((delay, reservation), taken) answer after =
      ((delay ≤ℤ pos 0) × (answer ≡ (true, pos 0)) × (after ≡ taken))
      ⊎ ((pos 0 <ℤ delay) × (answer ≡ (false, delay)) × (after ≡ r.cancel_at now reservation taken))

  abbrev pub updated : ℤ → String → B → Table B → Table B
  updated now key after t k =
      if str_eq key k then some (record { limiter = after; last_seen = now }) else t k

module _ {B : Type 0} where
  absent-keep :
      (p : String × Bucket B → Bool) (key : String) (m : Buckets B)
      → bucket_of key m ≡ none
      → bucket_of key (keep p m) ≡ none
  unfolding bucket_of
  absent-keep p key [] h = refl
  absent-keep p key ((k, b) ∷ m) h = ground (arith, absent-keep p key m)

  keep-HasUniqueKeys :
      (p : String × Bucket B → Bool) (m : Buckets B) → HasUniqueKeys m → HasUniqueKeys (keep p m)
  keep-HasUniqueKeys p [] h = tt
  keep-HasUniqueKeys p ((k, b) ∷ m) (h, hs) = elim (Bool-cases (p (k, b))) [
    | inl kept ↦ rw kept (absent-keep p k m h, keep-HasUniqueKeys p m hs)
    | inr gone ↦ rw gone (keep-HasUniqueKeys p m hs)
  ]

  bucket_of-keep_other :
      (key other_key : String) (m : Buckets B)
      → str_eq key other_key ≡ false
      → bucket_of other_key (keep (λ e. not (str_eq (e.0) key)) m) ≡ bucket_of other_key m
  unfolding bucket_of
  bucket_of-keep_other key other_key [] h = refl
  bucket_of-keep_other key other_key ((k, b) ∷ m) h = ground (
    arith,
    bucket_of-keep_other key other_key m,
    eq_iff k key,
    eq_iff k other_key,
    eq_iff key other_key,
  )

  bucket_of-keep_same :
      (key : String) (m : Buckets B) → bucket_of key (keep (λ e. not (str_eq (e.0) key)) m) ≡ none
  unfolding bucket_of
  bucket_of-keep_same key [] = refl
  bucket_of-keep_same key ((k, b) ∷ m) = ground (arith, bucket_of-keep_same key m)

  bucket_of-keep_busy :
      (now : ℤ) (key : String) (m : Buckets B)
      → HasUniqueKeys m
      → bucket_of key (keep (λ e. not (is_idle now (e.1))) m) ≡ unless_idle now (bucket_of key m)
  unfolding bucket_of is_idle
  bucket_of-keep_busy now key [] h = refl
  bucket_of-keep_busy now key ((k, b) ∷ m) (h, hs) = ground (
    arith,
    bucket_of-keep_busy now key m,
    eq_iff k key,
    absent-keep (λ e. not (is_idle now (e.1))) k m,
  )

  table_of-sweep :
      (now : ℤ) (l : Limiter B) (key : String)
      → HasUniqueKeys l.buckets
      → table_of (sweep now l) key ≡ swept_table now l.last_sweep (table_of l) key
  unfolding sweep swept_recently
  table_of-sweep now l key unique =
      elim (Bool-cases (ltb_ℤ (sub_instants now l.last_sweep) (pos 60000000000))) [
        | inl recent ↦ rw recent refl
        | inr due ↦ rw due (bucket_of-keep_busy now key l.buckets unique)
      ]

  sweep-HasUniqueKeys :
      (now : ℤ) (l : Limiter B) → HasUniqueKeys l.buckets → HasUniqueKeys ((sweep now l).buckets)
  unfolding sweep
  sweep-HasUniqueKeys now l unique =
      if_cases (λ (k : Limiter B). HasUniqueKeys k.buckets) (swept_recently now l.last_sweep) unique
        (keep-HasUniqueKeys (λ e. not (is_idle now (e.1))) l.buckets unique)

  sweep-per_minute : (now : ℤ) (l : Limiter B) → (sweep now l).per_minute ≡ l.per_minute
  unfolding sweep
  sweep-per_minute now l =
      if_cases (λ (k : Limiter B). k.per_minute ≡ l.per_minute) (swept_recently now l.last_sweep)
        refl refl

  set_bucket-HasUniqueKeys :
      (key : String) (b : Bucket B) (m : Buckets B)
      → HasUniqueKeys m
      → HasUniqueKeys (set_bucket key b m)
  unfolding set_bucket
  set_bucket-HasUniqueKeys key b m unique =
      (bucket_of-keep_same key m, keep-HasUniqueKeys (λ e. not (str_eq (e.0) key)) m unique)

  bucket_of-set_bucket :
      (key k : String) (b : Bucket B) (m : Buckets B)
      → bucket_of k (set_bucket key b m) ≡ (if str_eq key k then some b else bucket_of k m)
  unfolding bucket_of set_bucket
  bucket_of-set_bucket key k b m = elim (Bool-cases (str_eq key k)) [
    | inl same ↦ rw same refl
    | inr different ↦ rw different (bucket_of-keep_other key k m different)
  ]

module _ {B R : Type 0} (r : Rate B R) where
  put-table_of :
      (now : ℤ) (key : String) (l : Limiter B) (x : (Bool × ℤ) × B) (k : String)
      → table_of ((put r now key l x).1) k
        ≡ (if str_eq key k then some (record { limiter = x.1; last_seen = now }) else table_of l k)
  put-table_of now key l ((allowed, wait), b) k =
      bucket_of-set_bucket key k (record { limiter = b; last_seen = now }) l.buckets

  put-answer :
      (now : ℤ) (key : String) (l : Limiter B) (x : (Bool × ℤ) × B) → (put r now key l x).0 ≡ x.0
  put-answer now key l (answer, b) = refl

  put-HasUniqueKeys :
      (now : ℤ) (key : String) (l : Limiter B) (x : (Bool × ℤ) × B)
      → HasUniqueKeys l.buckets
      → HasUniqueKeys ((put r now key l x).1.buckets)
  put-HasUniqueKeys now key l (answer, b) unique =
      set_bucket-HasUniqueKeys key (record { limiter = b; last_seen = now }) l.buckets unique

  settle-IsMetered :
      (now : ℤ) (x : (ℤ × R) × B) → IsMetered r now x ((settle r now x).0) ((settle r now x).1)
  settle-IsMetered now ((delay, reservation), taken) = elim (Bool-cases (ltb_ℤ (pos 0) delay)) [
    | inl waits ↦ rw waits (inr (ground arith, refl, refl))
    | inr free ↦ rw free (inl (ground arith, refl, refl))
  ]

  own-limiter_of : (n : ℕ) (b : Option (Bucket B)) → limiter_of r n b ≡ own_limiter r n b
  unfolding limiter_of
  own-limiter_of n none = refl
  own-limiter_of n (some b) = refl

  -- The limiter is a table with a bucket of its own for each key: a call is allowed exactly when the
  -- token that it takes from the bucket of its key, a new one where there is none, needs no wait, and
  -- else is told the wait and gives the token back; that bucket is marked as seen now, and the buckets
  -- of the other keys stay, but for those that a sweep, at most once in a minute, finds unused for more
  -- than ten. No key ever has two buckets.
  pub allow-refines :
      (now : ℤ) (key : String) (l : Limiter B)
      → HasUniqueKeys l.buckets
      → (after : B) × IsMetered r now
          (r.reserve now
            (own_limiter r l.per_minute (swept_table now l.last_sweep (table_of l) key)))
          ((allow r now key l).0)
          after
        × ((k : String)
            → table_of ((allow r now key l).1) k
              ≡ updated r now key after (swept_table now l.last_sweep (table_of l)) k)
        × HasUniqueKeys ((allow r now key l).1.buckets)
  unfolding allow
  allow-refines now key l unique =
      let own = own_limiter r l.per_minute (swept_table now l.last_sweep (table_of l) key) in
      let same : limiter_of r (sweep now l).per_minute (table_of (sweep now l) key) ≡ own =
        rw (sweep-per_minute now l, table_of-sweep now l key unique)
          (own-limiter_of l.per_minute (swept_table now l.last_sweep (table_of l) key)) in
      (
        (settle r now (r.reserve now own)).1,
        rw (put-answer now key (sweep now l) _, same) (settle-IsMetered now (r.reserve now own)),
        λ k.
            put-table_of now key (sweep now l)
              (settle r now (
                r.reserve now (limiter_of r (sweep now l).per_minute (table_of (sweep now l) key))))
              k
            ∙ rw (same, table_of-sweep now l k unique) refl,
        set_bucket-HasUniqueKeys key _ (sweep now l).buckets (sweep-HasUniqueKeys now l unique),
      )
