-- ===== src/Platform/Ratelimit.antt =====
-- internal/platform/ratelimit/ratelimit.go. The token bucket of golang.org/x/time/rate is a parameter.
pub mod Laws
pub mod Memory
use booknow_mcp_service.Base.{
  ℕ, ◌/◌, ℤ, pos, negsuc, String, List, [], ◌∷◌, Option, none, some, Bool, true, false, not, str_eq,
  keep, if◌then◌else◌, ltb_ℤ, sub_instants, minute,
}

-- B is `rate.Limiter` and R `rate.Reservation`: NewLimiter(Every(interval), burst), ReserveN(now, 1)
-- with DelayFrom(now), and CancelAt(now).
pub record Rate (B R : Type 0) : Type 0 where
  pub new_limiter : (interval : ℤ) → (burst : ℕ) → B
  pub reserve : (now : ℤ) → B → (ℤ × R) × B
  pub cancel_at : (now : ℤ) → R → B → B

pub record Bucket (B : Type 0) : Type 0 where
  pub limiter : B
  pub last_seen : ℤ

abbrev pub Buckets : Type 0 → Type 0
Buckets B = List (String × Bucket B)

-- `Limiter`; `per_minute` is at least 1.
pub record Limiter (B : Type 0) : Type 0 where
  pub per_minute : ℕ
  pub buckets : Buckets B
  pub last_sweep : ℤ

abbrev pub idle_ttl : ℤ
idle_ttl = pos 600000000000

abbrev pub sweep_interval : ℤ
sweep_interval = minute

-- The zero time.Time
abbrev pub zero_time : ℤ
zero_time = negsuc 62135596799999999999

-- `New`
abbrev pub new : {B : Type 0} → ℕ → Limiter B
new per_minute = record { per_minute = per_minute; buckets = []; last_sweep = zero_time }

-- `l.buckets[key]`
unfoldable pub bucket_of {ℓ} : {B : Type ℓ} → String → List (String × B) → Option B
bucket_of key [] = none
bucket_of key ((k, b) ∷ m) = let rest = bucket_of key m in if str_eq k key then some b else rest

-- `l.buckets[key] = b`
unfoldable pub set_bucket {ℓ} : {B : Type ℓ} → String → B → List (String × B) → List (String × B)
set_bucket key b m = (key, b) ∷ keep (λ e. not (str_eq (e.0) key)) m

-- `now.Sub(b.lastSeen) > idleTTL`
unfoldable pub is_idle : {B : Type 0} → ℤ → Bucket B → Bool
is_idle now b = ltb_ℤ idle_ttl (sub_instants now b.last_seen)

-- `now.Sub(l.lastSweep) < sweepInterval`
unfoldable pub swept_recently : ℤ → ℤ → Bool
swept_recently now last_sweep = ltb_ℤ (sub_instants now last_sweep) sweep_interval

-- `sweep`
unfoldable pub sweep : {B : Type 0} → ℤ → Limiter B → Limiter B
sweep now l =
    if swept_recently now l.last_sweep
    then l
    else (record l { buckets = keep (λ e. not (is_idle now (e.1))) l.buckets; last_sweep = now })

module _ {B R : Type 0} (r : Rate B R) where
  -- The rate.Limiter of a key: the bucket's, or a new one.
  unfoldable pub limiter_of : ℕ → Option (Bucket B) → B
  limiter_of per_minute none = r.new_limiter (pos (60000000000 / per_minute)) per_minute
  limiter_of per_minute (some b) = b.limiter

  -- A reservation that would have to wait is cancelled.
  abbrev pub settle : ℤ → (ℤ × R) × B → (Bool × ℤ) × B
  settle now ((delay, reservation), b) =
      if ltb_ℤ (pos 0) delay
      then ((false, delay), r.cancel_at now reservation b)
      else ((true, pos 0), b)

  abbrev pub put : ℤ → String → Limiter B → (Bool × ℤ) × B → (Bool × ℤ) × Limiter B
  put now key l (answer, b) = (
    answer,
    record l { buckets = set_bucket key (record { limiter = b; last_seen = now }) l.buckets },
  )

  -- `Allow` once idle buckets are swept
  abbrev pub allow_swept : ℤ → String → Limiter B → (Bool × ℤ) × Limiter B
  allow_swept now key l =
      put now key l (settle now (r.reserve now (limiter_of l.per_minute (bucket_of key l.buckets))))

  -- `Allow` at a time
  unfoldable pub allow : ℤ → String → Limiter B → (Bool × ℤ) × Limiter B
  allow now key l = allow_swept now key (sweep now l)
