-- ===== src/Config/Reads.antt =====
-- internal/config/config.go: readings that keep every fault, in the order they are found.
use booknow_mcp_service.Base.{String, List, [], ◌∷◌, ◌++◌, ◌≡◌, refl, sym, append_nil}

-- Why `parseOrigin` refuses a text.
pub data OriginFault : Type 0 where
  origin_required not_absolute not_bare : OriginFault
  -- the scheme that is neither https nor the http of development
  scheme_refused : String → OriginFault

-- The errors of `load`, with the texts they quote.
pub data Fault : Type 0 where
  port_invalid app_env_invalid log_level_invalid db_max_conns_invalid rate_limit_invalid
        draft_ttl_invalid :
      String → Fault
  database_url_required : Fault
  supabase_url_invalid mcp_public_url_invalid allowed_origins_invalid : OriginFault → Fault
  twilio_incomplete twilio_account_invalid : Fault
  twilio_url_invalid twilio_url_without_path twilio_url_insecure : String → Fault

-- A value, or the faults found: at least one.
pub data Reads {ℓ} (A : Type ℓ) : Type ℓ where
  valid : A → Reads A
  faulty : Fault → List Fault → Reads A

-- Two settings: the faults of both, in order.
unfoldable pub both {ℓ κ} : {A : Type ℓ} {B : Type κ} → Reads A → Reads B → Reads (A × B)
both (valid a) (valid b) = valid (a, b)
both (valid a) (faulty g gs) = faulty g gs
both (faulty f fs) (valid b) = faulty f fs
both (faulty f fs) (faulty g gs) = faulty f (fs ++ g ∷ gs)

unfoldable pub map_reads {ℓ κ} : {A : Type ℓ} {B : Type κ} → (A → B) → Reads A → Reads B
map_reads f (valid a) = valid (f a)
map_reads f (faulty g gs) = faulty g gs

-- The faults of a reading.
abbrev pub faults {ℓ} : {A : Type ℓ} → Reads A → List Fault
faults (valid a) = []
faults (faulty f fs) = f ∷ fs

module _ {ℓ κ} {A : Type ℓ} {B : Type κ} where
  pub both-eq-valid :
      (m : Reads A) (n : Reads B) {a : A} {b : B}
      → both m n ≡ valid (a, b)
      → (m ≡ valid a) × (n ≡ valid b)
  unfolding both
  both-eq-valid (valid a) (valid b) h = (cc, cc)
  both-eq-valid (valid a) (faulty g gs) h = cc
  both-eq-valid (faulty f fs) (valid b) h = cc
  both-eq-valid (faulty f fs) (faulty g gs) h = cc

  pub map_reads-eq-valid :
      (f : A → B) (m : Reads A) {b : B}
      → map_reads f m ≡ valid b
      → (a : A) × (m ≡ valid a) × (f a ≡ b)
  unfolding map_reads
  map_reads-eq-valid f (valid a) h = (a, refl, cc)
  map_reads-eq-valid f (faulty g gs) h = cc

  pub faults-both : (m : Reads A) (n : Reads B) → faults (both m n) ≡ faults m ++ faults n
  unfolding both
  faults-both (valid a) (valid b) = refl
  faults-both (valid a) (faulty g gs) = refl
  faults-both (faulty f fs) (valid b) = sym (append_nil (f ∷ fs))
  faults-both (faulty f fs) (faulty g gs) = refl

  pub faults-map_reads : (f : A → B) (m : Reads A) → faults (map_reads f m) ≡ faults m
  unfolding map_reads
  faults-map_reads f (valid a) = refl
  faults-map_reads f (faulty g gs) = refl
