-- ===== src/Base/Errors.antt =====
-- Errors as values. An error of `internal/application/business` carries a kind and a message for
-- the client; the store packages return the bare sentinels; `fmt.Errorf("…: %w", err)` wraps.
use Prim.Native.String.{String}
use mathlib.Core.Path.{◌≡◌, refl}
use mathlib.Core.Bool.{Bool, true, false}

-- The sentinels `business.ErrInvalidArgument`, `ErrNotFound`, `ErrConflict` and `ErrForbidden`.
pub data Kind : Type 0 where
  invalid_argument not_found conflict forbidden : Kind

-- The sentinels of package drafts.
pub data DraftFault : Type 0 where
  draft_not_found unauthorized invalid_status draft_expired specialist_unavailable : DraftFault

pub data Err : Type 0 where
  -- `&business.Error{kind, Message}`
  business : Kind → String → Err
  -- a bare sentinel of package business or drafts
  sentinel : Kind → Err
  fault : DraftFault → Err
  -- `fmt.Errorf("text: %w", err)`
  wrapped : String → Err → Err
  -- any other error: a driver's, a parser's
  other : String → Err

pub data Result {ℓ} (A : Type ℓ) : Type ℓ where
  ok : A → Result A
  err : Err → Result A

-- A check: `if !b { return e }`.
abbrev pub guard : Bool → Err → Result (Unit {0})
guard true failure = ok tt
guard false failure = err failure

-- A failure wrapped with a text, as `fmt.Errorf` does.
abbrev pub wrap_err {ℓ} : {A : Type ℓ} → String → Result A → Result A
wrap_err text (ok value) = ok value
wrap_err text (err failure) = err (wrapped text failure)

-- `v, err := m; if err != nil { return err }` in front of the rest of a function.
infixl 5 ◌>>=◌ ◌>>◌
abbrev pub ◌>>=◌ {ℓ κ} : {A : Type ℓ} {B : Type κ} → Result A → (A → Result B) → Result B
err failure >>= rest = err failure
ok value >>= rest = rest value

abbrev pub ◌>>◌ {ℓ} : {B : Type ℓ} → Result (Unit {0}) → Result B → Result B
check >> rest = check >>= λ u. rest

pub guard-eq-ok : (b : Bool) (failure : Err) {u : Unit {0}} → guard b failure ≡ ok u → b ≡ true
guard-eq-ok true failure h = refl
guard-eq-ok false failure h = cc

pub wrap_err-eq-ok {ℓ} :
    {A : Type ℓ} (text : String) (m : Result A) {a : A} → wrap_err text m ≡ ok a → m ≡ ok a
wrap_err-eq-ok text (ok value) h = h
wrap_err-eq-ok text (err failure) h = cc

pub ok-injective {ℓ} : {A : Type ℓ} {a b : A} → ok a ≡ ok b → a ≡ b
ok-injective same = cc

-- A chain that succeeds has a value between its parts.
pub >>=-eq-ok {ℓ κ} :
    {A : Type ℓ} {B : Type κ} (m : Result A) (rest : A → Result B) {b : B}
    → (m >>= rest) ≡ ok b
    → (value : A) × (m ≡ ok value) × (rest value ≡ ok b)
>>=-eq-ok (err failure) rest h = cc
>>=-eq-ok (ok value) rest h = (value, refl, h)
