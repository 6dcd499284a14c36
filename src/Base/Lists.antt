-- ===== src/Base/Lists.antt =====
-- Lists measured by native numbers, and the predicates by recursion that the proofs split on.
use Prim.Native.Nat.{ℕ, zero, suc}
use mathlib.Core.Path.{◌≡◌, refl, ap}
use mathlib.Core.Logic.{◌⊎◌, inl, inr, ◌↔◌}
use mathlib.Core.Bool.{Bool, true, false, ◌&&◌, ◌||◌}
use mathlib.Core.Option.{Option, none, some}
use mathlib.Core.List.{List, [], ◌∷◌, ◌++◌, map}
use native.Mathlib.Omega.{arith}
use booknow_mcp_service.Base.Tests.{if◌then◌else◌}

module _ {ℓ} {A : Type ℓ} where
  abbrev pub length : List A → ℕ
  length [] = 0
  length (x ∷ xs) = suc (length xs)

  abbrev pub all : (A → Bool) → List A → Bool
  all p [] = true
  all p (x ∷ xs) = p x && all p xs

  abbrev pub any : (A → Bool) → List A → Bool
  any p [] = false
  any p (x ∷ xs) = p x || any p xs

  abbrev pub All {κ} : (A → Type κ) → List A → Type κ
  All P [] = Unit
  All P (x ∷ xs) = P x × All P xs

  -- Some element satisfies P; the position of the element is kept.
  abbrev pub Any : (A → Type 0) → List A → Type 0
  Any P [] = ⊥
  Any P (x ∷ xs) = P x ⊎ Any P xs

module _ {ℓ} {A : Type ℓ} where
  pub Any-append : (P : A → Type 0) (xs ys : List A) → Any P (xs ++ ys) ↔ (Any P xs ⊎ Any P ys)
  Any-append P [] ys = ground arith
  Any-append P (x ∷ xs) ys = ground (arith, Any-append P xs ys)

  pub Any-map_iff {κ} :
      {B : Type κ} (P : A → Type 0) (f : B → A) (ys : List B)
      → Any P (map f ys) ↔ Any (λ y. P (f y)) ys
  Any-map_iff P f [] = ground arith
  Any-map_iff P f (y ∷ ys) = ground (arith, Any-map_iff P f ys)

  pub Any-imp : (P Q : A → Type 0) (xs : List A) → ((x : A) → P x → Q x) → Any P xs → Any Q xs
  Any-imp P Q [] h a = a
  Any-imp P Q (x ∷ xs) h (inl p) = inl (h x p)
  Any-imp P Q (x ∷ xs) h (inr r) = inr (Any-imp P Q xs h r)

  pub All-append_iff : (P : A → Type 0) (xs ys : List A) → All P (xs ++ ys) ↔ (All P xs × All P ys)
  All-append_iff P [] ys = ground arith
  All-append_iff P (x ∷ xs) ys = ground (arith, All-append_iff P xs ys)

module _ {ℓ} {A : Type ℓ} where
  abbrev pub take : ℕ → List A → List A
  take zero xs = []
  take (suc n) [] = []
  take (suc n) (x ∷ xs) = x ∷ take n xs

  abbrev pub drop : ℕ → List A → List A
  drop zero xs = xs
  drop (suc n) [] = []
  drop (suc n) (x ∷ xs) = drop n xs

  abbrev pub replicate : ℕ → A → List A
  replicate zero a = []
  replicate (suc n) a = a ∷ replicate n a

  abbrev pub keep : (A → Bool) → List A → List A
  keep p [] = []
  keep p (x ∷ xs) = let rest = keep p xs in if p x then x ∷ rest else rest

  abbrev pub get_elem? : List A → ℕ → Option A
  get_elem? [] i = none
  get_elem? (x ∷ xs) zero = some x
  get_elem? (x ∷ xs) (suc i) = get_elem? xs i

module _ {ℓ} {A : Type ℓ} where
  pub append_assoc : (xs ys zs : List A) → (xs ++ ys) ++ zs ≡ xs ++ (ys ++ zs)
  append_assoc [] ys zs = refl
  append_assoc (x ∷ xs) ys zs = ap (λ t. x ∷ t) (append_assoc xs ys zs)

  pub append_nil : (xs : List A) → xs ++ [] ≡ xs
  append_nil [] = refl
  append_nil (x ∷ xs) = ap (λ t. x ∷ t) (append_nil xs)
