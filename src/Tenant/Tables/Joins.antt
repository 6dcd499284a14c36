-- ===== src/Tenant/Tables/Joins.antt =====
-- The query of mcp_access.go: what holds of the rows of joins.
use booknow_mcp_service.Base.{
  List, [], ◌∷◌, Option, none, some, Bool, true, any, All, Any, All-append_iff, ◌≡◌, refl, inl, inr,
  if◌then◌else◌, if-both,
}
use booknow_mcp_service.Tenant.Tables.{joined, left_joined}

abbrev pub In : {A : Type 0} → A → List A → Type 0
In x xs = Any (λ y. y ≡ x) xs

module _ {A B : Type 0} (P : B → Type 0) (on : A → Bool) where
  pub All-joined :
      (f : A → List B) (xs : List A)
      → ((x : A) → In x xs → on x ≡ true → All P (f x))
      → All P (joined on f xs)
  All-joined f [] h = tt
  All-joined f (x ∷ xs) h = (All-append_iff P (if on x then f x else []) (joined on f xs)).1 (
    if-both (All P) (on x) (f x) [] (h x (inl refl)) (λ p. tt),
    All-joined f xs (λ y i. h y (inr i)),
  )

  pub All-left_joined :
      (f : Option A → List B) (xs : List A)
      → ((x : A) → In x xs → on x ≡ true → All P (f (some x)))
      → All P (f none)
      → All P (left_joined on f xs)
  All-left_joined f xs h n =
      if-both (All P) (any on xs) (joined on (λ x. f (some x)) xs) (f none)
        (λ p. All-joined (λ x. f (some x)) xs h) (λ p. n)
