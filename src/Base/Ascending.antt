-- ===== src/Base/Ascending.antt =====
-- Insertion sort gives an ascending list of the same elements.
use mathlib.Core.Path.{◌≡◌, refl}
use mathlib.Core.Logic.{inl, inr}
use mathlib.Core.Bool.{Bool, true}
use mathlib.Core.List.{Permᴰ, List, [], ◌∷◌}
use native.Mathlib.Omega.{arith}
use booknow_mcp_service.Base.Tests.{Bool-cases}
use booknow_mcp_service.Base.Lists.{All}
use booknow_mcp_service.Base.Sort.{insert_sorted, sort}
use booknow_mcp_service.Base.Order.{TotalOrder}

module _ {A : Type 0} (le : A → A → Bool) where
  abbrev pub IsAscending : List A → Type 0
  IsAscending [] = Unit
  IsAscending (x ∷ xs) = All (λ y. le x y ≡ true) xs × IsAscending xs

  insert_sorted-All :
      (P : A → Type 0) (x : A) (xs : List A) → P x → All P xs → All P (insert_sorted le x xs)
  unfolding insert_sorted
  insert_sorted-All P x [] p h = (p, tt)
  insert_sorted-All P x (y ∷ ys) p h = ground (arith, insert_sorted-All P x ys)

  same : (xs : List A) → Permᴰ xs xs
  same [] = Permᴰ.nil
  same (x ∷ xs) = Permᴰ.cons refl (same xs)

  insert_sorted-Permᴰ : (x : A) (xs : List A) → Permᴰ (insert_sorted le x xs) (x ∷ xs)
  unfolding insert_sorted
  insert_sorted-Permᴰ x [] = Permᴰ.cons refl Permᴰ.nil
  insert_sorted-Permᴰ x (y ∷ ys) = elim (Bool-cases (le x y)) [
    | inl first ↦ rw first (same (x ∷ y ∷ ys))
    | inr later ↦
        rw later (Permᴰ.trans (Permᴰ.cons refl (insert_sorted-Permᴰ x ys)) (Permᴰ.swap refl refl))
  ]

  pub sort-Permᴰ : (xs : List A) → Permᴰ (sort le xs) xs
  unfolding sort
  sort-Permᴰ [] = Permᴰ.nil
  sort-Permᴰ (x ∷ xs) =
      Permᴰ.trans (insert_sorted-Permᴰ x (sort le xs)) (Permᴰ.cons refl (sort-Permᴰ xs))

  insert_first :
      (x : A) (xs : List A) → All (λ y. le x y ≡ true) xs → insert_sorted le x xs ≡ x ∷ xs
  unfolding insert_sorted
  insert_first x [] h = refl
  insert_first x (y ∷ ys) h = rw (h.0) refl

  pub sort-sorted : (xs : List A) → IsAscending xs → sort le xs ≡ xs
  unfolding sort
  sort-sorted [] h = refl
  sort-sorted (x ∷ xs) h = rw (sort-sorted xs (h.1)) (insert_first x xs (h.0))

  module _ (o : TotalOrder le) where
    above :
        (x y : A) (ys : List A)
        → le x y ≡ true
        → All (λ z. le y z ≡ true) ys
        → All (λ z. le x z ≡ true) ys
    above x y [] h hs = tt
    above x y (z ∷ zs) h hs = (o.trans x y z h (hs.0), above x y zs h (hs.1))

    insert_sorted-IsAscending :
        (x : A) (xs : List A) → IsAscending xs → IsAscending (insert_sorted le x xs)
    unfolding insert_sorted
    insert_sorted-IsAscending x [] h = (tt, tt)
    insert_sorted-IsAscending x (y ∷ ys) h = elim (Bool-cases (le x y)) [
      | inl first ↦ rw first ((first, above x y ys first (h.0)), h)
      | inr later ↦ rw later (
        insert_sorted-All (λ z. le y z ≡ true) x ys (o.total x y later) (h.0),
        insert_sorted-IsAscending x ys (h.1),
      )
    ]

    pub sort-IsAscending : (xs : List A) → IsAscending (sort le xs)
    unfolding sort
    sort-IsAscending [] = tt
    sort-IsAscending (x ∷ xs) = insert_sorted-IsAscending x (sort le xs) (sort-IsAscending xs)
