-- ===== src/Base/Sort.antt =====
-- `slices.Sort` and `slices.SortFunc`: insertion sort, which any correct sort agrees with on a total
-- order, and its laws.
use mathlib.Core.Logic.{◌⊎◌, ◌↔◌}
use mathlib.Core.Bool.{Bool}
use mathlib.Core.List.{List, [], ◌∷◌}
use native.Mathlib.Omega.{arith}
use booknow_mcp_service.Base.Tests.{if◌then◌else◌}
use booknow_mcp_service.Base.Lists.{Any}

module _ {A : Type 0} (le : A → A → Bool) where
  unfoldable pub insert_sorted : A → List A → List A
  insert_sorted x [] = x ∷ []
  insert_sorted x (y ∷ ys) =
      let later = insert_sorted x ys in if le x y then x ∷ y ∷ ys else y ∷ later

  unfoldable pub sort : List A → List A
  unfolding insert_sorted
  sort [] = []
  sort (x ∷ xs) = insert_sorted x (sort xs)

  module _ (P : A → Type 0) where
    insert_sorted-Any : (x : A) (xs : List A) → Any P (insert_sorted x xs) ↔ (P x ⊎ Any P xs)
    unfolding insert_sorted
    insert_sorted-Any x [] = ground arith
    insert_sorted-Any x (y ∷ ys) = ground (arith, insert_sorted-Any x ys)

    -- Sorting keeps which elements there are.
    pub sort-Any : (xs : List A) → Any P (sort xs) ↔ Any P xs
    unfolding sort
    sort-Any [] = ground arith
    sort-Any (x ∷ xs) = ground (arith, insert_sorted-Any x (sort xs), sort-Any xs)
