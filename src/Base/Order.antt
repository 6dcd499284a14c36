-- ===== src/Base/Order.antt =====
-- Sorting by a total order forgets the order of the list.
use mathlib.Core.Path.{◌≡◌, refl, ap, ◌∙◌}
use mathlib.Core.Bool.{Bool, true, false}
use mathlib.Core.List.{List, [], ◌∷◌, Permᴰ}
use Prim.Native.Nat.{ℕ, compare, Ordering}
use Prim.Native.Char.{Char, code}
use Prim.Native.String.{String}
use native.Mathlib.Omega.{arith}
use text.Mathlib.TextEquality.{codes_equal}
use booknow_mcp_service.Base.Tests.{◌==◌}
use booknow_mcp_service.Base.Sort.{insert_sorted, sort}
use booknow_mcp_service.Base.Text.{str_leb}

-- A test that decides a total order.
pub record TotalOrder {A : Type 0} (le : A → A → Bool) : Type 0 where
  pub total : (a b : A) → le a b ≡ false → le b a ≡ true
  pub antisym : (a b : A) → le a b ≡ true → le b a ≡ true → a ≡ b
  pub trans : (a b c : A) → le a b ≡ true → le b c ≡ true → le a c ≡ true

module _ {A : Type 0} (le : A → A → Bool) (o : TotalOrder le) where
  insert_sorted_comm :
      (x y : A) (l : List A)
      → insert_sorted le x (insert_sorted le y l) ≡ insert_sorted le y (insert_sorted le x l)
  unfolding insert_sorted
  insert_sorted_comm x y [] = ground (arith, o.total x y, o.total y x, o.antisym x y)
  insert_sorted_comm x y (z ∷ l) = ground (
    arith,
    o.total x y,
    o.total y x,
    o.antisym x y,
    o.trans x y z,
    o.trans y x z,
    insert_sorted_comm x y l,
  )

  pub sort-Perm : (xs ys : List A) → Permᴰ xs ys → sort le xs ≡ sort le ys
  unfolding sort
  sort-Perm _ _ Permᴰ.nil = refl
  sort-Perm (a ∷ xs) (b ∷ ys) (Permᴰ.cons e p) =
      ap (λ x. insert_sorted le x (sort le xs)) e ∙ ap (insert_sorted le b) (sort-Perm xs ys p)
  sort-Perm (a ∷ b ∷ l) (a' ∷ b' ∷ _) (Permᴰ.swap e f) =
      insert_sorted_comm a b (sort le l)
      ∙ (ap (λ x. insert_sorted le x (insert_sorted le a (sort le l))) f
          ∙ ap (λ x. insert_sorted le a' (insert_sorted le x (sort le l))) e)
  sort-Perm _ _ (Permᴰ.trans p q) = sort-Perm _ _ p ∙ sort-Perm _ _ q

eq_compare : (a b : ℕ) → (a == b) ≡ true → compare a b ≡ Ordering.eq
eq_compare a b h = ground arith

same_code : (c d : Char) → (code c == code d) ≡ true → c ≡ d
same_code c d h = codes_equal c d (eq_compare (code c) (code d) h)

str_leb_total : (s t : String) → str_leb s t ≡ false → str_leb t s ≡ true
unfolding str_leb
str_leb_total String.[] t h = cc
str_leb_total (String.◌∷◌ c s) String.[] h = refl
str_leb_total (String.◌∷◌ c s) (String.◌∷◌ d t) h = ground (arith, str_leb_total s t)

str_leb_antisym : (s t : String) → str_leb s t ≡ true → str_leb t s ≡ true → s ≡ t
unfolding str_leb
str_leb_antisym String.[] String.[] h k = refl
str_leb_antisym String.[] (String.◌∷◌ d t) h k = cc
str_leb_antisym (String.◌∷◌ c s) String.[] h k = cc
str_leb_antisym (String.◌∷◌ c s) (String.◌∷◌ d t) h k =
    ground (arith, str_leb_antisym s t, same_code c d)

str_leb_trans : (s t u : String) → str_leb s t ≡ true → str_leb t u ≡ true → str_leb s u ≡ true
unfolding str_leb
str_leb_trans String.[] t u h k = refl
str_leb_trans (String.◌∷◌ c s) String.[] u h k = cc
str_leb_trans (String.◌∷◌ c s) (String.◌∷◌ d t) String.[] h k = cc
str_leb_trans (String.◌∷◌ c s) (String.◌∷◌ d t) (String.◌∷◌ e u) h k =
    ground (arith, str_leb_trans s t u)

pub str_leb-TotalOrder : TotalOrder str_leb
str_leb-TotalOrder = record {
  total = str_leb_total;
  antisym = str_leb_antisym;
  trans = str_leb_trans;
}
