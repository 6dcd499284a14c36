-- ===== src/Tenant/Tables/Latest.antt =====
-- The query of mcp_access.go: which of several connections is read.
use booknow_mcp_service.Base.{
  ℤ, List, [], ◌∷◌, Option, none, some, Bool, true, false, All, ◌≡◌, refl, arith, str_eq, eq_ℤ,
  ltb_ℤ, if◌then◌else◌, if-both,
}
use booknow_mcp_service.Tenant.{AccessRecord}
use booknow_mcp_service.Tenant.Tables.{ConnectionRow, is_newer, precedes, first_or, first_row}

abbrev newer : (u c v d : ℤ) → Bool
newer u c v d = if eq_ℤ u v then ltb_ℤ d c else ltb_ℤ v u

newer_irreflexive : (u c : ℤ) → newer u c u c ≡ false
newer_irreflexive u c = ground arith

newer_asymmetric : (u c v d : ℤ) → newer u c v d ≡ true → newer v d u c ≡ false
newer_asymmetric u c v d h = ground arith

newer_negative :
    (u c v d w e : ℤ) → newer u c v d ≡ false → newer v d w e ≡ false → newer u c w e ≡ false
newer_negative u c v d w e p q = ground arith

abbrev ordered : (a b n : Bool) → Bool
ordered a b n = if a then (if b then n else true) else if b then false else n

ordered_asymmetric :
    (a b n m : Bool) → (n ≡ true → m ≡ false) → ordered a b n ≡ true → ordered b a m ≡ false
ordered_asymmetric a b n m later h = ground arith

ordered_negative :
    (a b c n m k : Bool)
    → (n ≡ false → m ≡ false → k ≡ false)
    → ordered a b n ≡ false
    → ordered b c m ≡ false
    → ordered a c k ≡ false
ordered_negative a b c n m k later p q = ground arith

precedes_irreflexive : (a : ConnectionRow) → precedes a a ≡ false
unfolding precedes
precedes_irreflexive a = ground (arith, newer_irreflexive a.updated_at a.created_at)

precedes_asymmetric : (a b : ConnectionRow) → precedes a b ≡ true → precedes b a ≡ false
unfolding precedes
precedes_asymmetric a b h =
    ordered_asymmetric (str_eq a.status "active") (str_eq b.status "active") (is_newer a b)
      (is_newer b a) (newer_asymmetric a.updated_at a.created_at b.updated_at b.created_at) h

precedes_negative :
    (a b c : ConnectionRow) → precedes a b ≡ false → precedes b c ≡ false → precedes a c ≡ false
unfolding precedes
precedes_negative a b c p q =
    ordered_negative (str_eq a.status "active") (str_eq b.status "active")
      (str_eq c.status "active") (is_newer a b) (is_newer b c) (is_newer a c)
      (newer_negative a.updated_at a.created_at b.updated_at b.created_at c.updated_at c.created_at)
      p q

-- No row comes before `c`.
abbrev pub IsFirst : ConnectionRow → List (ConnectionRow × AccessRecord) → Type 0
IsFirst c rows = All (λ s. precedes s.0 c ≡ false) rows

IsFirst-before :
    (a c : ConnectionRow) (rows : List (ConnectionRow × AccessRecord))
    → precedes c a ≡ false
    → IsFirst c rows
    → IsFirst a rows
IsFirst-before a c [] before h = tt
IsFirst-before a c (s ∷ rows) before h =
    (precedes_negative s.0 c a (h.0) before, IsFirst-before a c rows before (h.1))

abbrev pub IsFirstOf :
    List (ConnectionRow × AccessRecord) → Option (ConnectionRow × AccessRecord) → Type 0
IsFirstOf rows none = rows ≡ []
IsFirstOf rows (some r) = IsFirst r.0 rows

first_or-IsFirst :
    (r : ConnectionRow × AccessRecord) (rows : List (ConnectionRow × AccessRecord))
    (first : Option (ConnectionRow × AccessRecord))
    → IsFirstOf rows first
    → IsFirst (first_or r first).0 (r ∷ rows)
first_or-IsFirst r rows none h = (precedes_irreflexive r.0, rw h tt)
first_or-IsFirst r rows (some s) h =
    if-both (λ (x : ConnectionRow × AccessRecord). IsFirst x.0 (r ∷ rows)) (precedes s.0 r.0) s r
      (λ later. (precedes_asymmetric s.0 r.0 later, h))
      (λ before. (precedes_irreflexive r.0, IsFirst-before r.0 s.0 rows before h))

pub first_row-IsFirstOf :
    (rows : List (ConnectionRow × AccessRecord)) → IsFirstOf rows (first_row rows)
first_row-IsFirstOf [] = refl
first_row-IsFirstOf (r ∷ rows) = first_or-IsFirst r rows (first_row rows) (first_row-IsFirstOf rows)
