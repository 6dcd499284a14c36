-- ===== src/Business/Checks/Laws.antt =====
-- service.go: what the checks of arguments accept.
use booknow_mcp_service.Base.{
  ℕ, zero, suc, ◌+◌, ℤ, pos, ◌≤ℤ◌, String, List, [], ◌∷◌, Bool, true, false, ◌||◌, ◌==◌,
  if◌then◌else◌, ◌≡◌, refl, ◌⊎◌, ◌↔◌, arith, length, get_elem?, ◌≢◌, bytes, trim_space, Result, ok,
  err, Option, none, some, eq_of_parts, Char, code,
}
use mathlib.Core.Bool.{and-eq-true_iff}
use booknow_mcp_service.Business.Checks.{
  uuid_byte, uuid_from, is_uuid, required_uuid, page_and_limit, active_entity, or_default, is_hex,
  escape_like,
}

-- Every accepted page and limit is in range, 0 standing for the default.
pub page_and_limit_bounds :
    (page limit p l : ℤ)
    → page_and_limit page limit ≡ ok (p, l)
    → (pos 1 ≤ℤ p)
      × (p ≤ℤ pos 10000)
      × (pos 1 ≤ℤ l)
      × (l ≤ℤ pos 100)
      × ((page ≡ pos 0) ⊎ (p ≡ page))
      × ((limit ≡ pos 0) ⊎ (l ≡ limit))
unfolding page_and_limit
page_and_limit_bounds page limit p l h =
    ground (arith, eq_of_parts page (pos 0), eq_of_parts limit (pos 0))

-- The pages and limits that are accepted are exactly 0 to 10000 and 0 to 100.
pub page_and_limit_iff :
    (page limit : ℤ)
    → ((r : ℤ × ℤ) × (page_and_limit page limit ≡ ok r))
      ↔ ((pos 0 ≤ℤ page) × (page ≤ℤ pos 10000) × (pos 0 ≤ℤ limit) × (limit ≤ℤ pos 100))
unfolding page_and_limit
page_and_limit_iff page limit = (
  λ (r, h). ground arith,
  λ h. ((or_default page (pos 1), or_default limit (pos 20)), ground arith),
)

uuid_from-get_elem :
    (j : ℕ) (s : List ℕ) (i k c : ℕ)
    → uuid_from j s ≡ true
    → j + i ≡ k
    → get_elem? s i ≡ some c
    → uuid_byte k c ≡ true
unfolding uuid_from
uuid_from-get_elem j [] i k c h e found = cc
uuid_from-get_elem j (d ∷ s) zero k c h e found =
    let same : d ≡ c = ground arith in
    let at : j ≡ k = omega arith in rw (← same, ← at) ((and-eq-true_iff _ _).0 h).0
uuid_from-get_elem j (d ∷ s) (suc i) k c h e found =
    uuid_from-get_elem (j + 1) s i k c ((and-eq-true_iff _ _).0 h).1 (omega arith) found

uuid_byte-cases :
    (i c : ℕ)
    → uuid_byte i c ≡ true
    → ((c ≡ b'-') × ((i ≡ 8) ⊎ (i ≡ 13) ⊎ (i ≡ 18) ⊎ (i ≡ 23)))
      ⊎ ((is_hex c ≡ true) × (i ≢ 8) × (i ≢ 13) × (i ≢ 18) × (i ≢ 23))
uuid_byte-cases i c h = ground arith

-- An accepted UUID has 36 bytes: hyphens at 8, 13, 18 and 23, hexadecimal digits elsewhere.
pub is_uuid-bytes :
    (s : String)
    → is_uuid s ≡ true
    → (length (bytes s) ≡ 36)
      × ((i c : ℕ)
          → get_elem? (bytes s) i ≡ some c
          → ((c ≡ b'-') × ((i ≡ 8) ⊎ (i ≡ 13) ⊎ (i ≡ 18) ⊎ (i ≡ 23)))
            ⊎ ((is_hex c ≡ true) × (i ≢ 8) × (i ≢ 13) × (i ≢ 18) × (i ≢ 23)))
unfolding is_uuid
is_uuid-bytes s h =
    let (size, shape) = (and-eq-true_iff (length (bytes s) == 36) (uuid_from 0 (bytes s))).0 h in
    (
      ground arith,
      λ i c e. uuid_byte-cases i c (uuid_from-get_elem 0 (bytes s) i i c shape (omega arith) e),
    )

pub required_uuid-eq-ok :
    (field value : String) {u : Unit {0}}
    → required_uuid field value ≡ ok u
    → is_uuid (trim_space value) ≡ true
unfolding required_uuid
required_uuid-eq-ok field value h = ground arith

-- An entity that is accepted is the one that the lookup returned, and it is active.
pub active_entity-eq-ok {ℓ} :
    {A : Type ℓ} (message : String) (active : A → Bool) (found : Result A) {a : A}
    → active_entity message active found ≡ ok a
    → (found ≡ ok a) × (active a ≡ true)
unfolding active_entity
active_entity-eq-ok message active (ok b) h = ground arith
active_entity-eq-ok message active (err e) h = ground arith

-- Reads an escaped text back, with backslash as the escape character; a wildcard that is not
-- escaped is refused.
abbrev pub with_char : Char → Option (List Char) → Option (List Char)
with_char c none = none
with_char c (some s) = some (c ∷ s)

abbrev pub is_special : Char → Bool
is_special c = code c == 92 || (code c == b'%' || code c == b'_')

unfoldable pub read_literal : Bool → List Char → Option (List Char)
read_literal true [] = none
read_literal true (c ∷ s) = with_char c (read_literal false s)
read_literal false [] = some []
read_literal false (c ∷ s) =
    let escape = read_literal true s in
    let plain = with_char c (read_literal false s) in
    if code c == 92 then escape else if is_special c then none else plain

-- An escaped query holds the query literally: reading it back, with backslash as the escape
-- character, meets no bare wildcard and gives the query.
pub read_literal-escape_like : (s : List Char) → read_literal false (escape_like s) ≡ some s
unfolding read_literal escape_like
read_literal-escape_like [] = refl
read_literal-escape_like (c ∷ s) = ground (arith, read_literal-escape_like s)
