-- ===== src/Database/Keys.antt =====
-- The drafts of the database are found by what they are asked for.
use booknow_mcp_service.Base.{
  String, List, [], ◌∷◌, All, Option, none, some, Bool, true, false, ◌&&◌, str_eq, eq_iff, ◌≡◌,
  refl, sym, ap, ◌∙◌, inl, inr, arith, Bool-cases, ok, Err, trim_space,
}
use booknow_mcp_service.Business.Checks.{is_uuid}
use booknow_mcp_service.Drafts.Types.{Draft}
use booknow_mcp_service.Postgres.{Row, no_rows, row, query_error, lookup_row}
use booknow_mcp_service.Database.{
  DraftRow, Names, Surroundings, find_row, draft_of, named, selected,
}

-- An id in the form that PostgreSQL prints: Confirm's normalization leaves it as it is.
pub record IsCanonical (to_lower : String → String) (id : String) : Type 0 where
  pub lowered : to_lower (trim_space id) ≡ id
  pub valid : is_uuid id ≡ true

-- The drafts have canonical ids, each its own.
abbrev pub IsKeyed : (String → String) → List DraftRow → Type 0
IsKeyed to_lower [] = Unit {0}
IsKeyed to_lower (d ∷ rows) =
    IsCanonical to_lower d.id
    × All (λ (e : DraftRow). str_eq e.id d.id ≡ false) rows
    × IsKeyed to_lower rows

pub some-injective {ℓ} : {A : Type ℓ} {a b : A} → some a ≡ some b → a ≡ b
some-injective h = cc

pub none_not_some {ℓ} : {A : Type ℓ} {a : A} → none ≡ some a → ⊥
none_not_some h = cc

false_not_true : false ≡ true → ⊥
false_not_true h = cc

pub both_true : (a b : Bool) → (a && b) ≡ true → (a ≡ true) × (b ≡ true)
both_true a b h = ground arith

pub true_both : (a b : Bool) → a ≡ true → b ≡ true → (a && b) ≡ true
true_both a b p q = ground arith

pub same_text : (a b : String) → str_eq a b ≡ true → a ≡ b
same_text a b h = (eq_iff a b).0 h

pub text_same : {a b : String} → a ≡ b → str_eq a b ≡ true
text_same {a} {b} e = (eq_iff a b).1 e

module _ {ℓ} {A : Type ℓ} where
  -- What is found passes the test.
  pub find_row-passes : (p : A → Bool) (xs : List A) {x : A} → find_row p xs ≡ some x → p x ≡ true
  unfolding find_row
  find_row-passes p [] h = absurd (none_not_some h)
  find_row-passes p (y ∷ xs) {x} h = elim (Bool-cases (p y)) [
    | inl hit ↦ ap p (sym (some-injective (rw hit at h))) ∙ hit
    | inr miss ↦ find_row-passes p xs (rw miss at h)
  ]

  -- The first element that passes is found.
  pub find_row-hit :
      (p : A → Bool) (x : A) (xs : List A) → p x ≡ true → find_row p (x ∷ xs) ≡ some x
  unfolding find_row
  find_row-hit p x xs h = rw h refl

  -- What is found has what holds of all.
  pub find_row-All {κ} :
      (P : A → Type κ) (p : A → Bool) (xs : List A) {x : A}
      → All P xs
      → find_row p xs ≡ some x
      → P x
  unfolding find_row
  find_row-All P p [] every h = absurd (none_not_some h)
  find_row-All P p (y ∷ xs) {x} every h = elim (Bool-cases (p y)) [
    | inl hit ↦ rw (← some-injective (rw hit at h)) (every.0)
    | inr miss ↦ find_row-All P p xs (every.1) (rw miss at h)
  ]

-- Among rows with ids of their own, a row that one test finds is found by every test that it passes and
-- that no row of another id does.
pub find_row-IsKeyed :
    (to_lower : String → String) (p q : DraftRow → Bool) (rows : List DraftRow) (d : DraftRow)
    → IsKeyed to_lower rows
    → find_row p rows ≡ some d
    → q d ≡ true
    → ((e : DraftRow) → q e ≡ true → e.id ≡ d.id)
    → find_row q rows ≡ some d
unfolding find_row
find_row-IsKeyed to_lower p q [] d keyed found passes own = absurd (none_not_some found)
find_row-IsKeyed to_lower p q (e ∷ rows) d keyed found passes own = elim (Bool-cases (p e)) [
  | inl hit ↦ let same = some-injective (rw hit at found) in rw (ap q same ∙ passes) (ap some same)
  | inr miss ↦
      let rest = rw miss at found in
      elim (Bool-cases (q e)) [
        | inl hit ↦ absurd (
            false_not_true (
              sym (find_row-All (λ (c : DraftRow). str_eq c.id e.id ≡ false) p rows (keyed.1) rest)
              ∙ text_same (sym (own e hit))))
        | inr skip ↦ rw skip (find_row-IsKeyed to_lower p q rows d (keyed.2) rest passes own)
      ]
]

pub IsKeyed-All :
    (to_lower : String → String) (rows : List DraftRow)
    → IsKeyed to_lower rows
    → All (λ (d : DraftRow). IsCanonical to_lower d.id) rows
IsKeyed-All to_lower [] keyed = tt
IsKeyed-All to_lower (d ∷ rows) keyed = (keyed.0, IsKeyed-All to_lower rows (keyed.2))

-- A draft that a lookup answers is that of the row it found.
pub record IsRead (o : Surroundings) (found : Option DraftRow) (d : Draft) : Type 0 where
  pub stored : DraftRow
  pub found_is : found ≡ some stored
  pub joined : Names
  pub joined_is : o.names stored.booking ≡ some joined
  pub draft_is : draft_of stored joined ≡ d

row-injective {ℓ} : {A : Type ℓ} {a b : A} → row a ≡ row b → a ≡ b
row-injective h = cc

no_rows_not_row {ℓ} : {A : Type ℓ} {a : A} → no_rows ≡ row a → ⊥
no_rows_not_row h = cc

lookup_row-eq-ok {ℓ} :
    {A : Type ℓ} (missing : Err) (text : String) (r : Row A) {a : A}
    → lookup_row missing text r ≡ ok a
    → r ≡ row a
unfolding lookup_row
lookup_row-eq-ok missing text no_rows h = cc
lookup_row-eq-ok missing text (row b) h = cc
lookup_row-eq-ok missing text (query_error e) h = cc

named-IsRead :
    (o : Surroundings) (r : DraftRow) (names : Option Names) (d : Draft)
    → o.names r.booking ≡ names
    → named r names ≡ row d
    → IsRead o (some r) d
named-IsRead o r none d is h = absurd (no_rows_not_row h)
named-IsRead o r (some n) d is h = record {
  stored = r;
  found_is = refl;
  joined = n;
  joined_is = is;
  draft_is = row-injective h;
}

selected-IsRead :
    (o : Surroundings) (found : Option DraftRow) (d : Draft)
    → selected o found ≡ row d
    → IsRead o found d
selected-IsRead o none d h = absurd (no_rows_not_row h)
selected-IsRead o (some r) d h = named-IsRead o r (o.names r.booking) d refl h

pub lookup-IsRead :
    (o : Surroundings) (missing : Err) (text : String) (found : Option DraftRow) (d : Draft)
    → lookup_row missing text (selected o found) ≡ ok d
    → IsRead o found d
lookup-IsRead o missing text found d h =
    selected-IsRead o found d (lookup_row-eq-ok missing text (selected o found) h)

pub IsRead-lookup :
    (o : Surroundings) (missing : Err) (text : String) (found : Option DraftRow) (r : DraftRow)
    (n : Names)
    → found ≡ some r
    → o.names r.booking ≡ some n
    → lookup_row missing text (selected o found) ≡ ok (draft_of r n)
unfolding lookup_row
IsRead-lookup o missing text found r n e joined = rw (e, joined) refl
