-- ===== src/Postgres/Schedules/Laws.antt =====
-- business.go, schedules: the grouping loses no shift and keeps the order.
use booknow_mcp_service.Base.{
  Option, none, some, if◌then◌else◌, String, List, [], ◌∷◌, ◌++◌, false, Bool-cases, str_eq, eq_iff,
  ◌≡◌, ◌≢◌, refl, ap, sym, ◌∙◌, inl, inr, arith, append_assoc, append_nil,
}
use booknow_mcp_service.Business.Types.Booking.{Shift, SpecialistSchedule}
use booknow_mcp_service.Postgres.Schedules.{ShiftRow, add_row, group_from, group_rows}

-- The rows of the groups in order, each shift with the id and the name of its specialist.
abbrev pub rows_of : String → String → List Shift → List ShiftRow
rows_of id name [] = []
rows_of id name (sh ∷ shs) = record { id = id; name = name; shift = sh } ∷ rows_of id name shs

unfoldable pub ungroup : List SpecialistSchedule → List ShiftRow
ungroup [] = []
ungroup (sp ∷ sps) = rows_of sp.id sp.name sp.shifts ++ ungroup sps

-- The specialist of a row or of a group.
abbrev pub Named : Type 0
Named = Option (String × String)

-- A row as it is kept after one of a specialist: with the name that their first row has.
abbrev pub kept_row : Named → ShiftRow → ShiftRow
kept_row none r = r
kept_row (some (id, name)) r = if str_eq id r.id then record r { name = name } else r

-- The rows, each with the name that the first of the neighbouring rows of its specialist has: where a
-- specialist has one name, as in the table of specialists, the rows themselves.
unfoldable pub kept_rows : Named → List ShiftRow → List ShiftRow
kept_rows last [] = []
kept_rows last (r ∷ rs) = let row = kept_row last r in row ∷ kept_rows (some (row.id, row.name)) rs

-- Neighbouring groups are of different specialists.
abbrev pub NoRepeat : List SpecialistSchedule → Type 0
NoRepeat [] = Unit
NoRepeat (sp ∷ []) = Unit
NoRepeat (sp ∷ next ∷ sps) = (sp.id ≢ next.id) × NoRepeat (next ∷ sps)

-- The specialist of the last group.
abbrev last_from : Named → List SpecialistSchedule → Named
last_from n [] = n
last_from n (sp ∷ sps) = last_from (some (sp.id, sp.name)) sps

abbrev last_of : List SpecialistSchedule → Named
last_of sps = last_from none sps

same_group :
    (id name : String) (shifts : List Shift) (r : ShiftRow)
    → id ≡ r.id
    → rows_of id name (shifts ++ r.shift ∷ []) ++ []
      ≡ (rows_of id name shifts ++ []) ++ (record r { name = name }) ∷ []
same_group id name [] r e = ap (λ i. (record { id = i; name = name; shift = r.shift }) ∷ []) e
same_group id name (sh ∷ shifts) r e =
    ap (λ t. (record { id = id; name = name; shift = sh }) ∷ t) (same_group id name shifts r e)

differs : (a b : String) → str_eq a b ≡ false → a ≢ b
differs a b h = ground (arith, eq_iff a b)

new_group :
    (id name : String) (shifts : List Shift) (r : ShiftRow)
    → rows_of id name shifts ++ r ∷ [] ≡ (rows_of id name shifts ++ []) ++ r ∷ []
new_group id name [] r = refl
new_group id name (sh ∷ shifts) r =
    ap (λ t. (record { id = id; name = name; shift = sh }) ∷ t) (new_group id name shifts r)

ungroup-add_row :
    (sps : List SpecialistSchedule) (r : ShiftRow)
    → ungroup (add_row sps r) ≡ ungroup sps ++ kept_row (last_of sps) r ∷ []
unfolding ungroup add_row
ungroup-add_row [] r = refl
ungroup-add_row (sp ∷ []) r = elim (Bool-cases (str_eq sp.id r.id)) [
  | inl same ↦ rw same (same_group sp.id sp.name sp.shifts r ((eq_iff sp.id r.id).0 same))
  | inr new ↦ rw new (new_group sp.id sp.name sp.shifts r)
]
ungroup-add_row (sp ∷ next ∷ sps) r =
    ap (λ t. rows_of sp.id sp.name sp.shifts ++ t) (ungroup-add_row (next ∷ sps) r)
    ∙ sym (
        append_assoc (rows_of sp.id sp.name sp.shifts) (ungroup (next ∷ sps))
          (kept_row (last_of (next ∷ sps)) r ∷ []))

abbrev head_of : ShiftRow → Named
head_of r = some (r.id, r.name)

last_from-add_row :
    (n : Named) (sp : SpecialistSchedule) (sps : List SpecialistSchedule) (r : ShiftRow)
    → last_from n (add_row (sp ∷ sps) r)
      ≡ head_of (kept_row (last_from (some (sp.id, sp.name)) sps) r)
unfolding add_row
last_from-add_row n sp [] r = elim (Bool-cases (str_eq sp.id r.id)) [
  | inl same ↦ rw same (ap (λ i. some (i, sp.name)) ((eq_iff sp.id r.id).0 same))
  | inr new ↦ rw new refl
]
last_from-add_row n sp (next ∷ sps) r = last_from-add_row (some (sp.id, sp.name)) next sps r

last_of-add_row :
    (sps : List SpecialistSchedule) (r : ShiftRow)
    → last_of (add_row sps r) ≡ head_of (kept_row (last_of sps) r)
unfolding add_row
last_of-add_row [] r = refl
last_of-add_row (sp ∷ sps) r = last_from-add_row none sp sps r

ungroup-group_from :
    (sps : List SpecialistSchedule) (rs : List ShiftRow)
    → ungroup (group_from sps rs) ≡ ungroup sps ++ kept_rows (last_of sps) rs
unfolding group_from kept_rows
ungroup-group_from sps [] = sym (append_nil (ungroup sps))
ungroup-group_from sps (r ∷ rs) =
    ungroup-group_from (add_row sps r) rs
    ∙ (ap (λ t. t ++ kept_rows (last_of (add_row sps r)) rs) (ungroup-add_row sps r)
        ∙ (append_assoc (ungroup sps) (kept_row (last_of sps) r ∷ [])
              (kept_rows (last_of (add_row sps r)) rs)
            ∙ ap (λ l. ungroup sps ++ kept_row (last_of sps) r ∷ kept_rows l rs)
                (last_of-add_row sps r)))

add_row-NoRepeat :
    (sps : List SpecialistSchedule) (r : ShiftRow) → NoRepeat sps → NoRepeat (add_row sps r)
unfolding add_row
add_row-NoRepeat [] r h = tt
add_row-NoRepeat (sp ∷ []) r h = elim (Bool-cases (str_eq sp.id r.id)) [
  | inl same ↦ rw same tt
  | inr new ↦ rw new (differs sp.id r.id new, tt)
]
add_row-NoRepeat (sp ∷ next ∷ []) r h = elim (Bool-cases (str_eq next.id r.id)) [
  | inl same ↦ rw same (h.0, tt)
  | inr new ↦ rw new (h.0, (differs next.id r.id new, tt))
]
add_row-NoRepeat (sp ∷ next ∷ third ∷ sps) r (ne, h) =
    (ne, add_row-NoRepeat (next ∷ third ∷ sps) r h)

group_from-NoRepeat :
    (sps : List SpecialistSchedule) (rs : List ShiftRow)
    → NoRepeat sps
    → NoRepeat (group_from sps rs)
unfolding group_from
group_from-NoRepeat sps [] h = h
group_from-NoRepeat sps (r ∷ rs) h =
    group_from-NoRepeat (add_row sps r) rs (add_row-NoRepeat sps r h)

-- The schedules of a day hold exactly the rows of the query: ungrouped, they are the rows in the order
-- of the query, each with the name that the first of the neighbouring rows of its specialist has; and no
-- two neighbouring groups are of one specialist.
pub group_rows-ungroup :
    (rs : List ShiftRow) → (ungroup (group_rows rs) ≡ kept_rows none rs) × NoRepeat (group_rows rs)
unfolding ungroup
group_rows-ungroup rs = (ungroup-group_from [] rs, group_from-NoRepeat [] rs tt)
