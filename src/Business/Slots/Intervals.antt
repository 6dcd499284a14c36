-- ===== src/Business/Slots/Intervals.antt =====
-- slots.go: intervals of offsets from local midnight, and their algebra.
use booknow_mcp_service.Base.{
  ℤ, List, [], ◌∷◌, leb_ℤ, ltb_ℤ, if◌then◌else◌, ◌||◌, ◌≤ℤ◌, ◌<ℤ◌, ◌⊎◌, ◌↔◌, Any, arith,
}

-- A half-open range [start, end).
pub record Interval : Type 0 where
  pub start : ℤ
  pub end : ℤ

abbrev pub range : ℤ → ℤ → Interval
range a b = record { start = a; end = b }

abbrev max_ℤ : ℤ → ℤ → ℤ
max_ℤ a b = if ltb_ℤ a b then b else a

abbrev min_ℤ : ℤ → ℤ → ℤ
min_ℤ a b = if ltb_ℤ b a then b else a

-- What one window leaves when `cut` is taken out, in front of the rest.
cut_one : Interval → Interval → List Interval → List Interval
cut_one cut w rest =
    if leb_ℤ cut.end w.start || leb_ℤ w.end cut.start
    then w ∷ rest
    else let after = if ltb_ℤ cut.end w.end then range cut.end w.end ∷ rest else rest in
      if ltb_ℤ w.start cut.start then range w.start cut.start ∷ after else after

-- `subtract` removes cut from every interval.
unfoldable pub subtract : List Interval → Interval → List Interval
unfolding cut_one
subtract [] cut = []
subtract (w ∷ ws) cut = cut_one cut w (subtract ws cut)

-- `intersect` clips every interval to limit.
unfoldable pub intersect : List Interval → Interval → List Interval
intersect [] limit = []
intersect (w ∷ ws) limit =
    let rest = intersect ws limit in
    let start = max_ℤ w.start limit.start in
    let end = min_ℤ w.end limit.end in if ltb_ℤ start end then range start end ∷ rest else rest

-- [a, b) lies inside one window.
abbrev pub Inside : ℤ → ℤ → Interval → Type 0
Inside a b w = (w.start ≤ℤ a) × (b ≤ℤ w.end)

abbrev pub Fits : ℤ → ℤ → List Interval → Type 0
Fits a b ws = Any (Inside a b) ws

-- [a, b) does not meet the interval.
abbrev pub Apart : ℤ → ℤ → Interval → Type 0
Apart a b cut = (b ≤ℤ cut.start) ⊎ (cut.end ≤ℤ a)

-- A range fits what is left after a cut exactly when it fitted before and does not meet the cut.
pub Fits-subtract_iff :
    (a b : ℤ) (ws : List Interval) (cut : Interval)
    → a <ℤ b
    → Fits a b (subtract ws cut) ↔ (Fits a b ws × Apart a b cut)
unfolding subtract
Fits-subtract_iff a b [] cut h = ground arith
Fits-subtract_iff a b (w ∷ ws) cut h = ground (arith, Fits-subtract_iff a b ws cut h)

-- A range fits the clipped windows exactly when it fits the windows and the limit.
pub Fits-intersect_iff :
    (a b : ℤ) (ws : List Interval) (limit : Interval)
    → a <ℤ b
    → Fits a b (intersect ws limit) ↔ (Fits a b ws × Inside a b limit)
unfolding intersect
Fits-intersect_iff a b [] limit h = ground arith
Fits-intersect_iff a b (w ∷ ws) limit h = ground (arith, Fits-intersect_iff a b ws limit h)
