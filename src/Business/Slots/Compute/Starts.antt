-- ===== src/Business/Slots/Compute/Starts.antt =====
-- slots.go, candidateStarts: which starts the loop over a window finds.
use booknow_mcp_service.Base.{
  ℕ, zero, suc, ◌+◌, ◌-◌, ◌*◌, ◌/◌, ◌%◌, ◌≤◌, ◌<◌, ℤ, pos, negsuc, pos_part, neg_part, ◌≤ℤ◌, ◌+ℤ◌,
  ◌-ℤ◌, ◌+w◌, List, [], ◌∷◌, Bool-cases, ltb_ℤ, ◌≡◌, ◌∙◌, inl, inr, ◌↔◌, Any, All, Any-append,
  arith, +w_eq, truncate,
}
use booknow_mcp_service.Business.Slots.Intervals.{Interval, range, Fits}
use booknow_mcp_service.Business.Slots.Compute.{
  starts_from, first_start, window_starts, candidate_starts,
}

-- A multiple of 30 minutes after midnight.
abbrev pub OnGrid : ℤ → Type 0
OnGrid t = (pos_part t % 1800000000000 ≡ 0) × (neg_part t ≡ 0)

abbrev pub far : ℕ
far = 2305843009213693952

-- A start that the loop offers: on the grid, with the whole need before the end, not yet started.
abbrev pub IsStart : ℤ → ℤ → ℤ → ℤ → ℤ → ℤ → Type 0
IsStart day now need from end t = OnGrid t × (from ≤ℤ t) × (t +ℤ need ≤ℤ end) × (now ≤ℤ day +ℤ t)

plus_pos : (a b : ℕ) → pos a +ℤ pos b ≡ pos (a + b)
unfolding ◌+ℤ◌
plus_pos a b = ground arith

pub add_pos : (a b : ℕ) → a + b < 9223372036854775808 → pos a +w pos b ≡ pos (a + b)
add_pos a b h = +w_eq (pos a) (pos b) (rw (plus_pos a b) (omega arith)) ∙ plus_pos a b

starts_from_iff :
    (fuel : ℕ) (day now end : ℤ) (need n m : ℕ)
    → n % 1800000000000 ≡ 0
    → n < 2305844809213693952
    → 0 < need
    → need ≤ far
    → pos_part end ≤ far
    → pos_part end < n + need + fuel * 1800000000000
    → Any (λ y. y ≡ pos m) (starts_from fuel day now (pos need) end (pos n))
      ↔ IsStart day now (pos need) (pos n) end (pos m)
unfolding starts_from
starts_from_iff zero day now end need n m g b p q e f = ground (arith, plus_pos m need)
starts_from_iff (suc fuel) day now end need n m g b p q e f =
    rw (add_pos n need (omega arith), add_pos n 1800000000000 (omega arith))
      (ground (
        arith,
        plus_pos m need,
        starts_from_iff fuel day now end need (n + 1800000000000) m (omega arith),
      ))

-- A window that starts at or after midnight and ends within the range of a Duration.
abbrev pub IsNear : Interval → Type 0
IsNear w = (neg_part w.start ≡ 0) × (pos_part w.start ≤ far) × (pos_part w.end ≤ far)

pub first_start_pos :
    (s : ℕ)
    → s ≤ far
    → (n : ℕ) × (first_start (pos s) ≡ pos n)
      × (n % 1800000000000 ≡ 0)
      × (s ≤ n)
      × (n < s + 1800000000000)
unfolding first_start truncate
first_start_pos s h = elim (Bool-cases (ltb_ℤ (pos (s - s % 1800000000000)) (pos s))) [
  | inl up ↦ (
    s - s % 1800000000000 + 1800000000000,
    rw up (add_pos (s - s % 1800000000000) 1800000000000 (omega arith)),
    ground arith,
    ground arith,
    ground arith,
  )
  | inr exact ↦ (s - s % 1800000000000, rw exact, ground arith, ground arith, ground arith)
]

not_Has_negsuc :
    (fuel : ℕ) (day now end : ℤ) (need n m : ℕ)
    → n + fuel * 1800000000000 < 9223372036854775808
    → Any (λ y. y ≡ negsuc m) (starts_from fuel day now (pos need) end (pos n))
    → ⊥
unfolding starts_from
not_Has_negsuc zero day now end need n m b h = h
not_Has_negsuc (suc fuel) day now end need n m b h =
    let next = add_pos n 1800000000000 (omega arith) in
    ground (
      arith,
      next,
      rw next at h,
      not_Has_negsuc fuel day now end need (n + 1800000000000) m (omega arith),
    )

pos_part-sub : (a : ℤ) (b : ℕ) → pos_part (a -ℤ pos b) ≡ pos_part a - b
unfolding ◌-ℤ◌
pos_part-sub (pos n) b = ground arith
pos_part-sub (negsuc n) b = ground arith

pub rounds_enough :
    (end : ℤ) (need n : ℕ)
    → pos_part end
      < n + need + suc (suc (pos_part (end -ℤ pos need -ℤ pos n) / 1800000000000)) * 1800000000000
rounds_enough end need n = omega (arith, pos_part-sub end need, pos_part-sub (end -ℤ pos need) n)

rounds_near :
    (end : ℤ) (need n : ℕ)
    → pos_part end ≤ far
    → n ≤ far + 1800000000000
    → n + suc (suc (pos_part (end -ℤ pos need -ℤ pos n) / 1800000000000)) * 1800000000000
      < 9223372036854775808
rounds_near end need n h k = omega (arith, pos_part-sub end need, pos_part-sub (end -ℤ pos need) n)

-- The starts of a window are the grid times from which the need fits the window, and which have
-- not passed.
window_pos :
    (day now end t : ℤ) (need s : ℕ)
    → s ≤ far
    → pos_part end ≤ far
    → 0 < need
    → need ≤ far
    → Any (λ y. y ≡ t) (window_starts day now (pos need) (range (pos s) end))
      ↔ IsStart day now (pos need) (pos s) end t
unfolding window_starts
window_pos day now end (pos m) need s a b p q =
    let (n, first, grid, above, near) = first_start_pos s a in
    rw first (
      ground (
        arith,
        starts_from_iff _ day now end need n m grid (omega arith) p q b (rounds_enough end need n),
      ))
window_pos day now end (negsuc m) need s a b p q =
    let (n, first, grid, above, near) = first_start_pos s a in
    rw first (
      λ h.
          absurd (not_Has_negsuc _ day now end need n m (rounds_near end need n b (omega arith)) h),
      λ h. absurd (omega arith),
    )

window_starts_iff :
    (day now : ℤ) (need : ℕ) (w : Interval) (t : ℤ)
    → IsNear w
    → 0 < need
    → need ≤ far
    → Any (λ y. y ≡ t) (window_starts day now (pos need) w)
      ↔ IsStart day now (pos need) w.start w.end t
window_starts_iff day now need w t near p q =
    let same : w ≡ range (pos (pos_part w.start)) w.end = ground arith in
    rw same (window_pos day now w.end t need (pos_part w.start) near.1 near.2 p q)

-- For windows from midnight on, none of them past 2 ^ 61 nanoseconds, and a need that is positive and
-- at most as long, the candidate starts are the times on the 30-minute grid that have not passed, and from which the whole need fits
-- one window.
pub candidate_starts_iff :
    (day now : ℤ) (ws : List Interval) (need : ℕ) (t : ℤ)
    → All IsNear ws
    → 0 < need
    → need ≤ far
    → Any (λ y. y ≡ t) (candidate_starts day now ws (pos need))
      ↔ (OnGrid t × Fits t (t +ℤ pos need) ws × (now ≤ℤ day +ℤ t))
unfolding candidate_starts
candidate_starts_iff day now [] need t near p q = ground arith
candidate_starts_iff day now (w ∷ ws) need t (near, rest) p q = ground (
  arith,
  Any-append (λ y. y ≡ t) (window_starts day now (pos need) w)
      (candidate_starts day now ws (pos need)),
  window_starts_iff day now need w t near p q,
  candidate_starts_iff day now ws need t rest p q,
)
