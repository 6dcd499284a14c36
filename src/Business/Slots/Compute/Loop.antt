-- ===== src/Business/Slots/Compute/Loop.antt =====
-- slots.go, candidateStarts: the inner loop ends.
use booknow_mcp_service.Base.{
  ℕ, zero, suc, ◌+◌, ◌*◌, ◌≤◌, ◌<◌, ℤ, pos, pos_part, ◌+w◌, leb_ℤ, List, [], ◌∷◌, true, false,
  Bool-cases, ◌≡◌, sym, ap, ◌∙◌, inl, inr, arith,
}
use booknow_mcp_service.Business.Slots.Intervals.{Interval, range}
use booknow_mcp_service.Business.Slots.Compute.{
  slot_step, not_started, starts_from, first_start, window_starts,
}
use booknow_mcp_service.Business.Slots.Compute.Starts.{
  far, add_pos, IsNear, first_start_pos, rounds_enough,
}

-- The inner loop as Go runs it, from t on: it stops where the need passes the end, and else offers t
-- unless it has passed, and goes on one step later.
pub data Runs (day now need end : ℤ) : ℤ → List ℤ → Type 0 where
  stops : {t : ℤ} → leb_ℤ (t +w need) end ≡ false → Runs day now need end t []
  offers :
      {t : ℤ} {ts : List ℤ}
      → leb_ℤ (t +w need) end ≡ true
      → not_started day now t ≡ true
      → Runs day now need end (t +w pos slot_step) ts
      → Runs day now need end t (t ∷ ts)
  passes :
      {t : ℤ} {ts : List ℤ}
      → leb_ℤ (t +w need) end ≡ true
      → not_started day now t ≡ false
      → Runs day now need end (t +w pos slot_step) ts
      → Runs day now need end t ts

passed_end :
    (end : ℤ) (need n : ℕ)
    → n < 2305844809213693952
    → need ≤ far
    → pos_part end < n + need
    → leb_ℤ (pos n +w pos need) end ≡ false
passed_end end need n b q f = rw (add_pos n need (omega arith)) (ground arith)

next_near :
    (end : ℤ) (need n : ℕ)
    → n < 2305844809213693952
    → 0 < need
    → need ≤ far
    → pos_part end ≤ far
    → leb_ℤ (pos n +w pos need) end ≡ true
    → n + 1800000000000 < 2305844809213693952
next_near end need n b p q e fits =
    let fit : leb_ℤ (pos (n + need)) end ≡ true =
      sym (ap (λ t. leb_ℤ t end) (add_pos n need (omega arith))) ∙ fits in
    ground arith

starts_from-Runs :
    (fuel : ℕ) (day now end : ℤ) (need n : ℕ)
    → n < 2305844809213693952
    → 0 < need
    → need ≤ far
    → pos_part end ≤ far
    → pos_part end < n + need + fuel * 1800000000000
    → Runs day now (pos need) end (pos n) (starts_from fuel day now (pos need) end (pos n))
unfolding starts_from
starts_from-Runs zero day now end need n b p q e f =
    Runs.stops (passed_end end need n b q (omega arith))
starts_from-Runs (suc fuel) day now end need n b p q e f =
    elim (Bool-cases (leb_ℤ (pos n +w pos need) end)) [
      | inl fits ↦
          let next : Runs day now (pos need) end (pos n +w pos slot_step)
              (starts_from fuel day now (pos need) end (pos n +w pos slot_step)) =
            rw (add_pos n 1800000000000 (omega arith)) (
              starts_from-Runs fuel day now end need (n + 1800000000000)
                (next_near end need n b p q e fits) p q e (omega arith)) in
          rw fits (elim (Bool-cases (not_started day now (pos n))) [
            | inl open_start ↦ rw open_start (Runs.offers fits open_start next)
            | inr passed ↦ rw passed (Runs.passes fits passed next)
          ])
      | inr late ↦ rw late (Runs.stops late)
    ]

window_Runs :
    (day now end : ℤ) (need s : ℕ)
    → s ≤ far
    → pos_part end ≤ far
    → 0 < need
    → need ≤ far
    → Runs day now
        (pos need)
        end
        (first_start (pos s))
        (window_starts day now (pos need) (range (pos s) end))
unfolding window_starts
window_Runs day now end need s a b p q =
    let (n, first, grid, above, near) = first_start_pos s a in
    rw first (starts_from-Runs _ day now end need n (omega arith) p q b (rounds_enough end need n))

-- For a window from midnight on that ends by 2 ^ 61 nanoseconds, and a need that is positive and at most
-- as long, the inner loop that Go runs without a bound on its rounds ends, and with exactly the starts
-- that the model finds on its fuel.
pub window_starts-Runs :
    (day now : ℤ) (need : ℕ) (w : Interval)
    → IsNear w
    → 0 < need
    → need ≤ far
    → Runs day now (pos need) w.end (first_start w.start) (window_starts day now (pos need) w)
window_starts-Runs day now need w near p q =
    let same : w ≡ range (pos (pos_part w.start)) w.end = ground arith in
    rw same (window_Runs day now w.end need (pos_part w.start) near.1 near.2 p q)
