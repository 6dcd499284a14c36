-- ===== src/Tests/Slots.antt =====
-- The theorems on slots at concrete inputs.
use booknow_mcp_service.Base.{
  pos, ◌+ℤ◌, ◌*w◌, ◌+w◌, ◌≤ℤ◌, [], ◌∷◌, some, true, false, ◌≡◌, refl, ◌⊎◌, ◌↔◌, Any, All, arith,
  wrap64, ◌*ℤ◌, bytes,
}
use booknow_mcp_service.Business.Types.{Ref}
use booknow_mcp_service.Business.Slots.{
  SlotInput, range, Inside, Apart, branch_constraints, effect_of, open_between, compute_slots,
  need_of, whole_day, parse_clock, clock_range, optional_range, add_exception, specialist_windows,
}
use booknow_mcp_service.Business.Slots.Hours.Windows.{FitsOption}
use booknow_mcp_service.Business.Slots.Hours.Works.{Works, specialist_windows_iff}
use booknow_mcp_service.Business.Slots.Compute.Starts.{OnGrid}
use booknow_mcp_service.Business.Slots.Compute.{first_start, window_starts}
use booknow_mcp_service.Business.Slots.Compute.Loop.{Runs, window_starts-Runs}
use booknow_mcp_service.Business.Slots.Compute.Table.{Ascending}
use booknow_mcp_service.Business.Slots.Compute.Offers.{IsBookable}
use booknow_mcp_service.Business.Slots.Compute.Listing.{
  Offers, start_instants, compute_slots-Offers_iff, compute_slots-Ascending,
  compute_slots-branch_iff,
}
use booknow_mcp_service.Tests.Fixtures.{nine, ten, eleven, ana, holiday, monday, half_hour, id_a}

monday-need : need_of monday ≡ pos half_hour
unfolding ◌*w◌ ◌+w◌ wrap64 ◌*ℤ◌ ◌+ℤ◌
monday-need = refl

monday-branch :
    branch_constraints monday.branch_hours monday.exceptions ≡ some (monday.branch_hours, [])
unfolding branch_constraints effect_of
monday-branch = refl

abbrev ana_ref : Ref
ana_ref = record { id = id_a; name = "Ana" }

compute_slots-Offers_iff_example :
    Offers (compute_slots monday) (pos 0 +ℤ ten) ana_ref
    ↔ Any
        (λ sp.
          (record { id = sp.id; name = sp.name } ≡ ana_ref)
          × IsBookable monday (open_between nine eleven) [] half_hour sp ten)
        (ana ∷ [])
compute_slots-Offers_iff_example =
    compute_slots-Offers_iff monday (open_between nine eleven) [] half_hour ten ana_ref refl
      monday-branch monday-need (omega arith) (omega arith)

abbrev walk_in : SlotInput
walk_in = record monday { requires_specialist = false; exceptions = holiday ∷ [] }

walk_in-need : need_of walk_in ≡ pos half_hour
unfolding ◌*w◌ ◌+w◌ wrap64 ◌*ℤ◌ ◌+ℤ◌
walk_in-need = refl

walk_in-branch :
    branch_constraints walk_in.branch_hours walk_in.exceptions
    ≡ some (open_between nine eleven, range ten eleven ∷ [])
unfolding branch_constraints effect_of add_exception optional_range clock_range parse_clock bytes
walk_in-branch = refl

compute_slots-branch_iff_example : Any (λ s. s.start.at ≡ pos 0 +ℤ nine) (compute_slots walk_in) ↔ (
    OnGrid nine
    × (pos 0 ≤ℤ pos 0 +ℤ nine)
    × Inside nine (nine +ℤ pos half_hour) whole_day
    × ((true ≡ false) ⊎ Inside nine (nine +ℤ pos half_hour) (range nine eleven))
    × All (Apart nine (nine +ℤ pos half_hour)) (range ten eleven ∷ []))
compute_slots-branch_iff_example =
    compute_slots-branch_iff walk_in (open_between nine eleven) (range ten eleven ∷ []) half_hour
      nine refl walk_in-branch walk_in-need (omega arith) (omega arith)

compute_slots-Ascending_example : Ascending (start_instants (compute_slots monday))
compute_slots-Ascending_example = compute_slots-Ascending monday

specialist_windows_iff_example :
    FitsOption nine ten (specialist_windows (holiday ∷ []) ana) ↔ Works nine ten (holiday ∷ []) ana
specialist_windows_iff_example = specialist_windows_iff nine ten (holiday ∷ []) ana (omega arith)

nine-parsed : parse_clock "09:00" ≡ some nine
unfolding parse_clock bytes
nine-parsed = refl

window_starts-Runs_example :
    Runs
      (pos 0)
      (pos 0)
      (pos half_hour)
      eleven
      (first_start nine)
      (window_starts (pos 0) (pos 0) (pos half_hour) (range nine eleven))
window_starts-Runs_example =
    window_starts-Runs (pos 0) (pos 0) half_hour (range nine eleven) (omega arith) (omega arith)
      (omega arith)
