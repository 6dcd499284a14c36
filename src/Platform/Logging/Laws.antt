-- ===== src/Platform/Logging/Laws.antt =====
-- logging.go: severities keep the order of the levels.
use booknow_mcp_service.Base.{
  ℕ, ◌≤◌, ℤ, pos, String, Bool, true, false, leb_ℤ, ◌≤ℤ◌, str_eq, if◌then◌else◌, ◌≡◌, refl, arith,
}
use booknow_mcp_service.Platform.Logging.{severity}

-- The severities from the least to the most severe.
unfoldable pub rank : String → ℕ
rank s =
    if str_eq s "ERROR"
    then 3
    else if str_eq s "WARNING"
    then 2
    else if str_eq s "INFO"
    then 1
    else 0

abbrev level_rank : ℤ → ℕ
level_rank lvl =
    if leb_ℤ (pos 8) lvl
    then 3
    else if leb_ℤ (pos 4) lvl
    then 2
    else if leb_ℤ (pos 0) lvl
    then 1
    else 0

rank_of_tests :
    (a b c : Bool)
    → rank (if a then "ERROR" else if b then "WARNING" else if c then "INFO" else "DEBUG")
      ≡ (if a then 3 else if b then 2 else if c then 1 else 0)
unfolding rank
rank_of_tests true b c = refl
rank_of_tests false true c = refl
rank_of_tests false false true = refl
rank_of_tests false false false = refl

rank-severity : (lvl : ℤ) → rank (severity lvl) ≡ level_rank lvl
unfolding severity
rank-severity lvl = rank_of_tests (leb_ℤ (pos 8) lvl) (leb_ℤ (pos 4) lvl) (leb_ℤ (pos 0) lvl)

ranks : (a b : ℤ) → a ≤ℤ b → level_rank a ≤ level_rank b
ranks a b h = ground arith

-- A level at least as high is never logged with a lesser severity.
pub severity_monotone : (a b : ℤ) → a ≤ℤ b → rank (severity a) ≤ rank (severity b)
severity_monotone a b h = rw (rank-severity a, rank-severity b) (ranks a b h)
