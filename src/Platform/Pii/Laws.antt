-- ===== src/Platform/Pii/Laws.antt =====
-- What a masked phone shows.
use booknow_mcp_service.Base.{
  ℕ, ◌-◌, String, Bool, true, length, take, drop, trim_space, has_prefix, ◌≡◌, ◌≢◌, arith, eq_iff,
}
use booknow_mcp_service.Platform.Pii.{is_international, digits_of, mask_phone}

-- For phones that are not blank, the output depends on nothing but the number of digits, the leading "+", the last three digits and,
-- for a number with "+" and ten digits or more, the first three: two phones that agree in these have
-- one mask.
pub mask_phone_hides :
    (is_digit : ℕ → Bool) (p q : String)
    → trim_space p ≢ ""
    → trim_space q ≢ ""
    → length (digits_of is_digit (trim_space p)) ≡ length (digits_of is_digit (trim_space q))
    → has_prefix (trim_space p) "+" ≡ has_prefix (trim_space q) "+"
    → drop (length (digits_of is_digit (trim_space p)) - 3) (digits_of is_digit (trim_space p))
      ≡ drop (length (digits_of is_digit (trim_space q)) - 3) (digits_of is_digit (trim_space q))
    → (is_international (trim_space p) (digits_of is_digit (trim_space p)) ≡ true
        → take 3 (digits_of is_digit (trim_space p)) ≡ take 3 (digits_of is_digit (trim_space q)))
    → mask_phone is_digit p ≡ mask_phone is_digit q
unfolding mask_phone
mask_phone_hides is_digit p q np nq n plus tail head =
    ground (arith, eq_iff (trim_space p) "", eq_iff (trim_space q) "")
