-- ===== src/Drafts/Parse/Laws.antt =====
-- service.go: what parsing accepts.
use booknow_mcp_service.Base.{
  ℕ, ◌≤◌, String, List, [], ◌∷◌, true, all, All, bytes, byte_len, trim_space, ◌≡◌, ◌↔◌, ◌⊎◌, arith,
  ok,
}
use booknow_mcp_service.Drafts.Parse.{parse_key, is_key_byte}

-- A letter, a digit, or one of `.`, `_`, `:` and `-`.
abbrev pub IsKeyByte : ℕ → Type 0
IsKeyByte c =
    ((97 ≤ c) × (c ≤ 122))
    ⊎ ((65 ≤ c) × (c ≤ 90))
    ⊎ ((48 ≤ c) × (c ≤ 57))
    ⊎ (c ≡ 46)
    ⊎ (c ≡ 95)
    ⊎ (c ≡ 58)
    ⊎ (c ≡ 45)

is_key_byte_iff : (c : ℕ) → (is_key_byte c ≡ true) ↔ IsKeyByte c
is_key_byte_iff c = ground arith

all_iff : (cs : List ℕ) → (all is_key_byte cs ≡ true) ↔ All IsKeyByte cs
all_iff [] = ground arith
all_iff (c ∷ cs) = ground (arith, is_key_byte_iff c, all_iff cs)

-- A key is accepted exactly when its trimmed text has 8 to 100 bytes, each a letter, a digit or one
-- of `.`, `_`, `:` and `-`; the key is that text.
pub parse_key_iff :
    (value key : String)
    → (parse_key value ≡ ok key) ↔ (
        (trim_space value ≡ key)
        × (8 ≤ byte_len (trim_space value))
        × (byte_len (trim_space value) ≤ 100)
        × All IsKeyByte (bytes (trim_space value)))
unfolding parse_key
parse_key_iff value key = ground (arith, all_iff (bytes (trim_space value)))
